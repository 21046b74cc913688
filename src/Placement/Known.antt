-- ===== src/Placement/Known.antt =====
-- Which devices the entries of PopulateMap (src/zstore_controller.cc) name.
use mathlib.Core.Path.{subst}
use zstore.Common.{
  ℕ, zero, suc, ◌<◌, ◌≡◌, ◌⊎◌, inl, inr, sym, ◌∙◌, Bool, true, false, Option, some, List, arith,
  if◌then◌else◌, ◌==◌,
}
use zstore.Conf.{Conf}
use zstore.Hash.{KeyHash, key_eq}
use zstore.Store.{MapEntry, create_map_entry}
use zstore.Store.Map.{FlatMap, get_object, is_none}
use zstore.Store.Map.Laws.{get_object-emplace}
use zstore.Placement.{
  Cursor, advance, increment, placed_entry, populate_rounds, populate_loop, populate_map,
  get_device_id, ckpt_device_id,
}

chosen :
    (a b : Bool) (v e : MapEntry) (o : Option MapEntry)
    → (if a then (if b then some v else o) else o) ≡ some e
    → (v ≡ e) ⊎ (o ≡ some e)
chosen true true v e o h = inl cc
chosen true false v e o h = inr h
chosen false b v e o h = inr h

module _ (F : FlatMap MapEntry) where
  -- The first device of every entry is one of the six.
  unfoldable pub AreKnown : F.Carrier → Type 0
  AreKnown m = (k : KeyHash) (e : MapEntry) → get_object F k m ≡ some e → e.first.device_id < 6

  emplace-AreKnown :
      (k : KeyHash) (v : MapEntry) (m : F.Carrier)
      → v.first.device_id < 6
      → AreKnown m
      → AreKnown (F.emplace k v m)
  unfolding AreKnown
  emplace-AreKnown k v m below known j e there =
      elim (chosen (key_eq k j) (is_none (get_object F k m)) v e (get_object F j m)
        (sym (get_object-emplace F k j v m) ∙ there)) [
          | inl same ↦ subst (λ x. x.first.device_id < 6) same below
          | inr before ↦ known j e before
        ]

  if-AreKnown :
      (b : Bool) (x y : F.Carrier × List KeyHash)
      → AreKnown (x.0)
      → AreKnown (y.0)
      → AreKnown ((if b then x else y).0)
  if-AreKnown true x y p q = p
  if-AreKnown false x y p q = q

  module _ (c : Conf) (key_of : ℕ → KeyHash) where
    populate_rounds-AreKnown :
        (device : ℕ → ℕ) (tombstoned : Bool) (n i : ℕ) (at : Cursor) (m : F.Carrier)
        → ((j : ℕ) → device j < 6)
        → AreKnown m
        → AreKnown (populate_rounds F c key_of device tombstoned n i at m)
    unfolding populate_rounds placed_entry create_map_entry
    populate_rounds-AreKnown device tombstoned zero i at m six known = known
    populate_rounds-AreKnown device tombstoned (suc n) i at m six known =
        populate_rounds-AreKnown device tombstoned n (suc i) (increment (advance c at)) _ six
          (emplace-AreKnown (key_of i) _ m (six i) known)

    populate_loop-AreKnown :
        (device : ℕ → ℕ) (tombstoned : Bool) (size : ℕ) (m : F.Carrier)
        → ((j : ℕ) → device j < 6)
        → AreKnown m
        → AreKnown (populate_loop F c key_of device tombstoned size m)
    unfolding populate_loop
    populate_loop-AreKnown device tombstoned size m six known =
        populate_rounds-AreKnown device tombstoned size 0 _ m six known

    -- Whatever the experiment, PopulateMap only adds entries that name one of the six devices.
    pub populate_map-AreKnown :
        (key_experiment option : ℕ) (sizes : ℕ × ℕ × ℕ) (m : F.Carrier) (inflight : List KeyHash)
        → AreKnown m
        → AreKnown ((populate_map F c key_of key_experiment option sizes (m, inflight)).0)
    unfolding populate_map get_device_id ckpt_device_id
    populate_map-AreKnown key_experiment option (rand_read, ckpt, recent) m inflight known =
        let spread : (j : ℕ) → get_device_id j < 6 = λ j. omega arith in
        let two : (j : ℕ) → ckpt_device_id j < 6 = λ j. omega arith in
        let recents = populate_loop-AreKnown ckpt_device_id false ckpt m two known in
        if-AreKnown (key_experiment == 1) _ _
          (populate_loop-AreKnown get_device_id false rand_read m spread known)
          (if-AreKnown (key_experiment == 3) _ _ (if-AreKnown (option == 1) _ _ recents known) (
            if-AreKnown (key_experiment == 5) _ _ (if-AreKnown (option == 1) _ _ recents known) (
              if-AreKnown (key_experiment == 6) _ _
                (if-AreKnown (option == 1) _ _
                  (populate_loop-AreKnown get_device_id true ckpt m spread known) known)
                known)))
