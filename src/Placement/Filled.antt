-- ===== src/Placement/Filled.antt =====
-- What the map holds after the loops of PopulateMap (src/zstore_controller.cc).
use mathlib.Core.Path.{subst}
use zstore.Common.{
  ℕ, zero, suc, ◌+◌, ◌≤◌, ◌<◌, ◌≡◌, inl, inr, refl, ◌∙◌, Bool, none, some, Bool-cases, arith,
}
use zstore.Conf.{Conf}
use zstore.Hash.{KeyHash, key_eq}
use zstore.Hash.Hex.{key_eq_iff}
use zstore.Store.{MapEntry}
use zstore.Store.Map.{FlatMap, get_object}
use zstore.Store.Map.Laws.{get_object-emplace}
use zstore.Placement.{
  Cursor, advance, increment, cursor, placed_entry, populate_rounds, populate_loop,
}

-- Different rounds have different keys.
abbrev pub IsInjective : (ℕ → KeyHash) → ℕ → Type 0
IsInjective key_of n = (i j : ℕ) → i < n → j < n → key_of i ≡ key_of j → i ≡ j

module _ (F : FlatMap MapEntry) (c : Conf) (key_of : ℕ → KeyHash) (device : ℕ → ℕ)
    (tombstoned : Bool) where
  -- What is in the map stays there: emplace never replaces an entry.
  populate_rounds-kept :
      (n i : ℕ) (at : Cursor) (m : F.Carrier) (k : KeyHash) (e : MapEntry)
      → get_object F k m ≡ some e
      → get_object F k (populate_rounds F c key_of device tombstoned n i at m) ≡ some e
  unfolding populate_rounds
  populate_rounds-kept zero i at m k e there = there
  populate_rounds-kept (suc n) i at m k e there =
      populate_rounds-kept n (suc i) (increment (advance c at)) _ k e (
        get_object-emplace F (key_of i) k (placed_entry c (device i) tombstoned (advance c at).lba)
          m
        ∙ elim (Bool-cases (key_eq (key_of i) k)) [
          | inl same ↦ rw same (rw ((key_eq_iff (key_of i) k).0 same) (rw there refl))
          | inr differs ↦ rw differs there
        ])

  -- Round `j` of the rounds left puts its entry, unless the key is there already.
  populate_rounds-put :
      (n i j : ℕ) (m : F.Carrier)
      → IsInjective key_of (i + n)
      → j < n
      → ((x : ℕ) → i ≤ x → x < i + n → get_object F (key_of x) m ≡ none)
      → get_object F
          (key_of (i + j))
          (populate_rounds F c key_of device tombstoned n i (cursor c i) m)
        ≡ some (placed_entry c (device (i + j)) tombstoned (advance c (cursor c (i + j))).lba)
  unfolding populate_rounds cursor
  populate_rounds-put zero i j m inj h free = absurd (omega arith)
  populate_rounds-put (suc n) i zero m inj h free =
      subst
        (λ x.
          get_object F (key_of x)
            (populate_rounds F c key_of device tombstoned (suc n) i (cursor c i) m)
          ≡ some (placed_entry c (device x) tombstoned (advance c (cursor c x)).lba))
        (omega arith)
        (populate_rounds-kept n (suc i) (cursor c (suc i)) _ (key_of i) _ (
          get_object-emplace F (key_of i) (key_of i) _ m
          ∙ rw ((key_eq_iff (key_of i) (key_of i)).1 refl)
              (rw (free i (omega arith) (omega arith)) refl)))
  populate_rounds-put (suc n) i (suc j) m inj h free =
      subst
        (λ x.
          get_object F (key_of x)
            (populate_rounds F c key_of device tombstoned (suc n) i (cursor c i) m)
          ≡ some (placed_entry c (device x) tombstoned (advance c (cursor c x)).lba))
        (omega arith)
        (populate_rounds-put n (suc i) j _ (λ a b p q. inj a b (omega arith) (omega arith))
          (omega arith)
          (λ x p q.
            get_object-emplace F (key_of i) (key_of x) _ m
            ∙ elim (Bool-cases (key_eq (key_of i) (key_of x))) [
              | inl same ↦ absurd (
                  let eq =
                    inj i x (omega arith) (omega arith)
                      ((key_eq_iff (key_of i) (key_of x)).0 same) in
                  omega arith)
              | inr differs ↦ rw differs (free x (omega arith) (omega arith))
            ]))

-- A loop over `size` objects with different keys, on an empty map, gives every object its entry: the key
-- of round j has the device that the loop chooses for j and the address that the walk reaches in round j.
pub get_object-populate_loop :
    (F : FlatMap MapEntry) (c : Conf) (key_of : ℕ → KeyHash) (device : ℕ → ℕ) (tombstoned : Bool)
    (size j : ℕ)
    → IsInjective key_of size
    → j < size
    → get_object F (key_of j) (populate_loop F c key_of device tombstoned size F.empty)
      ≡ some (placed_entry c (device j) tombstoned (advance c (cursor c j)).lba)
unfolding populate_loop cursor
get_object-populate_loop F c key_of device tombstoned size j inj h =
    subst
      (λ x.
        get_object F (key_of x) (populate_loop F c key_of device tombstoned size F.empty)
        ≡ some (placed_entry c (device x) tombstoned (advance c (cursor c x)).lba))
      (omega arith)
      (populate_rounds-put F c key_of device tombstoned size 0 j F.empty
        (λ a b p q. inj a b (omega arith) (omega arith)) h
        (λ x p q. unfold get_object in F.visit_empty (key_of x)))
