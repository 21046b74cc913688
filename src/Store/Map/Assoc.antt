-- ===== src/Store/Map/Assoc.antt =====
-- An association list meets the laws that src/zstore_controller.cc relies on.
use zstore.Common.{◌≡◌, refl, Bool, none, some, List, [], ◌∷◌, if◌then◌else◌, arith}
use zstore.Hash.{KeyHash, key_eq}
use zstore.Hash.Hex.{key_eq_iff}
use zstore.Store.Map.{find, is_none, FlatMap}

module _ {V : Type 0} where
  pub without : KeyHash → List (KeyHash × V) → List (KeyHash × V)
  without k [] = []
  without k ((j, v) ∷ m) = if key_eq j k then without k m else (j, v) ∷ without k m

  pub put : KeyHash → V → List (KeyHash × V) → List (KeyHash × V) × Bool
  put k v m = ((k, v) ∷ without k m, is_none (find k m))

  pub put_new : KeyHash → V → List (KeyHash × V) → List (KeyHash × V)
  put_new k v m = if is_none (find k m) then (k, v) ∷ m else m

  pub find-without :
      (k j : KeyHash) (m : List (KeyHash × V))
      → find j (without k m) ≡ (if key_eq k j then none else find j m)
  unfolding find without
  find-without k j [] = ground arith
  find-without k j ((i, v) ∷ m) =
      ground (arith, find-without k j m, key_eq_iff i k, key_eq_iff i j, key_eq_iff k j)

  pub find-put :
      (k j : KeyHash) (v : V) (m : List (KeyHash × V))
      → find j (put k v m).0 ≡ (if key_eq k j then some v else find j m)
  unfolding find put
  find-put k j v m = ground (arith, find-without k j m)

  pub find-put_new :
      (k j : KeyHash) (v : V) (m : List (KeyHash × V))
      → find j (put_new k v m)
        ≡ (if key_eq k j then (if is_none (find k m) then some v else find j m) else find j m)
  unfolding put_new find
  find-put_new k j v m = ground arith

  pub find-nil : (k : KeyHash) → find {V = V} k [] ≡ none
  unfolding find
  find-nil k = refl

  pub put-flag : (k : KeyHash) (v : V) (m : List (KeyHash × V)) → (put k v m).1 ≡ is_none (find k m)
  unfolding put
  put-flag k v m = refl

abbrev pub assoc_map : (V : Type 0) → FlatMap V
assoc_map V = record {
  Carrier = List (KeyHash × V);
  empty = [];
  visit = find;
  insert_or_assign = put;
  emplace = put_new;
  erase = without;
  visit_all = λ m. m;
  visit_empty = find-nil;
  visit_insert_or_assign = find-put;
  insert_or_assign_flag = put-flag;
  visit_emplace = find-put_new;
  visit_erase = find-without;
  find_visit_all = λ k m. refl;
}
