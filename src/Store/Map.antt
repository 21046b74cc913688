-- ===== src/Store/Map.antt =====
-- The object map of ZstoreController (src/zstore_controller.cc: PutObject, GetObject, DeleteObject,
-- ListObjects). The container is boost::concurrent_flat_map: an interface with the laws that its
-- documentation gives. Each of its operations is atomic.
pub mod Assoc
pub mod Laws
use zstore.Common.{
  ℕ, zero, suc, ◌+◌, ◌≡◌, Bool, true, false, Option, none, some, List, [], ◌∷◌, if◌then◌else◌, ltb,
  All,
}
use zstore.Hash.{KeyHash, key_eq}
use zstore.Store.{MapEntry}

unfoldable pub find {ℓ} : {V : Type ℓ} → KeyHash → List (KeyHash × V) → Option V
find k [] = none
find k ((j, v) ∷ m) = if key_eq j k then some v else find k m

abbrev pub is_none {ℓ} : {V : Type ℓ} → Option V → Bool
is_none none = true
is_none (some v) = false

-- `visit_all` is the order in which visit_all meets the entries.
pub record FlatMap (V : Type 0) : Type 1 where
  pub Carrier : Type 0
  pub empty : Carrier
  pub visit : KeyHash → Carrier → Option V
  pub insert_or_assign : KeyHash → V → Carrier → Carrier × Bool
  pub emplace : KeyHash → V → Carrier → Carrier
  pub erase : KeyHash → Carrier → Carrier
  pub visit_all : Carrier → List (KeyHash × V)
  pub visit_empty : (k : KeyHash) → visit k empty ≡ none
  pub visit_insert_or_assign :
      (k j : KeyHash) (v : V) (m : Carrier)
      → visit j (insert_or_assign k v m).0 ≡ (if key_eq k j then some v else visit j m)
  pub insert_or_assign_flag :
      (k : KeyHash) (v : V) (m : Carrier) → (insert_or_assign k v m).1 ≡ is_none (visit k m)
  pub visit_emplace :
      (k j : KeyHash) (v : V) (m : Carrier)
      → visit j (emplace k v m)
        ≡ (if key_eq k j then (if is_none (visit k m) then some v else visit j m) else visit j m)
  pub visit_erase :
      (k j : KeyHash) (m : Carrier) → visit j (erase k m) ≡ (if key_eq k j then none else visit j m)
  pub find_visit_all : (k : KeyHash) (m : Carrier) → find k (visit_all m) ≡ visit k m

module _ (F : FlatMap MapEntry) where
  open F use {Carrier, visit, insert_or_assign, erase, visit_all}

  -- The flag says whether the key is new.
  pub put_object : KeyHash → MapEntry → Carrier → Carrier × Bool
  put_object k e m = insert_or_assign k e m

  unfoldable pub get_object : KeyHash → Carrier → Option MapEntry
  get_object k m = visit k m

  -- `raw` is what the local variable `entry` holds before anything is assigned.
  pub delete_object : MapEntry → KeyHash → Carrier → Carrier × MapEntry
  delete_object raw k m = (erase k m, elim (visit k m) [ none ↦ raw | some e ↦ e ])

-- The visitor of ListObjects: a key is pushed while fewer than `max_keys` were.
pub list_from : ℕ → ℕ → List (KeyHash × MapEntry) → List KeyHash
list_from max_keys count [] = []
list_from max_keys count ((k, e) ∷ m) =
    let more = k ∷ list_from max_keys (suc count) m in
    let rest = list_from max_keys count m in if ltb count max_keys then more else rest

-- A negative `max_keys` acts as 0.
pub list_objects : (F : FlatMap MapEntry) → ℕ → F.Carrier → List KeyHash
unfolding list_from
list_objects F max_keys m = list_from max_keys 0 (F.visit_all m)
