-- ===== src/Store/Map/Laws.antt =====
-- What PutObject, GetObject, DeleteObject and ListObjects of src/zstore_controller.cc amount to.

use zstore.Common.{
  ℕ, zero, suc, ◌+◌, ◌≡◌, refl, ap, Option, none, some, List, [], ◌∷◌, if◌then◌else◌, map, take,
  length, min, length-take, length-map, arith, lt→ltb, le→ltb_false, ◌∙◌,
}
use zstore.Hash.Hex.{key_eq_iff}
use zstore.Hash.{KeyHash, key_eq}
use zstore.Store.{MapEntry}
use zstore.Store.Map.{
  FlatMap, is_none, put_object, get_object, delete_object, list_from, list_objects,
}

pub data Change : Type 0 where
  put : KeyHash → MapEntry → Change
  delete : KeyHash → Change

-- The changes are the newest first.
pub last_write : KeyHash → List Change → Option MapEntry
last_write j [] = none
last_write j (put k e ∷ cs) = if key_eq k j then some e else last_write j cs
last_write j (delete k ∷ cs) = if key_eq k j then none else last_write j cs

module _ (F : FlatMap MapEntry) where
  apply : MapEntry → Change → F.Carrier → F.Carrier
  apply raw (put k e) m = (put_object F k e m).0
  apply raw (delete k) m = (delete_object F raw k m).0

  pub history : MapEntry → List Change → F.Carrier
  history raw [] = F.empty
  history raw (c ∷ cs) = apply raw c (history raw cs)

-- After any changes to an empty map, a lookup answers with the newest change to its key.
pub get_object-history :
    (F : FlatMap MapEntry) (raw : MapEntry) (cs : List Change) (j : KeyHash)
    → get_object F j (history F raw cs) ≡ last_write j cs
unfolding get_object history last_write apply put_object delete_object
get_object-history F raw [] j = F.visit_empty j
get_object-history F raw (put k e ∷ cs) j =
    F.visit_insert_or_assign k j e (history F raw cs)
    ∙ ap (λ t. if key_eq k j then some e else t) (get_object-history F raw cs j)
get_object-history F raw (delete k ∷ cs) j =
    F.visit_erase k j (history F raw cs)
    ∙ ap (λ t. if key_eq k j then none else t) (get_object-history F raw cs j)

list_from-take :
    (max_keys count d : ℕ) (m : List (KeyHash × MapEntry))
    → max_keys ≡ count + d
    → list_from max_keys count m ≡ take d (map (λ x. x.0) m)
unfolding list_from
list_from-take max_keys count zero [] e = refl
list_from-take max_keys count (suc d) [] e = refl
list_from-take max_keys count zero (x ∷ m) e =
    rw (le→ltb_false count max_keys (omega arith)) (list_from-take max_keys count zero m e)
list_from-take max_keys count (suc d) (x ∷ m) e =
    rw (lt→ltb count max_keys (omega arith))
      (ap (λ t. x.0 ∷ t) (list_from-take max_keys (suc count) d m (omega arith)))

-- A listing has the first `max_keys` keys in the order of visit_all, or all of them if there are fewer.
pub list_objects-take :
    (F : FlatMap MapEntry) (max_keys : ℕ) (m : F.Carrier)
    → (list_objects F max_keys m ≡ take max_keys (map (λ x. x.0) (F.visit_all m)))
      × (length (list_objects F max_keys m) ≡ min max_keys (length (F.visit_all m)))
list_objects-take F max_keys m =
    let listed : list_objects F max_keys m ≡ take max_keys (map (λ x. x.0) (F.visit_all m)) =
      unfold list_objects in list_from-take max_keys 0 max_keys (F.visit_all m) (omega arith) in
    (
      listed,
      ap length listed
          ∙ length-take max_keys (map (λ x. x.0) (F.visit_all m))
          ∙ ap (min max_keys) (length-map (F.visit_all m) (λ x. x.0)),
    )

pub get_object-delete_object :
    (F : FlatMap MapEntry) (raw : MapEntry) (k : KeyHash) (m : F.Carrier)
    → get_object F k (delete_object F raw k m).0 ≡ none
unfolding get_object delete_object
get_object-delete_object F raw k m = F.visit_erase k k m ∙ rw ((key_eq_iff k k).1 refl) refl

pub get_object-put_object :
    (F : FlatMap MapEntry) (k j : KeyHash) (e : MapEntry) (m : F.Carrier)
    → get_object F j (put_object F k e m).0 ≡ (if key_eq k j then some e else get_object F j m)
unfolding get_object put_object
get_object-put_object F k j e m = F.visit_insert_or_assign k j e m

pub get_object-delete_object_any :
    (F : FlatMap MapEntry) (raw : MapEntry) (k j : KeyHash) (m : F.Carrier)
    → get_object F j (delete_object F raw k m).0 ≡ (if key_eq k j then none else get_object F j m)
unfolding get_object delete_object
get_object-delete_object_any F raw k j m = F.visit_erase k j m

-- emplace leaves the entry of a key that has one.
pub get_object-emplace :
    (F : FlatMap MapEntry) (k j : KeyHash) (e : MapEntry) (m : F.Carrier)
    → get_object F j (F.emplace k e m) ≡ (
        if key_eq k j
        then (if is_none (get_object F k m) then some e else get_object F j m)
        else get_object F j m)
unfolding get_object
get_object-emplace F k j e m = F.visit_emplace k j e m
