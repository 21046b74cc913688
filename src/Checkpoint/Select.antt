-- ===== src/Checkpoint/Select.antt =====
-- Which objects Map2Gc (src/zstore_controller.cc) moves.
use zstore.Common.{
  ℕ, ◌+◌, ◌≡◌, ◌≢◌, refl, Bool, List, [], ◌∷◌, length, arith, All, ◌==◌, not, ◌&&◌, ◌||◌,
  if◌then◌else◌,
}
use zstore.Hash.{KeyHash}
use zstore.Store.{MapEntry}
use zstore.Checkpoint.{surviving, map2_gc}

-- The three replicas of an entry are on different devices.
abbrev IsReplicated : MapEntry → Type 0
IsReplicated e =
    (e.first.device_id ≢ e.second.device_id)
    × (e.first.device_id ≢ e.third.device_id)
    × (e.second.device_id ≢ e.third.device_id)

-- How many of the entries are to be moved, and how many are not tombstones.
abbrev is_on_device0 : MapEntry → Bool
is_on_device0 e =
    (e.first.device_id == 0) || ((e.second.device_id == 0) || (e.third.device_id == 0))

abbrev pub count {ℓ} : {A : Type ℓ} → (A → Bool) → List A → ℕ
count p [] = 0
count p (x ∷ xs) = (if p x then 1 else 0) + count p xs

-- Of a map whose entries have their replicas on different devices, Map2Gc moves as many objects as there
-- are tombstones with a replica on device 0, each from a replica on another device; and the records that
-- it calls pruned are as many as the entries that are not tombstones.
map2_gc_lem :
    (entries : List (KeyHash × MapEntry))
    → All (λ x. IsReplicated x.1) entries
    → (length (map2_gc entries).1 ≡ count (λ x. x.1.tombstoned && is_on_device0 x.1) entries)
      × All (λ x. x.0.device_id ≢ 0) (map2_gc entries).1
      × ((map2_gc entries).0 ≡ count (λ x. not x.1.tombstoned) entries)
unfolding map2_gc surviving
map2_gc_lem [] all = (refl, tt, refl)
map2_gc_lem ((k, e) ∷ entries) (here, all) =
    let (moved, elsewhere, pruned) = map2_gc_lem entries all in ground arith
