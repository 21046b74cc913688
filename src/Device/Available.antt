-- ===== src/Device/Available.antt =====
-- Opening zones and giving them back: OpenZone, OpenZoneBySlba and ReturnZone of src/device.cc.
use mathlib.Core.Path.{subst, sym}
use native.Mathlib.Nat.{mod-eq_of_lt}
use zstore.Common.{
  ℕ, suc, ◌/◌, ◌<◌, ◌≤◌, ◌≡◌, refl, ap, ◌∙◌, List, [], ◌∷◌, true, false, ok, err, assertion, arith,
  u32_mod, ==-zero,
}
use zstore.Device.{Device, insert, mem, erase, open_zone, open_zone_by_slba, return_zone}

-- Ascending from `k` on: the order of a std::set.
abbrev pub IsSorted : ℕ → List ℕ → Type 0
IsSorted k [] = Unit
IsSorted k (z ∷ zs) = (k ≤ z) × IsSorted (suc z) zs

insert-lowest : (z k : ℕ) (zs : List ℕ) → z < k → IsSorted k zs → insert z zs ≡ z ∷ zs
unfolding insert
insert-lowest z k [] h s = refl
insert-lowest z k (y ∷ ys) h s = ground arith

mem-sorted : (z k : ℕ) (zs : List ℕ) → z < k → IsSorted k zs → mem z zs ≡ false
unfolding mem
mem-sorted z k [] h s = refl
mem-sorted z k (y ∷ ys) h s = ground (arith, mem-sorted z (suc y) ys)

insert-erase :
    (z k : ℕ) (zs : List ℕ) → IsSorted k zs → mem z zs ≡ true → insert z (erase z zs) ≡ zs
unfolding insert mem erase
insert-erase z k [] s h = absurd (cc)
insert-erase z k (y ∷ ys) s h =
    ground (arith, insert-erase z (suc y) ys, insert-lowest z (suc y) ys, mem-sorted z (suc y) ys)

mem-erase : (z k : ℕ) (zs : List ℕ) → IsSorted k zs → mem z (erase z zs) ≡ false
unfolding mem erase
mem-erase z k [] s = refl
mem-erase z k (y ∷ ys) s = ground (arith, mem-erase z (suc y) ys, mem-sorted z (suc y) ys)

-- For a set in its order: OpenZone fails if it is empty; otherwise it takes the lowest zone, which is
-- then not available, and ReturnZone restores the device.
open_zone-return_zone :
    (d : Device)
    → IsSorted 0 d.available_zones
    → (d.available_zones ≡ [] → open_zone d ≡ err assertion)
      × ((z : ℕ) (zs : List ℕ)
          → d.available_zones ≡ z ∷ zs
          → (e : Device) × (open_zone d ≡ ok (z, e))
            × (mem z e.available_zones ≡ false)
            × (return_zone z e ≡ d))
unfolding open_zone return_zone
open_zone-return_zone d s = (
  λ h. rw h refl,
  λ z zs h.
      let t : IsSorted 0 (z ∷ zs) = subst (IsSorted 0) h s in
      (
        record d { available_zones = zs },
        rw h refl,
        mem-sorted z (suc z) zs (omega arith) t.1,
        ap (λ a. record d { available_zones = a })
            (insert-lowest z (suc z) zs (omega arith) t.1 ∙ sym h),
      ),
)

-- For a zone size that is not 0 and an address in zone `z` of a 32-bit number: OpenZoneBySlba opens `z`
-- exactly if it is available, a second call for an address of the same zone fails, and ReturnZone
-- restores the device.
open_zone_by_slba-return_zone :
    (d : Device) (slba : ℕ)
    → IsSorted 0 d.available_zones
    → 0 < d.zone_size
    → slba / d.zone_size < u32_mod
    → (mem (slba / d.zone_size) d.available_zones ≡ false
        → open_zone_by_slba slba d ≡ err assertion)
      × (mem (slba / d.zone_size) d.available_zones ≡ true
          → (e : Device) × (open_zone_by_slba slba d ≡ ok (slba / d.zone_size, e))
            × (open_zone_by_slba slba e ≡ err assertion)
            × (return_zone (slba / d.zone_size) e ≡ d))
unfolding open_zone_by_slba return_zone
open_zone_by_slba-return_zone d slba s pos small = (
  λ h. rw (==-zero d.zone_size pos) (rw (mod-eq_of_lt small) (rw h refl)),
  λ h. (
    record d { available_zones = erase (slba / d.zone_size) d.available_zones },
    rw (==-zero d.zone_size pos) (rw (mod-eq_of_lt small) (rw h refl)),
    rw (==-zero d.zone_size pos)
        (rw (mod-eq_of_lt small) (rw (mem-erase (slba / d.zone_size) 0 d.available_zones s) refl)),
    ap (λ a. record d { available_zones = a })
        (insert-erase (slba / d.zone_size) 0 d.available_zones s h),
  ),
)
