-- ===== src/Device/Zones.antt =====
-- The zones that Device::InitZones of src/device.cc lays out.
use mathlib.Core.List.{append_assoc}
use mathlib.Core.List.{append-nil}
use native.Mathlib.Nat.{suc-mul, add-zero, zero-add, add-suc, suc-add}
use zstore.Common.{
  ℕ, zero, suc, ◌+◌, ◌*◌, ◌%◌, ◌<◌, ◌≤◌, ◌≡◌, refl, ap, ◌∙◌, sym, List, [], ◌∷◌, ◌++◌, min,
  get_elem?, none, some, length, All, Bool-cases, inl, inr, ==_iff, ◌==◌, if◌then◌else◌, u32_mod,
  u64_mod, arith,
}
use zstore.Device.{Device, Zone, zone_init, insert, make_zones, init, init_zones}

-- The numbers from `i` on.
pub range : ℕ → ℕ → List ℕ
range i zero = []
range i (suc n) = i ∷ range (suc i) n

zones_from : ℕ → ℕ → ℕ → ℕ → List Zone
zones_from size capacity i zero = []
zones_from size capacity i (suc n) =
    zone_init (i * size) capacity size ∷ zones_from size capacity (suc i) n

insert-above : (z : ℕ) (ys : List ℕ) → All (λ y. y < z) ys → insert z ys ≡ ys ++ (z ∷ [])
unfolding insert
insert-above z [] h = refl
insert-above z (y ∷ ys) h = ground (arith, insert-above z ys h.1)

All-snoc : (z : ℕ) (ys : List ℕ) → All (λ y. y < z) ys → All (λ y. y < suc z) (ys ++ (z ∷ []))
All-snoc z [] h = (omega arith, tt)
All-snoc z (y ∷ ys) h = (omega (arith, h.0), below ys h.1)
  where
    below : (xs : List ℕ) → All (λ x. x < z) xs → All (λ x. x < suc z) (xs ++ (z ∷ []))
    below [] k = (omega arith, tt)
    below (x ∷ xs) k = (omega (arith, k.0), below xs k.1)

make_zones_lem :
    (i n : ℕ) (d : Device)
    → All (λ y. y < i) d.available_zones
    → make_zones i n d ≡ record d {
      zones = d.zones ++ zones_from d.zone_size d.zone_capacity i n;
      available_zones = d.available_zones ++ range i n;
    }
unfolding make_zones zones_from range
make_zones_lem i zero d h = rw (append-nil d.zones, append-nil d.available_zones) refl
make_zones_lem i (suc n) d h = rw (insert-above i d.available_zones h) (
    make_zones_lem (suc i) n _ (All-snoc i d.available_zones h)
    ∙ rw (append_assoc d.zones, append_assoc d.available_zones) refl)

get_elem?-zones_from :
    (size capacity i n k : ℕ)
    → k < n
    → get_elem? (zones_from size capacity i n) k ≡ some (zone_init ((i + k) * size) capacity size)
unfolding zones_from
get_elem?-zones_from size capacity i zero k h = absurd (omega arith)
get_elem?-zones_from size capacity i (suc n) zero h = rw (add-zero i) refl
get_elem?-zones_from size capacity i (suc n) (suc k) h =
    rw (add-suc i k, ← suc-add i k) (get_elem?-zones_from size capacity (suc i) n k (omega arith))

length-zones_from : (size capacity i n : ℕ) → length (zones_from size capacity i n) ≡ n
unfolding zones_from
length-zones_from size capacity i zero = refl
length-zones_from size capacity i (suc n) = ap suc (length-zones_from size capacity (suc i) n)

init_zones-shape :
    (needed reserved : ℕ) (d : Device)
    → d.available_zones ≡ []
    → init_zones needed reserved d ≡ record d {
      num_zones = min d.num_zones ((needed + reserved) % u32_mod);
      zones =
          zones_from d.zone_size d.zone_capacity 0
            (min d.num_zones ((needed + reserved) % u32_mod));
      available_zones = range 0 (min d.num_zones ((needed + reserved) % u32_mod));
    }
unfolding init_zones
init_zones-shape needed reserved d e =
    make_zones_lem 0 (min d.num_zones ((needed + reserved) % u32_mod))
      (record d { num_zones = min d.num_zones ((needed + reserved) % u32_mod); zones = [] })
      (rw e tt)
    ∙ rw e refl

-- InitZones lays out as many zones as were asked for, but at most as many as the namespace has; the
-- zone of number `i` starts at `i` times the zone size, is empty, and every zone is available. The
-- condition: no zone was available before.
init_zones_lem :
    (needed reserved : ℕ) (d : Device)
    → d.available_zones ≡ []
    → (n : ℕ) × (n ≡ min d.num_zones ((needed + reserved) % u32_mod))
      × ((init_zones needed reserved d).num_zones ≡ n)
      × (length (init_zones needed reserved d).zones ≡ n)
      × ((init_zones needed reserved d).available_zones ≡ range 0 n)
      × ((i : ℕ)
          → i < n
          → get_elem? (init_zones needed reserved d).zones i
            ≡ some (zone_init (i * d.zone_size) d.zone_capacity d.zone_size))
init_zones_lem needed reserved d e = rw (init_zones-shape needed reserved d e) (
  min d.num_zones ((needed + reserved) % u32_mod),
  refl,
  refl,
  length-zones_from d.zone_size d.zone_capacity 0 _,
  refl,
  λ i h. get_elem?-zones_from d.zone_size d.zone_capacity 0 _ i h ∙ rw (zero-add i) refl,
)

-- What is read from the array lies in it.
get_elem?-zones_from-lt :
    (size capacity i n k : ℕ) (z : Zone)
    → get_elem? (zones_from size capacity i n) k ≡ some z
    → k < n
unfolding zones_from
get_elem?-zones_from-lt size capacity i zero k z h = absurd (cc)
get_elem?-zones_from-lt size capacity i (suc n) zero z h = omega arith
get_elem?-zones_from-lt size capacity i (suc n) (suc k) z h =
    omega (arith, get_elem?-zones_from-lt size capacity (suc i) n k z h)

mul_mono : (i j m : ℕ) → i < j → i * m + m ≤ j * m
mul_mono i zero m h = absurd (omega arith)
mul_mono i (suc j) m h = elim (Bool-cases (i == j)) [
  | inl e ↦ rw (suc-mul j m, (==_iff i j).0 e) (omega arith)
  | inr e ↦ rw (suc-mul j m) (omega (arith, mul_mono i j m (ground arith)))
]

capacity_of : ℕ → ℕ
capacity_of size = if size == 2 * 1024 * 256 then 1077 * 256 else size

capacity_of-le : (size : ℕ) → capacity_of size ≤ size
unfolding capacity_of
capacity_of-le size = ground arith

zone_init-slba :
    (size n i : ℕ) (z : Zone)
    → n * size < u64_mod
    → size < u32_mod
    → i < n
    → some (zone_init (i * size) (capacity_of size) size) ≡ some z
    → (z.slba ≡ i * size) × (z.capacity ≤ size)
unfolding zone_init
zone_init-slba size n i z small size_u32 lt h =
    let slba_eq : (i * size) % u64_mod ≡ z.slba =
      ap (λ o. elim o [ none ↦ (i * size) % u64_mod | some y ↦ y.slba ]) h in
    let capacity_eq : capacity_of size % u32_mod ≡ z.capacity =
      ap (λ o. elim o [ none ↦ capacity_of size % u32_mod | some y ↦ y.capacity ]) h in
    (omega (arith, slba_eq, mul_mono i n size lt), omega (arith, capacity_eq, capacity_of-le size))

slba-init :
    (size num needed reserved zid i : ℕ) (d : Device) (z : Zone)
    → d.available_zones ≡ []
    → num * size < u64_mod
    → size < u32_mod
    → get_elem? (init_zones needed reserved (init size num zid d)).zones i ≡ some z
    → (z.slba ≡ i * size) × (z.capacity ≤ size)
unfolding init capacity_of
slba-init size num needed reserved zid i d z e small size_u32 at =
    let n = min (num % u32_mod) ((needed + reserved) % u32_mod) in
    let here : get_elem? (zones_from size (capacity_of size) 0 n) i ≡ some z =
      sym (ap (λ t. get_elem? t.zones i) (init_zones-shape needed reserved (init size num zid d) e))
      ∙ at in
    let lt : i < n = get_elem?-zones_from-lt size (capacity_of size) 0 n i z here in
    zone_init-slba size num i z small size_u32 (omega arith)
      (sym (get_elem?-zones_from size (capacity_of size) 0 n i lt ∙ rw (zero-add i) refl) ∙ here)

-- The writable parts of two zones that InitZones lays out do not overlap: the part of the lower one
-- ends before the other one starts. The conditions: no zone was available before, the zone size has 32
-- bits and the address of the end of the namespace 64.
init_zones-disjoint :
    (size num needed reserved zid i j : ℕ) (d : Device) (y z : Zone)
    → d.available_zones ≡ []
    → num * size < u64_mod
    → size < u32_mod
    → i < j
    → get_elem? (init_zones needed reserved (init size num zid d)).zones i ≡ some y
    → get_elem? (init_zones needed reserved (init size num zid d)).zones j ≡ some z
    → y.slba + y.capacity ≤ z.slba
init_zones-disjoint size num needed reserved zid i j d y z e small size_u32 lt p q =
    let (a, b) = slba-init size num needed reserved zid i d y e small size_u32 p in
    let (a', b') = slba-init size num needed reserved zid j d z e small size_u32 q in
    omega (arith, a, a', b, mul_mono i j size lt)
