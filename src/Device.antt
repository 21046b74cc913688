-- ===== src/Device.antt =====
-- Zones and devices: src/zone.cc, src/include/zone.h, src/device.cc and src/include/device.h. A zone is
-- known by its index in the array `mZones`; the set of available zones is ordered by address, so it is
-- an ascending list of indices. What SPDK reports of a namespace is an argument.
pub mod Zones
pub mod Available
pub mod Headers
pub mod Tests
use zstore.Common.{
  ℕ, zero, suc, ◌+◌, ◌*◌, ◌/◌, ◌%◌, ◌^◌, Bool, true, false, not, ◌&&◌, ◌||◌, List, [], ◌∷◌, ◌++◌,
  min, ltb, leb, ◌==◌, if◌then◌else◌, u32_mod, u64_mod, Result, ok, err, assertion, exception,
  guard, ◌>>=◌, ◌>>◌,
}
use zstore.Conf.{Conf}

pub record Zone : Type 0 where
  pub slba : ℕ
  pub capacity : ℕ
  pub size : ℕ
  pub pos : ℕ
  pub offset : ℕ

-- Zone::Init. The capacity and the size are stored in 32 bits.
pub zone_init : ℕ → ℕ → ℕ → Zone
zone_init slba capacity size = record {
  slba = slba % u64_mod;
  capacity = capacity % u32_mod;
  size = size % u32_mod;
  pos = 0;
  offset = 0;
}

offset2_bytes : Conf → Zone → ℕ → ℕ
offset2_bytes c z offset = (z.slba * 2 ^ 12 + offset * c.block_size) % u64_mod

-- 32 blocks are reserved. The sum has 32 bits.
will_be_full : Zone → Bool
will_be_full z = leb z.capacity ((z.offset + 32) % u32_mod)

is_full : Zone → Bool
is_full z = leb z.capacity z.pos

no_ongoing_writes : Zone → Bool
no_ongoing_writes z = z.offset == z.pos

advance_pos : ℕ → Zone → Zone
advance_pos inc z = record z { pos = (z.pos + inc) % u32_mod }

-- Zone::GetSlba returns 32 bits.
get_slba : Zone → ℕ
get_slba z = z.slba % u32_mod

pub record Device : Type 0 where
  pub device_id : ℕ
  pub zone_size : ℕ
  pub zone_capacity : ℕ
  pub num_zones : ℕ
  pub zones : List Zone
  pub available_zones : List ℕ
  pub zone_id : ℕ

-- Device::Init: the zone size and the number of zones are what SPDK reports. One size is known to
-- come with a smaller capacity.
pub init : ℕ → ℕ → ℕ → Device → Device
init zone_size num_zones zone_id d = record d {
  zone_size = zone_size;
  num_zones = num_zones % u32_mod;
  zone_capacity = if zone_size == 2 * 1024 * 256 then 1077 * 256 else zone_size;
  zone_id = zone_id % u32_mod;
}

-- std::set::insert
pub insert : ℕ → List ℕ → List ℕ
insert z [] = z ∷ []
insert z (y ∷ ys) = if ltb z y then z ∷ y ∷ ys else if z == y then y ∷ ys else y ∷ insert z ys

-- The loop of InitZones for the `n` zones from number `i` on.
pub make_zones : ℕ → ℕ → Device → Device
unfolding insert zone_init
make_zones i zero d = d
make_zones i (suc n) d = make_zones (suc i) n (record d {
  zones = d.zones ++ (zone_init (i * d.zone_size) d.zone_capacity d.zone_size ∷ []);
  available_zones = insert i d.available_zones;
})

-- The sum of the two numbers has 32 bits.
pub init_zones : ℕ → ℕ → Device → Device
unfolding make_zones
init_zones needed reserved d =
    let n = min d.num_zones ((needed + reserved) % u32_mod) in
    make_zones 0 n (record d { num_zones = n; zones = [] })

has_available_zone : Device → Bool
has_available_zone d = elim d.available_zones [ [] ↦ false | z ∷ zs ↦ true ]

pub open_zone : Device → Result (ℕ × Device)
open_zone d = elim d.available_zones [
  | [] ↦ err assertion
  | z ∷ zs ↦ ok (z, record d { available_zones = zs })
]

pub mem : ℕ → List ℕ → Bool
mem z [] = false
mem z (y ∷ ys) = (z == y) || mem z ys

-- std::set::erase
pub erase : ℕ → List ℕ → List ℕ
erase z [] = []
erase z (y ∷ ys) = if z == y then ys else y ∷ erase z ys

-- A zone size of 0 divides by zero. An index outside the array is not in the set.
pub open_zone_by_slba : ℕ → Device → Result (ℕ × Device)
unfolding mem erase
open_zone_by_slba slba d = do
  guard (not (d.zone_size == 0)) exception
  let zid = slba / d.zone_size % u32_mod
  guard (mem zid d.available_zones) assertion
  ok (zid, record d { available_zones = erase zid d.available_zones })

pub return_zone : ℕ → Device → Device
unfolding insert
return_zone z d = record d { available_zones = insert z d.available_zones }

-- Zone::Release gives the zone back to its device through AddAvailableZone.
release : ℕ → Device → Device
unfolding insert
release z d = record d { available_zones = insert z d.available_zones }

open_next_zone : Device → Device
open_next_zone d = record d { zone_id = (d.zone_id + 1) % u32_mod }
