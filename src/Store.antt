-- ===== src/Store.antt =====
-- Locations and map entries (src/include/types.h, createMapEntry of src/common.cc), and the parts of
-- ZstoreController that hold them.
pub mod Map
pub mod DevHash
pub mod Tests
use zstore.Common.{ℕ, ◌%◌, Bool, false, u32_mod, u64_mod}

pub record Location : Type 0 where
  pub device_id : ℕ
  pub lba : ℕ

-- The array `locations[3]` as three fields.
pub record MapEntry : Type 0 where
  pub first : Location
  pub second : Location
  pub third : Location
  pub len : ℕ
  pub tombstoned : Bool

-- A device id and a zone id.
pub record Target : Type 0 where
  pub device_id : ℕ
  pub zone_id : ℕ

pub record DevTuple : Type 0 where
  pub first : Target
  pub second : Target
  pub third : Target

-- The zone ids are dropped; addresses are 64 bits wide and the length 32.
unfoldable pub create_map_entry : DevTuple → ℕ → ℕ → ℕ → ℕ → MapEntry
create_map_entry t lba1 lba2 lba3 len = record {
  first = record { device_id = t.first.device_id; lba = lba1 % u64_mod };
  second = record { device_id = t.second.device_id; lba = lba2 % u64_mod };
  third = record { device_id = t.third.device_id; lba = lba3 % u64_mod };
  len = len % u32_mod;
  tombstoned = false;
}
