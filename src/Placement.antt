-- ===== src/Placement.antt =====
-- PopulateMap of src/zstore_controller.cc: the experiments fill the object map with addresses that walk
-- through the zones. `key_of i` stands for computeSHA256(std::to_string(i)). A zone distance or a block
-- size of 0 divides by zero in the code, and the statements exclude it.
pub mod Walk
pub mod Filled
pub mod Known
pub mod Tests
use zstore.Common.{
  ℕ, zero, suc, ◌+◌, ◌*◌, ◌/◌, ◌%◌, Bool, true, false, List, [], ◌∷◌, ltb, ◌==◌, if◌then◌else◌,
  u32_mod, u64_mod,
}
use zstore.Conf.{Conf}
use zstore.Hash.{KeyHash, key_eq}
use zstore.Store.{MapEntry, Target, DevTuple, create_map_entry}
use zstore.Store.Map.{FlatMap}
use zstore.Gateway.{contains}

-- The zone and the address that the loop is at.
pub record Cursor : Type 0 where
  pub zone : ℕ
  pub lba : ℕ

-- The address behind the capacity of a zone moves to the start of the next.
pub advance : Conf → Cursor → Cursor
advance c at =
    let zone = (at.zone + 1) % u32_mod in
    if ltb c.zone_cap (at.lba % c.zone_dist)
    then record { zone = zone; lba = zone * c.zone_dist % u64_mod }
    else at

-- `current_lba++`
pub increment : Cursor → Cursor
increment at = record at { lba = (at.lba + 1) % u64_mod }

-- The cursor at the head of round `i`.
pub cursor : Conf → ℕ → Cursor
unfolding advance increment
cursor c zero = record { zone = c.current_zone % u32_mod; lba = 0 }
cursor c (suc i) = increment (advance c (cursor c i))

-- Every entry names the current zone of the configuration and the devices 1 and 2 behind its own.
unfoldable pub placed_entry : Conf → ℕ → Bool → ℕ → MapEntry
placed_entry c device tombstoned lba =
    record (create_map_entry
      (record {
        first = record { device_id = device; zone_id = c.current_zone };
        second = record { device_id = 1; zone_id = c.current_zone };
        third = record { device_id = 2; zone_id = c.current_zone };
      })
      lba lba lba (c.object_size / c.block_size)) { tombstoned = tombstoned }

unfoldable pub get_device_id : ℕ → ℕ
get_device_id i = i % 6

pub ckpt_device_id : ℕ → ℕ
ckpt_device_id i = i % 2

module _ (F : FlatMap MapEntry) (c : Conf) (key_of : ℕ → KeyHash) where
  -- The rounds of the three loops: `n` rounds are left, `i` are done.
  pub populate_rounds : (ℕ → ℕ) → Bool → ℕ → ℕ → Cursor → F.Carrier → F.Carrier
  unfolding advance increment placed_entry
  populate_rounds device tombstoned zero i at m = m
  populate_rounds device tombstoned (suc n) i at m =
      let here = advance c at in
      populate_rounds device tombstoned n (suc i) (increment here)
        (F.emplace (key_of i) (placed_entry c (device i) tombstoned here.lba) m)

  pub populate_loop : (ℕ → ℕ) → Bool → ℕ → F.Carrier → F.Carrier
  unfolding populate_rounds cursor
  populate_loop device tombstoned size m =
      populate_rounds device tombstoned size 0 (record { zone = c.current_zone % u32_mod; lba = 0 })
        m

  -- The keys that populateCkptMap puts into the inflight set, which holds each once.
  recent_keys : ℕ → List KeyHash → List KeyHash
  recent_keys zero inflight = inflight
  recent_keys (suc n) inflight =
      let others = recent_keys n inflight in
      if contains (key_of n) others then others else key_of n ∷ others

  -- `sizes`: mRandReadMapSize, mCkptMapSize and mCkptRecentMapSize.
  unfoldable pub populate_map :
      ℕ → ℕ → (ℕ × ℕ × ℕ) → F.Carrier × List KeyHash → F.Carrier × List KeyHash
  unfolding populate_loop recent_keys get_device_id ckpt_device_id
  populate_map key_experiment option (rand_read, ckpt, recent) (m, inflight) =
      if key_experiment == 1
      then (populate_loop get_device_id false rand_read m, inflight)
      else if key_experiment == 3
      then (if option == 1
          then (populate_loop ckpt_device_id false ckpt m, recent_keys recent inflight)
          else (m, inflight))
      else if key_experiment == 5
      then (if option == 1
          then (populate_loop ckpt_device_id false ckpt m, recent_keys recent inflight)
          else (m, inflight))
      else if key_experiment == 6
      then (if option == 1
          then (populate_loop get_device_id true ckpt m, inflight)
          else (m, inflight))
      else (m, inflight)
