-- ===== src/Checkpoint/Tests.antt =====
-- Tests of the checkpoint (src/zstore_controller.cc).
use zstore.Common.{
  ℕ, ◌≤◌, ◌≡◌, refl, true, false, some, List, [], ◌∷◌, replicate, length, length-replicate, drop,
  All, arith, ok, codes,
}
use zstore.Conf.{Conf, default_conf}
use zstore.Device.{Device}
use zstore.Hash.{KeyHash}
use zstore.Pool.{Pool, new_pool, buffer_size_of}
use zstore.Pool.Held.{IsOwned, nothing_held}
use zstore.Pool.Held.Back.{new_pool-IsIdle}
use zstore.Request.{Completion}
use zstore.Store.{MapEntry}
use zstore.Store.Map.{FlatMap}
use zstore.Store.Map.Assoc.{assoc_map}
use zstore.Gateway.Put.Conditions.{IsSized}
use zstore.Checkpoint.{batch_loop, num_buffers, collect_garbage, persist_map}
use zstore.Checkpoint.Batches.{IsBatch, concat, batch_loop_total}
use zstore.Checkpoint.Collect.{collect_garbage-IsOwned}
use zstore.Checkpoint.Persist.{persist_map-IsOwned}

abbrev pub conf_c : Conf
conf_c = record default_conf { block_size = 2; object_size = 8; chunk_size = 8 }

abbrev pub zeros : ℕ → List ℕ
zeros n = replicate n 0

pub zeros-length : (n : ℕ) → length (zeros n) ≡ n
zeros-length n = length-replicate n 0

abbrev pub device_c : Device
device_c = record {
  device_id = 0;
  zone_size = 524288;
  zone_capacity = 275712;
  num_zones = 100;
  zones = [];
  available_zones = [];
  zone_id = 65;
}

-- A deleted object with its second replica on device 0, and one that is not deleted.
abbrev pub entries_c : List (KeyHash × MapEntry)
entries_c =
    (
      codes "a",
      record {
        first = record { device_id = 2; lba = 10 };
        second = record { device_id = 0; lba = 20 };
        third = record { device_id = 4; lba = 30 };
        len = 1;
        tombstoned = true;
      },
    )
    ∷ (
      codes "b",
      record {
        first = record { device_id = 0; lba = 11 };
        second = record { device_id = 1; lba = 21 };
        third = record { device_id = 2; lba = 31 };
        len = 1;
        tombstoned = false;
      },
    )
    ∷ []

abbrev pub objects_c : FlatMap MapEntry
objects_c = assoc_map MapEntry

abbrev pub answers_c : ℕ → Completion
answers_c s = record { is_error = false; cdw0 = 10 }

pub conf_c-IsSized : IsSized conf_c
conf_c-IsSized = record {
  block_pos = omega arith;
  pointer_fits = omega arith;
  one_chunk = omega arith;
  object_u32 = omega arith;
}

batch_loop_total_example :
    (bs : List (List ℕ)) × (batch_loop 601 0 (zeros 600) ≡ some bs)
    × All IsBatch bs
    × (concat bs ≡ drop 0 (zeros 600))
batch_loop_total_example = batch_loop_total 601 0 (zeros 600) (omega arith) (omega arith)

pub filled_c : (s : ℕ) → length (zeros 8) ≡ buffer_size_of conf_c
unfolding buffer_size_of
filled_c s = refl

collect_garbage-IsOwned_example :
    (q : Pool) × (collect_garbage objects_c conf_c zeros
        (some device_c)
        (λ s. zeros 8)
        answers_c
        entries_c
        (new_pool conf_c zeros 2)
      ≡ ok q)
    × IsOwned conf_c q nothing_held
collect_garbage-IsOwned_example =
    collect_garbage-IsOwned objects_c conf_c zeros device_c (λ s. zeros 8) answers_c entries_c
      (new_pool conf_c zeros 2) nothing_held conf_c-IsSized zeros-length filled_c
      (new_pool-IsIdle conf_c zeros 2 zeros-length)

few_c : num_buffers conf_c 2 ≤ 4
unfolding num_buffers buffer_size_of
few_c = omega arith

persist_map-IsOwned_example :
    (q : Pool) × (persist_map objects_c conf_c zeros
        (some device_c)
        4
        answers_c
        (zeros 16)
        entries_c
        (new_pool conf_c zeros 2)
      ≡ ok q)
    × IsOwned conf_c q nothing_held
persist_map-IsOwned_example =
    persist_map-IsOwned objects_c conf_c zeros device_c 4 answers_c (zeros 16) entries_c
      (new_pool conf_c zeros 2) nothing_held conf_c-IsSized zeros-length refl few_c
      (new_pool-IsIdle conf_c zeros 2 zeros-length)
