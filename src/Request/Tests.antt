-- ===== src/Request/Tests.antt =====
-- Tests of the requests of src/common.cc.
use zstore.Common.{◌≤◌, ℕ, ◌≡◌, List, [], ◌∷◌, replicate, length, length-replicate, arith}
use zstore.Conf.{Conf, default_conf}
use zstore.Device.{Device}
use zstore.Pool.{Pool, new_pool, buffer_size_of}
use zstore.Pool.Invariant.{IsPool, new_pool-IsPool}
use zstore.Pool.Buffers.{AreBuffered, new_pool-AreBuffered}

-- Two blocks of two bytes.
abbrev conf_a : Conf
conf_a = record default_conf { block_size = 2; object_size = 4; chunk_size = 4 }

abbrev zeros : ℕ → List ℕ
zeros n = replicate n 0

zeros-length : (n : ℕ) → length (zeros n) ≡ n
zeros-length n = length-replicate n 0

abbrev pool_a : Pool
pool_a = new_pool conf_a zeros 2

pool_a-IsPool : IsPool pool_a
pool_a-IsPool = (new_pool-IsPool conf_a zeros 2).0

pool_a-AreBuffered : AreBuffered conf_a pool_a.memory
pool_a-AreBuffered = new_pool-AreBuffered conf_a zeros 2 zeros-length

abbrev device_a : Device
device_a = record {
  device_id = 3;
  zone_size = 524288;
  zone_capacity = 275712;
  num_zones = 100;
  zones = [];
  available_zones = [];
  zone_id = 65;
}

abbrev data_a : List ℕ
data_a = 1 ∷ 2 ∷ 3 ∷ 4 ∷ 5 ∷ []

data_a_fills : buffer_size_of conf_a ≤ length data_a
unfolding buffer_size_of
data_a_fills = omega arith
