-- ===== src/Conf.antt =====
-- src/include/configuration.h: the values that the other parts read. They are fields of a record, so
-- that a statement holds for every setting; `default_conf` has the values that the header sets.
use zstore.Common.{ℕ, ◌+◌, Bool, false}

pub record Conf : Type 0 where
  pub zone_dist : ℕ
  pub zone_cap : ℕ
  pub storage_space : ℕ
  pub num_io_threads : ℕ
  pub num_http_threads : ℕ
  pub io_thread_core_base : ℕ
  pub block_size : ℕ
  pub rdma_buffer_size : ℕ
  pub context_pool_size : ℕ
  pub chunk_size : ℕ
  pub num_of_targets : ℕ
  pub num_of_devices : ℕ
  pub sampling_rate : ℕ
  pub num_of_gw : ℕ
  pub replay : Bool
  pub current_zone : ℕ
  pub qpair_size : ℕ
  pub object_size : ℕ
  pub is_debugging : Bool
  pub experimental : Bool

abbrev pub default_conf : Conf
default_conf = record {
  zone_dist = 524288;
  zone_cap = 275456;
  storage_space = 1099511627776;
  num_io_threads = 1;
  num_http_threads = 6;
  io_thread_core_base = 1;
  block_size = 4096;
  rdma_buffer_size = 128;
  context_pool_size = 40960;
  chunk_size = 131072;
  num_of_targets = 3;
  num_of_devices = 2;
  sampling_rate = 0;
  num_of_gw = 2;
  replay = false;
  current_zone = 65;
  qpair_size = 256;
  object_size = 131072;
  is_debugging = false;
  experimental = false;
}

-- The first core of the HTTP threads follows the cores of the I/O threads.
abbrev http_thread_core_base : Conf → ℕ
http_thread_core_base c = c.io_thread_core_base + c.num_io_threads

abbrev io_thread_core_id : Conf → ℕ → ℕ
io_thread_core_id c thread_id = c.io_thread_core_base + thread_id

abbrev http_thread_core_id : Conf → ℕ → ℕ
http_thread_core_id c thread_id = http_thread_core_base c + thread_id
