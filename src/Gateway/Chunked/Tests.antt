-- ===== src/Gateway/Chunked/Tests.antt =====
-- Tests of GET of an object of two chunks (src/http_server.cc).
use zstore.Common.{◌++◌, le_bytes, [], ◌∷◌, codes}
use zstore.Conf.{Conf, default_conf}
use zstore.Pool.{new_pool}
use zstore.Gateway.{Gateway}
use zstore.Gateway.Tests.{zeros, digest_a, device_a, entry_a, objects_a}
use zstore.Gateway.Put.{Surroundings}
use zstore.Gateway.Session.Tests.{around_b}

abbrev conf_d : Conf
conf_d = record default_conf { block_size = 2; object_size = 8; chunk_size = 4 }

abbrev gateway_d : Gateway objects_a
gateway_d = record {
  objects = (codes "a", entry_a) ∷ [];
  contexts = new_pool conf_d zeros 2;
  devices = device_a ∷ [];
  dev_hash = [];
  broadcast = [];
  total_counts = 0;
}

abbrev around_d : Surroundings
around_d = record around_b {
  zmalloc = zeros;
  filled = λ s. zeros 4;
  string_object = λ s. le_bytes 8 140 ++ zeros 24;
  digest = digest_a;
}
