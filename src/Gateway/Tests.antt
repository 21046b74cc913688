-- ===== src/Gateway/Tests.antt =====
-- Tests of the handlers of src/http_server.cc.
use zstore.Common.{
  ℕ, ◌≡◌, refl, ap, true, false, some, List, [], ◌∷◌, replicate, length, length-replicate, codes,
  arith,
}
use zstore.Conf.{Conf, default_conf}
use zstore.Device.{Device}
use zstore.Hash.{KeyHash, compute_sha256, key_eq}
use zstore.Http.{HttpRequest, get, delete, parse_url}
use zstore.Http.Url.{parse_url-append}
use zstore.Pool.{new_pool}
use zstore.Store.{MapEntry}
use zstore.Store.Map.{FlatMap, get_object, find}
use zstore.Store.Map.Assoc.{assoc_map}
use zstore.Gateway.{Gateway, get_device_by_id, is_empty}

abbrev pub conf_a : Conf
conf_a = record default_conf { block_size = 2; object_size = 4; chunk_size = 4 }

abbrev pub zeros : ℕ → List ℕ
zeros n = replicate n 0

pub zeros-length : (n : ℕ) → length (zeros n) ≡ n
zeros-length n = length-replicate n 0

-- It stands for SHA-256.
abbrev pub digest_a : List ℕ → KeyHash
digest_a s = s

abbrev pub device_a : Device
device_a = record {
  device_id = 0;
  zone_size = 524288;
  zone_capacity = 275712;
  num_zones = 100;
  zones = [];
  available_zones = [];
  zone_id = 65;
}

abbrev pub entry_a : MapEntry
entry_a = record {
  first = record { device_id = 0; lba = 10 };
  second = record { device_id = 3; lba = 20 };
  third = record { device_id = 4; lba = 30 };
  len = 1;
  tombstoned = false;
}

abbrev pub objects_a : FlatMap MapEntry
objects_a = assoc_map MapEntry

abbrev pub gateway_a : Gateway objects_a
gateway_a = record {
  objects = (codes "a", entry_a) ∷ [];
  contexts = new_pool conf_a zeros 2;
  devices = device_a ∷ [];
  dev_hash = [];
  broadcast = [];
  total_counts = 0;
}

abbrev pub get_a : HttpRequest
get_a = record { method = get; target = codes "/b/a"; version = 11; keep_alive = true; body = [] }

abbrev delete_a : HttpRequest
delete_a = record {
  method = delete;
  target = codes "/b/a";
  version = 11;
  keep_alive = true;
  body = [];
}

pub parsed_a : (parse_url get_a.target).1 ≡ codes "a"
parsed_a = ap (λ t. t.1) ((parse_url-append (codes "b") (codes "a") (ground arith)).0)

pub named_a : is_empty objects_a ((parse_url get_a.target).1) ≡ false
unfolding is_empty
named_a = rw parsed_a refl

stored_a :
    get_object objects_a (compute_sha256 digest_a ((parse_url get_a.target).1)) gateway_a.objects
    ≡ some entry_a
unfolding get_object compute_sha256 find key_eq
stored_a = rw parsed_a refl

there_a : get_device_by_id objects_a entry_a.first.device_id gateway_a ≡ some device_a
unfolding get_device_by_id
there_a = refl
