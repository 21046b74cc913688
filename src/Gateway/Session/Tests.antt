-- ===== src/Gateway/Session/Tests.antt =====
-- Tests of PUT, GET and the loop of do_session (src/http_server.cc).
use zstore.Common.{
  inl, ℕ, ◌^◌, ◌≡◌, ◌<◌, refl, ap, true, false, some, List, [], ◌∷◌, replicate, length,
  length-replicate, codes, arith, ok, All, map, take, err, assertion,
}
use zstore.Conf.{Conf, default_conf}
use zstore.Device.{Device}
use zstore.Hash.{KeyHash}
use zstore.Http.{
  HttpRequest, HttpResponse, get, put, delete, parse_url, handle_request, handle_not_found_request,
}
use zstore.Http.Url.{parse_url-append}
use zstore.Pool.{new_pool, buffer_size_of}
use zstore.Pool.Held.Back.{new_pool-IsIdle}
use zstore.Store.{MapEntry}
use zstore.Store.Map.{FlatMap, get_object, find}
use zstore.Store.Map.Assoc.{assoc_map}
use zstore.Store.DevHash.{populate_dev_hash}
use zstore.Gateway.{Gateway, is_empty}
use zstore.Gateway.Put.{Surroundings, put_handler}
use zstore.Gateway.Put.Conditions.{IsSized, IsSurroundings, IsReady}
use zstore.Gateway.Session.{
  do_session, match_list, after, split_at_mark, named_list, some_digits, digits_value,
  list_document, awaitable_on_request, contains_text,
}
use zstore.Hash.{hash_to_c_string}
use zstore.Http.Listing.{Element, keys_in, skip, children_of}
use zstore.Gateway.Put.Large.Asserts.{put_handler-asserts}
use zstore.Gateway.Session.Listed.{handle_list_request-lost}
use zstore.Gateway.Session.Dispatched.{IsLookup, read_after_put, read_after_delete}
use zstore.Gateway.Session.Served.{IsServing}
use zstore.Gateway.Session.Loop.{IsListable, IsAnswering, do_session-IsServing}

abbrev pub conf_b : Conf
conf_b = record default_conf { block_size = 2; object_size = 8; chunk_size = 8 }

abbrev zeros : ℕ → List ℕ
zeros n = replicate n 0

zeros-length : (n : ℕ) → length (zeros n) ≡ n
zeros-length n = length-replicate n 0

-- It stands for SHA-256.
abbrev digest_b : List ℕ → KeyHash
digest_b s = s

abbrev pub around_b : Surroundings
around_b = record {
  zmalloc = zeros;
  alloc = λ n. true;
  rand = λ n. n;
  digest = digest_b;
  header = λ b. zeros 24;
  string_object = λ b. replicate 32 1;
  padding = record { lead = zeros 7; trail = zeros 5 };
  raw = zeros 65;
  raw' = zeros 65;
  fresh = zeros 8;
  answers = λ s. record { is_error = false; cdw0 = 10 };
  filled = λ s. zeros 8;
  first = record { is_error = false; cdw0 = 10 };
  second = record { is_error = false; cdw0 = 11 };
  third = record { is_error = false; cdw0 = 12 };
}

abbrev device_b : ℕ → Device
device_b i = record {
  device_id = i;
  zone_size = 524288;
  zone_capacity = 275712;
  num_zones = 100;
  zones = [];
  available_zones = [];
  zone_id = 65;
}

abbrev pub objects_b : FlatMap MapEntry
objects_b = assoc_map MapEntry

abbrev pub gateway_b : Gateway objects_b
gateway_b = record {
  objects = [];
  contexts = new_pool conf_b zeros 2;
  devices = device_b 0 ∷ device_b 1 ∷ device_b 2 ∷ device_b 3 ∷ device_b 4 ∷ device_b 5 ∷ [];
  dev_hash = populate_dev_hash conf_b [];
  broadcast = [];
  total_counts = 0;
}

abbrev pub put_b : HttpRequest
put_b = record {
  method = put;
  target = codes "/b/a";
  version = 11;
  keep_alive = true;
  body = codes "x";
}

abbrev pub get_b : HttpRequest
get_b = record { method = get; target = codes "/b/a"; version = 11; keep_alive = false; body = [] }

parsed_b : (parse_url get_b.target).1 ≡ codes "a"
parsed_b = ap (λ t. t.1) ((parse_url-append (codes "b") (codes "a") (ground arith)).0)

named_b : is_empty objects_b ((parse_url get_b.target).1) ≡ false
unfolding is_empty
named_b = rw parsed_b refl

pub conf_b-IsSized : IsSized conf_b
conf_b-IsSized = record {
  block_pos = omega arith;
  pointer_fits = omega arith;
  one_chunk = omega arith;
  object_u32 = omega arith;
}

pub around_b-IsSurroundings : IsSurroundings conf_b around_b
around_b-IsSurroundings = record {
  zmalloc_length = zeros-length;
  alloc_object = refl;
  header_length = λ b. omega arith;
}

gateway_b-IsReady : IsReady conf_b objects_b gateway_b
gateway_b-IsReady = record {
  idle = new_pool-IsIdle conf_b zeros 2 zeros-length;
  six = omega arith;
  hash = refl;
}

pub gateway_b-IsServing : IsServing conf_b objects_b gateway_b
unfolding get_object find
gateway_b-IsServing = record { ready = gateway_b-IsReady; known = λ k e there. absurd (cc) }

pub no_listing :
    (bucket : List ℕ) (n : ℕ) → match_list (codes "/b/a") ≡ some (bucket, n) → n < 2 ^ 31
unfolding match_list after split_at_mark named_list
no_listing bucket n e = absurd (cc)

abbrev pub raw_b : MapEntry
raw_b = record {
  first = record { device_id = 0; lba = 0 };
  second = record { device_id = 0; lba = 0 };
  third = record { device_id = 0; lba = 0 };
  len = 0;
  tombstoned = false;
}

abbrev pub requests_b : List (Surroundings × HttpRequest)
requests_b = (around_b, put_b) ∷ (around_b, get_b) ∷ []

pub requests_b-All : All (λ x. IsSurroundings conf_b x.0 × IsListable x.1) requests_b
unfolding IsListable
requests_b-All =
    ((around_b-IsSurroundings, no_listing), ((around_b-IsSurroundings, no_listing), tt))

do_session-IsServing_example :
    (msgs : List HttpResponse) × (g' : Gateway objects_b) × (do_session objects_b conf_b
        (λ r. r)
        raw_b
        requests_b
        gateway_b
      ≡ ok (msgs, g'))
    × IsAnswering msgs requests_b
    × IsServing conf_b objects_b g'
do_session-IsServing_example =
    do_session-IsServing conf_b objects_b (λ r. r) raw_b requests_b gateway_b conf_b-IsSized
      requests_b-All gateway_b-IsServing

abbrev list_b : HttpRequest
list_b = record {
  method = get;
  target = codes "/b?max-keys=12";
  version = 11;
  keep_alive = true;
  body = [];
}

matched_b : match_list list_b.target ≡ some (codes "b", 12)
unfolding match_list after split_at_mark named_list some_digits digits_value
matched_b = refl

listing_b : contains_text (codes "max-keys=") list_b.target ≡ true
unfolding contains_text
listing_b = refl

handle_list_request-lost_example :
    (doc : Element) × (list_document objects_b list_b gateway_b ≡ ok (some doc))
    × (keys_in (skip 5 (children_of doc))
        ≡ map hash_to_c_string (take 12 (map (λ x. x.0) (objects_b.visit_all gateway_b.objects))))
    × (awaitable_on_request objects_b conf_b around_b (λ r. r) raw_b list_b gateway_b
        ≡ ok (handle_request list_b, gateway_b))
handle_list_request-lost_example =
    handle_list_request-lost objects_b conf_b around_b (λ r. r) raw_b list_b gateway_b (codes "b")
      12 refl listing_b matched_b (omega arith)

get_b-IsLookup : IsLookup get_b
unfolding contains_text
get_b-IsLookup = record { by_get = refl; no_listing = refl }

read_after_put_example :
    (g1 : Gateway objects_b) × (body : List ℕ) × (g2 : Gateway objects_b) × (awaitable_on_request
        objects_b conf_b around_b
        (λ r. r)
        raw_b
        put_b
        gateway_b
      ≡ ok (handle_request put_b, g1))
    × (awaitable_on_request objects_b conf_b around_b (λ r. r) raw_b get_b g1
        ≡ ok (handle_request (record get_b { body = body }), g2))
    × (length body ≡ buffer_size_of conf_b)
    × (g2.objects ≡ g1.objects)
    × IsReady conf_b objects_b g2
read_after_put_example =
    read_after_put objects_b conf_b around_b (λ r. r) raw_b put_b get_b gateway_b conf_b-IsSized
      around_b-IsSurroundings gateway_b-IsReady (inl refl) get_b-IsLookup named_b refl

abbrev delete_b : HttpRequest
delete_b = record get_b { method = delete }

-- The object is there before it is deleted.
abbrev stored_b : Gateway objects_b
stored_b = record gateway_b { objects = (codes "a", raw_b) ∷ [] }

read_after_delete_example :
    (g1 g2 : Gateway objects_b) × (awaitable_on_request objects_b conf_b around_b
        (λ r. r)
        raw_b
        delete_b
        stored_b
      ≡ ok (handle_request delete_b, g1))
    × (awaitable_on_request objects_b conf_b around_b (λ r. r) raw_b get_b g1
        ≡ ok (handle_not_found_request get_b, g2))
    × (g1.contexts ≡ stored_b.contexts)
    × (g2.contexts ≡ g1.contexts)
    × (g2.objects ≡ g1.objects)
read_after_delete_example =
    read_after_delete objects_b conf_b around_b (λ r. r) raw_b delete_b get_b stored_b refl refl
      get_b-IsLookup refl

-- Objects of two chunks.
abbrev conf_d : Conf
conf_d = record default_conf { block_size = 2; object_size = 16; chunk_size = 8 }

abbrev gateway_d : Gateway objects_b
gateway_d = record gateway_b {
  contexts = new_pool conf_d zeros 2;
  dev_hash = populate_dev_hash conf_d [];
}

around_b-IsSurroundings_large : IsSurroundings conf_d around_b
around_b-IsSurroundings_large = record {
  zmalloc_length = zeros-length;
  alloc_object = refl;
  header_length = λ b. omega arith;
}

gateway_d-IsReady : IsReady conf_d objects_b gateway_d
gateway_d-IsReady = record {
  idle = new_pool-IsIdle conf_d zeros 2 zeros-length;
  six = omega arith;
  hash = refl;
}

put_handler-asserts_example : put_handler objects_b conf_d around_b put_b gateway_d ≡ err assertion
put_handler-asserts_example =
    put_handler-asserts conf_d around_b objects_b put_b gateway_d around_b-IsSurroundings_large
      gateway_d-IsReady (omega arith) (omega arith) (omega arith) (omega arith) (omega arith)
      named_b
