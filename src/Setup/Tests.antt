-- ===== src/Setup/Tests.antt =====
-- Tests of Init (src/zstore_controller.cc).
use zstore.Common.{
  ℕ, ◌≡◌, ◌*◌, ◌+◌, refl, ap, sym, ◌∙◌, inl, inr, true, Option, none, some, List, [], ◌∷◌, length,
  arith, ok, err, out_of_bounds,
}
use zstore.Conf.{Conf}
use zstore.Hash.{KeyHash, compute_sha256}
use zstore.Http.{parse_url, handle_request}
use zstore.Pool.{Pool, buffer_size_of}
use zstore.Placement.Filled.{IsInjective}
use zstore.Gateway.{Gateway}
use zstore.Gateway.Tests.{
  conf_a, zeros, zeros-length, digest_a, device_a, objects_a, get_a, named_a, parsed_a,
}
use zstore.Http.{HttpResponse}
use zstore.Gateway.Put.{Surroundings}
use zstore.Gateway.Session.{do_session, awaitable_on_request, contains_text}
use zstore.Gateway.Session.Dispatched.{IsLookup}
use zstore.Gateway.Session.Served.{IsServing}
use zstore.Gateway.Session.Loop.{IsAnswering}
use zstore.Gateway.Session.Tests.{
  around_b, conf_b, objects_b, raw_b, requests_b, requests_b-All, conf_b-IsSized,
}
use zstore.Setup.Sessions.{init_until_headers-do_session}
use zstore.Setup.{
  Ctrlr, Spdk, Parameters, Started, gateway_port, populate_ip_ports, set_parameters,
  init_until_headers, serving,
}
use zstore.Setup.Devices.{
  IsGateway, IsReachable, AreRegistered, numbers, set_parameters-AreRegistered,
}
use zstore.Setup.Serving.{init_until_headers-get, init_until_headers-overrun}

abbrev ctrlr_a : Ctrlr
ctrlr_a = record {
  namespace = λ nsid. record { zone_size = 524288; num_zones = 900 + nsid };
  io_qpair = λ nsid i. true;
}

-- Something listens on every port that is not empty.
abbrev answer : List ℕ → Option Ctrlr
answer [] = none
answer (d ∷ ds) = some ctrlr_a

abbrev spdk_a : Spdk
spdk_a = record { connect = λ a. answer a.port; group_add = λ i n. true; raw = device_a }

answer-queued :
    (port : List ℕ) (k : Ctrlr) (nsid i : ℕ) → answer port ≡ some k → k.io_qpair nsid i ≡ true
answer-queued [] k nsid i e = absurd (cc)
answer-queued (d ∷ ds) k nsid i e = let same : ctrlr_a ≡ k = cc in rw (sym same) refl

answer-port : (n : ℕ) → IsGateway n → (k : Ctrlr) × (answer (gateway_port n) ≡ some k)
unfolding gateway_port
answer-port n (inl e) = (ctrlr_a, rw e refl)
answer-port n (inr (inl e)) = (ctrlr_a, rw e refl)
answer-port n (inr (inr e)) = (ctrlr_a, rw e refl)

spdk_a-IsReachable : IsReachable spdk_a
spdk_a-IsReachable = record {
  listens = λ a n g e. let (k, found) = answer-port n g in (k, ap answer e ∙ found);
  queued = λ a k nsid i e. answer-queued a.port k nsid i e;
  grouped = λ i n. refl;
}

five : IsGateway 5
five = inr (inl refl)

abbrev key_of_b : ℕ → KeyHash
key_of_b i = i ∷ []

key_of_b-IsInjective : IsInjective key_of_b 98
key_of_b-IsInjective i j p q e = cc

hashed_b : compute_sha256 digest_a ((parse_url get_a.target).1) ≡ key_of_b 97
unfolding compute_sha256
hashed_b = rw parsed_a refl

set_parameters-AreRegistered_example :
    (t : Parameters) × (set_parameters conf_a spdk_a 1 5 ≡ ok t)
    × AreRegistered spdk_a (populate_ip_ports conf_a 5) t.devices
    × (length t.devices ≡ 6)
    × (t.num_devices ≡ conf_a.num_of_devices * conf_a.num_of_targets)
    × (t.context_pool_size ≡ conf_a.context_pool_size)
set_parameters-AreRegistered_example =
    set_parameters-AreRegistered conf_a spdk_a 1 5 spdk_a-IsReachable five

abbrev around_a : Surroundings
around_a = record around_b { zmalloc = zeros; digest = digest_a }

get_a-IsLookup : IsLookup get_a
unfolding contains_text
get_a-IsLookup = record { by_get = refl; no_listing = refl }

init_until_headers-get_example :
    (s : Started objects_a) × (p : Pool) × (body : List ℕ) × (g' : Gateway objects_a)
    × (init_until_headers objects_a conf_a spdk_a zeros key_of_b (98, 10, 10) 1 5 ≡ ok s)
    × (s.contexts ≡ some p)
    × (s.polled ≡ numbers 0 (conf_a.num_of_devices * conf_a.num_of_targets))
    × (awaitable_on_request objects_a conf_a around_a
          (λ r. r)
          raw_b
          get_a
          (serving objects_a conf_a s p)
        ≡ ok (handle_request (record get_a { body = body }), g'))
    × (length body ≡ buffer_size_of conf_a)
init_until_headers-get_example =
    init_until_headers-get objects_a conf_a spdk_a zeros key_of_b around_a (λ r. r) raw_b 98 10 10 5
      97 get_a spdk_a-IsReachable five (omega arith) (omega arith) refl get_a-IsLookup (omega arith)
      key_of_b-IsInjective zeros-length zeros-length (omega arith) (omega arith) named_a hashed_b

abbrev conf_f : Conf
conf_f = record conf_a { num_of_targets = 4 }

init_until_headers-overrun_example :
    init_until_headers objects_a conf_f spdk_a zeros key_of_b (98, 10, 10) 1 5 ≡ err out_of_bounds
init_until_headers-overrun_example =
    init_until_headers-overrun objects_a conf_f spdk_a zeros key_of_b (98, 10, 10) 1 5
      spdk_a-IsReachable five (omega arith) (omega arith)

init_until_headers-do_session_example :
    (s : Started objects_b) × (p : Pool) × (msgs : List HttpResponse) × (g' : Gateway objects_b)
    × (init_until_headers objects_b conf_b spdk_a zeros key_of_b (98, 10, 10) 3 5 ≡ ok s)
    × (s.contexts ≡ some p)
    × (do_session objects_b conf_b (λ r. r) raw_b requests_b (serving objects_b conf_b s p)
        ≡ ok (msgs, g'))
    × IsAnswering msgs requests_b
    × IsServing conf_b objects_b g'
init_until_headers-do_session_example =
    init_until_headers-do_session objects_b conf_b spdk_a zeros key_of_b (98, 10, 10) 3 5 (λ r. r)
      raw_b requests_b spdk_a-IsReachable five (omega arith) (omega arith) refl zeros-length
      conf_b-IsSized requests_b-All
