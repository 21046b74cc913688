-- ===== src/Setup/Sessions.antt =====
-- Clients of a gateway whose Init has got to ReadZoneHeaders: src/zstore_controller.cc and do_session of src/http_server.cc.
use zstore.Common.{ℕ, ◌*◌, ◌≤◌, ◌≡◌, refl, false, some, List, [], length, ok, le→leb, All, arith}
use zstore.Conf.{Conf}
use zstore.Hash.{KeyHash}
use zstore.Http.{HttpRequest, HttpResponse}
use zstore.Pool.{Pool, new_pool}
use zstore.Pool.Held.Back.{new_pool-IsIdle}
use zstore.Placement.{populate_map}
use zstore.Placement.Known.{AreKnown, populate_map-AreKnown}
use zstore.Store.{MapEntry}
use zstore.Store.Map.{FlatMap, get_object}
use zstore.Store.DevHash.{populate_dev_hash}
use zstore.Gateway.{Gateway}
use zstore.Gateway.Put.{Surroundings}
use zstore.Gateway.Put.Conditions.{IsSized, IsSurroundings, IsReady}
use zstore.Gateway.Session.{do_session}
use zstore.Gateway.Session.Served.{IsServing}
use zstore.Gateway.Session.Loop.{IsListable, IsAnswering, do_session-IsServing}
use zstore.Setup.{Spdk, Started, init_until_headers, serving}
use zstore.Setup.Devices.{
  IsGateway, IsReachable, numbers, configure_qpairs_lem, set_parameters-AreRegistered,
}

empty-AreKnown : (F : FlatMap MapEntry) → AreKnown F F.empty
unfolding AreKnown get_object
empty-AreKnown F k e there = let gone = F.visit_empty k in absurd (cc)

-- Init of a gateway that the code knows gets to ReadZoneHeaders in every experiment, where the targets listen
-- and the configuration has no more than six devices and 16 threads, and no replayed workload. In the state
-- that it has then, the requests of a client, in order, are all answered, up to the first response that does
-- not keep the connection alive, and the gateway serves again after them. Nothing is said of what Init does
-- after ReadZoneHeaders. The conditions: the sizes fit, the memory is
-- there, and no listing asks for 2^31 keys or more.
pub init_until_headers-do_session :
    (F : FlatMap MapEntry) (c : Conf) (spdk : Spdk) (zmalloc : ℕ → List ℕ) (key_of : ℕ → KeyHash)
    (sizes : ℕ × ℕ × ℕ) (key_experiment option : ℕ) (moved : HttpRequest → HttpRequest)
    (raw : MapEntry) (reqs : List (Surroundings × HttpRequest))
    → IsReachable spdk
    → IsGateway option
    → c.num_io_threads ≤ 16
    → c.num_of_devices * c.num_of_targets ≤ 6
    → c.replay ≡ false
    → ((n : ℕ) → length (zmalloc n) ≡ n)
    → IsSized c
    → All (λ x. IsSurroundings c x.0 × IsListable x.1) reqs
    → (s : Started F) × (p : Pool) × (msgs : List HttpResponse) × (g' : Gateway F)
      × (init_until_headers F c spdk zmalloc key_of sizes key_experiment option ≡ ok s)
      × (s.contexts ≡ some p)
      × (do_session F c moved raw reqs (serving F c s p) ≡ ok (msgs, g'))
      × IsAnswering msgs reqs
      × IsServing c F g'
unfolding init_until_headers serving AreKnown
init_until_headers-do_session F c spdk zmalloc key_of sizes key_experiment option moved raw reqs r
      known threads few here spec sized all =
    let (t, done, registered, six, number, size) =
      set_parameters-AreRegistered c spdk key_experiment option r known in
    let polled =
      configure_qpairs_lem c spdk t.devices 0 t.num_devices r (omega (arith, few, six, number)) in
    let p = new_pool c zmalloc t.context_pool_size in
    let filled = populate_map F c key_of key_experiment option sizes (F.empty, []) in
    let s : Started F = record {
      parameters = t;
      contexts = some p;
      replay_contexts = [];
      polled = numbers 0 t.num_devices;
      dev_hash = populate_dev_hash c [];
      objects = filled.0;
      inflight = filled.1;
    } in
    let ready : IsReady c F (serving F c s p) = record {
      idle = new_pool-IsIdle c zmalloc t.context_pool_size spec;
      six = omega (arith, six);
      hash = refl;
    } in
    let can_serve : IsServing c F (serving F c s p) = record {
      ready = ready;
      known = λ k e there.
          (let below =
              populate_map-AreKnown F c key_of key_experiment option sizes F.empty []
                (empty-AreKnown F) k e there in
            omega (arith, six, below));
    } in
    let (msgs, g', answered, count, again) =
      do_session-IsServing c F moved raw reqs (serving F c s p) sized all can_serve in
    (
      s,
      p,
      msgs,
      g',
      rw done (rw (le→leb c.num_io_threads 16 threads) (rw polled (rw here refl))),
      refl,
      answered,
      count,
      again,
    )
