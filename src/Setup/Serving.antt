-- ===== src/Setup/Serving.antt =====
-- What a gateway can do once Init of src/zstore_controller.cc has got to ReadZoneHeaders, and when Init stops
-- before.
use zstore.Common.{
  ◌∙◌, ℕ, ◌*◌, ◌<◌, ◌≤◌, ◌≡◌, refl, ap, false, some, List, [], length, get_elem?_lt, ok, err,
  out_of_bounds, arith, le→leb,
}
use zstore.Conf.{Conf}
use zstore.Hash.{KeyHash, compute_sha256}
use zstore.Http.{HttpRequest, parse_url, handle_request}
use zstore.Pool.{Pool, new_pool, buffer_size_of}
use zstore.Pool.Invariant.{new_pool-IsPool}
use zstore.Pool.Buffers.{new_pool-AreBuffered}
use zstore.Placement.{populate_map, populate_loop, placed_entry, get_device_id, advance, cursor}
use zstore.Placement.Filled.{IsInjective, get_object-populate_loop}
use zstore.Store.{MapEntry, create_map_entry}
use zstore.Store.Map.{FlatMap}
use zstore.Store.DevHash.{populate_dev_hash}
use zstore.Gateway.{Gateway, get_device_by_id, is_empty}
use zstore.Gateway.Lookup.{get_handler-found}
use zstore.Gateway.Put.{Surroundings}
use zstore.Gateway.Session.{awaitable_on_request}
use zstore.Gateway.Session.Dispatched.{IsLookup, awaitable_on_request-get}
use zstore.Setup.{Spdk, Started, init_until_headers, serving}
use zstore.Setup.Devices.{
  IsGateway, IsReachable, numbers, configure_qpairs_lem, configure_qpairs-overrun,
  set_parameters-AreRegistered,
}

-- In the experiment of random reads, Init of a gateway that the code knows gets to ReadZoneHeaders, where the
-- targets listen and the configuration has no more than six devices and 16 threads. In the state that it
-- has then, all queue pairs are polled and each of the objects is served: a GET of its key that asks for no
-- listing is answered with a body as large as a buffer. The conditions: no replayed workload, no object
-- larger than a chunk, different hashes for different keys, memory that is as large as asked for, and a
-- block size that is not 0.
pub init_until_headers-get :
    (F : FlatMap MapEntry) (c : Conf) (spdk : Spdk) (zmalloc : ℕ → List ℕ) (key_of : ℕ → KeyHash)
    (w : Surroundings) (moved : HttpRequest → HttpRequest) (raw : MapEntry)
    (rand_read ckpt recent option j : ℕ) (req : HttpRequest)
    → IsReachable spdk
    → IsGateway option
    → c.num_io_threads ≤ 16
    → c.num_of_devices * c.num_of_targets ≤ 6
    → c.replay ≡ false
    → IsLookup req
    → c.object_size ≤ c.chunk_size
    → IsInjective key_of rand_read
    → ((n : ℕ) → length (zmalloc n) ≡ n)
    → ((n : ℕ) → length (w.zmalloc n) ≡ n)
    → 0 < c.block_size
    → j < rand_read
    → is_empty F ((parse_url req.target).1) ≡ false
    → compute_sha256 w.digest ((parse_url req.target).1) ≡ key_of j
    → (s : Started F) × (p : Pool) × (body : List ℕ) × (g' : Gateway F) × (init_until_headers F c
          spdk zmalloc key_of
          (rand_read, ckpt, recent)
          1
          option
        ≡ ok s)
      × (s.contexts ≡ some p)
      × (s.polled ≡ numbers 0 (c.num_of_devices * c.num_of_targets))
      × (awaitable_on_request F c w moved raw req (serving F c s p)
          ≡ ok (handle_request (record req { body = body }), g'))
      × (length body ≡ buffer_size_of c)
unfolding init_until_headers serving get_device_by_id populate_map get_device_id placed_entry
    create_map_entry
init_until_headers-get F c spdk zmalloc key_of w moved raw rand_read ckpt recent option j req r
      known threads few here l small inj spec spec_w pos below named hashed =
    let (t, done, registered, six, number, size) =
      set_parameters-AreRegistered c spdk 1 option r known in
    let polled =
      configure_qpairs_lem c spdk t.devices 0 t.num_devices r (omega (arith, few, six, number)) in
    let p = new_pool c zmalloc t.context_pool_size in
    let s : Started F = record {
      parameters = t;
      contexts = some p;
      replay_contexts = [];
      polled = numbers 0 t.num_devices;
      dev_hash = populate_dev_hash c [];
      objects = populate_loop F c key_of get_device_id false rand_read F.empty;
      inflight = [];
    } in
    let (dev, there) = get_elem?_lt t.devices (get_device_id j) (omega (arith, six)) in
    let (body, g', answered, full, _, _) =
      get_handler-found c w.zmalloc w.digest F req (serving F c s p)
        (placed_entry c (get_device_id j) false (advance c (cursor c j)).lba) dev spec_w pos
        ((new_pool-IsPool c zmalloc t.context_pool_size).0)
        (new_pool-AreBuffered c zmalloc t.context_pool_size spec) named
        (rw hashed (get_object-populate_loop F c key_of get_device_id false rand_read j inj below))
        there in
    (
      s,
      p,
      body,
      g',
      rw done (rw (le→leb c.num_io_threads 16 threads) (rw polled (rw here refl))),
      refl,
      ap (numbers 0) number,
      awaitable_on_request-get F c w moved raw req (serving F c s p) l small ∙ answered,
      full,
    )

-- Where the configuration has more than six devices and no more than 16
-- threads, Init reads past the end of the vector of devices.
pub init_until_headers-overrun :
    (F : FlatMap MapEntry) (c : Conf) (spdk : Spdk) (zmalloc : ℕ → List ℕ) (key_of : ℕ → KeyHash)
    (sizes : ℕ × ℕ × ℕ) (key_experiment option : ℕ)
    → IsReachable spdk
    → IsGateway option
    → c.num_io_threads ≤ 16
    → 6 < c.num_of_devices * c.num_of_targets
    → init_until_headers F c spdk zmalloc key_of sizes key_experiment option ≡ err out_of_bounds
unfolding init_until_headers
init_until_headers-overrun F c spdk zmalloc key_of sizes key_experiment option r known threads
      many =
    let (t, done, registered, six, number, size) =
      set_parameters-AreRegistered c spdk key_experiment option r known in
    rw (done, le→leb c.num_io_threads 16 threads)
      (rw
        (configure_qpairs-overrun c spdk t.devices 0 t.num_devices r (omega (arith, six))
          (omega (arith, six, number, many)))
        refl)
