-- ===== src/Gateway/Overlap.antt =====
-- Requests that wait for SPDK at the same time: awaitable_on_request of src/http_server.cc cut at its
-- co_await. What comes before it is one step, and what comes after it another; in between, other requests
-- take steps of their own. A listing, a request for an object larger than a chunk and every request that
-- waits for nothing is one step.
pub mod Alone
pub mod Counted
pub mod Atomic
pub mod Begun
pub mod Methods
pub mod Finished
pub mod Linear
pub mod Moved
pub mod Serial
pub mod Drained
pub mod Tests
use mathlib.Core.Option
use zstore.Common.{
  ℕ, zero, suc, ◌+◌, ◌%◌, Bool, ltb, Option, none, some, List, [], ◌∷◌, get_elem?, if◌then◌else◌,
  codes, u64_mod, Result, ok, err, assertion, null_pointer, guard, ◌>>=◌, ◌>>◌,
}
use zstore.Conf.{Conf}
use zstore.Device.{Device}
use zstore.Hash.{KeyHash, compute_sha256}
use zstore.Http.{
  HttpRequest, HttpResponse, get, put, post, delete, head, other, parse_url, handle_request,
  handle_not_found_request,
}
use zstore.Object.Log.{write_zstore_object_to_buffer}
use zstore.Request.{deref, make_read_request, make_write_request, zone_read_dummy, assign_body}
use zstore.Store.{MapEntry, DevTuple}
use zstore.Store.Map.{FlatMap, put_object}
use zstore.Store.DevHash.{create_fake_object, get_dev_tuple, get_dev_tuple_for_random_reads}
use zstore.Gateway.{
  Gateway, add_to_broadcast, get_device_by_id, find_entry, on_slot, finish_read, is_empty,
  delete_handler,
}
use zstore.Gateway.Chunked.{get_large_handler}
use zstore.Gateway.Put.{Surroundings, put_object_of, written_entry, await_writes, put_handler}
use zstore.Gateway.Session.{contains_text, handle_list_request}

-- A request at its co_await, with the contexts that it has taken: one for a GET, three for a PUT, which
-- also remembers the key, the tuple and the devices.
pub data Flight : Type 0 where
  reading : Surroundings → HttpRequest → ℕ → Flight
  writing :
      Surroundings
      → HttpRequest
      → KeyHash
      → DevTuple
      → Option Device × Option Device × Option Device
      → ℕ × ℕ × ℕ
      → Flight

pub data Outcome : Type 0 where
  answered : HttpResponse → Outcome
  waits : Flight → Outcome

module _ (F : FlatMap MapEntry) where
  -- A response at once.
  abbrev pub at_once : HttpResponse × Gateway F → Result (Outcome × Gateway F)
  at_once (msg, g) = ok (answered msg, g)

  pub begin_read :
      Conf → Surroundings → HttpRequest → Option MapEntry → Gateway F → Result (Outcome × Gateway F)
  begin_read c w req none g = ok (answered (handle_not_found_request req), g)
  begin_read c w req (some e) g = do
    (s, p) ←
        make_read_request c w.zmalloc (get_device_by_id F e.first.device_id g) e.first.lba e.len
          g.contexts
    ok (waits (reading w req s), record g { contexts = p })

  pub begin_get : Conf → Surroundings → HttpRequest → Gateway F → Result (Outcome × Gateway F)
  unfolding begin_read
  begin_get c w req g =
      let object_key = (parse_url req.target).1 in
      let key_hash = compute_sha256 w.digest object_key in
      let g1 = add_to_broadcast F key_hash g in
      if is_empty F object_key
      then ok (answered (handle_not_found_request req), g)
      else begin_read c w req (find_entry F c key_hash g1) g1

  pub begin_write :
      Conf → Surroundings → KeyHash → HttpRequest → Gateway F → Result (Outcome × Gateway F)
  begin_write c w key_hash req g = do
    tuple ←
        (if c.experimental
          then ok (get_dev_tuple_for_random_reads c)
          else get_dev_tuple w.rand g.dev_hash key_hash)
    let entry = create_fake_object tuple
    let dev1 = get_device_by_id F entry.first.device_id g
    let dev2 = get_device_by_id F entry.second.device_id g
    let dev3 = get_device_by_id F entry.third.device_id g
    guard (w.alloc c.object_size) null_pointer
    buffer ← write_zstore_object_to_buffer w.padding (put_object_of c w req)
    (s1, p1) ← make_write_request c w.zmalloc dev1 (w.header buffer) c.object_size g.contexts
    (s2, p2) ← make_write_request c w.zmalloc dev2 (w.header buffer) c.object_size p1
    (s3, p3) ← make_write_request c w.zmalloc dev3 (w.header buffer) c.object_size p2
    ok (
      waits (writing w req key_hash tuple (dev1, dev2, dev3) (s1, s2, s3)),
      record g { contexts = p3 },
    )

  pub begin_put : Conf → Surroundings → HttpRequest → Gateway F → Result (Outcome × Gateway F)
  unfolding begin_write
  begin_put c w req g =
      let object_key = (parse_url req.target).1 in
      let key_hash = compute_sha256 w.digest object_key in
      if is_empty F object_key
      then ok (answered (handle_request req), g)
      else begin_write c w key_hash req (add_to_broadcast F key_hash g)

  -- From the start of a request to its co_await.
  pub begin :
      Conf
      → Surroundings
      → (HttpRequest → HttpRequest)
      → MapEntry
      → HttpRequest
      → Gateway F
      → Result (Outcome × Gateway F)
  unfolding begin_get begin_put
  begin c w moved raw req g = elim req.method [
    | get ↦
        if contains_text (codes "max-keys=") req.target
        then (handle_list_request F req g >> at_once (handle_request (moved req), g))
        else if ltb c.chunk_size c.object_size
        then (get_large_handler F c w.zmalloc w.filled w.string_object w.digest req g >>= at_once)
        else begin_get c w req g
    | put ↦
        if ltb c.chunk_size c.object_size
        then (put_handler F c w req g >>= at_once)
        else begin_put c w req g
    | post ↦
        if ltb c.chunk_size c.object_size
        then (put_handler F c w req g >>= at_once)
        else begin_put c w req g
    | delete ↦ at_once (delete_handler F raw w.digest req g)
    | head ↦ at_once (handle_request req, g)
    | other ↦ at_once (handle_request req, g)
  ]

  -- From the answer of SPDK to the response. The answers to the three appends of a PUT come together: they
  -- change its own contexts only.
  pub finish : Flight → Gateway F → Result (HttpResponse × Gateway F)
  unfolding written_entry
  finish (reading w req s) g = do
    (r, p1) ← on_slot F s zone_read_dummy g.contexts
    guard r.success assertion
    (r', p2) ← on_slot F s assign_body p1
    p3 ← finish_read F s p2
    ok (
      handle_request (record req { body = r'.response_body }),
      record g { contexts = p3; total_counts = (g.total_counts + 1) % u64_mod },
    )
  finish (writing w req key_hash tuple (dev1, dev2, dev3) (s1, s2, s3)) g = do
    (lba, contexts) ← await_writes F w s1 s2 s3 g.contexts
    d1 ← deref dev1
    d2 ← deref dev2
    d3 ← deref dev3
    ok (
      handle_request req,
      record g {
        contexts = contexts;
        total_counts = (g.total_counts + 3) % u64_mod;
        objects =
            (put_object F key_hash (written_entry tuple d1 d2 d3 (lba, lba, lba)) g.objects).0;
      },
    )

-- The requests that wait, the latest first, and the responses so far with their requests.
pub record Server (F : FlatMap MapEntry) : Type 0 where
  pub gateway : Gateway F
  pub flights : List Flight
  pub responses : List (Surroundings × HttpRequest × HttpResponse)

-- A request arrives, or the request at a place in the list goes on.
pub data Move : Type 0 where
  arrive : Surroundings → HttpRequest → Move
  resume : ℕ → Move

abbrev pub request_of : Flight → Surroundings × HttpRequest
request_of (reading w req s) = (w, req)
request_of (writing w req k t devices slots) = (w, req)

pub remove_at : {A : Type 0} → ℕ → List A → List A
remove_at j [] = []
remove_at zero (x ∷ xs) = xs
remove_at (suc j) (x ∷ xs) = x ∷ remove_at j xs

module _ (F : FlatMap MapEntry) (c : Conf) (moved : HttpRequest → HttpRequest)
    (raw : MapEntry) where
  abbrev settle : Surroundings → HttpRequest → Server F → Outcome × Gateway F → Server F
  settle w req σ (answered msg, g) = record σ {
    gateway = g;
    responses = (w, req, msg) ∷ σ.responses;
  }
  settle w req σ (waits f, g) = record σ { gateway = g; flights = f ∷ σ.flights }

  -- Where no request is at that place, nothing happens.
  pub move : Move → Server F → Result (Server F)
  unfolding begin finish remove_at
  move (arrive w req) σ = begin F c w moved raw req σ.gateway >>= λ o. ok (settle w req σ o)
  move (resume j) σ = elim (get_elem? σ.flights j) [
    | none ↦ ok σ
    | some f ↦ finish F f σ.gateway >>= λ (msg, g). ok (record σ {
      gateway = g;
      flights = remove_at j σ.flights;
      responses = ((request_of f).0, (request_of f).1, msg) ∷ σ.responses;
    })
  ]

  pub moves : List Move → Server F → Result (Server F)
  unfolding move
  moves [] σ = ok σ
  moves (m ∷ ms) σ = move m σ >>= moves ms
