-- ===== src/Gateway.antt =====
-- The request handler of a gateway, awaitable_on_request (src/http_server.cc): its state, GET and
-- DELETE, with AddToBroadcast and GetDeviceById of the controller (src/zstore_controller.cc and
-- src/include/zstore_controller.h). GET of larger objects is in Gateway.Chunked. `Conf::IsReplay()` and
-- `Conf::IsDebugging()` are false, as src/include/configuration.h sets them. Between a request to a
-- device and its answer other requests may run; the model lets the answer come at once.
pub mod Chunked
pub mod Lookup
pub mod Put
pub mod Serving
pub mod Session
pub mod Overlap
pub mod Tests
use zstore.Common.{
  ℕ, ◌+◌, ◌-◌, ◌*◌, ◌%◌, Bool, true, false, not, Option, none, some, List, [], ◌∷◌, get_elem?, ltb,
  ◌==◌, if◌then◌else◌, u32_mod, u64_mod, Result, ok, err, assertion, null_pointer, exception, guard,
  ◌>>=◌, ◌>>◌,
}
use zstore.Conf.{Conf}
use zstore.Device.{Device}
use zstore.Hash.{KeyHash, key_eq, compute_sha256}
use zstore.Http.{
  HttpRequest, HttpResponse, get, parse_url, handle_request, handle_not_found_request,
}
use zstore.Pool.{RequestContext, Pool, write, return_request_context, clear_context}
use zstore.Store.{DevTuple, MapEntry, Location, create_map_entry}
use zstore.Store.Map.{FlatMap, get_object, delete_object}
use zstore.Store.DevHash.{get_dev_tuple_for_random_reads}
use zstore.Request.{make_read_request, zone_read_dummy, assign_body}

-- `broadcast` lists the keys of the set, the newest first.
pub record Gateway (F : FlatMap MapEntry) : Type 0 where
  pub objects : F.Carrier
  pub contexts : Pool
  pub devices : List Device
  pub dev_hash : List DevTuple
  pub broadcast : List KeyHash
  pub total_counts : ℕ

pub contains : KeyHash → List KeyHash → Bool
contains k [] = false
contains k (j ∷ js) = if key_eq k j then true else contains k js

-- The three contexts are cleared, then they go back.
pub finish_writes : ℕ → ℕ → ℕ → Pool → Result Pool
finish_writes s1 s2 s3 p = do
  p1 ← clear_context s1 p
  p2 ← clear_context s2 p1
  p3 ← clear_context s3 p2
  p4 ← return_request_context s1 p3
  p5 ← return_request_context s2 p4
  return_request_context s3 p5

module _ (F : FlatMap MapEntry) where
  pub add_to_broadcast : KeyHash → Gateway F → Gateway F
  add_to_broadcast k g =
      if contains k g.broadcast then g else record g { broadcast = k ∷ g.broadcast }

  -- Past the end of the vector the answer is the null pointer.
  unfoldable pub get_device_by_id : ℕ → Gateway F → Option Device
  get_device_by_id index g = get_elem? g.devices index

  -- The entry that an experiment makes up for a key that is not in the map.
  pub fake_entry : Conf → Gateway F → MapEntry
  fake_entry c g =
      create_map_entry (get_dev_tuple_for_random_reads c)
        ((g.total_counts + (u64_mod - 1)) % u64_mod) g.total_counts ((g.total_counts + 1) % u64_mod)
        1

  pub find_entry : Conf → KeyHash → Gateway F → Option MapEntry
  unfolding fake_entry
  find_entry c k g = elim (get_object F k g.objects) [
    | some e ↦ some e
    | none ↦ if c.experimental then some (fake_entry c g) else none
  ]

  -- An operation on the context at an address.
  pub on_slot : ℕ → (RequestContext → Result RequestContext) → Pool → Result (RequestContext × Pool)
  on_slot s op p = elim (p.memory s) [
    | none ↦ err null_pointer
    | some r ↦ op r >>= λ r'. ok (r', record p { memory = write p.memory s (some r') })
  ]

  -- The context is cleared and goes back.
  pub finish_read : ℕ → Pool → Result Pool
  finish_read s p = clear_context s p >>= return_request_context s

  -- The first replica is read, the buffer becomes the body of the request, and the context goes back.
  pub read_entry : Conf → (ℕ → List ℕ) → MapEntry → Gateway F → Result (List ℕ × Gateway F)
  unfolding on_slot get_device_by_id finish_read
  read_entry c zmalloc e g = do
    (s, p) ←
        make_read_request c zmalloc (get_device_by_id e.first.device_id g) e.first.lba e.len
          g.contexts
    (r, p1) ← on_slot s zone_read_dummy p
    guard r.success assertion
    (r', p2) ← on_slot s assign_body p1
    p3 ← finish_read s p2
    ok (r'.response_body, record g { contexts = p3; total_counts = (g.total_counts + 1) % u64_mod })

  pub is_empty : List ℕ → Bool
  is_empty [] = true
  is_empty (c ∷ cs) = false

  -- The answer once the entry is known.
  pub answer_entry :
      Conf
      → (ℕ → List ℕ)
      → HttpRequest
      → Option MapEntry
      → Gateway F
      → Result (HttpResponse × Gateway F)
  answer_entry c zmalloc req none g = ok (handle_not_found_request req, g)
  answer_entry c zmalloc req (some e) g = do
    (body, g') ← read_entry c zmalloc e g
    ok (handle_request (record req { body = body }), g')

  -- GET of a target that does not list a bucket, where an object is no larger than a chunk.
  pub get_handler :
      Conf
      → (ℕ → List ℕ)
      → (List ℕ → KeyHash)
      → HttpRequest
      → Gateway F
      → Result (HttpResponse × Gateway F)
  get_handler c zmalloc digest req g =
      let object_key = (parse_url req.target).1 in
      let key_hash = compute_sha256 digest object_key in
      let g1 = add_to_broadcast key_hash g in
      if is_empty object_key
      then ok (handle_not_found_request req, g)
      else answer_entry c zmalloc req (find_entry c key_hash g1) g1

  -- `raw` is what a local MapEntry holds before it is set.
  pub delete_handler :
      MapEntry → (List ℕ → KeyHash) → HttpRequest → Gateway F → HttpResponse × Gateway F
  delete_handler raw digest req g =
      let key_hash = compute_sha256 digest (parse_url req.target).1 in
      (handle_request req, record g { objects = (delete_object F raw key_hash g.objects).0 })
