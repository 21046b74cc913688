-- ===== src/Gateway/Chunked.antt =====
-- GET in awaitable_on_request (src/http_server.cc) where an object is larger than a chunk: the entry is read
-- as if it were small, the std::string object of the response body is taken for the chunk list, and each chunk is read into a context of its
-- own. mergeChunksIntoObject has an empty body.
pub mod Echoed
mod Tests
use zstore.Common.{
  ℕ, zero, suc, ◌+◌, ◌/◌, ◌%◌, u64_mod, not, Bool, Option, none, some, List, [], ◌∷◌, length, ◌==◌,
  if◌then◌else◌, Result, ok, err, assertion, exception, guard, ◌>>=◌, ◌>>◌,
}
use zstore.Conf.{Conf}
use zstore.Device.{Device}
use zstore.Hash.{KeyHash, compute_sha256}
use zstore.Http.{HttpRequest, HttpResponse, parse_url, handle_request, handle_not_found_request}
use zstore.Object.ChunkList.{Chunk, deserialize_map, deserialize_dummy_map}
use zstore.Pool.{Pool}
use zstore.Request.{make_read_request, zone_read, zone_read_dummy, assign_body}
use zstore.Store.{MapEntry}
use zstore.Store.Map.{FlatMap}
use zstore.Checkpoint.{await_group, return_all}
use zstore.Gateway.{
  Gateway, add_to_broadcast, get_device_by_id, find_entry, on_slot, finish_read, is_empty,
}

-- `chunk_list_read[i]`: a number that is not in the list gets an entry of zeros.
pub chunk_lba : ℕ → List Chunk → ℕ
chunk_lba i [] = 0
chunk_lba i (d ∷ ds) = if d.key == i then d.lba else chunk_lba i ds

-- In an experiment the list is made up. Else it is read from `&s1->response_body`, the address of the
-- std::string object itself: `string_object body` is its memory.
pub read_chunk_list : Conf → ℕ → (List ℕ → List ℕ) → List ℕ → Result (List Chunk)
read_chunk_list c num_chunks string_object body =
    if c.experimental
    then ok (deserialize_dummy_map c num_chunks)
    else deserialize_map (string_object body)

-- The requests for the `n` chunks from number `i` on.
pub chunk_reads :
    Conf → (ℕ → List ℕ) → Option Device → ℕ → List Chunk → ℕ → ℕ → Pool → Result (List ℕ × Pool)
unfolding chunk_lba
chunk_reads c zmalloc dev len chunks i zero p = ok ([], p)
chunk_reads c zmalloc dev len chunks i (suc n) p = do
  (s, p1) ← make_read_request c zmalloc dev (chunk_lba i chunks) len p
  (ss, p2) ← chunk_reads c zmalloc dev len chunks (suc i) n p1
  ok (s ∷ ss, p2)

module _ (F : FlatMap MapEntry) where
  -- `filled s` is what SPDK reads into the context `s`.
  pub read_chunks :
      Conf
      → (ℕ → List ℕ)
      → (ℕ → List ℕ)
      → (List ℕ → List ℕ)
      → MapEntry
      → Gateway F
      → Result (Gateway F)
  unfolding read_chunk_list chunk_reads
  read_chunks c zmalloc filled string_object e g = do
    let dev = get_device_by_id F e.first.device_id g
    (s, p) ← make_read_request c zmalloc dev e.first.lba e.len g.contexts
    (r, p1) ← on_slot F s zone_read_dummy p
    guard r.success assertion
    (r', p2) ← on_slot F s assign_body p1
    guard (not (c.chunk_size == 0)) exception
    let num_chunks = c.object_size / c.chunk_size
    chunks ← read_chunk_list c num_chunks string_object r'.response_body
    p3 ← finish_read F s p2
    (ss, p4) ← chunk_reads c zmalloc dev e.len chunks 0 num_chunks p3
    p5 ← await_group F (λ t. zone_read (filled t)) ss p4
    p6 ← return_all F ss p5
    ok (record g { contexts = p6; total_counts = (g.total_counts + 1 + num_chunks) % u64_mod })

  unfoldable pub answer_large :
      Conf
      → (ℕ → List ℕ)
      → (ℕ → List ℕ)
      → (List ℕ → List ℕ)
      → HttpRequest
      → Option MapEntry
      → Gateway F
      → Result (HttpResponse × Gateway F)
  unfolding read_chunks
  answer_large c zmalloc filled string_object req none g = ok (handle_not_found_request req, g)
  answer_large c zmalloc filled string_object req (some e) g = do
    g' ← read_chunks c zmalloc filled string_object e g
    ok (handle_request req, g')

  unfoldable pub get_large_handler :
      Conf
      → (ℕ → List ℕ)
      → (ℕ → List ℕ)
      → (List ℕ → List ℕ)
      → (List ℕ → KeyHash)
      → HttpRequest
      → Gateway F
      → Result (HttpResponse × Gateway F)
  unfolding answer_large
  get_large_handler c zmalloc filled string_object digest req g =
      let object_key = (parse_url req.target).1 in
      let key_hash = compute_sha256 digest object_key in
      let g1 = add_to_broadcast F key_hash g in
      if is_empty F object_key
      then ok (handle_not_found_request req, g)
      else answer_large c zmalloc filled string_object req (find_entry F c key_hash g1) g1
