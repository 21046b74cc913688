-- ===== src/Gateway/Put/Large.antt =====
-- The branch of awaitable_on_request (src/http_server.cc) that writes an object larger than a chunk: the
-- appends of the chunks, and of the list of the chunks.
pub mod Asserts
use zstore.Common.{
  ℕ, zero, suc, ◌+◌, ◌/◌, ◌%◌, Bool, ◌&&◌, Option, none, some, List, [], ◌∷◌, ◌++◌, take, drop,
  get_elem?, length, ltb, not, ◌==◌, u32_mod, Result, ok, err, assertion, null_pointer,
  out_of_bounds, exception, guard, ◌>>=◌, ◌>>◌, if◌then◌else◌,
}
use zstore.Conf.{Conf}
use zstore.Device.{Device}
use zstore.Object.{ZstoreObject, Body, block, null, dangling}
use zstore.Object.ChunkList.{Chunk, insert, serialize_map}
use zstore.Object.Split.{split_object_into_chunks}
use zstore.Pool.{RequestContext, Pool}
use zstore.Request.{Completion, make_write_chunk, zone_append}
use zstore.Store.{MapEntry}
use zstore.Store.Map.{FlatMap}
use zstore.Gateway.{on_slot, finish_writes}
use zstore.Checkpoint.{await_group, return_all}

-- `fresh` is what the malloc of serializeMap returns, `answers s` what SPDK answers to the append in the
-- context `s`.
pub record LargeWrite : Type 0 where
  pub zmalloc : ℕ → List ℕ
  pub raw : List ℕ
  pub raw' : List ℕ
  pub fresh : List ℕ
  pub answers : ℕ → Completion

-- The memory that `buffer = (char *)chunk.body` points to.
pub pointed : Body → Result (List ℕ)
pointed null = err null_pointer
pointed dangling = err out_of_bounds
pointed (block b) = ok b

-- A buffer is written to the three devices.
pub write_three :
    Conf
    → (ℕ → List ℕ)
    → Option Device
    → Option Device
    → Option Device
    → List ℕ
    → Pool
    → Result ((ℕ × ℕ × ℕ) × Pool)
write_three c zmalloc dev1 dev2 dev3 buffer p = do
  (s1, p1) ← make_write_chunk c zmalloc dev1 buffer c.object_size p
  (s2, p2) ← make_write_chunk c zmalloc dev2 buffer c.object_size p1
  (s3, p3) ← make_write_chunk c zmalloc dev3 buffer c.object_size p2
  ok ((s1, s2, s3), p3)

-- The requests for `n` chunks; `chunk_vec[i]` past the end is out of bounds. In the end `buffer` points to
-- the last chunk.
pub chunk_writes :
    Conf
    → (ℕ → List ℕ)
    → Option Device
    → Option Device
    → Option Device
    → ℕ
    → List ZstoreObject
    → List ℕ
    → Pool
    → Result (List ℕ × List ℕ × Pool)
unfolding pointed write_three
chunk_writes c zmalloc dev1 dev2 dev3 zero chunks buffer p = ok ([], buffer, p)
chunk_writes c zmalloc dev1 dev2 dev3 (suc n) [] buffer p = err out_of_bounds
chunk_writes c zmalloc dev1 dev2 dev3 (suc n) (chunk ∷ chunks) buffer p = do
  b ← pointed chunk.body
  ((s1, s2, s3), p1) ← write_three c zmalloc dev1 dev2 dev3 b p
  (ss, last, p2) ← chunk_writes c zmalloc dev1 dev2 dev3 n chunks b p1
  ok (s1 ∷ s2 ∷ s3 ∷ ss, last, p2)

-- The chunk list from number `i` on: `n` contexts are read, which are cleared and given back by then.
list_chunks : ℕ → ℕ → List ℕ → Pool → List Chunk → Result (List Chunk)
list_chunks i zero reqs p chunk_list = ok chunk_list
list_chunks i (suc n) reqs p chunk_list = elim (get_elem? reqs i) [
  | none ↦ err out_of_bounds
  | some s ↦ elim (p.memory s) [
    | none ↦ err null_pointer
    | some r ↦ list_chunks (suc i) n reqs p (
        insert (record { key = i; lba = i; len = if r.success then r.append_lba % u32_mod else 42 })
          chunk_list)
  ]
]

-- `memcpy(buffer, list, chunk size)`
overwrite : Conf → List ℕ → List ℕ → Result (List ℕ)
overwrite c list buffer =
    if ltb (length buffer) c.chunk_size
    then err out_of_bounds
    else ok (take c.chunk_size list ++ drop c.chunk_size buffer)

module _ (F : FlatMap MapEntry) where
  pub put_large :
      Conf
      → LargeWrite
      → Option Device
      → Option Device
      → Option Device
      → ZstoreObject
      → Pool
      → Result ((ℕ × ℕ × ℕ) × Pool)
  unfolding chunk_writes list_chunks overwrite write_three
  put_large c w dev1 dev2 dev3 obj p = do
    chunks ← split_object_into_chunks c w.raw w.raw' obj
    (reqs, buffer, p1) ←
        chunk_writes c w.zmalloc dev1 dev2 dev3 (c.object_size / c.chunk_size) chunks
          (w.zmalloc c.object_size) p
    p2 ← await_group F (λ s. zone_append (w.answers s)) reqs p1
    p3 ← return_all F reqs p2
    chunk_list ← list_chunks 0 (c.object_size / c.chunk_size) reqs p3 []
    bytes ← serialize_map c w.fresh chunk_list
    buffer' ← overwrite c bytes buffer
    ((s1, s2, s3), p4) ← write_three c w.zmalloc dev1 dev2 dev3 buffer' p3
    (r1, p5) ← on_slot F s1 (zone_append (w.answers s1)) p4
    (r2, p6) ← on_slot F s2 (zone_append (w.answers s2)) p5
    (r3, p7) ← on_slot F s3 (zone_append (w.answers s3)) p6
    guard (r1.success && (r2.success && r3.success)) assertion
    p8 ← finish_writes s1 s2 s3 p7
    ok ((r1.append_lba, r2.append_lba, r3.append_lba), p8)
