-- ===== src/Checkpoint.antt =====
-- The checkpoint of src/zstore_controller.cc: Map2Tx and Map2Gc, and the garbage collection and the
-- writing of the map that Checkpoint runs on the leader. `answers s` is what SPDK leaves for the request in the
-- context `s`. The tasks of a parallel group run in the order in which they were made.
pub mod Round
pub mod Batches
pub mod Select
pub mod Holding
pub mod Collect
pub mod Persist
pub mod Tests
use mathlib.Core.Option
use zstore.Common.{
  ℕ, zero, suc, ◌+◌, ◌-◌, ◌*◌, ◌/◌, ◌%◌, min, Bool, true, false, not, ◌&&◌, ◌||◌, Option, none,
  some, List, [], ◌∷◌, ◌++◌, take, drop, replicate, length, ltb, leb, guard, ◌==◌, if◌then◌else◌,
  Result, ok, err, assertion, exception, out_of_bounds, null_pointer, ◌>>=◌, ◌>>◌,
}
use zstore.Conf.{Conf}
use zstore.Device.{Device}
use zstore.Hash.{KeyHash}
use zstore.Pool.{RequestContext, Pool, return_request_context, clear_context, buffer_size_of}
use zstore.Request.{Completion, make_read_request, make_write_chunk, zone_read, zone_append}
use zstore.Store.{MapEntry, Location}
use zstore.Store.Map.{FlatMap}
use zstore.Gateway.{on_slot}

abbrev pub max_concurrency : ℕ
max_concurrency = 256

-- `for (start = 0; start < reqs.size(); start += MAX_CONCURRENCY)`; `none` means that the fuel ran out.
pub batch_loop {ℓ} : {A : Type ℓ} → ℕ → ℕ → List A → Option (List (List A))
batch_loop zero start reqs = none
batch_loop (suc fuel) start reqs =
    let rest = batch_loop fuel (start + max_concurrency) reqs in
    let end = min (start + max_concurrency) (length reqs) in
    if ltb start (length reqs)
    then Option.map (λ bs. take (end - start) (drop start reqs) ∷ bs) rest
    else some []

-- The replica that a garbage collection of device 0 reads, of an entry that has one there.
pub surviving : MapEntry → Option Location
surviving e =
    if e.first.device_id == 0
    then some e.second
    else if e.second.device_id == 0
    then some e.third
    else if e.third.device_id == 0
    then some e.first
    else none

-- The visitor of Map2Gc: how many records are pushed to prunedObjects (all are the one buffer), and the
-- objects to move.
pub map2_gc : List (KeyHash × MapEntry) → ℕ × List (Location × ℕ)
unfolding surviving
map2_gc [] = (0, [])
map2_gc ((k, e) ∷ entries) =
    let (pruned, moves) = map2_gc entries in
    if e.tombstoned
    then (pruned, elim (surviving e) [ none ↦ moves | some loc ↦ (loc, e.len) ∷ moves ])
    else (suc pruned, moves)

-- The buffers of Map2Tx from number `i` on. `pointers` are the bytes of the vector of `total` pointers to
-- the one record, which is what the code copies; its offsets count pointers, of 8 bytes each.
pub tx_rounds : ℕ → ℕ → List ℕ → ℕ → ℕ → List (List ℕ)
tx_rounds buffer_size total pointers zero i = []
tx_rounds buffer_size total pointers (suc n) i =
    let copy_size = min buffer_size (total - i * buffer_size) in
    (take copy_size (drop (8 * (i * buffer_size)) pointers)
      ++ replicate (buffer_size - copy_size) 0)
    ∷ tx_rounds buffer_size total pointers n (suc i)

pub num_buffers : Conf → ℕ → ℕ
num_buffers c total = (total + buffer_size_of c - 1) / buffer_size_of c

pub map2_tx : Conf → List ℕ → ℕ → List (List ℕ)
unfolding tx_rounds num_buffers
map2_tx c pointers total = tx_rounds (buffer_size_of c) total pointers (num_buffers c total) 0

module _ (F : FlatMap MapEntry) where
  -- A group of tasks, one for each context.
  pub await_group : (ℕ → RequestContext → Result RequestContext) → List ℕ → Pool → Result Pool
  await_group op [] p = ok p
  await_group op (s ∷ ss) p = on_slot F s (op s) p >>= λ (r, q). await_group op ss q

  pub await_groups :
      (ℕ → RequestContext → Result RequestContext) → List (List ℕ) → Pool → Result Pool
  unfolding await_group
  await_groups op [] p = ok p
  await_groups op (batch ∷ batches) p = await_group op batch p >>= await_groups op batches

  -- The coroutine that runs the requests in batches.
  pub run_batches : (ℕ → RequestContext → Result RequestContext) → List ℕ → Pool → Result Pool
  unfolding batch_loop await_groups
  run_batches op reqs p = elim (batch_loop (suc (length reqs)) 0 reqs) [
    | none ↦ err exception
    | some batches ↦ await_groups op batches p
  ]

  -- `slot->Clear()` and ReturnRequestContext for each.
  pub return_all : List ℕ → Pool → Result Pool
  return_all [] p = ok p
  return_all (s ∷ ss) p = do
    p1 ← clear_context s p
    p2 ← return_request_context s p1
    return_all ss p2

  pub read_requests :
      Conf → (ℕ → List ℕ) → Option Device → List (Location × ℕ) → Pool → Result (List ℕ × Pool)
  read_requests c zmalloc dev [] p = ok ([], p)
  read_requests c zmalloc dev ((loc, len) ∷ moves) p = do
    (s, p1) ← make_read_request c zmalloc dev loc.lba c.object_size p
    (ss, p2) ← read_requests c zmalloc dev moves p1
    ok (s ∷ ss, p2)

  -- For each read a write of its buffer is made, and the read goes back.
  pub write_requests : Conf → (ℕ → List ℕ) → Option Device → List ℕ → Pool → Result (List ℕ × Pool)
  write_requests c zmalloc dev [] p = ok ([], p)
  write_requests c zmalloc dev (s ∷ ss) p = do
    r ← (elim (p.memory s) [ none ↦ err null_pointer | some r ↦ ok r ])
    (t, p1) ← make_write_chunk c zmalloc dev r.data_buffer c.object_size p
    p2 ← clear_context s p1
    p3 ← return_request_context s p2
    (ts, p4) ← write_requests c zmalloc dev ss p3
    ok (t ∷ ts, p4)

  -- The garbage collection from Map2Gc to the last context that goes back.
  pub collect_garbage :
      Conf
      → (ℕ → List ℕ)
      → Option Device
      → (ℕ → List ℕ)
      → (ℕ → Completion)
      → F.Carrier
      → Pool
      → Result Pool
  unfolding map2_gc read_requests run_batches write_requests return_all
  collect_garbage c zmalloc dev filled answers m p = do
    (reads, p1) ← read_requests c zmalloc dev (map2_gc (F.visit_all m)).1 p
    p2 ← run_batches (λ s. zone_read (filled s)) reads p1
    (writes, p3) ← write_requests c zmalloc dev reads p2
    p4 ← run_batches (λ s. zone_append (answers s)) writes p3
    return_all writes p4

  pub chunk_requests :
      Conf → (ℕ → List ℕ) → Option Device → List (List ℕ) → Pool → Result (List ℕ × Pool)
  chunk_requests c zmalloc dev [] p = ok ([], p)
  chunk_requests c zmalloc dev (buffer ∷ buffers) p = do
    (s, p1) ← make_write_chunk c zmalloc dev buffer c.object_size p
    (ss, p2) ← chunk_requests c zmalloc dev buffers p1
    ok (s ∷ ss, p2)

  -- The writing of the map, from Map2Tx to the last context that goes back.
  pub persist_map :
      Conf
      → (ℕ → List ℕ)
      → Option Device
      → ℕ
      → (ℕ → Completion)
      → List ℕ
      → F.Carrier
      → Pool
      → Result Pool
  unfolding map2_tx chunk_requests run_batches return_all
  persist_map c zmalloc dev context_pool_size answers pointers m p =
      let tx_map = map2_tx c pointers (length (F.visit_all m)) in
      (do
        guard (leb (length tx_map) context_pool_size) assertion
        (writes, p1) ← chunk_requests c zmalloc dev tx_map p
        p2 ← run_batches (λ s. zone_append (answers s)) writes p1
        return_all writes p2)
