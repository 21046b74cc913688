-- ===== src/Checkpoint/Persist.antt =====
-- Map2Tx and the writing of the map in Checkpoint (src/zstore_controller.cc).
use zstore.Common.{
  ℕ, zero, suc, ◌+◌, ◌-◌, ◌*◌, ◌/◌, ◌≤◌, ◌≡◌, refl, ap, ◌∙◌, min, some, List, [], ◌∷◌, ◌++◌, take,
  drop, replicate, length, length-append, length-take, length-drop, length-replicate, All, arith,
  le→leb, le→ltb_false, ok,
}
use zstore.Conf.{Conf}
use zstore.Device.{Device}
use zstore.Pool.{Pool, write, buffer_size_of}
use zstore.Pool.Held.{Held, IsOwned}
use zstore.Pool.Held.Many.{AreHeld}
use zstore.Request.{Completion, zone_append}
use zstore.Request.Owned.{make_write_chunk-IsRequested}
use zstore.Store.{MapEntry}
use zstore.Store.Map.{FlatMap}
use zstore.Gateway.Put.Conditions.{IsSized}
use zstore.Checkpoint.{tx_rounds, num_buffers, map2_tx, chunk_requests, persist_map}
use zstore.Checkpoint.Batches.{run_batches-await_group}
use zstore.Checkpoint.Holding.{
  IsHoldingAll, await_group-IsHoldingAll, return_all-IsOwned, zone_append-IsTotal,
}

tx_rounds_lem :
    (size total : ℕ) (pointers : List ℕ) (n i : ℕ)
    → length pointers ≡ 8 * total
    → (length (tx_rounds size total pointers n i) ≡ n)
      × All (λ b. length b ≡ size) (tx_rounds size total pointers n i)
unfolding tx_rounds
tx_rounds_lem size total pointers zero i h = (refl, tt)
tx_rounds_lem size total pointers (suc n) i h =
    let (count, each) = tx_rounds_lem size total pointers n (suc i) h in
    let copy = min size (total - i * size) in
    let from = drop (8 * (i * size)) pointers in
    let full : length (take copy from ++ replicate (size - copy) 0) ≡ size = omega (
      arith,
      length-append (take copy from) (replicate (size - copy) 0),
      length-take copy from,
      length-drop (8 * (i * size)) pointers,
      length-replicate {A = ℕ} (size - copy) 0,
      h,
    ) in
    (ap suc count, (full, each))

-- Map2Tx makes as many buffers as the entries of the map divided by the buffer size, rounded up, and each
-- is as large as a buffer.
map2_tx_lem :
    (c : Conf) (pointers : List ℕ) (total : ℕ)
    → length pointers ≡ 8 * total
    → (length (map2_tx c pointers total) ≡ (total + buffer_size_of c - 1) / buffer_size_of c)
      × All (λ b. length b ≡ buffer_size_of c) (map2_tx c pointers total)
unfolding map2_tx num_buffers
map2_tx_lem c pointers total h =
    tx_rounds_lem (buffer_size_of c) total pointers (num_buffers c total) 0 h

chunk_requests-IsHoldingAll :
    (F : FlatMap MapEntry) (c : Conf) (zmalloc : ℕ → List ℕ) (dev : Device)
    (buffers : List (List ℕ)) (p : Pool) (h : Held)
    → ((n : ℕ) → length (zmalloc n) ≡ n)
    → IsSized c
    → All (λ b. length b ≡ buffer_size_of c) buffers
    → IsOwned c p h
    → (ss : List ℕ) × (q : Pool) × (chunk_requests F c zmalloc (some dev) buffers p ≡ ok (ss, q))
      × IsHoldingAll c h ss q
unfolding chunk_requests AreHeld buffer_size_of
chunk_requests-IsHoldingAll F c zmalloc dev [] p h spec sized all o =
    ([], p, refl, record { held = h; owned = o; each = refl })
chunk_requests-IsHoldingAll F c zmalloc dev (buffer ∷ buffers) p h spec sized (full, all) o =
    let whole : buffer_size_of c ≡ c.object_size =
      rw (le→ltb_false c.chunk_size c.object_size sized.one_chunk) refl in
    let m =
      make_write_chunk-IsRequested c zmalloc dev buffer p h spec sized.block_pos sized.one_chunk
        sized.object_u32 (omega (arith, full ∙ whole)) o in
    let (ss, q, e, k) =
      chunk_requests-IsHoldingAll F c zmalloc dev buffers m.contexts
        (write h m.slot (some m.context)) spec sized all m.owned in
    (
      m.slot ∷ ss,
      q,
      rw m.returns (rw e refl),
      record { held = k.held; owned = k.owned; each = (m.free, m.context, m.has_ctrl, k.each) },
    )

-- The writing of a map that needs no more buffers than the pool was made for runs to its end on a device
-- that is there, and gives back every context that it took. The conditions: the sizes fit, the memory is
-- there, and the vector has a pointer of 8 bytes for each entry.
pub persist_map-IsOwned :
    (F : FlatMap MapEntry) (c : Conf) (zmalloc : ℕ → List ℕ) (dev : Device) (size : ℕ)
    (answers : ℕ → Completion) (pointers : List ℕ) (m : F.Carrier) (p : Pool) (h : Held)
    → IsSized c
    → ((n : ℕ) → length (zmalloc n) ≡ n)
    → length pointers ≡ 8 * length (F.visit_all m)
    → num_buffers c (length (F.visit_all m)) ≤ size
    → IsOwned c p h
    → (q : Pool) × (persist_map F c zmalloc (some dev) size answers pointers m p ≡ ok q)
      × IsOwned c q h
unfolding persist_map num_buffers
persist_map-IsOwned F c zmalloc dev size answers pointers m p h sized spec bytes few o =
    let (count, all) = map2_tx_lem c pointers (length (F.visit_all m)) bytes in
    let (writes, p1, e1, k1) =
      chunk_requests-IsHoldingAll F c zmalloc dev (map2_tx c pointers (length (F.visit_all m))) p h
        spec sized all o in
    let (p2, e2, k2) =
      await_group-IsHoldingAll F c (λ s. zone_append (answers s)) h writes p1
        (zone_append-IsTotal c answers) k1 in
    let (q, e3, o3) = return_all-IsOwned F c h writes p2 k2 in
    (
      q,
      rw
          (le→leb (length (map2_tx c pointers (length (F.visit_all m)))) size
            (omega (arith, count, few)))
          (rw e1 (rw (run_batches-await_group F (λ s. zone_append (answers s)) writes p1 ∙ e2) e3)),
      o3,
    )
