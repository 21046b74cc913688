-- ===== src/Checkpoint/Collect.antt =====
-- The garbage collection of Checkpoint (src/zstore_controller.cc) against what is held of the pool.
use mathlib.Core.Path.{subst}
use zstore.Common.{
  ℕ, ◌≤◌, ◌<◌, ◌≡◌, refl, ◌∙◌, false, none, some, List, [], ◌∷◌, length, arith, ◌==◌, ==_sym,
  le→ltb_false, ok,
}
use zstore.Conf.{Conf}
use zstore.Device.{Device}
use zstore.Pool.{RequestContext, Pool, write, buffer_size_of, return_request_context, clear_context}
use zstore.Pool.Held.{Held, IsOwned}
use zstore.Pool.Held.Many.{
  AreHeld, AreHeld-kept, AreHeld-shift, AreHeld-besides, AreHeld-free, ne_of_free, clear-return,
}
use zstore.Request.{Completion, zone_read, zone_append, make_write_chunk}
use zstore.Request.Owned.{write_here, make_read_request-IsRequested, make_write_chunk-IsRequested}
use zstore.Store.{MapEntry, Location}
use zstore.Store.Map.{FlatMap}
use zstore.Gateway.Put.Conditions.{IsSized}
use zstore.Checkpoint.{read_requests, write_requests, collect_garbage, map2_gc}
use zstore.Checkpoint.Batches.{run_batches-await_group}
use zstore.Checkpoint.Holding.{
  IsHoldingAll, await_group-IsHoldingAll, return_all-IsOwned, zone_read-IsTotal,
  zone_append-IsTotal,
}

read_requests-IsHoldingAll :
    (F : FlatMap MapEntry) (c : Conf) (zmalloc : ℕ → List ℕ) (dev : Device)
    (moves : List (Location × ℕ)) (p : Pool) (h : Held)
    → ((n : ℕ) → length (zmalloc n) ≡ n)
    → 0 < c.block_size
    → IsOwned c p h
    → (ss : List ℕ) × (q : Pool) × (read_requests F c zmalloc (some dev) moves p ≡ ok (ss, q))
      × IsHoldingAll c h ss q
unfolding read_requests AreHeld
read_requests-IsHoldingAll F c zmalloc dev [] p h spec pos o =
    ([], p, refl, record { held = h; owned = o; each = refl })
read_requests-IsHoldingAll F c zmalloc dev ((loc, len) ∷ moves) p h spec pos o =
    let m = make_read_request-IsRequested c zmalloc dev loc.lba c.object_size p h spec pos o in
    let (ss, q, e, k) =
      read_requests-IsHoldingAll F c zmalloc dev moves m.contexts (write h m.slot (some m.context))
        spec pos m.owned in
    (
      m.slot ∷ ss,
      q,
      rw m.returns (rw e refl),
      record { held = k.held; owned = k.owned; each = (m.free, m.context, m.has_ctrl, k.each) },
    )

-- One round of the second loop: a write is made of a read, which goes back.
turned :
    (c : Conf) (h held : Held) (s t : ℕ) (ss : List ℕ) (r x : RequestContext)
    → h s ≡ none
    → AreHeld (write h s (some r)) ss held
    → held t ≡ none
    → (h t ≡ none) × AreHeld (write h t (some x)) ss (write (write held t (some x)) s none)
turned c h held s t ss r x free a none_there =
    let here = AreHeld-kept (write h s (some r)) held ss s r a (write_here h s (some r)) in
    let ne : (t == s) ≡ false = ne_of_free held s t r here none_there in
    let free_t = AreHeld-free (write h s (some r)) held ss t a none_there in
    let both = AreHeld-besides (write h s (some r)) held ss t x a none_there in
    let shifted =
      AreHeld-shift (write (write h s (some r)) t (some x)) (write held t (some x)) ss s r none both
        (rw ne (write_here h s (some r))) in
    let base : write (write (write h s (some r)) t (some x)) s none ≡ write h t (some x) = λ i u.
      (let k : write (write (write h s (some r)) t (some x)) s none u ≡ write h t (some x) u =
          ground (arith, free, ne) in
        k i) in
    (
      rw (==_sym t s ne) at free_t,
      subst (λ y. AreHeld y ss (write (write held t (some x)) s none)) base shifted,
    )

write_requests-round :
    (F : FlatMap MapEntry) (c : Conf) (zmalloc : ℕ → List ℕ) (dev : Device) (s t : ℕ)
    (ss ts : List ℕ) (r : RequestContext) (p p1 p2 p3 q : Pool)
    → p.memory s ≡ some r
    → make_write_chunk c zmalloc (some dev) r.data_buffer c.object_size p ≡ ok (t, p1)
    → clear_context s p1 ≡ ok p2
    → return_request_context s p2 ≡ ok p3
    → write_requests F c zmalloc (some dev) ss p3 ≡ ok (ts, q)
    → write_requests F c zmalloc (some dev) (s ∷ ss) p ≡ ok (t ∷ ts, q)
unfolding write_requests
write_requests-round F c zmalloc dev s t ss ts r p p1 p2 p3 q cell e0 e1 e2 e =
    rw cell (rw e0 (rw e1 (rw e2 (rw e refl))))

write_requests-IsHoldingAll :
    (F : FlatMap MapEntry) (c : Conf) (zmalloc : ℕ → List ℕ) (dev : Device) (h : Held) (ss : List ℕ)
    (p : Pool)
    → ((n : ℕ) → length (zmalloc n) ≡ n)
    → IsSized c
    → IsHoldingAll c h ss p
    → (ts : List ℕ) × (q : Pool) × (write_requests F c zmalloc (some dev) ss p ≡ ok (ts, q))
      × IsHoldingAll c h ts q
unfolding write_requests AreHeld buffer_size_of
write_requests-IsHoldingAll F c zmalloc dev h [] p spec sized k = ([], p, refl, k)
write_requests-IsHoldingAll F c zmalloc dev h (s ∷ ss) p spec sized k =
    let (free, r, ctrl, a) = k.each in
    let here : k.held s ≡ some r =
      AreHeld-kept (write h s (some r)) k.held ss s r a (write_here h s (some r)) in
    let cell = k.owned.alive s r here in
    let (full, size) = k.owned.buffered s r cell in
    let whole : buffer_size_of c ≡ c.object_size =
      rw (le→ltb_false c.chunk_size c.object_size sized.one_chunk) refl in
    let room : c.object_size ≤ length r.data_buffer = omega (arith, full, size ∙ whole) in
    let m =
      make_write_chunk-IsRequested c zmalloc dev r.data_buffer p k.held spec sized.block_pos
        sized.one_chunk sized.object_u32 room k.owned in
    let there : write k.held m.slot (some m.context) s ≡ some r =
      rw (ne_of_free k.held s m.slot r here m.free) here in
    let (p3, p2, e1, e2, o3) =
      clear-return c m.contexts (write k.held m.slot (some m.context)) s r m.owned there in
    let (free_t, a') = turned c h k.held s m.slot ss r m.context free a m.free in
    let (ts, q, e, k') =
      write_requests-IsHoldingAll F c zmalloc dev (write h m.slot (some m.context)) ss p3 spec sized
        (record {
          held = write (write k.held m.slot (some m.context)) s none;
          owned = o3;
          each = a';
        }) in
    (
      m.slot ∷ ts,
      q,
      write_requests-round F c zmalloc dev s m.slot ss ts r p m.contexts p2 p3 q cell m.returns e1
          e2 e,
      record { held = k'.held; owned = k'.owned; each = (free_t, m.context, m.has_ctrl, k'.each) },
    )

-- A garbage collection of any map runs to its end on a device that is there, in rounds of batches, and
-- gives back every context that it took: what is held of the pool is what was held before. The
-- conditions: the sizes fit, the memory is there, and SPDK fills a whole buffer for each read.
pub collect_garbage-IsOwned :
    (F : FlatMap MapEntry) (c : Conf) (zmalloc : ℕ → List ℕ) (dev : Device) (filled : ℕ → List ℕ)
    (answers : ℕ → Completion) (m : F.Carrier) (p : Pool) (h : Held)
    → IsSized c
    → ((n : ℕ) → length (zmalloc n) ≡ n)
    → ((s : ℕ) → length (filled s) ≡ buffer_size_of c)
    → IsOwned c p h
    → (q : Pool) × (collect_garbage F c zmalloc (some dev) filled answers m p ≡ ok q)
      × IsOwned c q h
unfolding collect_garbage
collect_garbage-IsOwned F c zmalloc dev filled answers m p h sized spec size o =
    let (reads, p1, e1, k1) =
      read_requests-IsHoldingAll F c zmalloc dev (map2_gc (F.visit_all m)).1 p h spec
        sized.block_pos o in
    let (p2, e2, k2) =
      await_group-IsHoldingAll F c (λ s. zone_read (filled s)) h reads p1
        (zone_read-IsTotal c filled size) k1 in
    let (writes, p3, e3, k3) =
      write_requests-IsHoldingAll F c zmalloc dev h reads p2 spec sized k2 in
    let (p4, e4, k4) =
      await_group-IsHoldingAll F c (λ s. zone_append (answers s)) h writes p3
        (zone_append-IsTotal c answers) k3 in
    let (q, e5, o5) = return_all-IsOwned F c h writes p4 k4 in
    (
      q,
      rw e1 (
          rw (run_batches-await_group F (λ s. zone_read (filled s)) reads p1 ∙ e2) (
            rw e3
              (rw (run_batches-await_group F (λ s. zone_append (answers s)) writes p3 ∙ e4) e5))),
      o5,
    )
