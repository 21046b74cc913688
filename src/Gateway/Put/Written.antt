-- ===== src/Gateway/Put/Written.antt =====
-- The three appends of a PUT (src/http_server.cc) against what is held of the pool.
use mathlib.Core.Path.{subst}
use zstore.Common.{
  ℕ, ◌%◌, ◌<◌, ◌≤◌, ◌≡◌, refl, ◌∙◌, true, false, none, some, Option, List, length, Result, ok,
  ◌>>=◌, u32_mod, arith, ◌==◌, ==_refl, ==_sym,
}
use zstore.Conf.{Conf}
use zstore.Device.{Device}
use zstore.Pool.{RequestContext, Pool, write, clear, return_request_context, clear_context}
use zstore.Pool.Buffers.{IsBuffered}
use zstore.Pool.Held.{Held, IsOwned, refill}
use zstore.Pool.Held.Back.{refill-IsOwned, clear_context-IsOwned, return_request_context-IsOwned}
use zstore.Store.{MapEntry}
use zstore.Store.Map.{FlatMap}
use zstore.Request.{make_write_request, zone_append}
use zstore.Request.Answers.{appended, zone_append-appended}
use zstore.Request.Owned.{IsRequested, write_here, make_write_request-IsRequested}
use zstore.Gateway.{on_slot, finish_writes}
use zstore.Gateway.Put.{Surroundings, await_writes, write_replicas}

-- The pool while three contexts are held on top of `h`.
pub record IsHolding (c : Conf) (h : Held) (s1 s2 s3 : ℕ) (r1 r2 r3 : RequestContext) (p : Pool)
    : Type 0 where
  pub held : Held
  pub owned : IsOwned c p held
  pub first : held s1 ≡ some r1
  pub second : held s2 ≡ some r2
  pub third : held s3 ≡ some r3
  pub first_second : (s1 == s2) ≡ false
  pub second_third : (s2 == s3) ≡ false
  pub third_first : (s3 == s1) ≡ false
  pub free1 : h s1 ≡ none
  pub free2 : h s2 ≡ none
  pub free3 : h s3 ≡ none
  pub others : (t : ℕ) → (s1 == t) ≡ false → (s2 == t) ≡ false → (s3 == t) ≡ false → held t ≡ h t

-- The first of the three contexts changes; the other two are next.
turn :
    (c : Conf) (h : Held) (s1 s2 s3 : ℕ) (r1 r2 r3 x : RequestContext) (p : Pool)
    (k : IsHolding c h s1 s2 s3 r1 r2 r3 p)
    → IsOwned c (refill p s1 x) (write k.held s1 (some x))
    → IsHolding c h s2 s3 s1 r2 r3 x (refill p s1 x)
turn c h s1 s2 s3 r1 r2 r3 x p k o = record {
  held = write k.held s1 (some x);
  owned = o;
  first = rw k.first_second k.second;
  second = rw (==_sym s3 s1 k.third_first) k.third;
  third = write_here k.held s1 (some x);
  first_second = k.second_third;
  second_third = k.third_first;
  third_first = k.first_second;
  free1 = k.free2;
  free2 = k.free3;
  free3 = k.free1;
  others = λ t e2 e3 e1. rw e1 (k.others t e1 e2 e3);
}

-- An operation on the first of the three contexts, and on the next.
on_slot-IsHolding :
    (c : Conf) (F : FlatMap MapEntry) (op : RequestContext → Result RequestContext) (h : Held)
    (s1 s2 s3 : ℕ) (r1 r2 r3 x : RequestContext) (p : Pool)
    → IsHolding c h s1 s2 s3 r1 r2 r3 p
    → op r1 ≡ ok x
    → (IsBuffered c r1 → IsBuffered c x)
    → (on_slot F s1 op p ≡ ok (x, refill p s1 x)) × IsHolding c h s2 s3 s1 r2 r3 x (refill p s1 x)
unfolding on_slot
on_slot-IsHolding c F op h s1 s2 s3 r1 r2 r3 x p k e full =
    let cell : p.memory s1 ≡ some r1 = k.owned.alive s1 r1 k.first in
    (
      rw (cell, on_slot) (rw e refl),
      turn c h s1 s2 s3 r1 r2 r3 x p k
          (refill-IsOwned c p k.held s1 r1 x k.owned k.first (full (k.owned.buffered s1 r1 cell))),
    )

clear_context-IsHolding :
    (c : Conf) (h : Held) (s1 s2 s3 : ℕ) (r1 r2 r3 : RequestContext) (p : Pool)
    → IsHolding c h s1 s2 s3 r1 r2 r3 p
    → (clear_context s1 p ≡ ok (refill p s1 (clear r1)))
      × IsHolding c h s2 s3 s1 r2 r3 (clear r1) (refill p s1 (clear r1))
clear_context-IsHolding c h s1 s2 s3 r1 r2 r3 p k =
    let (e, o) = clear_context-IsOwned c p k.held s1 r1 k.owned k.first in
    (e, turn c h s1 s2 s3 r1 r2 r3 (clear r1) p k o)

-- With the three contexts taken off, what is held is what was held before.
write_off :
    (c : Conf) (h : Held) (s1 s2 s3 : ℕ) (r1 r2 r3 : RequestContext) (p : Pool)
    (k : IsHolding c h s1 s2 s3 r1 r2 r3 p)
    → write (write (write k.held s1 none) s2 none) s3 none ≡ h
write_off c h s1 s2 s3 r1 r2 r3 p k = λ i t.
    (let e : write (write (write k.held s1 none) s2 none) s3 none t ≡ h t =
        ground (arith, k.others t, k.free1, k.free2, k.free3) in
      e i)

-- The three returns, for contexts that are cleared.
returns-IsOwned :
    (c : Conf) (h : Held) (s1 s2 s3 : ℕ) (r1 r2 r3 : RequestContext) (p : Pool)
    → IsHolding c h s1 s2 s3 r1 r2 r3 p
    → r1.available ≡ true
    → r2.available ≡ true
    → r3.available ≡ true
    → (q : Pool) × ((return_request_context s1 p >>= λ p4.
          return_request_context s2 p4 >>= λ p5. return_request_context s3 p5)
        ≡ ok q)
      × IsOwned c q h
returns-IsOwned c h s1 s2 s3 r1 r2 r3 p k a1 a2 a3 =
    let (p4, e4, o4) = return_request_context-IsOwned c p k.held s1 r1 k.owned k.first a1 in
    let (p5, e5, o5) =
      return_request_context-IsOwned c p4 (write k.held s1 none) s2 r2 o4
        (rw k.first_second k.second) a2 in
    let (p6, e6, o6) =
      return_request_context-IsOwned c p5 (write (write k.held s1 none) s2 none) s3 r3 o5
        (rw (k.second_third, ==_sym s3 s1 k.third_first) k.third) a3 in
    (p6, rw e4 (rw e5 e6), subst (IsOwned c p6) (write_off c h s1 s2 s3 r1 r2 r3 p k) o6)

finish_writes-IsOwned :
    (c : Conf) (h : Held) (s1 s2 s3 : ℕ) (r1 r2 r3 : RequestContext) (p : Pool)
    → IsHolding c h s1 s2 s3 r1 r2 r3 p
    → (q : Pool) × (finish_writes s1 s2 s3 p ≡ ok q) × IsOwned c q h
unfolding finish_writes
finish_writes-IsOwned c h s1 s2 s3 r1 r2 r3 p k =
    let (e1, k1) = clear_context-IsHolding c h s1 s2 s3 r1 r2 r3 p k in
    let (e2, k2) = clear_context-IsHolding c h s2 s3 s1 r2 r3 (clear r1) _ k1 in
    let (e3, k3) = clear_context-IsHolding c h s3 s1 s2 r3 (clear r1) (clear r2) _ k2 in
    let (q, e, o) =
      returns-IsOwned c h s1 s2 s3 (clear r1) (clear r2) (clear r3) _ k3 (unfold clear in refl)
        (unfold clear in refl) (unfold clear in refl) in
    (q, rw e1 (rw e2 (rw e3 e)), o)

-- What the three appends and the three returns amount to.
pub await_writes-IsOwned :
    (c : Conf) (F : FlatMap MapEntry) (w : Surroundings) (h : Held) (s1 s2 s3 : ℕ)
    (r1 r2 r3 : RequestContext) (p : Pool)
    → IsHolding c h s1 s2 s3 r1 r2 r3 p
    → r1.has_ctrl ≡ true
    → r2.has_ctrl ≡ true
    → r3.has_ctrl ≡ true
    → (q : Pool) × (await_writes F w s1 s2 s3 p ≡ ok (w.first.cdw0 % u32_mod, q)) × IsOwned c q h
unfolding await_writes
await_writes-IsOwned c F w h s1 s2 s3 r1 r2 r3 p k c1 c2 c3 =
    let (e1, k1) =
      on_slot-IsHolding c F (zone_append w.first) h s1 s2 s3 r1 r2 r3 (appended w.first r1) p k
        (zone_append-appended w.first r1 c1) (λ b. b) in
    let (e2, k2) =
      on_slot-IsHolding c F (zone_append w.second) h s2 s3 s1 r2 r3 (appended w.first r1)
        (appended w.second r2) _ k1 (zone_append-appended w.second r2 c2) (λ b. b) in
    let (e3, k3) =
      on_slot-IsHolding c F (zone_append w.third) h s3 s1 s2 r3 (appended w.first r1)
        (appended w.second r2) (appended w.third r3) _ k2 (zone_append-appended w.third r3 c3)
        (λ b. b) in
    let (q, e, o) = finish_writes-IsOwned c h s1 s2 s3 _ _ _ _ k3 in
    (q, rw e1 (rw e2 (rw e3 (rw e refl))), o)

requested-IsHolding :
    (c : Conf) (d1 d2 d3 : Device) (h : Held) (m1 m2 m3 : Result (ℕ × Pool))
    (q1 : IsRequested c d1 0 h m1) (q2 : IsRequested c d2 0 (write h q1.slot (some q1.context)) m2)
    (q3 : IsRequested c d3 0
      (write (write h q1.slot (some q1.context)) q2.slot (some q2.context))
      m3)
    → IsHolding c h q1.slot q2.slot q3.slot q1.context q2.context q3.context q3.contexts
requested-IsHolding c d1 d2 d3 h m1 m2 m3 q1 q2 q3 =
    let f2 = q2.free in
    let f3 = q3.free in
    let n12 : (q1.slot == q2.slot) ≡ false = ground arith in
    let n23 : (q2.slot == q3.slot) ≡ false = ground arith in
    let n13 : (q1.slot == q3.slot) ≡ false = ground arith in
    record {
      held =
          write (write (write h q1.slot (some q1.context)) q2.slot (some q2.context)) q3.slot
            (some q3.context);
      owned = q3.owned;
      first = rw (==_sym q1.slot q3.slot n13, ==_sym q1.slot q2.slot n12, ==_refl q1.slot) refl;
      second = rw (==_sym q2.slot q3.slot n23, ==_refl q2.slot) refl;
      third = rw (==_refl q3.slot) refl;
      first_second = n12;
      second_third = n23;
      third_first = ==_sym q1.slot q3.slot n13;
      free1 = q1.free;
      free2 = rw n12 at f2;
      free3 = rw (n13, n23) at f3;
      others = λ t e1 e2 e3. rw (e1, e2, e3) refl;
    }

write_replicas-await_writes :
    (c : Conf) (F : FlatMap MapEntry) (w : Surroundings) (d1 d2 d3 : Option Device)
    (header : List ℕ) (p p1 p2 p3 : Pool) (s1 s2 s3 : ℕ)
    → make_write_request c w.zmalloc d1 header c.object_size p ≡ ok (s1, p1)
    → make_write_request c w.zmalloc d2 header c.object_size p1 ≡ ok (s2, p2)
    → make_write_request c w.zmalloc d3 header c.object_size p2 ≡ ok (s3, p3)
    → write_replicas F c w d1 d2 d3 header p ≡ await_writes F w s1 s2 s3 p3
unfolding write_replicas
write_replicas-await_writes c F w d1 d2 d3 header p p1 p2 p3 s1 s2 s3 e1 e2 e3 =
    rw e1 (rw e2 (rw e3 refl))

-- A PUT of the configured size to three devices of the gateway runs to its end, returns the address of
-- the first append, and gives back every context that it took.
pub write_replicas-IsOwned :
    (c : Conf) (F : FlatMap MapEntry) (w : Surroundings) (d1 d2 d3 : Device) (header : List ℕ)
    (p : Pool) (h : Held)
    → ((n : ℕ) → length (w.zmalloc n) ≡ n)
    → 0 < c.block_size
    → c.object_size ≤ c.chunk_size
    → c.object_size < u32_mod
    → 8 ≤ length header
    → 8 ≤ c.object_size
    → IsOwned c p h
    → (q : Pool) × (write_replicas F c w (some d1) (some d2) (some d3) header p
        ≡ ok (w.first.cdw0 % u32_mod, q))
      × IsOwned c q h
write_replicas-IsOwned c F w d1 d2 d3 header p h spec pos small word room fits o =
    let q1 =
      make_write_request-IsRequested c w.zmalloc d1 header p h spec pos small word room fits o in
    let q2 =
      make_write_request-IsRequested c w.zmalloc d2 header q1.contexts
        (write h q1.slot (some q1.context)) spec pos small word room fits q1.owned in
    let q3 =
      make_write_request-IsRequested c w.zmalloc d3 header q2.contexts
        (write (write h q1.slot (some q1.context)) q2.slot (some q2.context)) spec pos small word
        room fits q2.owned in
    let (q, e, o') =
      await_writes-IsOwned c F w h q1.slot q2.slot q3.slot q1.context q2.context q3.context
        q3.contexts (requested-IsHolding c d1 d2 d3 h _ _ _ q1 q2 q3) q1.has_ctrl q2.has_ctrl
        q3.has_ctrl in
    (
      q,
      write_replicas-await_writes c F w (some d1) (some d2) (some d3) header p _ _ _ _ _ _
            q1.returns q2.returns q3.returns
          ∙ e,
      o',
    )
