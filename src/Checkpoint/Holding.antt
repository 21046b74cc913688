-- ===== src/Checkpoint/Holding.antt =====
-- A routine of Checkpoint (src/zstore_controller.cc) that holds several contexts of the pool.
use mathlib.Core.Path.{subst}
use zstore.Common.{ℕ, ◌≡◌, refl, sym, ◌∙◌, true, none, some, List, [], ◌∷◌, length, Result, ok}
use zstore.Conf.{Conf}
use zstore.Pool.{RequestContext, Pool, write, buffer_size_of}
use zstore.Pool.Buffers.{IsBuffered}
use zstore.Pool.Held.{Held, IsOwned, refill, write_twice}
use zstore.Pool.Held.Back.{refill-IsOwned}
use zstore.Pool.Held.Many.{AreHeld, AreHeld-kept, AreHeld-shift, write_back, clear-return}
use zstore.Request.{Completion, zone_read, zone_append}
use zstore.Request.Answers.{appended, zone_append-appended, zone_read_lem}
use zstore.Request.Owned.{write_here}
use zstore.Store.{MapEntry}
use zstore.Store.Map.{FlatMap}
use zstore.Gateway.Lookup.{on_slot-lent}
use zstore.Checkpoint.{await_group, return_all}

-- A routine holds the contexts `ss` of a pool, on top of `h`.
pub record IsHoldingAll (c : Conf) (h : Held) (ss : List ℕ) (p : Pool) : Type 0 where
  pub held : Held
  pub owned : IsOwned c p held
  pub each : AreHeld h ss held

-- An operation that any context with a controller and a buffer goes through.
abbrev IsTotal : Conf → (ℕ → RequestContext → Result RequestContext) → Type 0
IsTotal c op =
    (s : ℕ) (r : RequestContext)
    → r.has_ctrl ≡ true
    → IsBuffered c r
    → (x : RequestContext) × (op s r ≡ ok x) × (x.has_ctrl ≡ true) × IsBuffered c x

pub await_group-IsHoldingAll :
    (F : FlatMap MapEntry) (c : Conf) (op : ℕ → RequestContext → Result RequestContext) (h : Held)
    (ss : List ℕ) (p : Pool)
    → IsTotal c op
    → IsHoldingAll c h ss p
    → (q : Pool) × (await_group F op ss p ≡ ok q) × IsHoldingAll c h ss q
unfolding await_group AreHeld
await_group-IsHoldingAll F c op h [] p total k = (p, refl, k)
await_group-IsHoldingAll F c op h (s ∷ ss) p total k =
    let (free, r, ctrl, a) = k.each in
    let here : k.held s ≡ some r =
      AreHeld-kept (write h s (some r)) k.held ss s r a (write_here h s (some r)) in
    let cell = k.owned.alive s r here in
    let (x, e, ctrl', full) = total s r ctrl (k.owned.buffered s r cell) in
    let a' =
      subst (λ y. AreHeld y ss (write k.held s (some x))) (write_twice h s (some r) (some x))
        (AreHeld-shift (write h s (some r)) k.held ss s r (some x) a (write_here h s (some r))) in
    let (q, done, k') =
      await_group-IsHoldingAll F c op (write h s (some x)) ss (refill p s x) total (record {
        held = write k.held s (some x);
        owned = refill-IsOwned c p k.held s r x k.owned here full;
        each = a';
      }) in
    (
      q,
      rw (on_slot-lent F s (op s) p r x cell e) done,
      record { held = k'.held; owned = k'.owned; each = (free, x, ctrl', k'.each) },
    )

pub return_all-IsOwned :
    (F : FlatMap MapEntry) (c : Conf) (h : Held) (ss : List ℕ) (p : Pool)
    → IsHoldingAll c h ss p
    → (q : Pool) × (return_all F ss p ≡ ok q) × IsOwned c q h
unfolding return_all AreHeld
return_all-IsOwned F c h [] p k = (p, refl, subst (IsOwned c p) k.each k.owned)
return_all-IsOwned F c h (s ∷ ss) p k =
    let (free, r, ctrl, a) = k.each in
    let here : k.held s ≡ some r =
      AreHeld-kept (write h s (some r)) k.held ss s r a (write_here h s (some r)) in
    let (p2, p1, e1, e2, o2) = clear-return c p k.held s r k.owned here in
    let a' =
      subst (λ y. AreHeld y ss (write k.held s none)) (write_back h s (some r) free)
        (AreHeld-shift (write h s (some r)) k.held ss s r none a (write_here h s (some r))) in
    let (q, e, o) =
      return_all-IsOwned F c h ss p2
        (record { held = write k.held s none; owned = o2; each = a' }) in
    (q, rw e1 (rw e2 e), o)

pub zone_read-IsTotal :
    (c : Conf) (filled : ℕ → List ℕ)
    → ((s : ℕ) → length (filled s) ≡ buffer_size_of c)
    → IsTotal c (λ s. zone_read (filled s))
zone_read-IsTotal c filled size s r ctrl (full, b) = (
  record r { data_buffer = filled s; response_body = filled s; success = true },
  (zone_read_lem c r (filled s) (full, b) (size s ∙ sym (full ∙ b)) ctrl).0,
  ctrl,
  (size s ∙ sym b, b),
)

pub zone_append-IsTotal :
    (c : Conf) (answers : ℕ → Completion) → IsTotal c (λ s. zone_append (answers s))
zone_append-IsTotal c answers s r ctrl b =
    (appended (answers s) r, zone_append-appended (answers s) r ctrl, ctrl, b)
