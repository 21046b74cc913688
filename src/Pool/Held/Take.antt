-- ===== src/Pool/Held/Take.antt =====
-- GetRequestContext of src/common.cc against what is held.
use mathlib.Core.Path.{subst}
use mathlib.Core.Option
use zstore.Common.{
  ℕ, ◌≡◌, inl, inr, refl, ap, true, false, none, some, List, [], ◌∷◌, length, arith, Option-cases,
}
use zstore.Conf.{Conf}
use zstore.Pool.{
  Pool, RequestContext, write, mark_taken, take_context, get_request_context, with_buffer,
  zero_context,
}
use zstore.Pool.Invariant.{AreFree}
use zstore.Pool.Buffers.{take_context-AreBuffered}
use zstore.Pool.Lending.{get_request_context_forced, take_context-lends}
use zstore.Pool.Held.{
  Held, listed, IsOwned, All-unlisted, alive-write, unlisted-write, array-write, whole-write,
}

-- What a take does, for the two kinds of list.
take_context-IsOwned :
    (c : Conf) (zmalloc : ℕ → List ℕ) (ss : List ℕ) (p : Pool) (h : Held)
    → ((n : ℕ) → length (zmalloc n) ≡ n)
    → IsOwned c p h
    → p.available ≡ ss
    → (s : ℕ) × (r : RequestContext) × ((take_context c zmalloc ss p).0 ≡ some s)
      × (h s ≡ none)
      × (r.available ≡ false)
      × IsOwned c (take_context c zmalloc ss p).1 (write h s (some r))
unfolding take_context mark_taken
take_context-IsOwned c zmalloc [] p h spec o e =
    let (s, _, pool, _) = take_context-lends c zmalloc [] p o.pool e in
    let free : h p.next ≡ none = elim (Option-cases (h p.next)) [
      | inl n ↦ n
      | inr (x, k) ↦
          absurd (let m = o.alive p.next x k in let u = o.pool.unused p.next (omega arith) in cc)
    ] in
    (
      p.next,
      mark_taken (with_buffer c zmalloc zero_context),
      refl,
      free,
      refl,
      record {
        pool = pool;
        buffered = take_context-AreBuffered c zmalloc [] p spec o.buffered;
        alive = alive-write p.memory h p.next _ o.alive;
        unlisted =
            unlisted-write h p.next _ p.available p.available o.unlisted (λ t d l. l)
              (λ x k. rw e refl);
        array = array-write p.memory p.next p.capacity _ o.array (λ k. (_, refl));
        whole = whole-write p.memory h p.next _ p.available p.available o.whole (λ t d l. l);
      },
    )
take_context-IsOwned c zmalloc (s ∷ rest) p h spec o e =
    let (_, _, pool, _) = take_context-lends c zmalloc (s ∷ rest) p o.pool e in
    let fr : AreFree p.memory p.capacity (s ∷ rest) =
      subst (AreFree p.memory p.capacity) e o.pool.free in
    let (r, cell, _) = fr.1 in
    let taken : Option.map mark_taken (p.memory s) ≡ some (mark_taken r) =
      ap (Option.map mark_taken) cell in
    let free : h s ≡ none = elim (Option-cases (h s)) [
      | inl n ↦ n
      | inr (x, k) ↦
          absurd (let l : listed s (s ∷ rest) ≡ false = rw e at (o.unlisted s x k) in ground arith)
    ] in
    (
      s,
      mark_taken r,
      refl,
      free,
      refl,
      record {
        pool = pool;
        buffered = take_context-AreBuffered c zmalloc (s ∷ rest) p spec o.buffered;
        alive = rw taken (alive-write p.memory h s _ o.alive);
        unlisted =
            unlisted-write h s _ (s ∷ rest) rest (rw e at o.unlisted) (λ t d l. ground arith)
              (λ x k. All-unlisted s rest fr.2);
        array = rw taken (array-write p.memory s p.capacity _ o.array (λ k. (_, refl)));
        whole =
            rw taken (
              whole-write p.memory h s _ (s ∷ rest) rest (rw e at o.whole) (λ t d l. ground arith));
      },
    )

-- A forced request always gets a context that nobody held; it is flagged as taken, and now held.
pub get_request_context-IsOwned :
    (c : Conf) (zmalloc : ℕ → List ℕ) (p : Pool) (h : Held)
    → ((n : ℕ) → length (zmalloc n) ≡ n)
    → IsOwned c p h
    → (s : ℕ) × (r : RequestContext) × ((get_request_context c zmalloc true p).0 ≡ some s)
      × (h s ≡ none)
      × (r.available ≡ false)
      × IsOwned c (get_request_context c zmalloc true p).1 (write h s (some r))
get_request_context-IsOwned c zmalloc p h spec o =
    rw (get_request_context_forced c zmalloc p)
      (take_context-IsOwned c zmalloc p.available p h spec o refl)
