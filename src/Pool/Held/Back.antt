-- ===== src/Pool/Held/Back.antt =====
-- Clear and ReturnRequestContext of src/common.cc against what is held.
use mathlib.Core.Path.{subst}
use zstore.Common.{
  ℕ, zero, suc, ◌<◌, ◌≤◌, ◌≡◌, inl, inr, refl, sym, ◌∙◌, true, false, Option, none, some, List, [],
  ◌∷◌, length, arith, ◌==◌, ==_iff, ltb, ltb→lt, ltb_false→le, Bool-cases, Option-cases, ok,
}
use zstore.Conf.{Conf}
use zstore.Pool.{
  Pool, RequestContext, write, clear, fill, new_pool, give_back, return_request_context,
  clear_context,
}
use zstore.Pool.Invariant.{new_pool-IsPool, IsFree, AreFree, AreFree-write, length-available-le}
use zstore.Pool.Buffers.{new_pool-AreBuffered, IsBuffered, AreBuffered-change, AreBuffered-write}
use zstore.Pool.Held.{
  refill, Held, nothing_held, listed, IsOwned, unlisted-All, alive-write, unlisted-write,
  array-write, whole-write,
}

pub refill-IsOwned :
    (c : Conf) (p : Pool) (h : Held) (s : ℕ) (r x : RequestContext)
    → IsOwned c p h
    → h s ≡ some r
    → IsBuffered c x
    → IsOwned c (refill p s x) (write h s (some x))
refill-IsOwned c p h s r x o held full =
    let off : listed s p.available ≡ false = o.unlisted s r held in
    record {
      pool = record {
        free =
            AreFree-write p.memory p.capacity s (some x) p.available
              (unlisted-All s p.available off) o.pool.free;
        array_below = o.pool.array_below;
        unused = λ t k. elim (Bool-cases (s == t)) [
          | inl e ↦ absurd (
              let m = o.alive s r held in
              let u = o.pool.unused s (omega (arith, (==_iff s t).0 e, k)) in cc)
          | inr e ↦ rw e (o.pool.unused t k)
        ];
      };
      buffered = AreBuffered-write c p.memory s x o.buffered full;
      alive = alive-write p.memory h s (some x) o.alive;
      unlisted =
          unlisted-write h s (some x) p.available p.available o.unlisted (λ t d l. l) (λ y k. off);
      array = array-write p.memory s p.capacity (some x) o.array (λ k. (x, refl));
      whole = whole-write p.memory h s (some x) p.available p.available o.whole (λ t d l. l);
    }

pub clear_context-IsOwned :
    (c : Conf) (p : Pool) (h : Held) (s : ℕ) (r : RequestContext)
    → IsOwned c p h
    → h s ≡ some r
    → (clear_context s p ≡ ok (refill p s (clear r)))
      × IsOwned c (refill p s (clear r)) (write h s (some (clear r)))
unfolding clear_context clear
clear_context-IsOwned c p h s r o held = (
  rw (o.alive s r held, clear_context) refl,
  refill-IsOwned c p h s r (clear r) o held (o.buffered s r (o.alive s r held)),
)

-- A context of the array goes to the list.
listed_again-IsOwned :
    (c : Conf) (p : Pool) (h : Held) (s : ℕ) (r : RequestContext)
    → IsOwned c p h
    → h s ≡ some r
    → r.available ≡ true
    → s < p.capacity
    → IsOwned c (record p { available = s ∷ p.available }) (write h s none)
listed_again-IsOwned c p h s r o held clean low =
    let off : listed s p.available ≡ false = o.unlisted s r held in
    record {
      pool = record {
        free = (low, (r, o.alive s r held, clean), unlisted-All s p.available off, o.pool.free);
        array_below = o.pool.array_below;
        unused = o.pool.unused;
      };
      buffered = o.buffered;
      alive = λ t x k. elim (Bool-cases (s == t)) [
        | inl e ↦ absurd (let f : none ≡ some x = rw e at k in cc)
        | inr e ↦ o.alive t x (rw e at k)
      ];
      unlisted =
          unlisted-write h s none p.available (s ∷ p.available) o.unlisted (λ t d l. ground arith)
            (λ x k. absurd (cc));
      array = o.array;
      whole = λ t x k. elim (Bool-cases (s == t)) [
        | inl e ↦ inl (ground arith)
        | inr e ↦ elim (o.whole t x k) [ inl l ↦ inl (ground arith) | inr l ↦ inr (rw e l) ]
      ];
    }

-- A context that `new` made is deleted.
deleted-IsOwned :
    (c : Conf) (p : Pool) (h : Held) (s : ℕ) (r : RequestContext)
    → IsOwned c p h
    → h s ≡ some r
    → p.capacity ≤ s
    → IsOwned c (record p { memory = write p.memory s none }) (write h s none)
deleted-IsOwned c p h s r o held high =
    let off : listed s p.available ≡ false = o.unlisted s r held in
    record {
      pool = record {
        free =
            AreFree-write p.memory p.capacity s none p.available (unlisted-All s p.available off)
              o.pool.free;
        array_below = o.pool.array_below;
        unused = λ t k. ground (arith, o.pool.unused t);
      };
      buffered = AreBuffered-change c p.memory s none o.buffered (λ x k. absurd (cc));
      alive = alive-write p.memory h s none o.alive;
      unlisted =
          unlisted-write h s none p.available p.available o.unlisted (λ t d l. l)
            (λ x k. absurd (cc));
      array = array-write p.memory s p.capacity none o.array (λ k. absurd (omega arith));
      whole = whole-write p.memory h s none p.available p.available o.whole (λ t d l. l);
    }

-- A held context that is cleared comes back: nobody holds it any more, and none is lost.
pub return_request_context-IsOwned :
    (c : Conf) (p : Pool) (h : Held) (s : ℕ) (r : RequestContext)
    → IsOwned c p h
    → h s ≡ some r
    → r.available ≡ true
    → (q : Pool) × (return_request_context s p ≡ ok q) × IsOwned c q (write h s none)
unfolding return_request_context give_back
return_request_context-IsOwned c p h s r o held clean =
    let off : listed s p.available ≡ false = o.unlisted s r held in
    let cell : p.memory s ≡ some r = o.alive s r held in
    let fit = length-available-le p o.pool in
    elim (Bool-cases (ltb s p.capacity)) [
      | inl e ↦ (
        record p { available = s ∷ p.available },
        rw (cell, return_request_context) (rw (clean, give_back) (ground (arith, fit))),
        listed_again-IsOwned c p h s r o held clean (ltb→lt s p.capacity e),
      )
      | inr e ↦ (
        record p { memory = write p.memory s none },
        rw (cell, return_request_context) (rw (clean, give_back) (ground arith)),
        deleted-IsOwned c p h s r o held (ltb_false→le s p.capacity e),
      )
    ]

listed-IsFree :
    (m : ℕ → Option RequestContext) (bound s : ℕ) (ts : List ℕ)
    → AreFree m bound ts
    → listed s ts ≡ true
    → (s < bound) × IsFree m s
listed-IsFree m bound s [] a e = absurd (cc)
listed-IsFree m bound s (t ∷ ts) a e = elim (Bool-cases (s == t)) [
  | inl k ↦ subst (λ i. (i < bound) × IsFree m i) (sym ((==_iff s t).0 k)) (a.0, a.1)
  | inr k ↦ listed-IsFree m bound s ts a.3 (rw k at e)
]

fill-listed :
    (c : Conf) (zmalloc : ℕ → List ℕ) (n s : ℕ) (p : Pool)
    → s < n
    → listed s (fill c zmalloc n p).available ≡ true
unfolding fill
fill-listed c zmalloc zero s p k = absurd (omega arith)
fill-listed c zmalloc (suc n) s p k = ground (arith, fill-listed c zmalloc n s p)

fill-above :
    (c : Conf) (zmalloc : ℕ → List ℕ) (n s : ℕ) (p : Pool)
    → n ≤ s
    → (fill c zmalloc n p).memory s ≡ p.memory s
unfolding fill
fill-above c zmalloc zero s p k = refl
fill-above c zmalloc (suc n) s p k = ground (arith, fill-above c zmalloc n s p)

-- A pool of which nobody holds a context.
abbrev pub IsIdle : Conf → Pool → Type 0
IsIdle c p = IsOwned c p nothing_held

-- The constructor makes an idle pool, if spdk_zmalloc gives as many bytes as it is asked for.
pub new_pool-IsIdle :
    (c : Conf) (zmalloc : ℕ → List ℕ) (cap : ℕ)
    → ((n : ℕ) → length (zmalloc n) ≡ n)
    → IsIdle c (new_pool c zmalloc cap)
unfolding new_pool
new_pool-IsIdle c zmalloc cap spec =
    let (pool, _, size) = new_pool-IsPool c zmalloc cap in
    let all : (s : ℕ) → s < cap → listed s (new_pool c zmalloc cap).available ≡ true =
      λ s k. fill-listed c zmalloc cap s _ k in
    record {
      pool = pool;
      buffered = new_pool-AreBuffered c zmalloc cap spec;
      alive = λ s r k. absurd (cc);
      unlisted = λ s r k. absurd (cc);
      array = λ s k.
          let (_, (r, cell, _)) =
            listed-IsFree _ _ s _ pool.free (all s (omega (arith, size, k))) in
          (r, cell);
      whole = λ s r k. elim (Bool-cases (ltb s cap)) [
        | inl e ↦ inl (all s (ltb→lt s cap e))
        | inr e ↦ absurd (
            let none_there : none ≡ some r =
              sym (fill-above c zmalloc cap s _ (ltb_false→le s cap e)) ∙ k in
            cc)
      ];
    }

-- In an idle pool every context of the array is available, and no context that `new` made is left.
IsIdle-available :
    (c : Conf) (p : Pool) (s : ℕ)
    → IsIdle c p
    → (s < p.capacity → listed s p.available ≡ true) × (p.capacity ≤ s → p.memory s ≡ none)
IsIdle-available c p s o = (
  λ k. let (r, cell) = o.array s k in elim (o.whole s r cell) [ inl l ↦ l | inr l ↦ absurd (cc) ],
  λ k. elim (Option-cases (p.memory s)) [
    | inl e ↦ e
    | inr (r, e) ↦ elim (o.whole s r e) [
      | inl l ↦ absurd (
          let (low, _) = listed-IsFree p.memory p.capacity s p.available o.pool.free l in
          omega arith)
      | inr l ↦ absurd (cc)
    ]
  ],
)
