-- ===== src/Pool/Invariant.antt =====
-- The invariant of RequestContextPool (src/common.cc) and the methods that keep it.
use mathlib.Core.Path.{subst}
use zstore.Common.{
  sym, Distinct, length-le_of_Distinct, ℕ, zero, suc, ◌<◌, ◌≤◌, ◌≡◌, ◌≢◌, refl, true, Option, none,
  some, List, [], ◌∷◌, All, length, arith, length,
}
use zstore.Conf.{Conf}
use zstore.Pool.{Pool, RequestContext, write, fill, new_pool, with_buffer, zero_context}

-- The context at an address lives and has its flag `available` set.
abbrev pub IsFree : (ℕ → Option RequestContext) → ℕ → Type 0
IsFree m s = (r : RequestContext) × (m s ≡ some r) × (r.available ≡ true)

-- Addresses below `bound`, without repetition, each of a free context.
abbrev pub AreFree : (ℕ → Option RequestContext) → ℕ → List ℕ → Type 0
AreFree m bound [] = Unit
AreFree m bound (s ∷ ss) = (s < bound) × IsFree m s × All (λ t. t ≢ s) ss × AreFree m bound ss

pub record IsPool (p : Pool) : Type 0 where
  pub free : AreFree p.memory p.capacity p.available
  pub array_below : p.capacity ≤ p.next
  pub unused : (s : ℕ) → p.next ≤ s → p.memory s ≡ none

pub AreFree-write :
    (m : ℕ → Option RequestContext) (bound s : ℕ) (r : Option RequestContext) (ss : List ℕ)
    → All (λ t. t ≢ s) ss
    → AreFree m bound ss
    → AreFree (write m s r) bound ss
AreFree-write m bound s r [] ne h = tt
AreFree-write m bound s r (t ∷ ss) ne h =
    (h.0, (h.1.0, (ground arith), h.1.2), h.2, AreFree-write m bound s r ss ne.1 h.3)

AreFree-above :
    (m : ℕ → Option RequestContext) (bound s : ℕ) (ss : List ℕ)
    → bound ≤ s
    → AreFree m bound ss
    → All (λ t. t ≢ s) ss
AreFree-above m bound s [] h a = tt
AreFree-above m bound s (t ∷ ss) h a = (omega arith, AreFree-above m bound s ss h a.3)

AreFree-mono :
    (m : ℕ → Option RequestContext) (bound bound' : ℕ) (ss : List ℕ)
    → bound ≤ bound'
    → AreFree m bound ss
    → AreFree m bound' ss
AreFree-mono m bound bound' [] h a = tt
AreFree-mono m bound bound' (t ∷ ss) h a =
    (omega arith, a.1, a.2, AreFree-mono m bound bound' ss h a.3)

AreFree-below :
    (m : ℕ → Option RequestContext) (bound : ℕ) (ss : List ℕ)
    → AreFree m bound ss
    → All (λ t. t < bound) ss × Distinct ss
AreFree-below m bound [] h = (tt, tt)
AreFree-below m bound (t ∷ ss) h =
    let rest = AreFree-below m bound ss h.3 in ((h.0, rest.0), (h.2, rest.1))

-- The test of ReturnRequestContext on the size of the list holds in every valid pool.
pub length-available-le : (p : Pool) → IsPool p → length p.available ≤ p.capacity
length-available-le p v =
    let below = AreFree-below p.memory p.capacity p.available v.free in
    length-le_of_Distinct p.capacity p.available below.0 below.1

record IsFilled (c : Conf) (zmalloc : ℕ → List ℕ) (n : ℕ) (p q : Pool) : Type 0 where
  same_capacity : q.capacity ≡ p.capacity
  same_next : q.next ≡ p.next
  entries : AreFree q.memory n q.available
  count : length q.available ≡ n
  beyond : (s : ℕ) → n ≤ s → q.memory s ≡ p.memory s

fill-IsFilled :
    (c : Conf) (zmalloc : ℕ → List ℕ) (n : ℕ) (p : Pool)
    → p.available ≡ []
    → IsFilled c zmalloc n p (fill c zmalloc n p)
unfolding fill
fill-IsFilled c zmalloc zero p e = record {
  same_capacity = refl;
  same_next = refl;
  entries = rw e tt;
  count = rw e;
  beyond = λ s h. refl;
}
fill-IsFilled c zmalloc (suc n) p e =
    let q : Pool = fill c zmalloc n p in
    let f : IsFilled c zmalloc n p (fill c zmalloc n p) = fill-IsFilled c zmalloc n p e in
    let fresh : All (λ t. t ≢ n) (fill c zmalloc n p).available =
      AreFree-above q.memory n n q.available (omega arith) f.entries in
    record {
      same_capacity = f.same_capacity;
      same_next = f.same_next;
      entries = (
        omega arith,
        (with_buffer c zmalloc zero_context, (ground arith), refl),
        fresh,
        AreFree-mono _ n (suc n) q.available (omega arith)
            (AreFree-write q.memory n n _ q.available fresh f.entries),
      );
      count = omega (arith, f.count);
      beyond = λ s h. ground (arith, f.beyond s);
    }

-- The constructor makes a valid pool in which every context of the array is available.
pub new_pool-IsPool :
    (c : Conf) (zmalloc : ℕ → List ℕ) (cap : ℕ)
    → IsPool (new_pool c zmalloc cap)
      × (length (new_pool c zmalloc cap).available ≡ cap)
      × ((new_pool c zmalloc cap).capacity ≡ cap)
unfolding new_pool
new_pool-IsPool c zmalloc cap = (
  record {
    free = subst (λ b. AreFree q.memory b q.available) (sym f.same_capacity) f.entries;
    array_below = omega (arith, f.same_capacity, f.same_next);
    unused = λ s h. f.beyond s (omega (arith, f.same_next));
  },
  f.count,
  f.same_capacity,
)
  where
    start : Pool
    start = record { capacity = cap; available = []; memory = λ s. none; next = cap }

    q : Pool
    q = fill c zmalloc cap start

    f : IsFilled c zmalloc cap start q
    f = fill-IsFilled c zmalloc cap start refl
