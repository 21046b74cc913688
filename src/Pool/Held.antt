-- ===== src/Pool/Held.antt =====
-- Who has which context of src/common.cc: the pool together with what its users hold. `h s` is the
-- context that a user holds at the address `s`, if one does.
pub mod Take
pub mod Back
pub mod Many
use mathlib.Core.Path.{subst}
use mathlib.Core.Option
use zstore.Common.{
  ℕ, suc, ◌+◌, ◌<◌, ◌≤◌, ◌≡◌, ◌≢◌, ◌⊎◌, inl, inr, refl, ap, sym, ◌∙◌, Bool, true, false, ◌||◌,
  Option, none, some, List, [], ◌∷◌, All, length, arith, ◌==◌, ==_iff, ==_refl, ltb, ltb→lt,
  ltb_false→le, lt→ltb, le→ltb_false, Bool-cases, Option-cases, Result, ok, err,
}
use zstore.Conf.{Conf}
use zstore.Pool.{
  Pool, RequestContext, write, clear, mark_taken, new_pool, take_context, get_request_context,
  give_back, return_request_context, clear_context, with_buffer, zero_context,
}
use zstore.Pool.Invariant.{IsPool, IsFree, AreFree, AreFree-write, length-available-le}
use zstore.Pool.Buffers.{
  IsBuffered, AreBuffered, AreBuffered-change, AreBuffered-write, take_context-AreBuffered,
}
use zstore.Pool.Lending.{get_request_context_forced, IsLent, take_context-lends}

abbrev pub Held : Type 0
Held = ℕ → Option RequestContext

abbrev pub nothing_held : Held
nothing_held s = none

abbrev pub listed : ℕ → List ℕ → Bool
listed s [] = false
listed s (t ∷ ts) = (s == t) || listed s ts

-- A valid pool with buffers in which each held context lives outside the list, and every living
-- context is listed or held, so that none is lost.
pub record IsOwned (c : Conf) (p : Pool) (h : Held) : Type 0 where
  pub pool : IsPool p
  pub buffered : AreBuffered c p.memory
  pub alive : (s : ℕ) (r : RequestContext) → h s ≡ some r → p.memory s ≡ some r
  pub unlisted : (s : ℕ) (r : RequestContext) → h s ≡ some r → listed s p.available ≡ false
  pub array : (s : ℕ) → s < p.capacity → (r : RequestContext) × (p.memory s ≡ some r)
  pub whole :
      (s : ℕ) (r : RequestContext)
      → p.memory s ≡ some r
      → (listed s p.available ≡ true) ⊎ (h s ≡ some r)

-- The holder of a context may fill it in.
abbrev pub refill : Pool → ℕ → RequestContext → Pool
refill p s r = record p { memory = write p.memory s (some r) }

pub write_twice :
    (m : Held) (s : ℕ) (a b : Option RequestContext) → write (write m s a) s b ≡ write m s b
write_twice m s a b =
    λ i t. (let e : write (write m s a) s b t ≡ write m s b t = ground arith in e i)

pub unlisted-All : (s : ℕ) (ts : List ℕ) → listed s ts ≡ false → All (λ t. t ≢ s) ts
unlisted-All s [] e = tt
unlisted-All s (t ∷ ts) e = (ground arith, unlisted-All s ts (ground arith))

pub All-unlisted : (s : ℕ) (ts : List ℕ) → All (λ t. t ≢ s) ts → listed s ts ≡ false
All-unlisted s [] h = refl
All-unlisted s (t ∷ ts) h = ground (arith, All-unlisted s ts h.1)

-- The same change of the memory and of what is held.
pub alive-write :
    (m h : Held) (s : ℕ) (o : Option RequestContext)
    → ((t : ℕ) (x : RequestContext) → h t ≡ some x → m t ≡ some x)
    → (t : ℕ) (x : RequestContext) → write h s o t ≡ some x
    → write m s o t ≡ some x
alive-write m h s o f t x k = elim (Bool-cases (s == t)) [
  | inl e ↦ rw e (rw e at k)
  | inr e ↦ rw e (f t x (rw e at k))
]

pub unlisted-write :
    (h : Held) (s : ℕ) (o : Option RequestContext) (ts us : List ℕ)
    → ((t : ℕ) (x : RequestContext) → h t ≡ some x → listed t ts ≡ false)
    → ((t : ℕ) → (s == t) ≡ false → listed t ts ≡ false → listed t us ≡ false)
    → ((x : RequestContext) → o ≡ some x → listed s us ≡ false)
    → (t : ℕ) (x : RequestContext) → write h s o t ≡ some x
    → listed t us ≡ false
unlisted-write h s o ts us f g new t x k = elim (Bool-cases (s == t)) [
  | inl e ↦ subst (λ i. listed i us ≡ false) ((==_iff s t).0 e) (new x (rw e at k))
  | inr e ↦ g t e (f t x (rw e at k))
]

pub array-write :
    (m : Held) (s bound : ℕ) (o : Option RequestContext)
    → ((t : ℕ) → t < bound → (r : RequestContext) × (m t ≡ some r))
    → ((s < bound) → (r : RequestContext) × (o ≡ some r))
    → (t : ℕ) → t < bound
    → (r : RequestContext) × (write m s o t ≡ some r)
array-write m s bound o f new t k = elim (Bool-cases (s == t)) [
  | inl e ↦ rw e (new (omega (arith, (==_iff s t).0 e, k)))
  | inr e ↦ rw e (f t k)
]

pub whole-write :
    (m h : Held) (s : ℕ) (o : Option RequestContext) (ts us : List ℕ)
    → ((t : ℕ) (x : RequestContext) → m t ≡ some x → (listed t ts ≡ true) ⊎ (h t ≡ some x))
    → ((t : ℕ) → (s == t) ≡ false → listed t ts ≡ true → listed t us ≡ true)
    → (t : ℕ) (x : RequestContext) → write m s o t ≡ some x
    → (listed t us ≡ true) ⊎ (write h s o t ≡ some x)
whole-write m h s o ts us f g t x k = elim (Bool-cases (s == t)) [
  | inl e ↦ inr (rw e (rw e at k))
  | inr e ↦ elim (f t x (rw e at k)) [ inl l ↦ inl (g t e l) | inr l ↦ inr (rw e l) ]
]
