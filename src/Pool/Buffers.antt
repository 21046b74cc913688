-- ===== src/Pool/Buffers.antt =====
-- The buffers of the contexts of src/common.cc: as large as the field `bufferSize` says.
use mathlib.Core.Option
use zstore.Common.{
  ℕ, zero, suc, ◌≡◌, refl, true, Option, none, some, List, [], ◌∷◌, length, ◌==◌, Option-cases, inl,
  inr, Bool-cases,
}
use mathlib.Core.Path.{subst}
use zstore.Conf.{Conf}
use zstore.Pool.Lending.{get_request_context_forced}
use zstore.Pool.{
  Pool, RequestContext, write, mark_taken, fill, new_pool, take_context, get_request_context,
  with_buffer, zero_context, buffer_size_of,
}

-- A context with a buffer of the configured size.
abbrev pub IsBuffered : Conf → RequestContext → Type 0
IsBuffered c r = (length r.data_buffer ≡ r.buffer_size) × (r.buffer_size ≡ buffer_size_of c)

abbrev pub AreBuffered : Conf → (ℕ → Option RequestContext) → Type 0
AreBuffered c m = (s : ℕ) (r : RequestContext) → m s ≡ some r → IsBuffered c r

pub AreBuffered-change :
    (c : Conf) (m : ℕ → Option RequestContext) (s : ℕ) (o : Option RequestContext)
    → AreBuffered c m
    → ((r : RequestContext) → o ≡ some r → IsBuffered c r)
    → AreBuffered c (write m s o)
AreBuffered-change c m s o all new t x e = elim (Bool-cases (s == t)) [
  | inl b ↦ new x (rw b at e)
  | inr b ↦ all t x (rw b at e)
]

pub AreBuffered-write :
    (c : Conf) (m : ℕ → Option RequestContext) (s : ℕ) (r : RequestContext)
    → AreBuffered c m
    → IsBuffered c r
    → AreBuffered c (write m s (some r))
AreBuffered-write c m s r all new =
    AreBuffered-change c m s (some r) all
      (λ x e. let same : r ≡ x = cc in subst (IsBuffered c) same new)

with_buffer-IsBuffered :
    (c : Conf) (zmalloc : ℕ → List ℕ) (r : RequestContext)
    → ((n : ℕ) → length (zmalloc n) ≡ n)
    → IsBuffered c (with_buffer c zmalloc r)
unfolding with_buffer
with_buffer-IsBuffered c zmalloc r spec = (spec (buffer_size_of c), refl)

fill-AreBuffered :
    (c : Conf) (zmalloc : ℕ → List ℕ) (n : ℕ) (p : Pool)
    → ((k : ℕ) → length (zmalloc k) ≡ k)
    → AreBuffered c p.memory
    → AreBuffered c (fill c zmalloc n p).memory
unfolding fill
fill-AreBuffered c zmalloc zero p spec h = h
fill-AreBuffered c zmalloc (suc n) p spec h =
    AreBuffered-write c (fill c zmalloc n p).memory n _ (fill-AreBuffered c zmalloc n p spec h)
      (with_buffer-IsBuffered c zmalloc zero_context spec)

pub take_context-AreBuffered :
    (c : Conf) (zmalloc : ℕ → List ℕ) (ss : List ℕ) (p : Pool)
    → ((k : ℕ) → length (zmalloc k) ≡ k)
    → AreBuffered c p.memory
    → AreBuffered c (take_context c zmalloc ss p).1.memory
unfolding take_context mark_taken
take_context-AreBuffered c zmalloc [] p spec h =
    AreBuffered-write c p.memory p.next _ h (with_buffer-IsBuffered c zmalloc zero_context spec)
take_context-AreBuffered c zmalloc (s ∷ rest) p spec h =
    AreBuffered-change c p.memory s (Option.map mark_taken (p.memory s)) h (λ x e.
      elim (Option-cases (p.memory s)) [
        | inl f ↦ absurd (let g : none ≡ some x = rw f at e in cc)
        | inr (r, f) ↦
            let g : some (mark_taken r) ≡ some x = rw f at e in
            let same : mark_taken r ≡ x = cc in subst (IsBuffered c) same (h s r f)
      ])

-- If spdk_zmalloc gives as many bytes as it is asked for, the constructor makes a pool in which every
-- context has a buffer of the configured size.
pub new_pool-AreBuffered :
    (c : Conf) (zmalloc : ℕ → List ℕ) (cap : ℕ)
    → ((k : ℕ) → length (zmalloc k) ≡ k)
    → AreBuffered c (new_pool c zmalloc cap).memory
unfolding new_pool
new_pool-AreBuffered c zmalloc cap spec =
    fill-AreBuffered c zmalloc cap _ spec (λ s r e. absurd (cc))

pub get_request_context-AreBuffered :
    (c : Conf) (zmalloc : ℕ → List ℕ) (p : Pool)
    → ((k : ℕ) → length (zmalloc k) ≡ k)
    → AreBuffered c p.memory
    → AreBuffered c (get_request_context c zmalloc true p).1.memory
get_request_context-AreBuffered c zmalloc p spec h =
    rw (get_request_context_forced c zmalloc p)
      (take_context-AreBuffered c zmalloc p.available p spec h)
