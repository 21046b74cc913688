-- ===== src/Pool/Held/Many.antt =====
-- Several contexts that one routine holds at once, on top of what is held besides.
use mathlib.Core.Path.{subst}
use zstore.Common.{
  ℕ, ◌≡◌, refl, ap, true, false, Option, none, some, List, [], ◌∷◌, arith, ◌==◌, ==_refl, ==_iff,
  Bool-cases, Option-cases, inl, inr, ok, ==_sym,
}
use zstore.Conf.{Conf}
use zstore.Pool.{Pool, RequestContext, write, clear, clear_context, return_request_context}
use zstore.Pool.Held.{Held, IsOwned, refill, write_twice}
use zstore.Pool.Held.Back.{clear_context-IsOwned, return_request_context-IsOwned}

-- `held` is `h` and the contexts at the addresses `ss`, which were free and name their controller.
unfoldable pub AreHeld : Held → List ℕ → Held → Type 0
AreHeld h [] held = held ≡ h
AreHeld h (s ∷ ss) held =
    (h s ≡ none) × (r : RequestContext) × (r.has_ctrl ≡ true) × AreHeld (write h s (some r)) ss held

pub ne_of_free :
    (h : Held) (s t : ℕ) (r : RequestContext) → h s ≡ some r → h t ≡ none → (t == s) ≡ false
ne_of_free h s t r e f = elim (Bool-cases (t == s)) [
  | inl k ↦
      absurd
        (let same = (==_iff t s).0 k in let g : h s ≡ none = subst (λ x. h x ≡ none) same f in cc)
  | inr k ↦ k
]

-- What is held besides stays held.
pub AreHeld-kept :
    (h held : Held) (ss : List ℕ) (s : ℕ) (r : RequestContext)
    → AreHeld h ss held
    → h s ≡ some r
    → held s ≡ some r
unfolding AreHeld
AreHeld-kept h held [] s r a e = rw a e
AreHeld-kept h held (t ∷ ss) s r (free, x, ctrl, a) e =
    AreHeld-kept (write h t (some x)) held ss s r a (rw (ne_of_free h s t r e free) e)

write-write :
    (h : Held) (s t : ℕ) (a b : Option RequestContext)
    → (t == s) ≡ false
    → write (write h t a) s b ≡ write (write h s b) t a
write-write h s t a b e =
    λ i u. (let k : write (write h t a) s b u ≡ write (write h s b) t a u = ground arith in k i)

-- A change of one that is held besides.
pub AreHeld-shift :
    (h held : Held) (ss : List ℕ) (s : ℕ) (r : RequestContext) (o : Option RequestContext)
    → AreHeld h ss held
    → h s ≡ some r
    → AreHeld (write h s o) ss (write held s o)
unfolding AreHeld
AreHeld-shift h held [] s r o a e = ap (λ x. write x s o) a
AreHeld-shift h held (t ∷ ss) s r o (free, x, ctrl, a) e =
    let ne = ne_of_free h s t r e free in
    (
      ground (arith, ne, free),
      x,
      ctrl,
      subst (λ y. AreHeld y ss (write held s o)) (write-write h s t (some x) o ne)
          (AreHeld-shift (write h t (some x)) held ss s r o a (rw ne e)),
    )

-- One more that is held besides.
pub AreHeld-besides :
    (h held : Held) (ss : List ℕ) (t : ℕ) (x : RequestContext)
    → AreHeld h ss held
    → held t ≡ none
    → AreHeld (write h t (some x)) ss (write held t (some x))
unfolding AreHeld
AreHeld-besides h held [] t x a e = ap (λ y. write y t (some x)) a
AreHeld-besides h held (s ∷ ss) t x (free, r, ctrl, a) e =
    let here : held s ≡ some r =
      AreHeld-kept (write h s (some r)) held ss s r a (rw (==_refl s) refl) in
    let ne = ne_of_free held s t r here e in
    (
      rw ne free,
      r,
      ctrl,
      subst (λ y. AreHeld y ss (write held t (some x)))
          (write-write h t s (some r) (some x) (==_sym t s ne))
          (AreHeld-besides (write h s (some r)) held ss t x a e),
    )

-- What is free in the end was free before.
pub AreHeld-free :
    (h held : Held) (ss : List ℕ) (t : ℕ) → AreHeld h ss held → held t ≡ none → h t ≡ none
AreHeld-free h held ss t a e = elim (Option-cases (h t)) [
  | inl k ↦ k
  | inr (r, k) ↦ absurd (let g = AreHeld-kept h held ss t r a k in cc)
]

pub write_back :
    (h : Held) (s : ℕ) (o : Option RequestContext) → h s ≡ none → write (write h s o) s none ≡ h
write_back h s o e = λ i t. (let k : write (write h s o) s none t ≡ h t = ground (arith, e) in k i)

-- A context that is held is cleared and given back.
pub clear-return :
    (c : Conf) (p : Pool) (held : Held) (s : ℕ) (r : RequestContext)
    → IsOwned c p held
    → held s ≡ some r
    → (q : Pool) × (p' : Pool) × (clear_context s p ≡ ok p')
      × (return_request_context s p' ≡ ok q)
      × IsOwned c q (write held s none)
clear-return c p held s r o e =
    let (e1, o1) = clear_context-IsOwned c p held s r o e in
    let (q, e2, o2) =
      return_request_context-IsOwned c (refill p s (clear r)) (write held s (some (clear r))) s
        (clear r) o1 (rw (==_refl s) refl) (unfold clear in refl) in
    (
      q,
      refill p s (clear r),
      e1,
      e2,
      subst (IsOwned c q) (write_twice held s (some (clear r)) none) o2,
    )
