-- ===== src/Gateway/Overlap/Counted.antt =====
-- Which contexts are in use, against how often the waiting requests of src/http_server.cc name them.
use mathlib.Core.Path.{subst}
use zstore.Common.{
  ℕ, zero, suc, ◌≡◌, ◌⊎◌, inl, inr, refl, ap, ◌∙◌, true, Bool-cases, none, some, List, [], ◌∷◌,
  get_elem?, ◌==◌, ==_iff, ==_refl, if◌then◌else◌, arith,
}
use zstore.Pool.{RequestContext, write}
use zstore.Pool.Held.{Held, nothing_held}
use zstore.Gateway.Session.Served.{Option-some}
use zstore.Gateway.Overlap.{Flight, reading, writing, remove_at}

-- One more use of the address `s`.
abbrev pub with_use : ℕ → (ℕ → ℕ) → ℕ → ℕ
with_use s u t = if s == t then suc (u t) else u t

unfoldable pub add_uses : Flight → (ℕ → ℕ) → ℕ → ℕ
add_uses (reading w req s) u = with_use s u
add_uses (writing w req k tuple devices (s1, s2, s3)) u = with_use s3 (with_use s2 (with_use s1 u))

unfoldable pub all_uses : List Flight → ℕ → ℕ
unfolding add_uses
all_uses [] = λ t. 0
all_uses (f ∷ fs) = add_uses f (all_uses fs)

-- A context that names its controller is held where there is one use, and none where there is no use;
-- nowhere are there two.
unfoldable pub IsCounted : Held → (ℕ → ℕ) → Type 0
IsCounted h u =
    (t : ℕ)
    → ((u t ≡ 0) × (h t ≡ none))
      ⊎ ((u t ≡ 1) × (r : RequestContext) × (h t ≡ some r) × (r.has_ctrl ≡ true))

pub nothing-IsCounted : IsCounted nothing_held (all_uses [])
unfolding IsCounted all_uses
nothing-IsCounted t = inl (refl, refl)

pub taken-IsCounted :
    (h : Held) (u : ℕ → ℕ) (s : ℕ) (r : RequestContext)
    → IsCounted h u
    → h s ≡ none
    → r.has_ctrl ≡ true
    → IsCounted (write h s (some r)) (with_use s u)
unfolding IsCounted
taken-IsCounted h u s r k free ctrl t = elim (Bool-cases (s == t)) [
  | inr e ↦ rw e (k t)
  | inl e ↦ rw e (elim (k t) [
    | inl (z, off) ↦ inr (ap suc z, r, refl, ctrl)
    | inr (z, x, held, named) ↦
        absurd (let same : s ≡ t = (==_iff s t).0 e in let f : h t ≡ none = rw⁻¹ same free in cc)
  ])
]

pub given_back-IsCounted :
    (h : Held) (u : ℕ → ℕ) (s : ℕ)
    → IsCounted h (with_use s u)
    → (r : RequestContext) × (h s ≡ some r) × (r.has_ctrl ≡ true) × IsCounted (write h s none) u
unfolding IsCounted
given_back-IsCounted h u s k = elim (k s) [
  | inl (z, off) ↦ absurd (let y : suc (u s) ≡ 0 = rw (==_refl s) at z in omega (arith, y))
  | inr (z, r, held, ctrl) ↦ (
    r,
    held,
    ctrl,
    λ t. elim (Bool-cases (s == t)) [
      | inr e ↦ rw e (rw e at (k t))
      | inl e ↦ rw e (
          let y : suc (u s) ≡ 1 = rw (==_refl s) at z in
          inl (subst (λ x. u x ≡ 0) ((==_iff s t).0 e) (omega (arith, y)), refl))
    ],
  )
]

with_use-swap : (s t : ℕ) (u : ℕ → ℕ) → with_use s (with_use t u) ≡ with_use t (with_use s u)
with_use-swap s t u =
    λ i x. (let e : with_use s (with_use t u) x ≡ with_use t (with_use s u) x = ground arith in e i)

with_use-add_uses :
    (s : ℕ) (f : Flight) (u : ℕ → ℕ) → with_use s (add_uses f u) ≡ add_uses f (with_use s u)
unfolding add_uses
with_use-add_uses s (reading w req t) u = with_use-swap s t u
with_use-add_uses s (writing w req k tuple devices (t1, t2, t3)) u =
    with_use-swap s t3 (with_use t2 (with_use t1 u))
    ∙ ap (with_use t3)
        (with_use-swap s t2 (with_use t1 u) ∙ ap (with_use t2) (with_use-swap s t1 u))

add_uses-swap :
    (f f' : Flight) (u : ℕ → ℕ) → add_uses f (add_uses f' u) ≡ add_uses f' (add_uses f u)
unfolding add_uses
add_uses-swap (reading w req s) f' u = with_use-add_uses s f' u
add_uses-swap (writing w req k tuple devices (s1, s2, s3)) f' u =
    ap (λ v. with_use s3 (with_use s2 v)) (with_use-add_uses s1 f' u)
    ∙ ap (with_use s3) (with_use-add_uses s2 f' (with_use s1 u))
    ∙ with_use-add_uses s3 f' (with_use s2 (with_use s1 u))

all_uses-remove_at :
    (fs : List Flight) (j : ℕ) (f : Flight)
    → get_elem? fs j ≡ some f
    → all_uses fs ≡ add_uses f (all_uses (remove_at j fs))
unfolding all_uses remove_at
all_uses-remove_at [] j f e = absurd (cc)
all_uses-remove_at (x ∷ fs) zero f e = ap (λ y. add_uses y (all_uses fs)) (Option-some e)
all_uses-remove_at (x ∷ fs) (suc j) f e =
    ap (add_uses x) (all_uses-remove_at fs j f e) ∙ add_uses-swap x f (all_uses (remove_at j fs))

-- Taking the request at a place off the list.
pub removed-IsCounted :
    (h : Held) (fs : List Flight) (j : ℕ) (f : Flight)
    → get_elem? fs j ≡ some f
    → IsCounted h (all_uses fs)
    → IsCounted h (add_uses f (all_uses (remove_at j fs)))
removed-IsCounted h fs j f e k = subst (IsCounted h) (all_uses-remove_at fs j f e) k
