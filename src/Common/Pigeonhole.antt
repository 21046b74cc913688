-- ===== src/Common/Pigeonhole.antt =====
-- Lists of distinct numbers below a bound are no longer than the bound.
use Prim.Native.Nat.{ℕ, zero, suc, ◌≤◌, ◌<◌}
use mathlib.Core.Path.{◌≡◌, refl, subst}
use mathlib.Core.Logic.{◌≢◌}
use mathlib.Core.List.{List, [], ◌∷◌}
use native.Mathlib.Omega.{arith}
use zstore.Common.Tests.{◌==◌, if◌then◌else◌}
use zstore.Common.Lists.{length, All}

abbrev pub Distinct : List ℕ → Type 0
Distinct [] = Unit
Distinct (s ∷ ss) = All (λ t. t ≢ s) ss × Distinct ss

abbrev without : ℕ → List ℕ → List ℕ
without k [] = []
without k (s ∷ ss) = if s == k then without k ss else s ∷ without k ss

length-without_ne : (k : ℕ) (ss : List ℕ) → All (λ t. t ≢ k) ss → length (without k ss) ≡ length ss
length-without_ne k [] h = refl
length-without_ne k (s ∷ ss) h = ground (arith, length-without_ne k ss h.1)

length-without : (k : ℕ) (ss : List ℕ) → Distinct ss → length ss ≤ suc (length (without k ss))
length-without k [] h = omega arith
length-without k (s ∷ ss) h = ground (arith, length-without k ss h.1, length-without_at k s ss h.0)
  where
    length-without_at :
        (k s : ℕ) (ss : List ℕ) → All (λ t. t ≢ s) ss → s ≡ k → length (without k ss) ≡ length ss
    length-without_at k s ss ne e = length-without_ne k ss (subst (λ u. All (λ t. t ≢ u) ss) e ne)

All-without :
    (k : ℕ) {n : ℕ} (ss : List ℕ)
    → All (λ t. t < suc n) ss
    → n ≡ k
    → All (λ t. t < n) (without k ss)
All-without k [] h e = tt
All-without k (s ∷ ss) h e = ground (arith, All-without k ss h.1 e)

All-without_ne : (k s : ℕ) (ss : List ℕ) → All (λ t. t ≢ s) ss → All (λ t. t ≢ s) (without k ss)
All-without_ne k s [] h = tt
All-without_ne k s (t ∷ ss) h = ground (arith, All-without_ne k s ss h.1)

Distinct-without : (k : ℕ) (ss : List ℕ) → Distinct ss → Distinct (without k ss)
Distinct-without k [] h = tt
Distinct-without k (s ∷ ss) h = ground (arith, Distinct-without k ss h.1, All-without_ne k s ss h.0)

pub length-le_of_Distinct :
    (n : ℕ) (ss : List ℕ) → All (λ t. t < n) ss → Distinct ss → length ss ≤ n
length-le_of_Distinct zero [] h d = omega arith
length-le_of_Distinct zero (s ∷ ss) h d = absurd (omega arith)
length-le_of_Distinct (suc n) ss h d = omega (
  arith,
  length-without n ss d,
  length-le_of_Distinct n (without n ss) (All-without n ss h refl) (Distinct-without n ss d),
)
