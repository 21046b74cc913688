-- ===== src/PhaseTwo/Threads.antt =====
-- Threads of src/zstore_controller.cc that are at different places.

use zstore.Common.{ℕ, ◌≡◌, ◌≢◌, inl, inr, ap, sym, ◌∙◌, false, ◌==◌, ==_iff, Bool-cases}
use zstore.PhaseTwo.{Pc, at_thread}

-- A thread that is somewhere else is another thread.
pub other-thread : (f : ℕ → Pc) (i j : ℕ) (p q : Pc) → f i ≡ p → f j ≡ q → p ≢ q → (j == i) ≡ false
other-thread f i j p q e g ne = elim (Bool-cases (j == i)) [
  | inl same ↦ absurd (ne (sym e ∙ sym (ap f ((==_iff j i).0 same)) ∙ g))
  | inr x ↦ x
]

pub moved-thread :
    (f : ℕ → Pc) (i j : ℕ) (p q : Pc) → (j == i) ≡ false → f i ≡ p → at_thread f j q i ≡ p
moved-thread f i j p q ne e = rw ne e
