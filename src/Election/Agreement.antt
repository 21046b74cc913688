-- ===== src/Election/Agreement.antt =====
-- The leader that checkChildrenChange of src/zstore_controller.cc chooses.

use zstore.Common.{
  ℕ, suc, ◌+◌, ◌≤◌, ◌<◌, ◌≡◌, ◌⊎◌, inl, inr, refl, ap, sym, ◌∙◌, some, List, [], ◌∷◌, get_elem?,
  All, All-get_elem?, ltb, arith, Bool-cases, ltb→lt, ltb_false→le,
}
use zstore.Election.{sequence, leader_loop, leader}

module _ (atoi : List ℕ → ℕ) where
  -- The loop ends in the index that it had, or in that of a child with a lower number; either is lowest.
  leader_loop_lem :
      (names : List (List ℕ)) (i min_seq j : ℕ)
      → 0 < i
      → ((leader_loop atoi names i min_seq j ≡ j) × All (λ n. min_seq ≤ sequence atoi n) names)
        ⊎ ((k : ℕ) × (n : List ℕ) × (leader_loop atoi names i min_seq j ≡ i + k)
            × (get_elem? names k ≡ some n)
            × (sequence atoi n < min_seq)
            × All (λ m. sequence atoi n ≤ sequence atoi m) names)
  unfolding leader_loop
  leader_loop_lem [] i min_seq j h = inl (refl, tt)
  leader_loop_lem (name ∷ names) i min_seq j h =
      elim (Bool-cases (ltb (sequence atoi name) min_seq)) [
        | inl e ↦ elim (leader_loop_lem names (suc i) (sequence atoi name) i (omega arith)) [
          | inl (same, all) ↦
              inr (0, name, ground (arith, same), refl, ltb→lt _ _ e, (omega arith, all))
          | inr (k, n, index, there, lower, all) ↦ inr (
            suc k,
            n,
            ground (arith, index),
            there,
            omega (arith, lower, ltb→lt _ _ e),
            (omega (arith, lower), all),
          )
        ]
        | inr e ↦ elim (leader_loop_lem names (suc i) min_seq j (omega arith)) [
          | inl (same, all) ↦ inl (ground (arith, same), (ltb_false→le _ _ e, all))
          | inr (k, n, index, there, lower, all) ↦ inr (
            suc k,
            n,
            ground (arith, index),
            there,
            lower,
            (omega (arith, lower, ltb_false→le _ _ e), all),
          )
        ]
      ]

-- There is a leader where there are children: one of them, and no child has a lower number.
leader-lowest :
    (atoi : List ℕ → ℕ) (name : List ℕ) (names : List (List ℕ))
    → (i : ℕ) × (n : List ℕ) × (leader atoi (name ∷ names) ≡ some n)
      × (get_elem? (name ∷ names) i ≡ some n)
      × All (λ m. sequence atoi n ≤ sequence atoi m) (name ∷ names)
unfolding leader leader_loop
leader-lowest atoi name names =
    elim (leader_loop_lem atoi names 1 (sequence atoi name) 0 (omega arith)) [
      | inl (same, all) ↦ (0, name, ap (get_elem? (name ∷ names)) same, refl, (omega arith, all))
      | inr (k, n, index, there, lower, all) ↦
          (let at : leader_loop atoi names 1 (sequence atoi name) 0 ≡ suc k =
              omega (arith, index) in
            (
              suc k,
              n,
              ap (get_elem? (name ∷ names)) at ∙ there,
              there,
              (omega (arith, lower), all),
            ))
    ]

-- Two gateways that see the same children, in whatever order, choose the same leader, as long as different
-- children have different numbers.
pub leader-agreement :
    (atoi : List ℕ → ℕ) (name name' : List ℕ) (names names' : List (List ℕ))
    → ((n : List ℕ) (i : ℕ)
        → get_elem? (name ∷ names) i ≡ some n
        → (j : ℕ) × (get_elem? (name' ∷ names') j ≡ some n))
    → ((n : List ℕ) (j : ℕ)
        → get_elem? (name' ∷ names') j ≡ some n
        → (i : ℕ) × (get_elem? (name ∷ names) i ≡ some n))
    → ((n m : List ℕ) (i j : ℕ)
        → get_elem? (name ∷ names) i ≡ some n
        → get_elem? (name ∷ names) j ≡ some m
        → sequence atoi n ≡ sequence atoi m
        → n ≡ m)
    → leader atoi (name ∷ names) ≡ leader atoi (name' ∷ names')
leader-agreement atoi name name' names names' there back different =
    let (i, n, first, at, low) = leader-lowest atoi name names in
    let (j, m, second, at', low') = leader-lowest atoi name' names' in
    let (j', n_there) = there n i at in
    let (i', m_here) = back m j at' in
    let le =
      All-get_elem? (λ x. sequence atoi n ≤ sequence atoi x) (name ∷ names) i' m low m_here in
    let ge =
      All-get_elem? (λ x. sequence atoi m ≤ sequence atoi x) (name' ∷ names') j' n low' n_there in
    let same : n ≡ m = different n m i i' at m_here (omega (arith, le, ge)) in
    first ∙ ap (λ x. some x) same ∙ sym second
