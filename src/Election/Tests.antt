-- ===== src/Election/Tests.antt =====
-- Tests of the coordination through ZooKeeper (src/zstore_controller.cc).
use zstore.Common.{
  ℕ, zero, suc, ◌-◌, ◌≡◌, ap, sym, ◌∙◌, Option, some, List, [], ◌∷◌, get_elem?, codes, arith,
  replicate,
}
use zstore.Election.{sequence, leader}
use zstore.Election.Agreement.{leader-agreement}

-- The last digit of a number, in place of atoi.
abbrev last_digit : List ℕ → ℕ
last_digit [] = 0
last_digit (c ∷ []) = c - 48
last_digit (c ∷ d ∷ cs) = last_digit (d ∷ cs)

abbrev node1 : List ℕ
node1 = codes "n_1"

abbrev node2 : List ℕ
node2 = codes "n_2"

swapped :
    (a b n : List ℕ) (i : ℕ)
    → get_elem? (a ∷ b ∷ []) i ≡ some n
    → (j : ℕ) × (get_elem? (b ∷ a ∷ []) j ≡ some n)
swapped a b n zero e = (1, e)
swapped a b n (suc zero) e = (0, e)
swapped a b n (suc (suc i)) e = absurd (cc)

numbered :
    (n m : List ℕ) (i j : ℕ)
    → get_elem? (node1 ∷ node2 ∷ []) i ≡ some n
    → get_elem? (node1 ∷ node2 ∷ []) j ≡ some m
    → sequence last_digit n ≡ sequence last_digit m
    → n ≡ m
unfolding sequence
numbered n m zero zero e f s = cc
numbered n m zero (suc zero) e f s =
    let one : node1 ≡ n = cc in
    let two : node2 ≡ m = cc in
    let bad : 1 ≡ 2 = ap (sequence last_digit) one ∙ s ∙ sym (ap (sequence last_digit) two) in
    absurd (omega (arith, bad))
numbered n m (suc zero) zero e f s =
    let two : node2 ≡ n = cc in
    let one : node1 ≡ m = cc in
    let bad : 2 ≡ 1 = ap (sequence last_digit) two ∙ s ∙ sym (ap (sequence last_digit) one) in
    absurd (omega (arith, bad))
numbered n m (suc zero) (suc zero) e f s = cc
numbered n m (suc (suc i)) j e f s = absurd (cc)
numbered n m zero (suc (suc j)) e f s = absurd (cc)
numbered n m (suc zero) (suc (suc j)) e f s = absurd (cc)

leader-agreement_example :
    leader last_digit (node1 ∷ node2 ∷ []) ≡ leader last_digit (node2 ∷ node1 ∷ [])
leader-agreement_example =
    leader-agreement last_digit node1 node2 (node2 ∷ []) (node1 ∷ []) (swapped node1 node2)
      (swapped node2 node1) numbered

abbrev long_node : List ℕ
long_node = replicate 300 7

abbrev children_a : List (List ℕ × Option (List ℕ))
children_a = (codes "g1", some (codes "commit\0gc")) ∷ (codes "g2", some (codes "empty_")) ∷ []
