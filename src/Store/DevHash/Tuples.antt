-- ===== src/Store/DevHash/Tuples.antt =====
-- Which device tuples the hash of src/zstore_controller.cc holds.
use zstore.Common.{
  ◌-◌, ◌*◌, All-append, Bool-cases, inl, inr, if◌then◌else◌, ℕ, zero, suc, ◌+◌, ◌%◌, ◌<◌, ◌≡◌, ◌≢◌,
  refl, Bool, true, false, ◌&&◌, ◌||◌, List, [], ◌∷◌, length, get_elem?, get_elem?_lt, All,
  All-get_elem?, ◌==◌, ltb, arith, ok, Option, none, some, ==-zero, ==_ne,
}
use zstore.Conf.{Conf}
use zstore.Hash.{KeyHash, array_to_seed}
use zstore.Store.{DevTuple}
use zstore.Store.DevHash.{
  get_dev_tuple_for_random_reads, populate_dev_hash, get_dev_tuple, loop_i, loop_j, loop_k,
  device_indices,
}

-- Three different devices of the six, each with the current zone.
abbrev pub IsSpread : Conf → DevTuple → Type 0
IsSpread c t =
    (t.first.device_id < 6)
    × (t.second.device_id < 6)
    × (t.third.device_id < 6)
    × (t.first.device_id ≢ t.second.device_id)
    × (t.first.device_id ≢ t.third.device_id)
    × (t.second.device_id ≢ t.third.device_id)
    × (t.first.zone_id ≡ c.current_zone)
    × (t.second.zone_id ≡ c.current_zone)
    × (t.third.zone_id ≡ c.current_zone)

loop_k-IsSpread :
    (c : Conf) (i j : ℕ) (ks : List ℕ)
    → i < 6
    → j < 6
    → i ≢ j
    → All (λ k. k < 6) ks
    → All (IsSpread c) (loop_k c i j ks)
unfolding loop_k
loop_k-IsSpread c i j [] p q ne h = tt
loop_k-IsSpread c i j (k ∷ ks) p q ne h = ground (arith, loop_k-IsSpread c i j ks p q ne h.1)

loop_j-IsSpread :
    (c : Conf) (i : ℕ) (js : List ℕ)
    → i < 6
    → All (λ j. j < 6) js
    → All (IsSpread c) (loop_j c i js)
unfolding loop_j
loop_j-IsSpread c i [] p h = tt
loop_j-IsSpread c i (j ∷ js) p h = elim (Bool-cases (i == j)) [
  | inl e ↦ rw e (loop_j-IsSpread c i js p h.1)
  | inr e ↦ rw e (
      All-append (IsSpread c) (loop_k c i j device_indices) (loop_j c i js)
        (loop_k-IsSpread c i j device_indices p h.0 (ground arith) (omega arith))
        (loop_j-IsSpread c i js p h.1))
]

loop_i-IsSpread : (c : Conf) (is : List ℕ) → All (λ i. i < 6) is → All (IsSpread c) (loop_i c is)
unfolding loop_i
loop_i-IsSpread c [] h = tt
loop_i-IsSpread c (i ∷ is) h =
    All-append (IsSpread c) (loop_j c i device_indices) (loop_i c is)
      (loop_j-IsSpread c i device_indices h.0 (omega arith)) (loop_i-IsSpread c is h.1)

length-populate_dev_hash : (c : Conf) → length (populate_dev_hash c []) ≡ 120
unfolding populate_dev_hash
length-populate_dev_hash c = refl

populate_dev_hash-IsSpread : (c : Conf) → All (IsSpread c) (populate_dev_hash c [])
unfolding populate_dev_hash
populate_dev_hash-IsSpread c = loop_i-IsSpread c device_indices (omega arith)

-- From the populated hash every key gets a tuple, whatever std::rand returns: three different devices
-- of the six, in the current zone.
pub get_dev_tuple-IsSpread :
    (c : Conf) (rand : ℕ → ℕ) (key : KeyHash)
    → (t : DevTuple) × (get_dev_tuple rand (populate_dev_hash c []) key ≡ ok t) × IsSpread c t
get_dev_tuple-IsSpread c rand key =
    let hash : List DevTuple = populate_dev_hash c [] in
    let n : ℕ = rand (array_to_seed key) % length hash in
    let (t, e) = get_elem?_lt hash n (omega (arith, length-populate_dev_hash c)) in
    (
      t,
      unfold get_dev_tuple in
          rw (==-zero (length hash) (omega (arith, length-populate_dev_hash c)))
            (rw (e, get_dev_tuple) refl),
      All-get_elem? (IsSpread c) hash n t (populate_dev_hash-IsSpread c) e,
    )

-- The position of a triple among the 120.
abbrev below : ℕ → ℕ → ℕ
below a b = if ltb a b then 1 else 0

abbrev rank : ℕ → ℕ → ℕ → ℕ
rank i j k = 20 * i + 4 * (j - below i j) + (k - below i k - below j k)

has_ids : Option DevTuple → ℕ → ℕ → ℕ → Bool
has_ids none i j k = false
has_ids (some t) i j k =
    (t.first.device_id == i) && ((t.second.device_id == j) && (t.third.device_id == k))

-- A test that holds at every number under a bound, found by running it.
holds_under : (ℕ → Bool) → ℕ → Bool
holds_under test zero = true
holds_under test (suc bound) = holds_under test bound && test bound

holds_at :
    (test : ℕ → Bool) (bound i : ℕ) → i < bound → holds_under test bound ≡ true → test i ≡ true
unfolding holds_under
holds_at test zero i small e = absurd (omega arith)
holds_at test (suc bound) i small e = ground (arith, holds_at test bound i)

placed : Conf → ℕ → ℕ → ℕ → Bool
placed c i j k =
    (i == j)
    || ((i == k) || ((j == k) || has_ids (get_elem? (populate_dev_hash c []) (rank i j k)) i j k))

all_placed :
    (c : Conf)
    → holds_under (λ i. holds_under (λ j. holds_under (λ k. placed c i j k) 6) 6) 6 ≡ true
unfolding holds_under placed has_ids populate_dev_hash
all_placed c = refl

placed_at : (c : Conf) (i j k : ℕ) → i < 6 → j < 6 → k < 6 → placed c i j k ≡ true
placed_at c i j k p q r =
    holds_at (λ k. placed c i j k) 6 k r
      (holds_at (λ j. holds_under (λ k. placed c i j k) 6) 6 j q
        (holds_at (λ i. holds_under (λ j. holds_under (λ k. placed c i j k) 6) 6) 6 i p
          (all_placed c)))

has_ids-fields :
    (o : Option DevTuple) (i j k : ℕ)
    → has_ids o i j k ≡ true
    → (t : DevTuple) × (o ≡ some t)
      × (t.first.device_id ≡ i)
      × (t.second.device_id ≡ j)
      × (t.third.device_id ≡ k)
unfolding has_ids
has_ids-fields none i j k h = absurd (cc)
has_ids-fields (some t) i j k h = (t, refl, ground arith, ground arith, ground arith)

placed-has_ids :
    (c : Conf) (i j k : ℕ)
    → i ≢ j
    → i ≢ k
    → j ≢ k
    → placed c i j k ≡ true
    → has_ids (get_elem? (populate_dev_hash c []) (rank i j k)) i j k ≡ true
unfolding placed
placed-has_ids c i j k ij ik jk h = rw (==_ne i j ij, ==_ne i k ik, ==_ne j k jk) at h

rank-lt : (i j k : ℕ) → i < 6 → j < 6 → k < 6 → i ≢ j → i ≢ k → j ≢ k → rank i j k < 120
rank-lt i j k p q r ij ik jk = ground arith

-- Every ordered choice of three different devices is one of the 120 tuples.
populate_dev_hash_complete :
    (c : Conf) (i j k : ℕ)
    → i < 6
    → j < 6
    → k < 6
    → i ≢ j
    → i ≢ k
    → j ≢ k
    → (n : ℕ) × (t : DevTuple) × (n < 120)
      × (get_elem? (populate_dev_hash c []) n ≡ some t)
      × (t.first.device_id ≡ i)
      × (t.second.device_id ≡ j)
      × (t.third.device_id ≡ k)
populate_dev_hash_complete c i j k p q r ij ik jk =
    let (t, e, f, g, h) =
      has_ids-fields _ i j k (placed-has_ids c i j k ij ik jk (placed_at c i j k p q r)) in
    (rank i j k, t, rank-lt i j k p q r ij ik jk, e, f, g, h)

-- The fixed choice for random reads is such a tuple as well.
pub get_dev_tuple_for_random_reads-IsSpread :
    (c : Conf) → IsSpread c (get_dev_tuple_for_random_reads c)
unfolding get_dev_tuple_for_random_reads
get_dev_tuple_for_random_reads-IsSpread c = ground arith
