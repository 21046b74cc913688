-- ===== src/Checkpoint/Batches.antt =====
-- The batches in which Checkpoint (src/zstore_controller.cc) runs its requests.
use mathlib.Core.List.{append-nil}
use zstore.Common.{
  ℕ, zero, suc, ◌+◌, ◌-◌, ◌≤◌, ◌<◌, ◌≡◌, refl, ap, sym, ◌∙◌, min, some, List, [], ◌∷◌, ◌++◌, take,
  drop, length, length-take, length-drop, drop-drop, take-append-drop, All, ltb, ltb→lt,
  ltb_false→le, Bool-cases, inl, inr, arith, Result, ◌>>=◌, Result-cases, take_all,
}
use zstore.Pool.{RequestContext, Pool}
use zstore.Store.{MapEntry}
use zstore.Store.Map.{FlatMap}
use zstore.Gateway.{on_slot}
use zstore.Checkpoint.{max_concurrency, batch_loop, await_group, await_groups, run_batches}

pub concat {ℓ} : {A : Type ℓ} → List (List A) → List A
concat [] = []
concat (b ∷ bs) = b ++ concat bs

-- A batch has some requests, and at most MAX_CONCURRENCY of them.
abbrev pub IsBatch {ℓ} : {A : Type ℓ} → List A → Type 0
IsBatch b = (0 < length b) × (length b ≤ 256)

drop_all {ℓ} : {A : Type ℓ} (n : ℕ) (xs : List A) → length xs ≤ n → drop n xs ≡ []
drop_all zero [] h = refl
drop_all zero (x ∷ xs) h = absurd (omega arith)
drop_all (suc n) [] h = refl
drop_all (suc n) (x ∷ xs) h = drop_all n xs (omega arith)

-- One round takes the next requests, all that are left or as many as a batch may have.
round_lem {ℓ} :
    {A : Type ℓ} (start : ℕ) (reqs : List A)
    → start < length reqs
    → let batch = take (min (start + max_concurrency) (length reqs) - start) (drop start reqs) in
      IsBatch batch × (batch ++ drop (start + max_concurrency) reqs ≡ drop start reqs)
round_lem start reqs h =
    let n = min (start + max_concurrency) (length reqs) - start in
    let size = length-take n (drop start reqs) in
    let left = length-drop start reqs in
    (
      (omega (arith, size, left), omega (arith, size, left)),
      elim (Bool-cases (ltb (start + max_concurrency) (length reqs))) [
        | inl e ↦
            (let full : n ≡ max_concurrency = omega (arith, ltb→lt _ _ e) in
              ap (λ k. take k (drop start reqs) ++ drop (start + max_concurrency) reqs) full
              ∙ ap (λ t. take max_concurrency (drop start reqs) ++ t)
                  (sym (drop-drop max_concurrency start reqs))
              ∙ take-append-drop max_concurrency (drop start reqs))
        | inr e ↦
            (let most : n ≡ length (drop start reqs) = omega (arith, ltb_false→le _ _ e, left) in
              ap (λ t. take n (drop start reqs) ++ t)
                (drop_all (start + max_concurrency) reqs (ltb_false→le _ _ e))
              ∙ append-nil (take n (drop start reqs))
              ∙ take_all (drop start reqs) n (sym most))
      ],
    )

-- With fuel for one round more than there are requests left, the loop ends. Its batches are not empty,
-- have at most MAX_CONCURRENCY requests, and together are the requests from `start` on, in order.
pub batch_loop_total {ℓ} :
    {A : Type ℓ} (fuel start : ℕ) (reqs : List A)
    → length reqs < start + fuel
    → 0 < fuel
    → (bs : List (List A)) × (batch_loop fuel start reqs ≡ some bs)
      × All IsBatch bs
      × (concat bs ≡ drop start reqs)
unfolding batch_loop concat
batch_loop_total zero start reqs h pos = absurd (omega arith)
batch_loop_total (suc fuel) start reqs h pos = elim (Bool-cases (ltb start (length reqs))) [
  | inl e ↦
      (let below = ltb→lt start (length reqs) e in
        let (bs, more, all, rest) =
          batch_loop_total fuel (start + max_concurrency) reqs (omega (arith, below))
            (omega (arith, below)) in
        let (is, whole) = round_lem start reqs below in
        (
          _ ∷ bs,
          rw e (rw more refl),
          (is, all),
          ap
                (λ t.
                  take (min (start + max_concurrency) (length reqs) - start) (drop start reqs) ++ t)
                rest
              ∙ whole,
        ))
  | inr e ↦ ([], rw e refl, tt, sym (drop_all start reqs (ltb_false→le _ _ e)))
]

module _ (F : FlatMap MapEntry) (op : ℕ → RequestContext → Result RequestContext) where
  await_group-append :
      (xs ys : List ℕ) (p : Pool)
      → await_group F op (xs ++ ys) p ≡ (await_group F op xs p >>= await_group F op ys)
  unfolding await_group
  await_group-append [] ys p = refl
  await_group-append (x ∷ xs) ys p = elim (Result-cases (on_slot F x (op x) p)) [
    | inl ((r, q), e) ↦ rw e (await_group-append xs ys q)
    | inr (f, e) ↦ rw e refl
  ]

  await_groups-concat :
      (bs : List (List ℕ)) (p : Pool) → await_groups F op bs p ≡ await_group F op (concat bs) p
  unfolding await_groups await_group concat
  await_groups-concat [] p = refl
  await_groups-concat (b ∷ bs) p =
      ap (λ k. await_group F op b p >>= k) (λ i q. await_groups-concat bs q i)
      ∙ sym (await_group-append b (concat bs) p)

-- Running requests in batches never runs out of rounds, and does what running them all in order does.
pub run_batches-await_group :
    (F : FlatMap MapEntry) (op : ℕ → RequestContext → Result RequestContext) (reqs : List ℕ)
    (p : Pool)
    → run_batches F op reqs p ≡ await_group F op reqs p
unfolding run_batches
run_batches-await_group F op reqs p =
    let (bs, e, _, whole) =
      batch_loop_total (suc (length reqs)) 0 reqs (omega arith) (omega arith) in
    rw (e, run_batches) (await_groups-concat F op bs p ∙ ap (λ t. await_group F op t p) whole)
