-- ===== src/PhaseTwo/Deadlock.antt =====
-- Two threads of src/zstore_controller.cc that wait for each other: WaitForPhase2 erases its key with the
-- mutex of its condition, and ReleaseKey takes that mutex inside the visit of the key.
use mathlib.Core.Path.{subst}
use zstore.Common.{
  ℕ, ◌<◌, ◌≡◌, arith, ◌≢◌, inl, inr, refl, sym, ap, ◌∙◌, true, false, some, ◌==◌, ==_iff, ==_refl,
  ==_sym, Bool-cases,
}
use zstore.Hash.{KeyHash, key_eq}
use zstore.Hash.Hex.{key_eq_iff}
use zstore.PhaseTwo.{
  Pc, idle, waiting, woken, releasing, finished, Phase, at_thread, wait_for_phase2, wake, erase_key,
  visit_key, release_key, Step, calls, wakes, erases, visits, misses, releases, Reach, here, later,
}
use zstore.PhaseTwo.Threads.{other-thread, moved-thread}

-- Thread `i` has the mutex of `s` and would erase `k`, thread `j` visits `k` and would take the mutex.
-- No other thread has that mutex or visits that key.
pub record IsDeadlocked (i j : ℕ) (k : KeyHash) (s : ℕ) (σ : Phase) : Type 0 where
  pub erasing : σ.pc i ≡ woken k s
  pub locking : σ.pc j ≡ releasing k s
  pub mutex_taken : σ.locked s ≡ true
  pub key_taken : σ.visited k ≡ true
  pub one_owner : (m : ℕ) (l : KeyHash) → σ.pc m ≡ woken l s → m ≡ i
  pub one_visitor : (m : ℕ) (t : ℕ) → σ.pc m ≡ releasing k t → m ≡ j

-- A thread that moves to a place where it does not have the mutex of `s`.
owner-kept :
    (f : ℕ → Pc) (m i s : ℕ) (p : Pc)
    → ((n : ℕ) (l : KeyHash) → f n ≡ woken l s → n ≡ i)
    → ((l : KeyHash) → p ≢ woken l s)
    → (n : ℕ) (l : KeyHash) → at_thread f m p n ≡ woken l s
    → n ≡ i
owner-kept f m i s p all off n l = elim (Bool-cases (m == n)) [
  | inl same ↦ λ e. absurd (off l (rw same at e))
  | inr ne ↦ λ e. all n l (rw ne at e)
]

visitor-kept :
    (f : ℕ → Pc) (m j : ℕ) (k : KeyHash) (p : Pc)
    → ((n : ℕ) (t : ℕ) → f n ≡ releasing k t → n ≡ j)
    → ((t : ℕ) → p ≢ releasing k t)
    → (n : ℕ) (t : ℕ) → at_thread f m p n ≡ releasing k t
    → n ≡ j
visitor-kept f m j k p all off n t = elim (Bool-cases (m == n)) [
  | inl same ↦ λ e. absurd (off t (rw same at e))
  | inr ne ↦ λ e. all n t (rw ne at e)
]

-- A step of a third thread from the place `q` to the place `p`.
moved-IsDeadlocked :
    (i j m : ℕ) (k : KeyHash) (s : ℕ) (p q : Pc) (σ τ : Phase)
    → IsDeadlocked i j k s σ
    → σ.pc m ≡ q
    → woken k s ≢ q
    → releasing k s ≢ q
    → τ.pc ≡ at_thread σ.pc m p
    → τ.locked s ≡ true
    → τ.visited k ≡ true
    → ((l : KeyHash) → p ≢ woken l s)
    → ((t : ℕ) → p ≢ releasing k t)
    → IsDeadlocked i j k s τ
moved-IsDeadlocked i j m k s p q σ τ d at no_owner no_visitor moves taken visited off away =
    let a : (m == i) ≡ false = other-thread σ.pc i m (woken k s) q d.erasing at no_owner in
    let b : (m == j) ≡ false = other-thread σ.pc j m (releasing k s) q d.locking at no_visitor in
    record {
      erasing = ap (λ f. f i) moves ∙ moved-thread σ.pc i m _ _ a d.erasing;
      locking = ap (λ f. f j) moves ∙ moved-thread σ.pc j m _ _ b d.locking;
      mutex_taken = taken;
      key_taken = visited;
      one_owner =
          λ n l e. owner-kept σ.pc m i s p d.one_owner off n l (ap (λ f. f n) (sym moves) ∙ e);
      one_visitor =
          λ n t e. visitor-kept σ.pc m j k p d.one_visitor away n t (ap (λ f. f n) (sym moves) ∙ e);
    }

-- Two conditions of which one mutex is free and the other is not.
unlocked-other : (t s : ℕ) (σ : Phase) → σ.locked t ≡ false → σ.locked s ≡ true → (t == s) ≡ false
unlocked-other t s σ free taken = elim (Bool-cases (t == s)) [
  | inl same ↦ absurd (let both : σ.locked t ≡ σ.locked s = ap σ.locked ((==_iff t s).0 same) in cc)
  | inr x ↦ x
]

unvisited-other :
    (l k : KeyHash) (σ : Phase) → σ.visited l ≡ false → σ.visited k ≡ true → key_eq l k ≡ false
unvisited-other l k σ quiet taken = elim (Bool-cases (key_eq l k)) [
  | inl same ↦
      absurd (let both : σ.visited l ≡ σ.visited k = ap σ.visited ((key_eq_iff l k).0 same) in cc)
  | inr x ↦ x
]

other-cond : (t s : ℕ) → (t == s) ≡ false → t ≢ s
other-cond t s ne e = let same : (t == s) ≡ true = (==_iff t s).1 e in cc

other-key : (l k : KeyHash) → key_eq l k ≡ false → l ≢ k
other-key l k ne e = let same : key_eq l k ≡ true = (key_eq_iff l k).1 e in cc

Step-IsDeadlocked :
    (i j : ℕ) (k : KeyHash) (s : ℕ) (σ τ : Phase)
    → s < σ.next
    → Step σ τ
    → IsDeadlocked i j k s σ
    → IsDeadlocked i j k s τ × (s < τ.next)
unfolding wait_for_phase2 wake erase_key visit_key release_key
Step-IsDeadlocked i j k s σ τ made (calls m l at quiet e) d =
    let fresh : (σ.next == s) ≡ false = ground (arith, made) in
    let σ1 = wait_for_phase2 m l σ in
    subst (λ x. IsDeadlocked i j k s x × (s < x.next)) (sym e)
      (
        moved-IsDeadlocked i j m k s (waiting l σ.next) idle σ σ1 d at (λ x. cc) (λ x. cc) refl
            (rw fresh d.mutex_taken) d.key_taken (λ n x. cc) (λ n x. cc),
        omega (arith, made),
      )
Step-IsDeadlocked i j k s σ τ made (wakes m l t at set free e) d =
    let other = unlocked-other t s σ free d.mutex_taken in
    subst (λ x. IsDeadlocked i j k s x × (s < x.next)) (sym e)
      (
        moved-IsDeadlocked i j m k s (woken l t) (waiting l t) σ (wake m l t σ) d at (λ x. cc)
            (λ x. cc) refl (rw other d.mutex_taken) d.key_taken (λ n x. other-cond t s other (cc))
            (λ n x. cc),
        made,
      )
Step-IsDeadlocked i j k s σ τ made (erases m l t at quiet e) d =
    let differs = unvisited-other l k σ quiet d.key_taken in
    let other : (t == s) ≡ false = elim (Bool-cases (t == s)) [
      | inr x ↦ x
      | inl same ↦ absurd (
          let owns : σ.pc m ≡ woken l s =
            subst (λ x. σ.pc m ≡ woken l x) ((==_iff t s).0 same) at in
          let both : woken k s ≡ woken l s =
            sym d.erasing ∙ ap σ.pc (sym (d.one_owner m l owns)) ∙ owns in
          let keys : l ≡ k = cc in other-key l k differs keys)
    ] in
    subst (λ x. IsDeadlocked i j k s x × (s < x.next)) (sym e)
      (
        moved-IsDeadlocked i j m k s finished (woken l t) σ (erase_key m l t σ) d at
            (λ x. other-cond t s other (cc)) (λ x. cc) refl (rw other d.mutex_taken) d.key_taken
            (λ n x. cc) (λ n x. cc),
        made,
      )
Step-IsDeadlocked i j k s σ τ made (visits m l t at there quiet e) d =
    let differs = unvisited-other l k σ quiet d.key_taken in
    subst (λ x. IsDeadlocked i j k s x × (s < x.next)) (sym e)
      (
        moved-IsDeadlocked i j m k s (releasing l t) idle σ (visit_key m l t σ) d at (λ x. cc)
            (λ x. cc) refl d.mutex_taken (rw differs d.key_taken) (λ n x. cc)
            (λ n x. other-key l k differs (cc)),
        made,
      )
Step-IsDeadlocked i j k s σ τ made (misses m l at gone quiet e) d =
    subst (λ x. IsDeadlocked i j k s x × (s < x.next)) (sym e)
      (
        moved-IsDeadlocked i j m k s finished idle σ _ d at (λ x. cc) (λ x. cc) refl d.mutex_taken
            d.key_taken (λ n x. cc) (λ n x. cc),
        made,
      )
Step-IsDeadlocked i j k s σ τ made (releases m l t at free e) d =
    let other = unlocked-other t s σ free d.mutex_taken in
    let differs : key_eq l k ≡ false = elim (Bool-cases (key_eq l k)) [
      | inr x ↦ x
      | inl same ↦ absurd (
          let visits_k : σ.pc m ≡ releasing k t =
            subst (λ x. σ.pc m ≡ releasing x t) ((key_eq_iff l k).0 same) at in
          let both : releasing k s ≡ releasing k t =
            sym d.locking ∙ ap σ.pc (sym (d.one_visitor m t visits_k)) ∙ visits_k in
          other-cond t s other (cc))
    ] in
    subst (λ x. IsDeadlocked i j k s x × (s < x.next)) (sym e)
      (
        moved-IsDeadlocked i j m k s finished (releasing l t) σ (release_key m l t σ) d at (λ x. cc)
            (λ x. other-cond t s other (cc)) refl d.mutex_taken (rw differs d.key_taken) (λ n x. cc)
            (λ n x. cc),
        made,
      )

Reach-IsDeadlocked :
    (i j : ℕ) (k : KeyHash) (s : ℕ) {σ τ : Phase}
    → s < σ.next
    → Reach σ τ
    → IsDeadlocked i j k s σ
    → IsDeadlocked i j k s τ × (s < τ.next)
Reach-IsDeadlocked i j k s made here d = (d, made)
Reach-IsDeadlocked i j k s made (later r step) d =
    let (d1, made1) = Reach-IsDeadlocked i j k s made r d in
    Step-IsDeadlocked i j k s _ _ made1 step d1

-- Thread `m` has left its visit, the only one of the key.
second_gone :
    (m : ℕ) (k : KeyHash) (s : ℕ) (f : ℕ → Pc)
    → ((n : ℕ) (t : ℕ) → f n ≢ releasing k t)
    → (n : ℕ) (t : ℕ) → at_thread (at_thread f m (releasing k s)) m finished n ≢ releasing k t
second_gone m k s f all n t = elim (Bool-cases (m == n)) [
  | inl same ↦ λ e. (let gone : finished ≡ releasing k t = rw same at e in cc)
  | inr ne ↦ λ e. all n t (rw ne at e)
]

-- Two threads release a key that thread `i` waits for. They can get, and `i` with them, to where `i` would
-- erase the key while the second of them visits it and wants the mutex that `i` has; and from there both
-- stay where they are, whatever the threads do. The conditions: the wait of `i` is for the condition of the
-- key, which was made; the two have not begun, and differ; no thread visits the key, and none has the mutex.
pub release_key-deadlocks :
    (i j1 j2 : ℕ) (k : KeyHash) (s : ℕ) (σ : Phase)
    → σ.pc i ≡ waiting k s
    → σ.pc j1 ≡ idle
    → σ.pc j2 ≡ idle
    → (j1 == j2) ≡ false
    → σ.cond_map k ≡ some s
    → s < σ.next
    → σ.visited k ≡ false
    → σ.locked s ≡ false
    → ((m : ℕ) (l : KeyHash) → σ.pc m ≢ woken l s)
    → ((m : ℕ) (t : ℕ) → σ.pc m ≢ releasing k t)
    → (τ : Phase) × Reach σ τ
      × ((υ : Phase) → Reach τ υ → (υ.pc i ≡ woken k s) × (υ.pc j2 ≡ releasing k s))
unfolding wake visit_key release_key
release_key-deadlocks i j1 j2 k s σ waits idle1 idle2 differ there made quiet free unowned
      unvisited =
    let n1 : (j1 == i) ≡ false = other-thread σ.pc i j1 (waiting k s) idle waits idle1 (λ x. cc) in
    let n2 : (j2 == i) ≡ false = other-thread σ.pc i j2 (waiting k s) idle waits idle2 (λ x. cc) in
    let self : key_eq k k ≡ true = (key_eq_iff k k).1 refl in
    let σ1 = visit_key j1 k s σ in
    let σ2 = release_key j1 k s σ1 in
    let σ3 = wake i k s σ2 in
    let σ4 = visit_key j2 k s σ3 in
    let runs : Reach σ σ4 =
      later
        (later
          (later (later here (visits j1 k s idle1 there quiet refl))
            (releases j1 k s (rw (==_refl j1) refl) free refl))
          (wakes i k s (rw n1 waits) (rw (==_refl s) refl) free refl))
        (visits j2 k s (rw (==_sym j2 i n2, differ) idle2) there (rw self refl) refl) in
    let d : IsDeadlocked i j2 k s σ4 = record {
      erasing = rw (n2, ==_refl i) refl;
      locking = rw (==_refl j2) refl;
      mutex_taken = rw (==_refl s) refl;
      key_taken = rw self refl;
      one_owner =
          owner-kept σ3.pc j2 i s (releasing k s)
            (λ n l e. elim (Bool-cases (i == n)) [
              | inl same ↦ sym ((==_iff i n).0 same)
              | inr ne ↦
                  owner-kept σ1.pc j1 i s finished
                    (owner-kept σ.pc j1 i s (releasing k s) (λ a b x. absurd (unowned a b x))
                      (λ b x. cc))
                    (λ b x. cc) n l (rw ne at e)
            ])
            (λ b x. cc);
      one_visitor = λ n t e. elim (Bool-cases (j2 == n)) [
        | inl same ↦ sym ((==_iff j2 n).0 same)
        | inr ne ↦
            visitor-kept σ2.pc i j2 k (woken k s)
              (λ a b x. absurd (second_gone j1 k s σ.pc unvisited a b x)) (λ b x. cc) n t
              (rw ne at e)
      ];
    } in
    (
      σ4,
      runs,
      λ υ r. (let (d', made') = Reach-IsDeadlocked i j2 k s made r d in (d'.erasing, d'.locking)),
    )
