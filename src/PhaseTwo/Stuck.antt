-- ===== src/PhaseTwo/Stuck.antt =====
-- A wait of src/zstore_controller.cc that never ends.
use mathlib.Core.Path.{subst}
use zstore.Common.{
  ℕ, ◌<◌, ◌≡◌, ◌≢◌, inl, inr, refl, sym, ap, ◌∙◌, true, false, Option, some, ◌==◌, ==_iff, ==_refl,
  arith, Bool-cases, Option-cases,
}
use zstore.Hash.{KeyHash, key_eq}
use zstore.PhaseTwo.{
  Pc, idle, waiting, woken, releasing, Phase, at_thread, insert_cond, wait_for_phase2, wake,
  erase_key, visit_key, release_key, Step, calls, wakes, erases, visits, misses, releases, Reach,
  here, later,
}
use zstore.PhaseTwo.Threads.{other-thread, moved-thread}

-- Thread `i` waits for the condition `s`, which was made, which no entry of the map leads to and which no
-- thread is about to release.
pub record IsOrphan (i : ℕ) (k : KeyHash) (s : ℕ) (σ : Phase) : Type 0 where
  pub waits : σ.pc i ≡ waiting k s
  pub made : s < σ.next
  pub unset : σ.released s ≡ false
  pub unreachable : (j : KeyHash) → σ.cond_map j ≢ some s
  pub unreleased : (m : ℕ) (l : KeyHash) → σ.pc m ≢ releasing l s

insert_cond-ne :
    (k j : KeyHash) (s t : ℕ) (m : KeyHash → Option ℕ)
    → s ≢ t
    → m j ≢ some t
    → insert_cond k s m j ≢ some t
unfolding insert_cond
insert_cond-ne k j s t m ne h = elim (Option-cases (m k)) [
  | inl e ↦
      rw (e, insert_cond)
        (λ x. elim (Bool-cases (key_eq k j)) [
          | inl same ↦ absurd (let y : some s ≡ some t = rw same at x in ne (cc))
          | inr differs ↦ absurd (h (rw differs at x))
        ])
  | inr (u, e) ↦ rw (e, insert_cond) h
]

-- A thread that moves to a place that is no release of `s`.
still-unreleased :
    (f : ℕ → Pc) (j s : ℕ) (p : Pc)
    → ((m : ℕ) (l : KeyHash) → f m ≢ releasing l s)
    → ((l : KeyHash) → p ≢ releasing l s)
    → (m : ℕ) (l : KeyHash) → at_thread f j p m ≢ releasing l s
still-unreleased f j s p all off m l = elim (Bool-cases (j == m)) [
  | inl same ↦ λ e. off l (rw same at e)
  | inr ne ↦ λ e. all m l (rw ne at e)
]

Step-IsOrphan :
    (i : ℕ) (k : KeyHash) (s : ℕ) (σ τ : Phase) → Step σ τ → IsOrphan i k s σ → IsOrphan i k s τ
unfolding wait_for_phase2 wake erase_key visit_key release_key
Step-IsOrphan i k s σ τ (calls j l at quiet e) o =
    let ne = other-thread σ.pc i j (waiting k s) idle o.waits at (λ x. cc) in
    subst (IsOrphan i k s) (sym e) (record {
      waits = moved-thread σ.pc i j _ _ ne o.waits;
      made = omega (arith, o.made);
      unset = ground (arith, o.unset);
      unreachable = λ m.
          insert_cond-ne l m σ.next s σ.cond_map (λ x. absurd (omega (arith, x, o.made)))
            (o.unreachable m);
      unreleased = still-unreleased σ.pc j s _ o.unreleased (λ n x. cc);
    })
Step-IsOrphan i k s σ τ (wakes j l t at set free e) o =
    let ne : (j == i) ≡ false = other-thread σ.pc i j (waiting k s) (waiting l t) o.waits at (λ x.
      (let same : s ≡ t = cc in
        let on : σ.released s ≡ true = rw same set in let off = o.unset in cc)) in
    subst (IsOrphan i k s) (sym e) (record {
      waits = moved-thread σ.pc i j _ _ ne o.waits;
      made = o.made;
      unset = o.unset;
      unreachable = o.unreachable;
      unreleased = still-unreleased σ.pc j s _ o.unreleased (λ n x. cc);
    })
Step-IsOrphan i k s σ τ (erases j l t at quiet e) o =
    let ne = other-thread σ.pc i j (waiting k s) (woken l t) o.waits at (λ x. cc) in
    subst (IsOrphan i k s) (sym e) (record {
      waits = moved-thread σ.pc i j _ _ ne o.waits;
      made = o.made;
      unset = o.unset;
      unreachable = λ m x. o.unreachable m (ground arith);
      unreleased = still-unreleased σ.pc j s _ o.unreleased (λ n x. cc);
    })
Step-IsOrphan i k s σ τ (visits j l t at there quiet e) o =
    let ne = other-thread σ.pc i j (waiting k s) idle o.waits at (λ x. cc) in
    subst (IsOrphan i k s) (sym e) (record {
      waits = moved-thread σ.pc i j _ _ ne o.waits;
      made = o.made;
      unset = o.unset;
      unreachable = o.unreachable;
      unreleased =
          still-unreleased σ.pc j s _ o.unreleased
            (λ n x. (let same : t ≡ s = cc in absurd (o.unreachable l (there ∙ ap some same))));
    })
Step-IsOrphan i k s σ τ (misses j l at gone quiet e) o =
    let ne = other-thread σ.pc i j (waiting k s) idle o.waits at (λ x. cc) in
    subst (IsOrphan i k s) (sym e) (record {
      waits = moved-thread σ.pc i j _ _ ne o.waits;
      made = o.made;
      unset = o.unset;
      unreachable = o.unreachable;
      unreleased = still-unreleased σ.pc j s _ o.unreleased (λ n x. cc);
    })
Step-IsOrphan i k s σ τ (releases j l t at free e) o =
    let ne = other-thread σ.pc i j (waiting k s) (releasing l t) o.waits at (λ x. cc) in
    let other : (t == s) ≡ false = elim (Bool-cases (t == s)) [
      | inl same ↦
          absurd (o.unreleased j l (subst (λ x. σ.pc j ≡ releasing l x) ((==_iff t s).0 same) at))
      | inr x ↦ x
    ] in
    subst (IsOrphan i k s) (sym e) (record {
      waits = moved-thread σ.pc i j _ _ ne o.waits;
      made = o.made;
      unset = rw other o.unset;
      unreachable = o.unreachable;
      unreleased = still-unreleased σ.pc j s _ o.unreleased (λ n x. cc);
    })

Reach-IsOrphan :
    (i : ℕ) (k : KeyHash) (s : ℕ) {σ τ : Phase} → Reach σ τ → IsOrphan i k s σ → IsOrphan i k s τ
Reach-IsOrphan i k s here o = o
Reach-IsOrphan i k s (later r step) o = Step-IsOrphan i k s _ _ step (Reach-IsOrphan i k s r o)

-- Every condition of the map was made, and every one that a thread is about to release.
pub record IsMade (σ : Phase) : Type 0 where
  pub mapped : (j : KeyHash) (t : ℕ) → σ.cond_map j ≡ some t → t < σ.next
  pub held : (m : ℕ) (l : KeyHash) (t : ℕ) → σ.pc m ≡ releasing l t → t < σ.next

-- A thread that waits for a key while the key has an entry already waits for ever: whatever the threads
-- do and whatever keys are released, the thread is still waiting. The condition: every condition of the
-- map, and every one that a thread is about to release, was made before.
pub wait_for_phase2-stuck :
    (i : ℕ) (k : KeyHash) (s : ℕ) (σ τ : Phase)
    → IsMade σ
    → σ.cond_map k ≡ some s
    → Reach (wait_for_phase2 i k σ) τ
    → τ.pc i ≡ waiting k σ.next
unfolding wait_for_phase2 insert_cond
wait_for_phase2-stuck i k s σ τ made there reach =
    (Reach-IsOrphan i k σ.next reach (record {
      waits = rw (==_refl i) refl;
      made = omega arith;
      unset = rw (==_refl σ.next) refl;
      unreachable = λ j e.
          (let below : σ.cond_map j ≡ some σ.next = rw (there, insert_cond) at e in
            let bad = made.mapped j σ.next below in absurd (omega (arith, bad)));
      unreleased =
          still-unreleased σ.pc i σ.next (waiting k σ.next)
            (λ m l e. (let bad = made.held m l σ.next e in absurd (omega (arith, bad))))
            (λ l x. cc);
    })).waits
