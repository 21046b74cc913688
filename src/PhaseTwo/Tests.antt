-- ===== src/PhaseTwo/Tests.antt =====
-- Tests of WaitForPhase2 and ReleaseKey (src/zstore_controller.cc).
use zstore.Common.{ℕ, ◌<◌, ◌≡◌, ◌≢◌, List, refl, false, none, some, codes, arith}
use zstore.Hash.{key_eq}
use zstore.PhaseTwo.{
  Phase, idle, waiting, woken, releasing, wait_for_phase2, visit_key, release_key, insert_cond,
  Reach, here, later, visits, releases,
}
use zstore.PhaseTwo.Stuck.{IsMade, wait_for_phase2-stuck}
use zstore.PhaseTwo.Deadlock.{release_key-deadlocks}

abbrev quiet : Phase
quiet = record {
  cond_map = λ k. none;
  released = λ s. false;
  locked = λ s. false;
  visited = λ k. false;
  next = 0;
  pc = λ i. idle;
}

abbrev one_waiter : Phase
one_waiter = wait_for_phase2 0 (codes "k") quiet

there_a : one_waiter.cond_map (codes "k") ≡ some 0
unfolding wait_for_phase2 insert_cond key_eq
there_a = refl

waits_a : one_waiter.pc 0 ≡ waiting (codes "k") 0
unfolding wait_for_phase2
waits_a = refl

made_a : 0 < one_waiter.next
unfolding wait_for_phase2
made_a = omega arith

one_waiter-IsMade : IsMade one_waiter
unfolding wait_for_phase2 insert_cond
one_waiter-IsMade = record { mapped = λ j t e. ground arith; held = λ m l t e. ground arith }

-- The second thread calls for the same key, and a third one releases it.
abbrev two_waiters : Phase
two_waiters = wait_for_phase2 1 (codes "k") one_waiter

abbrev released_a : Phase
released_a = release_key 2 (codes "k") 0 (visit_key 2 (codes "k") 0 two_waiters)

stuck_a : Reach two_waiters released_a
unfolding wait_for_phase2 insert_cond key_eq visit_key
stuck_a =
    later (later here (visits 2 (codes "k") 0 refl refl refl refl))
      (releases 2 (codes "k") 0 refl refl refl)

wait_for_phase2-stuck_example : released_a.pc 1 ≡ waiting (codes "k") one_waiter.next
wait_for_phase2-stuck_example =
    wait_for_phase2-stuck 1 (codes "k") 0 one_waiter released_a one_waiter-IsMade there_a stuck_a

idle_a : (one_waiter.pc 1 ≡ idle) × (one_waiter.pc 2 ≡ idle)
unfolding wait_for_phase2
idle_a = (refl, refl)

free_a : (one_waiter.visited (codes "k") ≡ false) × (one_waiter.locked 0 ≡ false)
unfolding wait_for_phase2
free_a = (refl, refl)

unowned_a : (m : ℕ) (l : List ℕ) → one_waiter.pc m ≢ woken l 0
unfolding wait_for_phase2
unowned_a m l e = ground arith

unvisited_a : (m : ℕ) (t : ℕ) → one_waiter.pc m ≢ releasing (codes "k") t
unfolding wait_for_phase2
unvisited_a m t e = ground arith

release_key-deadlocks_example :
    (τ : Phase) × Reach one_waiter τ
    × ((υ : Phase)
        → Reach τ υ
        → (υ.pc 0 ≡ woken (codes "k") 0) × (υ.pc 2 ≡ releasing (codes "k") 0))
release_key-deadlocks_example =
    release_key-deadlocks 0 1 2 (codes "k") 0 one_waiter waits_a idle_a.0 idle_a.1 refl there_a
      made_a free_a.0 free_a.1 unowned_a unvisited_a
