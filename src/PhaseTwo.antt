-- ===== src/PhaseTwo.antt =====
-- WaitForPhase2 and ReleaseKey of src/zstore_controller.cc: threads that wait for a key and threads that
-- release one, interleaved in any order, with the two locks that they take: the mutex of a CondEntry, and
-- the access to an entry of the map. A CondEntry is known by its address.
-- `boost::concurrent_flat_map::insert` leaves the entry of a key that has one, `visit` keeps the entry of
-- the key to itself while its function runs, and `erase` waits for that.
pub mod Threads
pub mod Stuck
pub mod Deadlock
pub mod Tests
use zstore.Common.{ℕ, suc, ◌≡◌, Bool, true, false, Option, none, some, ◌==◌, if◌then◌else◌}
use zstore.Hash.{KeyHash, key_eq}

-- Where a thread is: before a call; in WaitForPhase2 up to the end of the wait, when it does not keep the
-- mutex of its condition, and past it, when it does; in ReleaseKey inside the visit of an entry; at the end.
pub data Pc : Type 0 where
  idle : Pc
  waiting woken releasing : KeyHash → ℕ → Pc
  finished : Pc

-- `released` is the flag of each CondEntry and `locked` its mutex, `visited` says that a thread is inside
-- a visit of the key, `next` is the address that make_shared gives next.
pub record Phase : Type 0 where
  pub cond_map : KeyHash → Option ℕ
  pub released : ℕ → Bool
  pub locked : ℕ → Bool
  pub visited : KeyHash → Bool
  pub next : ℕ
  pub pc : ℕ → Pc

abbrev at_key : (KeyHash → Option ℕ) → KeyHash → Option ℕ → KeyHash → Option ℕ
at_key m k o j = if key_eq k j then o else m j

abbrev pub at_visit : (KeyHash → Bool) → KeyHash → Bool → KeyHash → Bool
at_visit f k b j = if key_eq k j then b else f j

abbrev pub at_thread : (ℕ → Pc) → ℕ → Pc → ℕ → Pc
at_thread f i p j = if i == j then p else f j

abbrev pub at_cond : (ℕ → Bool) → ℕ → Bool → ℕ → Bool
at_cond f s b t = if s == t then b else f t

-- `mCondMap.insert({key, cond})`
pub insert_cond : KeyHash → ℕ → (KeyHash → Option ℕ) → KeyHash → Option ℕ
insert_cond k s m = elim (m k) [ none ↦ at_key m k (some s) | some t ↦ m ]

-- The start of WaitForPhase2: a new condition, and its insertion.
pub wait_for_phase2 : ℕ → KeyHash → Phase → Phase
unfolding insert_cond
wait_for_phase2 i k σ = record {
  cond_map = insert_cond k σ.next σ.cond_map;
  released = at_cond σ.released σ.next false;
  locked = at_cond σ.locked σ.next false;
  visited = σ.visited;
  next = suc σ.next;
  pc = at_thread σ.pc i (waiting k σ.next);
}

-- The wait is over, and the thread has the mutex.
pub wake : ℕ → KeyHash → ℕ → Phase → Phase
wake i k s σ = record σ { locked = at_cond σ.locked s true; pc = at_thread σ.pc i (woken k s) }

-- `mCondMap.erase(key)`, and the end of the call, which gives the mutex back.
pub erase_key : ℕ → KeyHash → ℕ → Phase → Phase
erase_key i k s σ = record σ {
  cond_map = at_key σ.cond_map k none;
  locked = at_cond σ.locked s false;
  pc = at_thread σ.pc i finished;
}

-- The visit of ReleaseKey begins.
pub visit_key : ℕ → KeyHash → ℕ → Phase → Phase
visit_key i k s σ = record σ {
  visited = at_visit σ.visited k true;
  pc = at_thread σ.pc i (releasing k s);
}

-- ReleaseKey has the mutex, sets the flag, gives the mutex back, and leaves the visit.
pub release_key : ℕ → KeyHash → ℕ → Phase → Phase
release_key i k s σ = record σ {
  released = at_cond σ.released s true;
  visited = at_visit σ.visited k false;
  pc = at_thread σ.pc i finished;
}

-- What can happen next. A wait goes on for as long as the flag of its condition is not set, a mutex is
-- taken when it is free, and a call of the map for a key is made when nobody visits the key. ReleaseKey
-- of a key without an entry ends at once.
pub data Step (σ : Phase) (τ : Phase) : Type 0 where
  calls :
      (i : ℕ) (k : KeyHash)
      → σ.pc i ≡ idle
      → σ.visited k ≡ false
      → τ ≡ wait_for_phase2 i k σ
      → Step σ τ
  wakes :
      (i : ℕ) (k : KeyHash) (s : ℕ)
      → σ.pc i ≡ waiting k s
      → σ.released s ≡ true
      → σ.locked s ≡ false
      → τ ≡ wake i k s σ
      → Step σ τ
  erases :
      (i : ℕ) (k : KeyHash) (s : ℕ)
      → σ.pc i ≡ woken k s
      → σ.visited k ≡ false
      → τ ≡ erase_key i k s σ
      → Step σ τ
  visits :
      (i : ℕ) (k : KeyHash) (s : ℕ)
      → σ.pc i ≡ idle
      → σ.cond_map k ≡ some s
      → σ.visited k ≡ false
      → τ ≡ visit_key i k s σ
      → Step σ τ
  misses :
      (i : ℕ) (k : KeyHash)
      → σ.pc i ≡ idle
      → σ.cond_map k ≡ none
      → σ.visited k ≡ false
      → τ ≡ record σ { pc = at_thread σ.pc i finished }
      → Step σ τ
  releases :
      (i : ℕ) (k : KeyHash) (s : ℕ)
      → σ.pc i ≡ releasing k s
      → σ.locked s ≡ false
      → τ ≡ release_key i k s σ
      → Step σ τ

pub data Reach (σ : Phase) : Phase → Type 0 where
  here : Reach σ σ
  later : {τ υ : Phase} → Reach σ τ → Step τ υ → Reach σ υ
