-- ===== src/Transaction/Acked.antt =====
-- How the nodes of a transaction change with the events of the watchers in src/zstore_controller.cc.
use mathlib.Core.Path.{subst}
use zstore.Common.{
  ℕ, ◌≡◌, ◌⊎◌, refl, ap, ◌∙◌, Bool, true, false, ◌||◌, ◌&&◌, Bool-cases, inl, inr, Option, none,
  some, List, [], ◌∷◌, if◌then◌else◌, codes,
}
use zstore.Hash.{key_eq as path_eq}
use zstore.Election.{text_eq}
use zstore.Election.Nodes.{is_done}
use zstore.Zookeeper.{ZooKeeper, IsZooKeeper, IsName, join}
use zstore.Transaction.{
  tx_root, EventType, changed_event, created_event, deleted_event, child_event, session_event,
  SessionState, connected_state, not_connected_state, expired_state, Member, is_absent, is_changed,
  is_child, ten_bytes, zk_set, when_connected, leader_watcher, tx_watcher, check_tx,
}
use zstore.Transaction.Nodes.{
  or_false, tx_data, AreLong, create_znodes-tx, zk_set-tx, committed-AreLong, check_tx-tx,
  check_tx-AreLong,
}

-- An event that reaches the LeaderWatcher of a gateway or the TxWatcher of the leader, or the end of the
-- leader's work in Checkpoint.
pub data Happening : Type 0 where
  to_follower : EventType → SessionState → Member → Happening
  to_leader : EventType → Happening
  work_done : List ℕ → Happening

-- A gateway commits: its LeaderWatcher sees the change of the leader's node, or it is the leader and has
-- done the work.
abbrev acks : List ℕ → Happening → Bool
acks n (to_follower type state g) = is_changed type && path_eq g.node_name n
acks n (to_leader type) = false
acks n (work_done name) = path_eq name n

abbrev pub has_acked : List ℕ → List Happening → Bool
has_acked n [] = false
has_acked n (e ∷ events) = acks n e || has_acked n events

module _ (Z : ZooKeeper) (beyond : List ℕ) (atoi : List ℕ → ℕ) where
  open Z use {State}

  pub happen : Happening → State → State
  unfolding leader_watcher tx_watcher zk_set
  happen (to_follower type state g) z = (leader_watcher Z beyond atoi type state g z).0
  happen (to_leader type) z = tx_watcher Z type z
  happen (work_done name) z = zk_set Z beyond (join tx_root name) (codes "commit") z

  pub run : List Happening → State → State
  unfolding happen
  run [] z = z
  run (e ∷ events) z = run events (happen e z)

module _ (Z : ZooKeeper) (law : IsZooKeeper Z) (beyond : List ℕ) (atoi : List ℕ → ℕ) where
  open Z use {State}

  when_connected-tx :
      (type : EventType) (state : SessionState) (g : Member) (z : State) (n : List ℕ)
      → tx_data Z law (when_connected Z atoi type state g z).0 n ≡ tx_data Z law z n
  unfolding when_connected
  when_connected-tx type connected_state g z n = elim (Bool-cases (is_child type)) [
    | inl e ↦ rw e refl
    | inr e ↦ rw e (create_znodes-tx Z law atoi g z n)
  ]
  when_connected-tx type not_connected_state g z n = refl
  when_connected-tx type expired_state g z n = refl

  leader_watcher-tx :
      (type : EventType) (state : SessionState) (g : Member) (z : State) (n : List ℕ)
      → tx_data Z law (leader_watcher Z beyond atoi type state g z).0 n ≡ (
          if is_changed type && path_eq g.node_name n
          then (if is_absent (tx_data Z law z n)
              then none
              else some (ten_bytes beyond (codes "commit")))
          else tx_data Z law z n)
  unfolding leader_watcher
  leader_watcher-tx type state g z n = elim (Bool-cases (is_changed type)) [
    | inl e ↦ rw e (
        when_connected-tx type state g
          (zk_set Z beyond (join tx_root g.node_name) (codes "commit") z) n
        ∙ zk_set-tx Z law beyond g.node_name z n)
    | inr e ↦ rw e (when_connected-tx type state g z n)
  ]

  happen-AreLong :
      (e : Happening) (z : State) → AreLong Z law z → AreLong Z law (happen Z beyond atoi e z)
  unfolding happen tx_watcher
  happen-AreLong (to_follower type state g) z long =
      committed-AreLong Z law beyond (λ n. is_changed type && path_eq g.node_name n) z
        (leader_watcher Z beyond atoi type state g z).0 (leader_watcher-tx type state g z) long
  happen-AreLong (work_done name) z long =
      committed-AreLong Z law beyond (λ n. path_eq name n) z
        (zk_set Z beyond (join tx_root name) (codes "commit") z) (zk_set-tx Z law beyond name z)
        long
  happen-AreLong (to_leader changed_event) z long = check_tx-AreLong Z law z long
  happen-AreLong (to_leader created_event) z long = long
  happen-AreLong (to_leader deleted_event) z long = long
  happen-AreLong (to_leader child_event) z long = long
  happen-AreLong (to_leader session_event) z long = long

module _ (beyond : List ℕ) where
  abbrev committed : List ℕ
  committed = ten_bytes beyond (codes "commit")

  -- What a node holds whose gateway has acknowledged, or has not.
  abbrev IsSettled : Option (List ℕ) → Bool → Type 0
  IsSettled o true = (o ≡ none) ⊎ (o ≡ some committed)
  IsSettled o false = o ≡ some (codes "empty_")

  commit-IsSettled :
      (t : Bool) (o : Option (List ℕ)) (b : Bool)
      → IsSettled o b
      → IsSettled (if t then (if is_absent o then none else some committed) else o) (t || b)
  commit-IsSettled true none b s = inl refl
  commit-IsSettled true (some d) b s = inr refl
  commit-IsSettled false o b s = s

  after_check :
      (o : Option (List ℕ)) (b : Bool)
      → IsSettled o b
      → (if is_done o then none else o) ≡ (if b then none else some (codes "empty_"))
  unfolding text_eq ten_bytes
  after_check o true (inl e) = rw e refl
  after_check o true (inr e) = rw e refl
  after_check o false e = rw e refl

  check-IsSettled :
      (o : Option (List ℕ)) (b : Bool) → IsSettled o b → IsSettled (if is_done o then none else o) b
  check-IsSettled o true s = inl (after_check o true s)
  check-IsSettled o false s = after_check o false s

regroup : (a b c : Bool) → (b || (a || c)) ≡ ((a || b) || c)
regroup true true c = refl
regroup true false c = refl
regroup false b c = refl

module _ (Z : ZooKeeper) (law : IsZooKeeper Z) (beyond : List ℕ) (atoi : List ℕ → ℕ) (n : List ℕ)
    (is_name : IsName n) where
  open Z use {State}

  happen-IsSettled :
      (e : Happening) (z : State) (b : Bool)
      → AreLong Z law z
      → IsSettled beyond (tx_data Z law z n) b
      → IsSettled beyond (tx_data Z law (happen Z beyond atoi e z) n) (acks n e || b)
  unfolding happen tx_watcher
  happen-IsSettled (to_follower type state g) z b long s =
      rw (leader_watcher-tx Z law beyond atoi type state g z n)
        (commit-IsSettled beyond (is_changed type && path_eq g.node_name n) (tx_data Z law z n) b s)
  happen-IsSettled (work_done name) z b long s =
      rw (zk_set-tx Z law beyond name z n)
        (commit-IsSettled beyond (path_eq name n) (tx_data Z law z n) b s)
  happen-IsSettled (to_leader changed_event) z b long s =
      rw (check_tx-tx Z law z n is_name long) (check-IsSettled beyond (tx_data Z law z n) b s)
  happen-IsSettled (to_leader created_event) z b long s = s
  happen-IsSettled (to_leader deleted_event) z b long s = s
  happen-IsSettled (to_leader child_event) z b long s = s
  happen-IsSettled (to_leader session_event) z b long s = s

  run-IsSettled :
      (events : List Happening) (z : State) (b : Bool)
      → AreLong Z law z
      → IsSettled beyond (tx_data Z law z n) b
      → AreLong Z law (run Z beyond atoi events z)
        × IsSettled beyond (tx_data Z law (run Z beyond atoi events z) n) (has_acked n events || b)
  unfolding run
  run-IsSettled [] z b long s = (long, s)
  run-IsSettled (e ∷ events) z b long s =
      let next = happen Z beyond atoi e z in
      let (long', s') =
        run-IsSettled events next (acks n e || b) (happen-AreLong Z law beyond atoi e z long)
          (happen-IsSettled e z b long s) in
      (
        long',
        subst (IsSettled beyond (tx_data Z law (run Z beyond atoi events next) n))
            (regroup (acks n e) (has_acked n events) b) s',
      )

-- In whatever order events reach the watchers of the leader and of the followers, and whenever the work of
-- the leader is done: after a further checkTxChange, a node that the leader prepared is gone exactly if it
-- is that of the leader and the work is done, or the LeaderWatcher of its gateway has seen a change;
-- otherwise it is as it was prepared. The condition: when the leader has prepared the transaction, every
-- node of it holds at least 6 bytes.
pub check_tx-run :
    (Z : ZooKeeper) (law : IsZooKeeper Z) (beyond : List ℕ) (atoi : List ℕ → ℕ) (n : List ℕ)
    (events : List Happening) (z : Z.State)
    → IsName n
    → AreLong Z law z
    → tx_data Z law z n ≡ some (codes "empty_")
    → tx_data Z law (check_tx Z (run Z beyond atoi events z)) n
      ≡ (if has_acked n events then none else some (codes "empty_"))
check_tx-run Z law beyond atoi n events z is_name long start =
    let (long', s) = run-IsSettled Z law beyond atoi n is_name events z false long start in
    check_tx-tx Z law (run Z beyond atoi events z) n is_name long'
    ∙ after_check beyond (tx_data Z law (run Z beyond atoi events z) n)
        (has_acked n events || false) s
    ∙ ap (λ t. if t then none else some (codes "empty_")) (or_false (has_acked n events))
