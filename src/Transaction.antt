-- ===== src/Transaction.antt =====
-- The transaction of a checkpoint between the gateways, in src/zstore_controller.cc: createZnodes, ZkSet, the
-- nodes that the leader makes at the start of Checkpoint, and the watchers. A node is not changed between
-- two calls of one function, and the children of a node have different names.
pub mod Nodes
pub mod Acked
pub mod Prepared
pub mod Tests
use zstore.Common.{
  ℕ, zero, Bool, true, false, not, ◌||◌, Option, none, some, List, [], ◌∷◌, ◌++◌, map, take,
  if◌then◌else◌, codes,
}
use zstore.Hash.{key_eq as path_eq}
use zstore.Election.{leader, get_node_data, check_tx_change}
use zstore.Zookeeper.{ZooKeeper, join}

abbrev pub election_root : List ℕ
election_root = codes "/election"

abbrev pub tx_root : List ℕ
tx_root = codes "/tx"

pub data EventType : Type 0 where
  created_event deleted_event changed_event child_event session_event : EventType

pub data SessionState : Type 0 where
  connected_state not_connected_state expired_state : SessionState

-- What a ZstoreController knows of the others.
pub record Member : Type 0 where
  pub node_name : List ℕ
  pub leader_name : List ℕ
  pub zk_connected : Bool
  pub zk_expired : Bool

abbrev pub is_absent {ℓ} : {A : Type ℓ} → Option A → Bool
is_absent none = true
is_absent (some a) = false

abbrev is_nil : List ℕ → Bool
is_nil [] = true
is_nil (c ∷ cs) = false

-- A call that fails is only logged.
abbrev pub attempt {ℓ} : {A : Type ℓ} → Option A → A → A
attempt none z = z
attempt (some y) z = y

pub is_changed : EventType → Bool
is_changed changed_event = true
is_changed created_event = false
is_changed deleted_event = false
is_changed child_event = false
is_changed session_event = false

pub is_child : EventType → Bool
is_child child_event = true
is_child created_event = false
is_child deleted_event = false
is_child changed_event = false
is_child session_event = false

is_session : EventType → Bool
is_session session_event = true
is_session created_event = false
is_session deleted_event = false
is_session changed_event = false
is_session child_event = false

-- Ten bytes from the start of a literal: its text, its zero, and what is behind it in memory.
pub ten_bytes : List ℕ → List ℕ → List ℕ
ten_bytes beyond text = take 10 (text ++ 0 ∷ beyond)

module _ (Z : ZooKeeper) where
  open Z use {State, data_of, children, create, create_sequence, set_data, delete}

  pub node_data : State → List ℕ → List ℕ
  node_data z path = attempt (get_node_data 256 (data_of z path ∷ data_of z path ∷ [])) []

  pub zk_set : List ℕ → List ℕ → List ℕ → State → State
  unfolding ten_bytes
  zk_set beyond path text z = attempt (set_data z path (ten_bytes beyond text)) z

  -- Without children, or where zoo_get_children fails, nothing changes.
  choose_leader : (List ℕ → ℕ) → State → Option (List (List ℕ)) → Member → Member
  choose_leader atoi z none g = g
  choose_leader atoi z (some names) g = elim (leader atoi names) [
    | none ↦ g
    | some name ↦ record g { leader_name = node_data z (join election_root name) }
  ]

  check_children_change : (List ℕ → ℕ) → State → Member → Member
  unfolding choose_leader node_data
  check_children_change atoi z g = choose_leader atoi z (children z election_root) g

  -- A root of its own, unless it is there.
  pub create_root : List ℕ → List ℕ → State → State
  create_root root text z =
      if is_absent (data_of z root) then attempt (create z root (take 10 text)) z else z

  pub enlist : List ℕ → State → State
  enlist name z =
      if is_nil name
      then z
      else attempt (create_sequence z (join election_root (codes "n_")) name) z

  pub create_znodes : (List ℕ → ℕ) → Member → State → State × Member
  unfolding create_root enlist check_children_change
  create_znodes atoi g z =
      let z1 = create_root election_root (codes "leader election") z in
      let z2 = create_root tx_root (codes "transaction") z1 in
      let z3 = enlist g.node_name z2 in (z3, check_children_change atoi z3 g)

  -- One child of the election in the leader's loop: the nodes, and the names whose transaction is watched.
  pub prepare : List ℕ → List ℕ → State × List (List ℕ) → State × List (List ℕ)
  unfolding node_data
  prepare leader_name child (z, watched) =
      let node = node_data z (join election_root child) in
      let z1 = attempt (create z (join tx_root node) (codes "empty_")) z in
      if is_absent (data_of z (join tx_root node))
      then (z1, if path_eq node leader_name then watched else node ∷ watched)
      else (z, watched)

  pub prepare_loop : List ℕ → List (List ℕ) → State × List (List ℕ) → State × List (List ℕ)
  unfolding prepare
  prepare_loop leader_name [] at = at
  prepare_loop leader_name (child ∷ names) at =
      prepare_loop leader_name names (prepare leader_name child at)

  pub delete_all : List (List ℕ) → State → State
  delete_all [] z = z
  delete_all (name ∷ names) z = delete_all names (attempt (delete z (join tx_root name)) z)

  -- What zoo_get answers for each child.
  pub node_contents : State → List (List ℕ) → List (List ℕ × Option (List ℕ))
  node_contents z names = map (λ name. (name, data_of z (join tx_root name))) names

  pub delete_done : Option (List (List ℕ)) → State → State
  unfolding node_contents delete_all
  delete_done none z = z
  delete_done (some names) z = delete_all (check_tx_change (node_contents z names)) z

  -- checkTxChange, with the deletions.
  pub check_tx : State → State
  unfolding delete_done
  check_tx z = delete_done (children z tx_root) z

  pub when_connected : (List ℕ → ℕ) → EventType → SessionState → Member → State → State × Member
  unfolding is_child check_children_change create_znodes
  when_connected atoi type connected_state g z =
      if is_child type then (z, check_children_change atoi z g) else create_znodes atoi g z
  when_connected atoi type not_connected_state g z = (z, g)
  when_connected atoi type expired_state g z = (z, g)

  pub leader_watcher :
      List ℕ → (List ℕ → ℕ) → EventType → SessionState → Member → State → State × Member
  unfolding is_changed zk_set when_connected
  leader_watcher beyond atoi type state g z =
      let z1 = zk_set beyond (join tx_root g.node_name) (codes "commit") z in
      when_connected atoi type state g (if is_changed type then z1 else z)

  pub tx_watcher : EventType → State → State
  unfolding is_changed check_tx
  tx_watcher type z = if is_changed type then check_tx z else z

  note_session : SessionState → Member → Member
  note_session connected_state g = record g { zk_connected = true }
  note_session not_connected_state g = record g { zk_connected = false }
  note_session expired_state g = record g { zk_connected = false; zk_expired = true }

  zk_watcher : (List ℕ → ℕ) → EventType → SessionState → Member → State → State × Member
  unfolding is_session note_session when_connected
  zk_watcher atoi type state g z =
      when_connected atoi type state (if is_session type then note_session state g else g) z
