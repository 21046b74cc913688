-- ===== src/Transaction/Tests.antt =====
-- Tests of the transaction between the gateways (src/zstore_controller.cc).
use zstore.Common.{
  ℕ, ◌≤◌, ◌≡◌, refl, true, false, ◌&&◌, ◌||◌, not, none, some, List, [], ◌∷◌, All, if◌then◌else◌,
  length, codes, arith, Bool-cases, inl, inr,
}
use zstore.Hash.{key_eq as path_eq}
use zstore.Store.Map.{find}
use zstore.Zookeeper.{IsName, join}
use zstore.Zookeeper.Memory.{Nodes, memory, memory-IsZooKeeper}
use zstore.Transaction.{
  tx_root, election_root, changed_event, deleted_event, connected_state, Member, is_absent,
  is_changed, prepare_loop, check_tx,
}
use zstore.Transaction.Nodes.{tx_data, AreLong}
use zstore.Transaction.Acked.{
  Happening, to_follower, to_leader, work_done, has_acked, run, check_tx-run,
}
use zstore.Transaction.Prepared.{is_listed, made, gateways, prepare_loop_lem}

find-long_data :
    (q d : List ℕ) (m : Nodes) → All (λ x. 6 ≤ length x.1) m → find q m ≡ some d → 6 ≤ length d
unfolding find
find-long_data q d [] all h = absurd (cc)
find-long_data q d ((path, e) ∷ m) (long, all) h = elim (Bool-cases (path_eq path q)) [
  | inl same ↦ ground arith
  | inr ne ↦ find-long_data q d m all (ground arith)
]

-- Two gateways in the election, and the nodes of their transaction.
abbrev pub election_nodes : Nodes
election_nodes =
    (join election_root (codes "n_01"), codes "gateway_1")
    ∷ (join election_root (codes "n_02"), codes "gateway_5")
    ∷ (election_root, codes "leader ele")
    ∷ (tx_root, codes "transactio")
    ∷ []

abbrev prepared_nodes : Nodes
prepared_nodes =
    (join tx_root (codes "gateway_1"), codes "empty_")
    ∷ (join tx_root (codes "gateway_5"), codes "empty_")
    ∷ election_nodes

abbrev follower : Member
follower = record {
  node_name = codes "gateway_5";
  leader_name = codes "gateway_1";
  zk_connected = true;
  zk_expired = false;
}

-- The follower sees the commit of the leader, and the leader that of the follower.
abbrev round_events : List Happening
round_events =
    work_done (codes "gateway_1")
    ∷ to_follower changed_event connected_state follower
    ∷ to_leader changed_event
    ∷ to_follower deleted_event connected_state follower
    ∷ []

follower-IsName : IsName (codes "gateway_5")
follower-IsName = ground arith

prepared_nodes-AreLong : AreLong memory memory-IsZooKeeper prepared_nodes
prepared_nodes-AreLong n d h = find-long_data (join tx_root n) d prepared_nodes (omega arith) h

prepared_nodes-empty :
    tx_data memory memory-IsZooKeeper prepared_nodes (codes "gateway_5") ≡ some (codes "empty_")
unfolding find path_eq
prepared_nodes-empty = refl

check_tx-run_example :
    tx_data memory memory-IsZooKeeper
      (check_tx memory (run memory (codes "abc") length round_events prepared_nodes))
      (codes "gateway_5")
    ≡ (if has_acked (codes "gateway_5") round_events then none else some (codes "empty_"))
check_tx-run_example =
    check_tx-run memory memory-IsZooKeeper (codes "abc") length (codes "gateway_5") round_events
      prepared_nodes follower-IsName prepared_nodes-AreLong prepared_nodes-empty

follower_acked : has_acked (codes "gateway_5") round_events ≡ true
unfolding path_eq is_changed
follower_acked = refl

abbrev children_names : List (List ℕ)
children_names = codes "n_01" ∷ codes "n_02" ∷ codes "n_01" ∷ []

pub election_nodes-tx_root : find tx_root election_nodes ≡ some (codes "transactio")
unfolding find path_eq
election_nodes-tx_root = refl

prepare_loop_lem_example :
    (tx_data memory memory-IsZooKeeper
        (prepare_loop memory (codes "gateway_1") children_names (election_nodes, [])).0
        (codes "gateway_5")
      ≡ (if is_listed
            (codes "gateway_5")
            (gateways memory memory-IsZooKeeper (codes "gateway_1") election_nodes children_names)
          then made (tx_data memory memory-IsZooKeeper election_nodes (codes "gateway_5"))
          else tx_data memory memory-IsZooKeeper election_nodes (codes "gateway_5")))
    × (is_listed
          (codes "gateway_5")
          (prepare_loop memory (codes "gateway_1") children_names (election_nodes, [])).1
        ≡ ((is_listed (codes "gateway_5") (
                gateways memory memory-IsZooKeeper
                  (codes "gateway_1")
                  election_nodes
                  children_names)
              && (is_absent (tx_data memory memory-IsZooKeeper election_nodes (codes "gateway_5"))
                  && not (path_eq (codes "gateway_5") (codes "gateway_1"))))
            || is_listed (codes "gateway_5") []))
prepare_loop_lem_example =
    prepare_loop_lem memory memory-IsZooKeeper (codes "gateway_1") children_names [] election_nodes
      (codes "transactio") (codes "gateway_5") election_nodes-tx_root
