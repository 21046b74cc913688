-- ===== src/Checkpoint/Round/Led.antt =====
-- What the leader's Checkpoint in src/zstore_controller.cc does.
use zstore.Common.{
  ℕ, ◌≡◌, refl, ◌∙◌, true, false, none, some, List, length, if◌then◌else◌, codes, ok,
}
use zstore.Conf.{Conf}
use zstore.Device.{Device}
use zstore.Hash.{key_eq as text_eq}
use zstore.Pool.{buffer_size_of}
use zstore.Pool.Held.{Held, IsOwned}
use zstore.Store.{MapEntry}
use zstore.Store.Map.{FlatMap}
use zstore.Gateway.Put.Conditions.{IsSized}
use zstore.Zookeeper.{ZooKeeper, IsZooKeeper, join}
use zstore.Transaction.{election_root, tx_root, is_absent, ten_bytes, prepare_loop, zk_set}
use zstore.Transaction.Nodes.{tx_data, zk_set-tx}
use zstore.Transaction.Prepared.{is_listed, made, gateways, prepare_loop_lem}
use zstore.Checkpoint.Collect.{collect_garbage-IsOwned}
use zstore.Checkpoint.Round.{
  checkpoint-live, Controller, Work, next_epoch, lead, do_work, checkpoint,
}

-- The first Checkpoint of a leader: what it leaves.
pub record IsLed (F : FlatMap MapEntry) (Z : ZooKeeper) (law : IsZooKeeper Z) (c : Conf)
    (beyond : List ℕ) (names : List (List ℕ)) (h : Held) (k : Controller F) (z : Z.State)
    (k' : Controller F) (z' : Z.State) : Type 0 where
  pub advanced : k'.epoch ≡ next_epoch k.epoch
  pub owned : IsOwned c k'.gateway.contexts h
  pub objects_kept : k'.gateway.objects ≡ k.gateway.objects
  pub done : k'.has_run_ckpt ≡ true
  pub committed :
      (n : List ℕ)
      → tx_data Z law z' n ≡ (
          let before =
            if is_listed n (gateways Z law k.member.leader_name z names)
            then made (tx_data Z law z n)
            else tx_data Z law z n in
          if text_eq k.member.leader_name n
          then (if is_absent before then none else some (ten_bytes beyond (codes "commit")))
          else before)

-- The first Checkpoint of a leader runs to its end: it moves to the next epoch, gives back every context
-- that it took, keeps its map, and commits: its own node holds a commit, every other gateway without a
-- node has one that is empty, and all other nodes of the transaction are as they were. A later Checkpoint
-- only moves to the next epoch and prepares the nodes again. The conditions: the children of the election
-- and the root of the transactions are there, the workload is not a replayed one, the sizes fit, the memory and the device are there, and
-- SPDK fills a whole buffer for each read.
pub checkpoint-IsLed :
    (F : FlatMap MapEntry) (Z : ZooKeeper) (law : IsZooKeeper Z) (c : Conf) (w : Work)
    (beyond d : List ℕ) (names names' : List (List ℕ)) (h : Held) (dev : Device) (k : Controller F)
    (z z2 : Z.State)
    → c.replay ≡ false
    → text_eq k.member.node_name k.member.leader_name ≡ true
    → k.has_run_ckpt ≡ false
    → Z.children z election_root ≡ some names
    → Z.children z2 election_root ≡ some names'
    → Z.data_of z tx_root ≡ some d
    → w.device ≡ some dev
    → IsSized c
    → ((n : ℕ) → length (w.zmalloc n) ≡ n)
    → ((s : ℕ) → length (w.filled s) ≡ buffer_size_of c)
    → IsOwned c k.gateway.contexts h
    → (k' : Controller F) × (z' : Z.State) × (checkpoint F Z c w beyond k z ≡ ok (k', z'))
      × IsLed F Z law c beyond names h k z k' z'
      × (k'' : Controller F) × (checkpoint F Z c w beyond k' z2
          ≡ ok (k'', (prepare_loop Z k.member.leader_name names' (z2, k'.watches)).0))
      × (k''.epoch ≡ next_epoch (next_epoch k.epoch))
      × (k''.gateway ≡ k'.gateway)
unfolding lead do_work
checkpoint-IsLed F Z law c w beyond d names names' h dev k z z2 live leads first listed listed' root
      there sized spec size o =
    let leader_name = k.member.leader_name in
    let prepared = prepare_loop Z leader_name names (z, k.watches) in
    let (q, collected, owned) =
      collect_garbage-IsOwned F c w.zmalloc dev w.filled w.answers k.gateway.objects
        k.gateway.contexts h sized spec size o in
    let k' : Controller F = record k {
      gateway = record k.gateway { contexts = q };
      epoch = next_epoch k.epoch;
      ckpt = true;
      has_run_ckpt = true;
      watches = prepared.1;
    } in
    let z' = zk_set Z beyond (join tx_root leader_name) (codes "commit") prepared.0 in
    let k'' : Controller F = record k' {
      epoch = next_epoch k'.epoch;
      watches = (prepare_loop Z leader_name names' (z2, k'.watches)).1;
    } in
    (
      k',
      z',
      checkpoint-live F Z c w beyond k z live
          ∙ (rw leads (rw (listed, lead) (rw first (rw there (rw collected refl))))),
      record {
        advanced = refl;
        owned = owned;
        objects_kept = refl;
        done = refl;
        committed = λ n.
            zk_set-tx Z law beyond leader_name prepared.0 n
            ∙ rw (prepare_loop_lem Z law leader_name names k.watches z d n root).0 refl;
      },
      k'',
      checkpoint-live F Z c w beyond k' z2 live ∙ rw leads (rw (listed', lead) refl),
      refl,
      refl,
    )
