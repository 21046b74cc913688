-- ===== src/Checkpoint/Round.antt =====
-- Checkpoint of src/zstore_controller.cc as a whole: the leader prepares the transaction, does the work that
-- the code fixes (the garbage collection) once, and commits; a follower watches the leader's node and moves
-- its map. What Checkpoint logs and how long it sleeps is left out.
pub mod Led
pub mod Followed
mod Tests
use zstore.Common.{
  ℕ, ◌+◌, ◌%◌, ◌≡◌, ap, Bool, true, false, Option, none, some, List, [], ◌∷◌, if◌then◌else◌, codes,
  Result, ok, err, assertion, guard, not, ◌>>=◌, ◌>>◌,
}
use zstore.Conf.{Conf}
use zstore.Device.{Device}
use zstore.Hash.{KeyHash, key_eq as text_eq}
use zstore.Pool.{Pool}
use zstore.Request.{Completion}
use zstore.Store.{MapEntry}
use zstore.Store.Map.{FlatMap}
use zstore.Checkpoint.{collect_garbage}
use zstore.Gateway.{Gateway}
use zstore.Zookeeper.{ZooKeeper, join}
use zstore.Transaction.{Member, election_root, tx_root, prepare_loop, zk_set}

-- `inflight` is mInflight, `watches` the nodes that a LeaderWatcher or TxWatcher of this gateway is set on.
pub record Controller (F : FlatMap MapEntry) : Type 0 where
  pub gateway : Gateway F
  pub member : Member
  pub inflight : List KeyHash
  pub epoch : ℕ
  pub ckpt : Bool
  pub has_run_ckpt : Bool
  pub watches : List (List ℕ)

-- mEpoch is a u8.
abbrev pub next_epoch : ℕ → ℕ
next_epoch e = (e + 1) % 256

-- What the work of a garbage collection is given besides the state.
pub record Work : Type 0 where
  pub zmalloc : ℕ → List ℕ
  pub device : Option Device
  pub filled : ℕ → List ℕ
  pub answers : ℕ → Completion

module _ (F : FlatMap MapEntry) (Z : ZooKeeper) where
  open Z use {State, children}

  pub do_work : Conf → Work → List ℕ → Controller F × State → Result (Controller F × State)
  unfolding collect_garbage
  do_work c w beyond (k, z) = do
    let g = k.gateway
    contexts ← collect_garbage F c w.zmalloc w.device w.filled w.answers g.objects g.contexts
    ok (
      record k { gateway = record g { contexts = contexts }; has_run_ckpt = true },
      zk_set Z beyond (join tx_root k.member.leader_name) (codes "commit") z,
    )

  -- `assert(rc == ZOK)` for the children of the election.
  pub lead :
      Conf
      → Work
      → List ℕ
      → Option (List (List ℕ))
      → Controller F
      → State
      → Result (Controller F × State)
  unfolding do_work
  lead c w beyond none k z = err assertion
  lead c w beyond (some names) k z =
      let prepared = prepare_loop Z k.member.leader_name names (z, k.watches) in
      let k1 : Controller F = record k {
        epoch = next_epoch k.epoch;
        ckpt = true;
        watches = prepared.1;
      } in
      if k.has_run_ckpt then ok (k1, prepared.0) else do_work c w beyond (k1, prepared.0)

  -- The map and the set are copied into local variables and cleared.
  pub follow : Controller F → Controller F
  follow k = record k {
    gateway = record k.gateway { objects = F.empty };
    inflight = [];
    watches = k.member.leader_name ∷ k.watches;
  }

  pub checkpoint : Conf → Work → List ℕ → Controller F → State → Result (Controller F × State)
  unfolding lead follow
  checkpoint c w beyond k z = do
    guard (not c.replay) assertion
    if text_eq k.member.node_name k.member.leader_name
        then lead c w beyond (children z election_root) k z
        else ok (follow k, z)

  -- The assert holds where the workload is not a replayed one.
  pub checkpoint-live :
      (c : Conf) (w : Work) (beyond : List ℕ) (k : Controller F) (z : State)
      → c.replay ≡ false
      → checkpoint c w beyond k z ≡ (
          if text_eq k.member.node_name k.member.leader_name
          then lead c w beyond (children z election_root) k z
          else ok (follow k, z))
  unfolding checkpoint
  checkpoint-live c w beyond k z live =
      ap
        (λ b.
          guard (not b) assertion
          >> (if text_eq k.member.node_name k.member.leader_name
              then lead c w beyond (children z election_root) k z
              else ok (follow k, z)))
        live
