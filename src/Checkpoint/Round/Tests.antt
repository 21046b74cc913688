-- ===== src/Checkpoint/Round/Tests.antt =====
-- Tests of Checkpoint (src/zstore_controller.cc) on a leader and on a follower.
use zstore.Common.{ℕ, ◌≡◌, refl, true, false, some, List, [], ◌∷◌, codes, ok}
use zstore.Hash.{key_eq as text_eq}
use zstore.Http.{HttpRequest, get, handle_not_found_request}
use zstore.Pool.{new_pool}
use zstore.Pool.Held.{nothing_held}
use zstore.Pool.Held.Back.{new_pool-IsIdle}
use zstore.Gateway.{Gateway}
use zstore.Gateway.Session.{awaitable_on_request, contains_text}
use zstore.Gateway.Session.Dispatched.{IsLookup}
use zstore.Gateway.Session.Tests.{around_b, raw_b}
use zstore.Zookeeper.{join}
use zstore.Zookeeper.Memory.{memory, memory-IsZooKeeper, names_behind}
use zstore.Transaction.{election_root, prepare_loop}
use zstore.Transaction.Tests.{election_nodes, election_nodes-tx_root}
use zstore.Checkpoint.Tests.{
  conf_c, zeros, zeros-length, device_c, entries_c, objects_c, answers_c, conf_c-IsSized, filled_c,
}
use zstore.Checkpoint.Round.{Controller, Work, next_epoch, checkpoint}
use zstore.Checkpoint.Round.Led.{IsLed, checkpoint-IsLed}
use zstore.Checkpoint.Round.Followed.{checkpoint-follower}

abbrev work_c : Work
work_c = record {
  zmalloc = zeros;
  device = some device_c;
  filled = λ s. zeros 8;
  answers = answers_c;
}

abbrev controller_named : List ℕ → Controller objects_c
controller_named name = record {
  gateway = record {
    objects = entries_c;
    contexts = new_pool conf_c zeros 2;
    devices = device_c ∷ [];
    dev_hash = [];
    broadcast = [];
    total_counts = 0;
  };
  member = record {
    node_name = name;
    leader_name = codes "gateway_1";
    zk_connected = true;
    zk_expired = false;
  };
  inflight = codes "a" ∷ [];
  epoch = 255;
  ckpt = false;
  has_run_ckpt = false;
  watches = [];
}

abbrev get_c : HttpRequest
get_c = record { method = get; target = codes "/b/a"; version = 11; keep_alive = false; body = [] }

follows_c : text_eq (codes "gateway_5") (codes "gateway_1") ≡ false
unfolding text_eq
follows_c = refl

leads_c : text_eq (codes "gateway_1") (codes "gateway_1") ≡ true
unfolding text_eq
leads_c = refl

get_c-IsLookup : IsLookup get_c
unfolding contains_text
get_c-IsLookup = record { by_get = refl; no_listing = refl }

checkpoint-follower_example :
    (k' : Controller objects_c) × (checkpoint objects_c memory conf_c work_c []
        (controller_named (codes "gateway_5"))
        election_nodes
      ≡ ok (k', election_nodes))
    × (k'.epoch ≡ 255)
    × (k'.inflight ≡ [])
    × (g' : Gateway objects_c) × (awaitable_on_request objects_c conf_c around_b
          (λ r. r)
          raw_b
          get_c
          k'.gateway
        ≡ ok (handle_not_found_request get_c, g'))
    × (g'.contexts ≡ new_pool conf_c zeros 2)
checkpoint-follower_example =
    checkpoint-follower objects_c memory conf_c work_c [] (controller_named (codes "gateway_5"))
      election_nodes around_b (λ r. r) raw_b get_c refl follows_c refl get_c-IsLookup

abbrev names_c : List (List ℕ)
names_c = names_behind (join election_root []) election_nodes

checkpoint-IsLed_example :
    (k' : Controller objects_c) × (z' : memory.State) × (checkpoint objects_c memory conf_c work_c
        []
        (controller_named (codes "gateway_1"))
        election_nodes
      ≡ ok (k', z'))
    × IsLed objects_c memory memory-IsZooKeeper conf_c [] names_c nothing_held
        (controller_named (codes "gateway_1"))
        election_nodes
        k'
        z'
    × (k'' : Controller objects_c) × (checkpoint objects_c memory conf_c work_c [] k' election_nodes
        ≡ ok
            (k'', (prepare_loop memory (codes "gateway_1") names_c (election_nodes, k'.watches)).0))
    × (k''.epoch ≡ next_epoch (next_epoch 255))
    × (k''.gateway ≡ k'.gateway)
checkpoint-IsLed_example =
    checkpoint-IsLed objects_c memory memory-IsZooKeeper conf_c work_c [] (codes "transactio")
      names_c names_c nothing_held device_c (controller_named (codes "gateway_1")) election_nodes
      election_nodes refl leads_c refl refl refl election_nodes-tx_root refl conf_c-IsSized
      zeros-length filled_c (new_pool-IsIdle conf_c zeros 2 zeros-length)
