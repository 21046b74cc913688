-- ===== src/Checkpoint/Round/Followed.antt =====
-- What a follower's Checkpoint in src/zstore_controller.cc leaves of its map.
use zstore.Common.{ℕ, ◌≡◌, ◌∙◌, refl, false, List, [], ok}
use zstore.Conf.{Conf}
use zstore.Hash.{compute_sha256, key_eq as text_eq}
use zstore.Http.{HttpRequest, parse_url, handle_not_found_request}
use zstore.Store.{MapEntry}
use zstore.Store.Map.{FlatMap, get_object}
use zstore.Gateway.{Gateway}
use zstore.Gateway.Put.{Surroundings}
use zstore.Gateway.Session.{awaitable_on_request}
use zstore.Gateway.Session.Dispatched.{IsLookup, awaitable_on_request-absent}
use zstore.Zookeeper.{ZooKeeper}
use zstore.Checkpoint.Round.{Controller, Work, follow, checkpoint, checkpoint-live}

-- A gateway that is not the leader goes through Checkpoint with no change to the nodes and to its epoch, and
-- its map is lost to its clients: outside experiments, every GET that asks for no listing is answered with
-- Not Found, of whatever size the objects are. The condition: the workload is not a replayed one.
pub checkpoint-follower :
    (F : FlatMap MapEntry) (Z : ZooKeeper) (c : Conf) (w : Work) (beyond : List ℕ)
    (k : Controller F) (z : Z.State) (around : Surroundings) (moved : HttpRequest → HttpRequest)
    (raw : MapEntry) (req : HttpRequest)
    → c.replay ≡ false
    → text_eq k.member.node_name k.member.leader_name ≡ false
    → c.experimental ≡ false
    → IsLookup req
    → (k' : Controller F) × (checkpoint F Z c w beyond k z ≡ ok (k', z))
      × (k'.epoch ≡ k.epoch)
      × (k'.inflight ≡ [])
      × (g' : Gateway F) × (awaitable_on_request F c around moved raw req k'.gateway
          ≡ ok (handle_not_found_request req, g'))
      × (g'.contexts ≡ k.gateway.contexts)
unfolding follow get_object
checkpoint-follower F Z c w beyond k z around moved raw req live follows off l =
    let key = compute_sha256 around.digest ((parse_url req.target).1) in
    let (g', answered, same, kept) =
      awaitable_on_request-absent F c around moved raw req (follow F Z k).gateway l off
        (F.visit_empty key) in
    (
      follow F Z k,
      checkpoint-live F Z c w beyond k z live ∙ rw follows refl,
      refl,
      refl,
      g',
      answered,
      same,
    )
