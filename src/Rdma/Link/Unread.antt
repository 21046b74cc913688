-- ===== src/Rdma/Link/Unread.antt =====
-- What can happen on a link of src/rdma_utils.cc.
use mathlib.Core.Path.{subst}
use zstore.Common.{
  ok-injective, false, ℕ, suc, ◌<◌, ◌≡◌, refl, sym, ◌∙◌, ap, ◌⊎◌, inl, inr, List, [], ◌∷◌, All,
  lt→ltb, arith, ok,
}
use zstore.Hash.{KeyHash}
use zstore.Rdma.{MessageId, message_size, msg_mr}
use zstore.Rdma.Client.{Client, posted_length}
use zstore.Rdma.Client
use zstore.Rdma.Server.{Server, on_pre_conn, on_connection}
use zstore.Rdma.Link.{Link, new_link, receive_message, Step, message, write, Reach, here, later}

-- The server is as it was, nothing is on its way to it, and no receive of the client holds a message.
pub record IsUnread (σ : Server) (l : Link) : Type 0 where
  pub same : l.server ≡ σ
  pub quiet : l.to_server ≡ []
  pub unwritten : l.client.writes ≡ []
  pub unknown : l.client.peer ≡ false
  pub small : All (λ n. n < message_size) l.client.receives
  pub arrival : ((l.to_client ≡ msg_mr ∷ []) × (l.died ≡ 0)) ⊎ ((l.to_client ≡ []) × (l.died ≡ 1))

receive_message-IsUnread :
    (σ : Server) (posted : List ℕ) (id : MessageId) (rest : List MessageId) (l m : Link)
    → l.client.receives ≡ posted
    → l.to_client ≡ id ∷ rest
    → receive_message posted id rest l ≡ ok m
    → IsUnread σ l
    → IsUnread σ m
unfolding receive_message
receive_message-IsUnread σ [] id rest l m at come h u = absurd (cc)
receive_message-IsUnread σ (n ∷ ns) id rest l m at come h u =
    let small = subst (All (λ k. k < message_size)) at u.small in
    let l1 : Link = record l {
      client = record l.client { receives = ns };
      to_client = rest;
      died = suc l.died;
    } in
    let failed : receive_message (n ∷ ns) id rest l ≡ ok l1 =
      rw (lt→ltb n message_size small.0) refl in
    subst (IsUnread σ) (ok-injective l1 m (sym failed ∙ h)) (record {
      same = u.same;
      quiet = u.quiet;
      unwritten = u.unwritten;
      unknown = u.unknown;
      small = small.1;
      arrival = elim u.arrival [
        | inl (one, zero_died) ↦ inr (cc, ap suc zero_died)
        | inr (nothing, once) ↦ absurd (cc)
      ];
    })

Step-IsUnread : (σ : Server) (l m : Link) → Step l m → IsUnread σ l → IsUnread σ m
Step-IsUnread σ l m (message id rest at h) u =
    receive_message-IsUnread σ l.client.receives id rest l m refl at h u
Step-IsUnread σ l m (write bytes rest at h) u = absurd (cc u.quiet)

Reach-IsUnread : (σ : Server) (l m : Link) → Reach l m → IsUnread σ l → IsUnread σ m
Reach-IsUnread σ l m here u = u
Reach-IsUnread σ l m (later {m = n} r s) u = Step-IsUnread σ n m s (Reach-IsUnread σ l n r u)

-- Whatever happens on a new link: the client never learns the address of the server and writes nothing,
-- nothing is on its way to the server, which keeps what it had when the connection was established, and
-- either its MR is on its way or poll_cq has met one completion that is no success.
pub Reach-new_link :
    (raw sbuffer name cbuffer : List ℕ) (broadcast : List KeyHash) (l : Link)
    → Reach (new_link raw sbuffer name cbuffer broadcast) l
    → IsUnread (on_connection (on_pre_conn raw sbuffer)) l
unfolding new_link Client.on_pre_conn Client.post_receive
Reach-new_link raw sbuffer name cbuffer broadcast l r =
    Reach-IsUnread (on_connection (on_pre_conn raw sbuffer)) _ l r (record {
      same = refl;
      quiet = refl;
      unwritten = refl;
      unknown = refl;
      small = (omega arith, tt);
      arrival = inl (refl, refl);
    })
