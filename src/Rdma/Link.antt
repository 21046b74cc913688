-- ===== src/Rdma/Link.antt =====
-- The two ends of src/rdma_utils.cc with what is on its way between them, and poll_cq of
-- src/rdma_common.cc, which passes on no completion that is no success. A message takes the oldest receive
-- that the client has posted, and is no success if it is longer. The client here has the functions of
-- client_context as its callbacks, which RdmaClientConnect of src/zstore_controller.cc does not set.
pub mod Unread
mod Tests
use mathlib.Core.List.{reverse}
use zstore.Common.{
  ℕ, suc, ◌-◌, ◌≡◌, List, [], ◌∷◌, ◌++◌, take, drop, length, ltb, if◌then◌else◌, Result, ok, err,
  exception, ◌>>=◌,
}
use zstore.Hash.{KeyHash}
use zstore.Rdma.{MessageId, message_size}
use zstore.Rdma.Client.{Client}
use zstore.Rdma.Client
use zstore.Rdma.Server.{Server, on_pre_conn, on_connection, deliver}

-- What is on its way is listed with the oldest first. `died` counts the calls of rc_die.
pub record Link : Type 0 where
  pub server : Server
  pub client : Client
  pub to_client : List MessageId
  pub to_server : List (List ℕ)
  pub died : ℕ

-- The link once the connection is established.
pub new_link : List ℕ → List ℕ → List ℕ → List ℕ → List KeyHash → Link
unfolding on_connection on_pre_conn
new_link raw sbuffer name cbuffer broadcast =
    let σ = on_connection (on_pre_conn raw sbuffer) in
    record {
      server = σ;
      client = Client.on_pre_conn name cbuffer broadcast;
      to_client = reverse σ.sent;
      to_server = [];
      died = 0;
    }

pub receive_message : List ℕ → MessageId → List MessageId → Link → Result Link
receive_message [] id rest l = err exception
receive_message (n ∷ ns) id rest l =
    let κ : Client = record l.client { receives = ns } in
    if ltb n message_size
    then ok (record l { client = κ; to_client = rest; died = suc l.died })
    else Client.on_completion id κ >>= λ κ1. ok (record l {
      client = κ1;
      to_client = rest;
      to_server = l.to_server ++ drop (length κ.writes) κ1.writes;
    })

pub receive_write : List ℕ → List (List ℕ) → Link → Result Link
receive_write bytes rest l = deliver bytes l.server >>= λ σ. ok (record l {
  server = σ;
  to_server = rest;
  to_client = l.to_client ++ reverse (take (length σ.sent - length l.server.sent) σ.sent);
})

pub data Step (l m : Link) : Type 0 where
  message :
      (id : MessageId) (rest : List MessageId)
      → l.to_client ≡ id ∷ rest
      → receive_message l.client.receives id rest l ≡ ok m
      → Step l m
  write :
      (bytes : List ℕ) (rest : List (List ℕ))
      → l.to_server ≡ bytes ∷ rest
      → receive_write bytes rest l ≡ ok m
      → Step l m

pub data Reach (l : Link) : Link → Type 0 where
  here : Reach l l
  later : {m n : Link} → Reach l m → Step m n → Reach l n
