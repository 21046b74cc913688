-- ===== src/Rdma/Client.antt =====
-- The client's end of src/rdma_utils.cc: client_context with on_pre_conn and on_completion.
use zstore.Common.{
  ℕ, ◌+◌, Bool, true, false, List, [], ◌∷◌, ◌++◌, take, length, codes, Result, ok, err, assertion,
  ◌>>=◌,
}
use zstore.Hash.{KeyHash}
use zstore.Rdma.{MessageId, msg_invalid, msg_mr, msg_ready, msg_done, write_front}

-- `peer` says that the address and key of the server are known; `receives` has the length of each posted
-- receive, `writes` what was written to the server, the oldest first. `broadcast` is the controller's set.
pub record Client : Type 0 where
  pub buffer : List ℕ
  pub server_name : List ℕ
  pub peer : Bool
  pub receives : List ℕ
  pub writes : List (List ℕ)
  pub broadcast : List KeyHash
  pub disconnected : Bool

-- `sizeof(message)`, where `message` is a pointer.
abbrev pub posted_length : ℕ
posted_length = 8

unfoldable pub post_receive : Client → Client
post_receive κ = record κ { receives = κ.receives ++ posted_length ∷ [] }

unfoldable pub write_remote : ℕ → Client → Client
write_remote len κ = record κ { writes = κ.writes ++ take len κ.buffer ∷ [] }

-- strcpy: the text and its zero.
unfoldable pub copy_text : List ℕ → Client → Result Client
unfolding write_front
copy_text text κ =
    write_front (text ++ 0 ∷ []) κ.buffer >>= λ filled. ok (record κ { buffer = filled })

unfoldable pub send_next_hash : Client → Result Client
unfolding copy_text write_remote
send_next_hash κ = do κ1 ← copy_text (codes "1234567890abcdef") κ; ok (write_remote 17 κ1)

unfoldable pub send_server_name : Client → Result Client
unfolding copy_text write_remote
send_server_name κ = do
  κ1 ← copy_text κ.server_name κ
  ok (write_remote (length κ.server_name + 1) κ1)

unfoldable pub on_pre_conn : List ℕ → List ℕ → List KeyHash → Client
unfolding post_receive
on_pre_conn server_name buffer broadcast = post_receive (record {
  buffer = buffer;
  server_name = server_name;
  peer = false;
  receives = [];
  writes = [];
  broadcast = broadcast;
  disconnected = false;
})

-- The visit of mBroadcast. A hash is sent for the first key; then the key is erased inside the visit, which
-- the container forbids, and asserts where asserts are on.
unfoldable pub send_hashes : List KeyHash → Client → Result Client
unfolding send_next_hash
send_hashes [] κ = ok κ
send_hashes (k ∷ ks) κ = send_next_hash κ >>= λ κ1. err assertion

-- A message has come.
unfoldable pub on_completion : MessageId → Client → Result Client
unfolding send_server_name send_hashes post_receive
on_completion msg_mr κ = send_server_name (record κ { peer = true }) >>= λ κ1. ok (post_receive κ1)
on_completion msg_ready κ = send_hashes κ.broadcast κ >>= λ κ1. ok (post_receive κ1)
on_completion msg_done κ = ok (record κ { disconnected = true })
on_completion msg_invalid κ = ok (post_receive κ)
