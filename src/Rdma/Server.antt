-- ===== src/Rdma/Server.antt =====
-- The server's end of src/rdma_utils.cc: conn_context with on_pre_conn, on_connection and on_completion.
use zstore.Common.{
  ℕ, suc, ◌-◌, Bool, false, none, some, List, [], ◌∷◌, take, length, ltb, ◌==◌, not, if◌then◌else◌,
  Result, ok, err, out_of_bounds, exception, guard, ◌>>=◌, ◌>>◌,
}
use zstore.Rdma.{MessageId, msg_invalid, msg_mr, msg_ready, msg_done, set_at, c_string, write_front}

-- `sent` lists the messages to the client, the newest first; `receives` counts the posted receives.
pub record Server : Type 0 where
  pub buffer : List ℕ
  pub server_name : List ℕ
  pub msg : MessageId
  pub sent : List MessageId
  pub receives : ℕ

abbrev max_server_name : ℕ
max_server_name = 16

unfoldable pub send_message : MessageId → Server → Server
send_message id σ = record σ { msg = id; sent = id ∷ σ.sent }

unfoldable pub post_receive : Server → Server
post_receive σ = record σ { receives = suc σ.receives }

-- `raw` and `buffer` are what the fresh memory of the name and of the buffer holds.
unfoldable pub on_pre_conn : List ℕ → List ℕ → Server
unfolding post_receive set_at
on_pre_conn raw buffer = post_receive (record {
  buffer = buffer;
  server_name = set_at 0 0 raw;
  msg = msg_invalid;
  sent = [];
  receives = 0;
})

unfoldable pub on_connection : Server → Server
unfolding send_message
on_connection σ = send_message msg_mr σ

-- `ctx->server_name[0]`
abbrev pub is_named : List ℕ → Bool
is_named [] = false
is_named (c ∷ cs) = not (c == 0)

-- `char hash[16]; strcpy(hash, ctx->buffer);` The answer of SearchInflight is only printed.
unfoldable pub copy_hash : List ℕ → Result (List ℕ)
unfolding c_string
copy_hash buffer = elim (c_string buffer) [
  | none ↦ err out_of_bounds
  | some text ↦ if ltb (length text) 16 then ok text else err out_of_bounds
]

-- The name is the front of the buffer, cut at `size`.
unfoldable pub store_name : ℕ → Server → Result Server
unfolding set_at
store_name size σ =
    if ltb (length σ.buffer) 16
    then err out_of_bounds
    else if ltb max_server_name size
    then err out_of_bounds
    else ok (record σ { server_name = set_at (size - 1) 0 (take 16 σ.buffer) })

-- `size` is the immediate value of the write.
unfoldable pub on_completion : ℕ → Server → Result Server
unfolding send_message post_receive copy_hash store_name
on_completion size σ =
    let named = (copy_hash σ.buffer >>= λ hash. ok (send_message msg_ready (post_receive σ))) in
    let unnamed = (store_name size σ >>= λ τ. ok (send_message msg_ready (post_receive τ))) in
    if size == 0
    then ok (send_message msg_done σ)
    else if is_named σ.server_name
    then named
    else unnamed

-- A write arrives. Without a posted receive it waits, and past the buffer it is refused.
unfoldable pub deliver : List ℕ → Server → Result Server
unfolding on_completion write_front
deliver bytes σ = do
  guard (not (σ.receives == 0)) exception
  filled ← write_front bytes σ.buffer
  on_completion (length bytes) (record σ { buffer = filled; receives = σ.receives - 1 })

unfoldable pub deliver_all : List (List ℕ) → Server → Result Server
unfolding deliver
deliver_all [] σ = ok σ
deliver_all (bytes ∷ writes) σ = deliver bytes σ >>= deliver_all writes
