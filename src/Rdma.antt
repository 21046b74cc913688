-- ===== src/Rdma.antt =====
-- The RDMA connection between two gateways: src/rdma_utils.cc and src/rdma_common.cc, with the messages of
-- src/include/types.h. Rdma.Server and Rdma.Client have the handlers of the two ends, Rdma.Events the event
-- loop with its table of callbacks, Rdma.Link the two ends and what is between them. Every handler may rely
-- on what libibverbs documents: a write with an immediate value takes one receive that the other end has
-- posted, and a message that is longer than the receive it takes is a completion that is no success.
pub mod Server
pub mod Client
pub mod Events
pub mod Link
pub mod Accepting
pub mod Tests
use zstore.Common.{
  ℕ, zero, suc, Option, none, some, List, [], ◌∷◌, length, take, drop, ◌++◌, ◌==◌, ltb,
  if◌then◌else◌, Result, ok, err, out_of_bounds,
}
use mathlib.Core.Option

pub data MessageId : Type 0 where
  msg_invalid msg_mr msg_ready msg_done : MessageId

-- `sizeof(struct message)`: an int, and in the union a uint64_t and a uint32_t, aligned to 8 bytes.
abbrev pub message_size : ℕ
message_size = 24

-- `xs[i] = b`
unfoldable pub set_at : ℕ → ℕ → List ℕ → List ℕ
set_at i b [] = []
set_at zero b (x ∷ xs) = b ∷ xs
set_at (suc i) b (x ∷ xs) = x ∷ set_at i b xs

-- The text of a C string, which ends at the first zero. Without one it is read past the end.
unfoldable pub c_string : List ℕ → Option (List ℕ)
c_string [] = none
c_string (c ∷ cs) =
    let rest = c_string cs in if c == 0 then some [] else Option.map (λ t. c ∷ t) rest

-- Bytes that are written at the front of a buffer.
unfoldable pub write_front : List ℕ → List ℕ → Result (List ℕ)
write_front bytes buffer =
    if ltb (length buffer) (length bytes)
    then err out_of_bounds
    else ok (bytes ++ drop (length bytes) buffer)
