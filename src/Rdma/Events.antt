-- ===== src/Rdma/Events.antt =====
-- The event loop and the table of callbacks of src/rdma_common.cc, and RdmaClientConnect of
-- src/zstore_controller.cc. The table is one for the process: the threads of the server and of the client
-- both set it. The functions of the client in src/rdma_utils.cc do not have the types of the callbacks, so
-- the names that RdmaClientConnect passes are those of the server. rc_die prints and returns. The steps are
-- events and completions: the rc_init of the server's thread is taken to come before.
pub mod Unheard
mod Tests
use zstore.Common.{
  ℕ, suc, Bool, true, false, Option, none, some, List, ◌≡◌, ◌==◌, if◌then◌else◌, Result, ok, err,
  null_pointer, ◌>>=◌,
}
use zstore.Rdma.Server.{Server, on_pre_conn, on_connection, on_completion, deliver}

-- What the events carry of an rdma_cm_id: which it is, and its device.
pub data CmEvent : Type 0 where
  addr_resolved connect_request : ℕ → ℕ → CmEvent
  route_resolved established disconnected other : ℕ → CmEvent

pub record Callbacks : Type 0 where
  pub pre_conn : Option (List ℕ → List ℕ → Server)
  pub connect : Option (Server → Server)
  pub completion : Option (List ℕ → Server → Result Server)
  pub disconnect : Bool

-- `contexts` is the context of each id, `qps` says which ids have a queue pair, `device` is that of s_ctx,
-- `freed` counts the contexts that were freed, and `died` the calls of rc_die.
pub record Manager : Type 0 where
  pub callbacks : Callbacks
  pub contexts : ℕ → Option Server
  pub qps : ℕ → Bool
  pub device : Option ℕ
  pub freed : ℕ
  pub died : ℕ

pub rc_init : Callbacks → Manager → Manager
rc_init callbacks m = record m { callbacks = callbacks }

-- What the thread of the server passes to rc_init, and what RdmaClientConnect passes.
abbrev pub server_callbacks : Callbacks
server_callbacks = record {
  pre_conn = some on_pre_conn;
  connect = some on_connection;
  completion = some deliver;
  disconnect = true;
}

abbrev pub client_callbacks : Callbacks
client_callbacks = record {
  pre_conn = some on_pre_conn;
  connect = none;
  completion = some deliver;
  disconnect = false;
}

abbrev pub at_id {ℓ} : {A : Type ℓ} → (ℕ → A) → ℕ → A → ℕ → A
at_id f i a j = if i == j then a else f j

-- The first device is kept; a second one is complained about.
pub build_context : ℕ → Manager → Manager
build_context verbs m = elim m.device [
  | none ↦ record m { device = some verbs }
  | some v ↦ if v == verbs then m else record m { died = suc m.died }
]

pub build_connection : ℕ → ℕ → Manager → Manager
unfolding build_context
build_connection i verbs m = record (build_context verbs m) { qps = at_id m.qps i true }

-- `raw` and `buffer` are what fresh memory holds.
pub call_pre_conn : Option (List ℕ → List ℕ → Server) → List ℕ → List ℕ → ℕ → Manager → Manager
call_pre_conn none raw buffer i m = m
call_pre_conn (some f) raw buffer i m = record m {
  contexts = at_id m.contexts i (some (f raw buffer));
}

pub with_context : ℕ → (Server → Result Server) → Option Server → Manager → Result Manager
with_context i f none m = err null_pointer
with_context i f (some σ) m = f σ >>= λ τ. ok (record m { contexts = at_id m.contexts i (some τ) })

pub call_connect : Option (Server → Server) → ℕ → Manager → Result Manager
unfolding with_context
call_connect none i m = ok m
call_connect (some f) i m = with_context i (λ σ. ok (f σ)) (m.contexts i) m

-- on_disconnect frees the context.
pub free_context : ℕ → Option Server → Manager → Result Manager
free_context i none m = err null_pointer
free_context i (some σ) m =
    ok (record m { contexts = at_id m.contexts i none; freed = suc m.freed })

pub call_disconnect : Bool → ℕ → Manager → Result Manager
unfolding free_context
call_disconnect false i m = ok m
call_disconnect true i m = free_context i (m.contexts i) m

-- One round of event_loop, and whether it goes on.
pub handle_event : List ℕ → List ℕ → Bool → CmEvent → Manager → Result (Manager × Bool)
unfolding build_connection call_pre_conn call_connect call_disconnect
handle_event raw buffer exit (addr_resolved i verbs) m =
    let m1 = build_connection i verbs m in
    ok (call_pre_conn m1.callbacks.pre_conn raw buffer i m1, true)
handle_event raw buffer exit (connect_request i verbs) m =
    let m1 = build_connection i verbs m in
    ok (call_pre_conn m1.callbacks.pre_conn raw buffer i m1, true)
handle_event raw buffer exit (route_resolved i) m = ok (m, true)
handle_event raw buffer exit (established i) m =
    call_connect m.callbacks.connect i m >>= λ m1. ok (m1, true)
handle_event raw buffer exit (disconnected i) m =
    let m1 : Manager = record m { qps = at_id m.qps i false } in
    call_disconnect m1.callbacks.disconnect i m1 >>= λ m2. ok (m2, if exit then false else true)
handle_event raw buffer exit (other i) m = ok (record m { died = suc m.died }, true)

-- poll_cq, for a write of the other end: `success` is the status of the completion.
pub call_completion :
    Option (List ℕ → Server → Result Server) → ℕ → List ℕ → Manager → Result Manager
unfolding with_context
call_completion none i bytes m = err null_pointer
call_completion (some f) i bytes m = with_context i (f bytes) (m.contexts i) m

pub poll_cq : Bool → ℕ → List ℕ → Manager → Result Manager
unfolding call_completion
poll_cq false i bytes m = ok (record m { died = suc m.died })
poll_cq true i bytes m = call_completion m.callbacks.completion i bytes m

-- What can happen next in the process: an event of either loop, or a write that arrives.
pub data Step (m n : Manager) : Type 0 where
  event :
      (raw buffer : List ℕ) (exit : Bool) (e : CmEvent) (more : Bool)
      → handle_event raw buffer exit e m ≡ ok (n, more)
      → Step m n
  completion :
      (success : Bool) (i : ℕ) (bytes : List ℕ) → poll_cq success i bytes m ≡ ok n → Step m n

pub data Reach (m : Manager) : Manager → Type 0 where
  here : Reach m m
  later : {n o : Manager} → Reach m n → Step n o → Reach m o
