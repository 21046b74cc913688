-- ===== src/Rdma/Events/Unheard.antt =====
-- What the callbacks of src/rdma_common.cc do once RdmaClientConnect of src/zstore_controller.cc has set them.
use mathlib.Core.Path.{subst}
use zstore.Common.{
  ok-injective, ℕ, suc, ◌-◌, ◌≡◌, ◌≢◌, ◌⊎◌, refl, ap, sym, ◌∙◌, Bool, true, false, Option, none,
  some, List, ◌∷◌, length, All, ◌==◌, if◌then◌else◌, arith, inl, inr, Bool-cases, Option-cases,
  ==_refl, Result, Result-cases, ok, ◌>>=◌,
}
use zstore.Rdma.{msg_mr, msg_ready, msg_done, write_front}
use zstore.Rdma.Server.{
  Server, on_connection, send_message, post_receive, copy_hash, store_name, on_pre_conn,
  on_completion, deliver,
}
use zstore.Rdma.Events.{
  CmEvent, addr_resolved, connect_request, route_resolved, established, disconnected, other,
  Manager, at_id, rc_init, client_callbacks, server_callbacks, build_context, build_connection,
  call_pre_conn, with_context, free_context, call_connect, call_disconnect, handle_event,
  call_completion, poll_cq, Step, event, completion, Reach, here, later,
}

abbrev IsSilent : Server → Type 0
IsSilent σ = All (λ id. id ≢ msg_mr) σ.sent

store_name-sent : (size : ℕ) (σ τ : Server) → store_name size σ ≡ ok τ → τ.sent ≡ σ.sent
unfolding store_name
store_name-sent size σ τ e = ground arith

-- Every completion that is taken sends DONE or READY.
on_completion-sent :
    (size : ℕ) (σ τ : Server)
    → on_completion size σ ≡ ok τ
    → (τ.sent ≡ msg_done ∷ σ.sent) ⊎ (τ.sent ≡ msg_ready ∷ σ.sent)
unfolding on_completion send_message post_receive
on_completion-sent size σ τ e = elim (Result-cases (copy_hash σ.buffer)) [
  | inl (hash, copied) ↦ elim (Result-cases (store_name size σ)) [
    | inl (υ, stored) ↦ ground (arith, store_name-sent size σ υ)
    | inr (f, failed) ↦ ground arith
  ]
  | inr (f, failed) ↦ elim (Result-cases (store_name size σ)) [
    | inl (υ, stored) ↦ ground (arith, store_name-sent size σ υ)
    | inr (g, failed') ↦ ground arith
  ]
]

deliver-IsSilent :
    (bytes : List ℕ) (σ τ : Server) → deliver bytes σ ≡ ok τ → IsSilent σ → IsSilent τ
unfolding deliver
deliver-IsSilent bytes σ τ e s = elim (Bool-cases (σ.receives == 0)) [
  | inl none_posted ↦ absurd (ground arith)
  | inr posted ↦ elim (Result-cases (write_front bytes σ.buffer)) [
    | inl (filled, wrote) ↦
        (let σ1 : Server = record σ { buffer = filled; receives = σ.receives - 1 } in
          let came : deliver bytes σ ≡ on_completion (length bytes) σ1 =
            rw posted (rw wrote refl) in
          elim (on_completion-sent (length bytes) σ1 τ (sym came ∙ e)) [
            | inl sent ↦ subst (All (λ id. id ≢ msg_mr)) (sym sent) ((λ x. cc), s)
            | inr sent ↦ subst (All (λ id. id ≢ msg_mr)) (sym sent) ((λ x. cc), s)
          ])
    | inr (f, failed) ↦ absurd (ground arith)
  ]
]

-- RdmaClientConnect has set the callbacks, no MR was sent, and nothing was freed.
pub record IsUnheard (m : Manager) : Type 0 where
  pub set : m.callbacks ≡ client_callbacks
  pub silent : (i : ℕ) (σ : Server) → m.contexts i ≡ some σ → IsSilent σ
  pub kept : m.freed ≡ 0

build_connection-IsUnheard :
    (i verbs : ℕ) (m : Manager) → IsUnheard m → IsUnheard (build_connection i verbs m)
unfolding build_connection build_context
build_connection-IsUnheard i verbs m v = elim (Option-cases m.device) [
  | inl e ↦ rw (e, build_context) (record { set = v.set; silent = v.silent; kept = v.kept })
  | inr (d, e) ↦ elim (Bool-cases (d == verbs)) [
    | inl same ↦
        rw (e, build_context) (rw same (record { set = v.set; silent = v.silent; kept = v.kept }))
    | inr ne ↦
        rw (e, build_context) (rw ne (record { set = v.set; silent = v.silent; kept = v.kept }))
  ]
]

-- A context that is set and silent.
set_context-IsUnheard :
    (i : ℕ) (σ : Server) (m : Manager)
    → IsUnheard m
    → IsSilent σ
    → IsUnheard (record m { contexts = at_id m.contexts i (some σ) })
set_context-IsUnheard i σ m v s = record {
  set = v.set;
  silent = λ j τ e. elim (Bool-cases (i == j)) [
    | inl same ↦ subst IsSilent (let h : σ ≡ τ = ground arith in h) s
    | inr ne ↦ v.silent j τ (ground arith)
  ];
  kept = v.kept;
}

call_pre_conn-IsUnheard :
    (raw buffer : List ℕ) (i : ℕ) (m : Manager)
    → IsUnheard m
    → IsUnheard (call_pre_conn m.callbacks.pre_conn raw buffer i m)
unfolding call_pre_conn on_pre_conn
call_pre_conn-IsUnheard raw buffer i m v =
    subst (λ c. IsUnheard (call_pre_conn c.pre_conn raw buffer i m)) (sym v.set)
      (set_context-IsUnheard i (on_pre_conn raw buffer) m v tt)

ok-first {ℓ κ} :
    {A : Type ℓ} {B : Type κ} (a c : A) (b d : B)
    → ◌≡◌ {A = Result (A × B)} (ok (a, b)) (ok (c, d))
    → a ≡ c
ok-first a c b d h = cc

handle_event-IsUnheard :
    (raw buffer : List ℕ) (exit : Bool) (e : CmEvent) (m n : Manager) (more : Bool)
    → handle_event raw buffer exit e m ≡ ok (n, more)
    → IsUnheard m
    → IsUnheard n
unfolding handle_event call_connect call_disconnect
handle_event-IsUnheard raw buffer exit (addr_resolved i verbs) m n more h v =
    subst IsUnheard (ok-first _ n true more h) (
      call_pre_conn-IsUnheard raw buffer i (build_connection i verbs m)
        (build_connection-IsUnheard i verbs m v))
handle_event-IsUnheard raw buffer exit (connect_request i verbs) m n more h v =
    subst IsUnheard (ok-first _ n true more h) (
      call_pre_conn-IsUnheard raw buffer i (build_connection i verbs m)
        (build_connection-IsUnheard i verbs m v))
handle_event-IsUnheard raw buffer exit (route_resolved i) m n more h v =
    subst IsUnheard (ok-first m n true more h) v
handle_event-IsUnheard raw buffer exit (established i) m n more h v =
    let next : Manager → Result (Manager × Bool) = λ m1. ok (m1, true) in
    let nothing = subst (λ c. (call_connect c.connect i m >>= next) ≡ ok (n, more)) v.set h in
    subst IsUnheard (ok-first m n true more nothing) v
handle_event-IsUnheard raw buffer exit (disconnected i) m n more h v =
    let m1 : Manager = record m { qps = at_id m.qps i false } in
    let goes_on = if exit then false else true in
    let next : Manager → Result (Manager × Bool) = λ m2. ok (m2, goes_on) in
    let nothing =
      subst (λ c. (call_disconnect c.disconnect i m1 >>= next) ≡ ok (n, more)) v.set h in
    subst IsUnheard (ok-first m1 n goes_on more nothing)
      (record { set = v.set; silent = v.silent; kept = v.kept })
handle_event-IsUnheard raw buffer exit (other i) m n more h v =
    subst IsUnheard (ok-first _ n true more h)
      (record { set = v.set; silent = v.silent; kept = v.kept })

delivered-IsUnheard :
    (i : ℕ) (bytes : List ℕ) (o : Option Server) (m n : Manager)
    → m.contexts i ≡ o
    → with_context i (deliver bytes) o m ≡ ok n
    → IsUnheard m
    → IsUnheard n
unfolding with_context
delivered-IsUnheard i bytes none m n at h v = absurd (cc)
delivered-IsUnheard i bytes (some σ) m n at h v = elim (Result-cases (deliver bytes σ)) [
  | inl (τ, came) ↦
      subst IsUnheard (ok-injective _ n (sym (rw came refl) ∙ h))
        (set_context-IsUnheard i τ m v (deliver-IsSilent bytes σ τ came (v.silent i σ at)))
  | inr (f, failed) ↦ absurd (cc)
]

poll_cq-IsUnheard :
    (success : Bool) (i : ℕ) (bytes : List ℕ) (m n : Manager)
    → poll_cq success i bytes m ≡ ok n
    → IsUnheard m
    → IsUnheard n
unfolding poll_cq call_completion
poll_cq-IsUnheard false i bytes m n h v =
    subst IsUnheard (ok-injective _ n h) (record { set = v.set; silent = v.silent; kept = v.kept })
poll_cq-IsUnheard true i bytes m n h v =
    delivered-IsUnheard i bytes (m.contexts i) m n refl
      (subst (λ c. call_completion c.completion i bytes m ≡ ok n) v.set h) v

Step-IsUnheard : (m n : Manager) → Step m n → IsUnheard m → IsUnheard n
Step-IsUnheard m n (event raw buffer exit e more h) v =
    handle_event-IsUnheard raw buffer exit e m n more h v
Step-IsUnheard m n (completion success i bytes h) v = poll_cq-IsUnheard success i bytes m n h v

Reach-IsUnheard : (m n : Manager) → Reach m n → IsUnheard m → IsUnheard n
Reach-IsUnheard m n here v = v
Reach-IsUnheard m n (later {n = o} r s) v = Step-IsUnheard o n s (Reach-IsUnheard m o r v)

-- Once RdmaClientConnect has set the callbacks in a process without connections, no connection is ever
-- sent the MR that its client waits for, whatever events and writes come, and no context is freed. With
-- the callbacks of the server, the same connection is sent MR as soon as it is established, and its
-- context is freed when it is disconnected.
pub client_callbacks-IsUnheard :
    (m n : Manager) (i verbs : ℕ) (raw buffer : List ℕ)
    → ((j : ℕ) → m.contexts j ≡ none)
    → m.device ≡ none
    → m.freed ≡ 0
    → Reach (rc_init client_callbacks m) n
    → IsUnheard n
      × (m1 m2 m3 : Manager) × (handle_event raw buffer false
            (connect_request i verbs)
            (rc_init server_callbacks m)
          ≡ ok (m1, true))
      × (handle_event raw buffer false (established i) m1 ≡ ok (m2, true))
      × (m2.contexts i ≡ some (on_connection (on_pre_conn raw buffer)))
      × (handle_event raw buffer false (disconnected i) m2 ≡ ok (m3, true))
      × (m3.contexts i ≡ none)
      × (m3.freed ≡ 1)
unfolding rc_init handle_event build_connection build_context call_pre_conn call_connect
    call_disconnect with_context free_context
client_callbacks-IsUnheard m n i verbs raw buffer fresh unused kept r =
    let m1 : Manager = record m {
      callbacks = server_callbacks;
      contexts = at_id m.contexts i (some (on_pre_conn raw buffer));
      qps = at_id m.qps i true;
      device = some verbs;
    } in
    let m2 : Manager = record m1 {
      contexts = at_id m1.contexts i (some (on_connection (on_pre_conn raw buffer)));
    } in
    let m3 : Manager = record m2 {
      contexts = at_id m2.contexts i none;
      qps = at_id m2.qps i false;
      freed = suc m2.freed;
    } in
    (
      Reach-IsUnheard (rc_init client_callbacks m) n r
          (record { set = refl; silent = λ j σ e. absurd (cc (fresh j)); kept = kept }),
      m1,
      m2,
      m3,
      rw (unused, build_context) refl,
      rw (==_refl i) refl,
      rw (==_refl i) refl,
      rw (==_refl i) refl,
      rw (==_refl i) refl,
      ap suc kept,
    )
