-- ===== src/Rdma/Events/Tests.antt =====
-- Tests of the event loop and its callbacks (src/rdma_common.cc).
use zstore.Common.{ℕ, ◌≡◌, refl, none, some, true, false, List, replicate, ok}
use zstore.Rdma.Server.{on_pre_conn, on_connection}
use zstore.Rdma.Events.{
  Manager, server_callbacks, client_callbacks, rc_init, addr_resolved, connect_request, established,
  disconnected, at_id, build_connection, build_context, call_pre_conn, call_connect, handle_event,
  event, Reach, here, later,
}
use zstore.Rdma.Events.Unheard.{IsUnheard, client_callbacks-IsUnheard}

abbrev fresh_bytes : List ℕ
fresh_bytes = replicate 32 9

abbrev idle_manager : Manager
idle_manager = record {
  callbacks = server_callbacks;
  contexts = λ i. none;
  qps = λ i. false;
  device = none;
  freed = 0;
  died = 0;
}

-- After the address of connection 4 is resolved.
abbrev resolved_manager : Manager
resolved_manager = record {
  callbacks = client_callbacks;
  contexts = at_id (λ i. none) 4 (some (on_pre_conn fresh_bytes fresh_bytes));
  qps = at_id (λ i. false) 4 true;
  device = some 1;
  freed = 0;
  died = 0;
}

resolved_manager-Reach : Reach (rc_init client_callbacks idle_manager) resolved_manager
unfolding rc_init handle_event build_connection build_context call_pre_conn call_connect
resolved_manager-Reach =
    later (later here (event fresh_bytes fresh_bytes true (addr_resolved 4 1) true refl))
      (event fresh_bytes fresh_bytes true (established 4) true refl)

client_callbacks-IsUnheard_example :
    IsUnheard resolved_manager
    × (m1 m2 m3 : Manager) × (handle_event fresh_bytes fresh_bytes false
          (connect_request 4 1)
          (rc_init server_callbacks idle_manager)
        ≡ ok (m1, true))
    × (handle_event fresh_bytes fresh_bytes false (established 4) m1 ≡ ok (m2, true))
    × (m2.contexts 4 ≡ some (on_connection (on_pre_conn fresh_bytes fresh_bytes)))
    × (handle_event fresh_bytes fresh_bytes false (disconnected 4) m2 ≡ ok (m3, true))
    × (m3.contexts 4 ≡ none)
    × (m3.freed ≡ 1)
client_callbacks-IsUnheard_example =
    client_callbacks-IsUnheard idle_manager resolved_manager 4 1 fresh_bytes fresh_bytes (λ j. refl)
      refl refl resolved_manager-Reach
