-- ===== src/Request/Managed.antt =====
-- MakeManagementRequest and zoneFinish of src/common.cc against what is held of the pool.
use zstore.Common.{ℕ, ◌*◌, ◌%◌, ◌≡◌, refl, true, some, none, List, length, ok, u64_mod}
use zstore.Conf.{Conf}
use zstore.Device.{Device}
use zstore.Pool.{RequestContext, Pool, write}
use zstore.Pool.Held.{Held, IsOwned, refill}
use zstore.Request.{Completion, update, deref, make_management_request, zone_finish}
use zstore.Request.Owned.{get_slot-IsOwned, refill-again, write_here}

pub make_management_request-IsOwned :
    (c : Conf) (zmalloc : ℕ → List ℕ) (dev : Device) (p : Pool) (h : Held)
    → ((n : ℕ) → length (zmalloc n) ≡ n)
    → IsOwned c p h
    → (s : ℕ) × (q : Pool) × (r : RequestContext) × (make_management_request c zmalloc (some dev) p
        ≡ ok (s, q))
      × (h s ≡ none)
      × IsOwned c q (write h s (some r))
      × (r.has_ctrl ≡ true)
      × (r.io_context.offset ≡ c.zone_dist * dev.zone_id % u64_mod)
unfolding make_management_request deref update
make_management_request-IsOwned c zmalloc dev p h spec o =
    let (s, q, r, e, free, taken, o') = get_slot-IsOwned c zmalloc p h spec o in
    let cell : q.memory s ≡ some r = o'.alive s r (write_here h s (some r)) in
    let x : RequestContext = record r {
      has_ctrl = true;
      io_context = record (r.io_context) {
        device = some dev.device_id;
        offset = c.zone_dist * dev.zone_id % u64_mod;
        flags = 0;
      };
      has_io_thread = true;
      device = some dev.device_id;
    } in
    (
      s,
      refill q s x,
      x,
      rw e (rw (cell, update) refl),
      free,
      refill-again c q h s r x o' (o'.buffered s r cell),
      refl,
      refl,
    )

pub zone_finish_lem :
    (cpl : Completion) (r : RequestContext)
    → r.has_ctrl ≡ true
    → zone_finish cpl r ≡ ok (record r { success = true })
unfolding zone_finish
zone_finish_lem cpl r h = rw h refl
