-- ===== src/Request/Answers.antt =====
-- How the operations of src/common.cc leave a request: zoneAppend, zoneRead and zoneReadDummy.

use zstore.Common.{
  ℕ, ◌%◌, u32_mod, ◌≡◌, refl, true, List, length, arith, le→ltb_false, take_all, ok,
}
use zstore.Conf.{Conf}
use zstore.Pool.{RequestContext}
use zstore.Pool.Buffers.{IsBuffered}
use zstore.Request.{Completion, zone_append, assign_body, zone_read, zone_read_dummy}

pub assign_body-full :
    (r : RequestContext)
    → length r.data_buffer ≡ r.buffer_size
    → assign_body r ≡ ok (record r { response_body = r.data_buffer })
unfolding assign_body
assign_body-full r h =
    rw (le→ltb_false (length r.data_buffer) r.buffer_size (omega (arith, h)))
      (rw (take_all r.data_buffer r.buffer_size h) refl)

-- Of a request that names its controller and has its buffer: zoneRead puts what SPDK left in the buffer
-- into the response, zoneReadDummy what the buffer held before, and both report success.
pub zone_read_lem :
    (c : Conf) (r : RequestContext) (filled : List ℕ)
    → IsBuffered c r
    → length filled ≡ length r.data_buffer
    → r.has_ctrl ≡ true
    → (zone_read filled r
        ≡ ok (record r { data_buffer = filled; response_body = filled; success = true }))
      × (zone_read_dummy r ≡ ok (record r { response_body = r.data_buffer; success = true }))
unfolding zone_read zone_read_dummy
zone_read_lem c r filled (full, size) same ctrl = (
  rw (assign_body-full (record r { data_buffer = filled }) (omega (arith, full, same))) (simp ctrl),
  rw (assign_body-full r full) (simp ctrl),
)

-- What an append leaves in its context.
abbrev pub appended : Completion → RequestContext → RequestContext
appended cpl r = record r { write_complete = true; success = true; append_lba = cpl.cdw0 % u32_mod }

pub zone_append-appended :
    (cpl : Completion) (r : RequestContext)
    → r.has_ctrl ≡ true
    → zone_append cpl r ≡ ok (appended cpl r)
unfolding zone_append
zone_append-appended cpl r e = rw e refl
