-- ===== src/Request.antt =====
-- Requests to the devices: MakeReadRequest, MakeWriteRequest, MakeWriteChunk and MakeManagementRequest
-- of src/common.cc, and what zoneAppend, zoneRead, zoneReadDummy and zoneFinish do to a request when
-- SPDK has answered. `Conf::IsReplay()` is false, as src/include/configuration.h sets it.
pub mod Lending
pub mod Making
pub mod Answers
pub mod Owned
pub mod Managed
pub mod Tests
use mathlib.Core.Option
use zstore.Common.{
  ℕ, ◌+◌, ◌*◌, ◌/◌, ◌%◌, Bool, true, false, not, Option, none, some, List, [], ◌∷◌, ◌++◌, take,
  drop, length, ltb, ◌==◌, if◌then◌else◌, u32_mod, u64_mod, Result, ok, err, assertion,
  null_pointer, out_of_bounds, exception, guard, ◌>>=◌, ◌>>◌,
}
use zstore.Conf.{Conf}
use zstore.Device.{Device}
use zstore.Pool.{RequestContext, IoContext, Pool, write, get_request_context}

-- A change of the context at an address.
pub update : ℕ → (RequestContext → RequestContext) → Pool → Result Pool
update s f p = elim (p.memory s) [
  | none ↦ err null_pointer
  | some r ↦ ok (record p { memory = write p.memory s (some (f r)) })
]

-- The assignments that the three I/O requests share. The pointer to a device is
-- named by the place of the device, which SetParameters gives it; its own number is not set by the code.
pub aim : Conf → Device → ℕ → ℕ → ℕ → Bool → RequestContext → RequestContext
aim c dev s offset size is_write r = record r {
  has_ctrl = true;
  io_context = record (r.io_context) {
    device = some dev.device_id;
    data_of = some s;
    offset = (c.zone_dist * dev.zone_id + offset) % u64_mod;
    size = size % u32_mod;
    flags = 0;
  };
  has_io_thread = true;
  device = some dev.device_id;
  is_write = is_write;
}

-- A forced request gets a context; a null pointer is followed.
pub get_slot : Conf → (ℕ → List ℕ) → Pool → Result (ℕ × Pool)
get_slot c zmalloc p =
    let (slot, q) = get_request_context c zmalloc true p in
    elim slot [ none ↦ err null_pointer | some s ↦ ok (s, q) ]

-- The device is null where GetDeviceById had no device.
unfoldable pub deref : Option Device → Result Device
deref none = err null_pointer
deref (some dev) = ok dev

-- The length has 32 bits. A block size of 0 divides by zero.
pub make_read_request : Conf → (ℕ → List ℕ) → Option Device → ℕ → ℕ → Pool → Result (ℕ × Pool)
make_read_request c zmalloc device offset len_in_bytes p = do
  guard (not (c.block_size == 0)) exception
  (s, q) ← get_slot c zmalloc p
  dev ← deref device
  q' ← update s (aim c dev s offset (len_in_bytes % u32_mod / c.block_size) false) q
  ok (s, q')

-- `memcpy(slot->dataBuffer, from, n)`
pub copy_in : List ℕ → ℕ → RequestContext → Result RequestContext
copy_in from n r =
    if ltb (length from) n
    then err out_of_bounds
    else if ltb (length r.data_buffer) n
    then err out_of_bounds
    else ok (record r { data_buffer = take n from ++ drop n r.data_buffer })

-- From the copy to the end of a write request: `n r` bytes are copied. The whole buffer is written, and
-- its size has to be the length in blocks.
pub load : Conf → Option Device → List ℕ → (RequestContext → ℕ) → ℕ → ℕ → Pool → Result (ℕ × Pool)
load c device from n len_in_blocks s q = elim (q.memory s) [
  | none ↦ err null_pointer
  | some r ↦ (do
    r' ← copy_in from (n r) r
    dev ← deref device
    guard (r.buffer_size / c.block_size == len_in_blocks) assertion
    ok (
      s,
      record q {
        memory = write q.memory s (some (aim c dev s 0 (r.buffer_size / c.block_size) true r'));
      },
    ))
]

-- `header` is the memory of the std::vector object itself: `sizeof(buffer)` bytes of it are copied,
-- the size of a pointer.
pub make_write_request : Conf → (ℕ → List ℕ) → Option Device → List ℕ → ℕ → Pool → Result (ℕ × Pool)
make_write_request c zmalloc device header len_in_bytes p = do
  guard (not (c.block_size == 0)) exception
  (s, q) ← get_slot c zmalloc p
  load c device header (λ r. 8) (len_in_bytes % u32_mod / c.block_size) s q

-- The whole buffer of the context is filled.
pub make_write_chunk : Conf → (ℕ → List ℕ) → Option Device → List ℕ → ℕ → Pool → Result (ℕ × Pool)
make_write_chunk c zmalloc device buffer len_in_bytes p = do
  guard (not (c.block_size == 0)) exception
  (s, q) ← get_slot c zmalloc p
  load c device buffer (λ r. r.buffer_size) (len_in_bytes % u32_mod / c.block_size) s q

-- The data pointer and the size of the context stay as they were.
pub make_management_request : Conf → (ℕ → List ℕ) → Option Device → Pool → Result (ℕ × Pool)
make_management_request c zmalloc device p = do
  (s, q) ← get_slot c zmalloc p
  dev ← deref device
  q' ←
      update s
        (λ r. record r {
          has_ctrl = true;
          io_context = record (r.io_context) {
            device = some dev.device_id;
            offset = c.zone_dist * dev.zone_id % u64_mod;
            flags = 0;
          };
          has_io_thread = true;
          device = some dev.device_id;
        })
        q
  ok (s, q')

-- The answer of SPDK. For an append the word `cdw0` of 32 bits is the address that was written.
pub record Completion : Type 0 where
  pub is_error : Bool
  pub cdw0 : ℕ

-- An error is only logged.
pub zone_append : Completion → RequestContext → Result RequestContext
zone_append cpl r =
    if r.has_ctrl
    then ok (record r { write_complete = true; success = true; append_lba = cpl.cdw0 % u32_mod })
    else err assertion

-- `response_body.assign(dataBuffer, bufferSize)`
pub assign_body : RequestContext → Result RequestContext
assign_body r =
    if ltb (length r.data_buffer) r.buffer_size
    then err out_of_bounds
    else ok (record r { response_body = take r.buffer_size r.data_buffer })

-- `filled` is the buffer as SPDK has left it; an error is only logged.
pub zone_read : List ℕ → RequestContext → Result RequestContext
zone_read filled r = do
  guard r.has_ctrl assertion
  r' ← assign_body (record r { data_buffer = filled })
  ok (record r' { success = true })

-- The operation that SPDK never sees.
pub zone_read_dummy : RequestContext → Result RequestContext
zone_read_dummy r = do
  guard r.has_ctrl assertion
  r' ← assign_body r
  ok (record r' { success = true })

-- An error is only logged, and counts as a success.
pub zone_finish : Completion → RequestContext → Result RequestContext
zone_finish cpl r = if r.has_ctrl then ok (record r { success = true }) else err assertion
