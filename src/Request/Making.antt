-- ===== src/Request/Making.antt =====
-- What MakeReadRequest and MakeWriteChunk of src/common.cc set up.
use mathlib.Core.List.{append-nil}
use native.Mathlib.Nat.{add-zero}
use zstore.Common.{
  ℕ, zero, suc, ◌+◌, ◌*◌, ◌/◌, ◌%◌, ◌<◌, ◌≤◌, ◌≡◌, ◌≢◌, refl, ap, true, false, some, List, [], ◌∷◌,
  take, drop, length, length-take, arith, ◌==◌, ==-zero, ==_iff, ==_ne, le→ltb_false, ok, err,
  assertion, ◌>>◌, guard, u32_mod, u64_mod,
}
use zstore.Conf.{Conf}
use zstore.Device.{Device}
use zstore.Pool.{RequestContext, Pool, buffer_size_of}
use zstore.Pool.Invariant.{IsPool}
use zstore.Pool.Lending.{IsLent}
use zstore.Pool.Buffers.{AreBuffered, AreBuffered-write}
use zstore.Request.{update, aim, deref, make_read_request, copy_in, load, make_write_chunk}
use zstore.Pool.Held.{refill}
use zstore.Request.Lending.{refill-IsPool, refill-IsLent, refill-memory, get_slot-lends}

update-lent :
    (f : RequestContext → RequestContext) (p : Pool) (s : ℕ) (l : IsLent p s)
    → update s f p ≡ ok (refill p s (f l.context))
unfolding update
update-lent f p s l = rw (l.alive, update) refl

-- For a device, a block size that is not 0 and a valid pool whose contexts have their buffers,
-- MakeReadRequest always succeeds: it lends a context that reads into its own buffer at `offset` from the
-- start of the device's zone, the length in whole blocks, and the pool stays as required.
pub make_read_request-lends :
    (c : Conf) (zmalloc : ℕ → List ℕ) (dev : Device) (offset len : ℕ) (p : Pool)
    → IsPool p
    → AreBuffered c p.memory
    → ((n : ℕ) → length (zmalloc n) ≡ n)
    → 0 < c.block_size
    → (s : ℕ) × (q : Pool) × (make_read_request c zmalloc (some dev) offset len p ≡ ok (s, q))
      × IsPool q
      × AreBuffered c q.memory
      × IsLent q s
      × (r : RequestContext) × (q.memory s ≡ some r)
      × (r.has_ctrl ≡ true)
      × (r.available ≡ false)
      × (r.io_context.data_of ≡ some s)
      × (r.io_context.device ≡ some dev.device_id)
      × (r.io_context.offset ≡ (c.zone_dist * dev.zone_id + offset) % u64_mod)
      × (r.io_context.size ≡ len % u32_mod / c.block_size % u32_mod)
unfolding make_read_request deref aim
make_read_request-lends c zmalloc dev offset len p v all spec pos =
    let (s, q, e, v', l, keep) = get_slot-lends c zmalloc p v in
    let r = aim c dev s offset (len % u32_mod / c.block_size) false l.context in
    (
      s,
      refill q s r,
      rw (==-zero c.block_size pos) (
          rw (e, update-lent (aim c dev s offset (len % u32_mod / c.block_size) false) q s l) refl),
      refill-IsPool q s r v' l,
      AreBuffered-write c q.memory s r (keep spec all) (keep spec all s l.context l.alive),
      refill-IsLent q s r l l.taken,
      r,
      refill-memory q s r,
      refl,
      l.taken,
      refl,
      refl,
      refl,
      refl,
    )

drop_all : (xs : List ℕ) (n : ℕ) → length xs ≡ n → drop n xs ≡ []
drop_all [] zero h = refl
drop_all [] (suc n) h = refl
drop_all (x ∷ xs) zero h = absurd (omega arith)
drop_all (x ∷ xs) (suc n) h = drop_all xs n (omega arith)

copy_in-whole :
    (from : List ℕ) (r : RequestContext)
    → length r.data_buffer ≡ r.buffer_size
    → r.buffer_size ≤ length from
    → copy_in from r.buffer_size r ≡ ok (record r { data_buffer = take r.buffer_size from })
unfolding copy_in
copy_in-whole from r h k = rw (le→ltb_false (length from) r.buffer_size k) (
    rw (le→ltb_false (length r.data_buffer) r.buffer_size (omega arith))
      (rw (drop_all r.data_buffer r.buffer_size h, append-nil (take r.buffer_size from)) refl))

-- The context as `load` leaves it.
abbrev loaded : Conf → Device → List ℕ → ℕ → RequestContext → RequestContext
loaded c dev buffer s r =
    aim c dev s 0 (r.buffer_size / c.block_size) true
      (record r { data_buffer = take r.buffer_size buffer })

load-whole :
    (c : Conf) (dev : Device) (buffer : List ℕ) (blocks s : ℕ) (q : Pool) (l : IsLent q s)
    → length l.context.data_buffer ≡ l.context.buffer_size
    → l.context.buffer_size ≤ length buffer
    → load c (some dev) buffer (λ r. r.buffer_size) blocks s q ≡ (
        guard (l.context.buffer_size / c.block_size == blocks) assertion
        >> ok (s, refill q s (loaded c dev buffer s l.context)))
unfolding load deref
load-whole c dev buffer blocks s q l full room =
    rw (l.alive, load) (rw (copy_in-whole buffer l.context full room) refl)

-- For a device, a block size that is not 0, a valid pool whose contexts have their buffers, and data that
-- fill a buffer: MakeWriteChunk succeeds exactly if the length is as many blocks as the buffer. Then it
-- lends a context that holds the front of the data and aims at the start of the device's zone, and the pool
-- stays valid; otherwise it fails an assert.
pub make_write_chunk-lends :
    (c : Conf) (zmalloc : ℕ → List ℕ) (dev : Device) (buffer : List ℕ) (len : ℕ) (p : Pool)
    → IsPool p
    → AreBuffered c p.memory
    → ((n : ℕ) → length (zmalloc n) ≡ n)
    → 0 < c.block_size
    → buffer_size_of c ≤ length buffer
    → (buffer_size_of c / c.block_size ≢ len % u32_mod / c.block_size
        → make_write_chunk c zmalloc (some dev) buffer len p ≡ err assertion)
      × (buffer_size_of c / c.block_size ≡ len % u32_mod / c.block_size
          → (s : ℕ) × (q : Pool) × (make_write_chunk c zmalloc (some dev) buffer len p ≡ ok (s, q))
            × IsPool q
            × AreBuffered c q.memory
            × IsLent q s
            × (r : RequestContext) × (q.memory s ≡ some r)
            × (r.data_buffer ≡ take (buffer_size_of c) buffer)
            × (r.io_context.data_of ≡ some s)
            × (r.io_context.offset ≡ c.zone_dist * dev.zone_id % u64_mod))
unfolding make_write_chunk aim
make_write_chunk-lends c zmalloc dev buffer len p v all spec pos room =
    let (s, q, e, v', l, keep) = get_slot-lends c zmalloc p v in
    let (full, size) = keep spec all s l.context l.alive in
    let whole =
      load-whole c dev buffer (len % u32_mod / c.block_size) s q l full (omega (arith, size)) in
    let r = loaded c dev buffer s l.context in
    (
      λ ne. rw (==-zero c.block_size pos) (
          rw e (
            rw whole (
              rw
                (==_ne (l.context.buffer_size / c.block_size) (len % u32_mod / c.block_size)
                  (rw size ne))
                refl))),
      λ same. (
        s,
        refill q s r,
        rw (==-zero c.block_size pos) (
            rw e (
              rw whole (
                rw
                  ((==_iff (l.context.buffer_size / c.block_size) (len % u32_mod / c.block_size)).1
                    (rw size same))
                  refl))),
        refill-IsPool q s r v' l,
        AreBuffered-write c q.memory s r (keep spec all)
            (omega (arith, length-take l.context.buffer_size buffer, size, room), size),
        refill-IsLent q s r l l.taken,
        r,
        refill-memory q s r,
        ap (λ n. take n buffer) size,
        refl,
        rw (add-zero (c.zone_dist * dev.zone_id)) refl,
      ),
    )
