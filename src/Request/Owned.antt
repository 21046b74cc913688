-- ===== src/Request/Owned.antt =====
-- The requests of src/common.cc against what is held: each one adds one context to it.
use native.Mathlib.Nat.{mod-eq_of_lt}
use zstore.Common.{
  ℕ, ◌+◌, ◌*◌, ◌/◌, ◌%◌, ◌<◌, ◌≤◌, ◌≡◌, refl, sym, ◌∙◌, true, false, Option, none, some, List, ◌++◌,
  take, drop, length, length-take, length-append, length-drop, arith, ==-zero, ==_refl,
  le→ltb_false, Result, ok, u32_mod, u64_mod,
}
use mathlib.Core.Path.{subst}
use zstore.Conf.{Conf}
use zstore.Device.{Device}
use zstore.Pool.{RequestContext, Pool, write, get_request_context, buffer_size_of}
use zstore.Pool.Buffers.{IsBuffered}
use zstore.Pool.Held.{Held, IsOwned, refill, write_twice}
use zstore.Pool.Held.Take.{get_request_context-IsOwned}
use zstore.Pool.Held.Back.{refill-IsOwned}
use zstore.Request.{
  update, aim, get_slot, deref, copy_in, load, make_read_request, make_write_request,
  make_write_chunk,
}

pub get_slot-IsOwned :
    (c : Conf) (zmalloc : ℕ → List ℕ) (p : Pool) (h : Held)
    → ((n : ℕ) → length (zmalloc n) ≡ n)
    → IsOwned c p h
    → (s : ℕ) × (q : Pool) × (r : RequestContext) × (get_slot c zmalloc p ≡ ok (s, q))
      × (h s ≡ none)
      × (r.available ≡ false)
      × IsOwned c q (write h s (some r))
get_slot-IsOwned c zmalloc p h spec o =
    let (s, r, e, free, taken, o') = get_request_context-IsOwned c zmalloc p h spec o in
    (
      s,
      (get_request_context c zmalloc true p).1,
      r,
      unfold get_slot in rw (e, get_slot) refl,
      free,
      taken,
      o',
    )

pub write_here : (h : Held) (s : ℕ) (o : Option RequestContext) → write h s o s ≡ o
write_here h s o = rw (==_refl s) refl

pub refill-again :
    (c : Conf) (q : Pool) (h : Held) (s : ℕ) (r x : RequestContext)
    → IsOwned c q (write h s (some r))
    → IsBuffered c x
    → IsOwned c (refill q s x) (write h s (some x))
refill-again c q h s r x o full =
    subst (IsOwned c (refill q s x)) (write_twice h s (some r) (some x))
      (refill-IsOwned c q (write h s (some r)) s r x o (write_here h s (some r)) full)

-- What every request leaves: one more context is held, at an address that was free, and it names its
-- controller, its own buffer and an address on the device.
pub record IsRequested (c : Conf) (dev : Device) (offset : ℕ) (h : Held) (made : Result (ℕ × Pool))
    : Type 0 where
  pub slot : ℕ
  pub contexts : Pool
  pub context : RequestContext
  pub returns : made ≡ ok (slot, contexts)
  pub free : h slot ≡ none
  pub owned : IsOwned c contexts (write h slot (some context))
  pub has_ctrl : context.has_ctrl ≡ true
  pub taken : context.available ≡ false
  pub own_buffer : context.io_context.data_of ≡ some slot
  pub address : context.io_context.offset ≡ (c.zone_dist * dev.zone_id + offset) % u64_mod

-- For a device and a block size that is not 0, MakeReadRequest always adds one context to what is held.
pub make_read_request-IsRequested :
    (c : Conf) (zmalloc : ℕ → List ℕ) (dev : Device) (offset len : ℕ) (p : Pool) (h : Held)
    → ((n : ℕ) → length (zmalloc n) ≡ n)
    → 0 < c.block_size
    → IsOwned c p h
    → IsRequested c dev offset h (make_read_request c zmalloc (some dev) offset len p)
unfolding make_read_request deref aim update
make_read_request-IsRequested c zmalloc dev offset len p h spec pos o =
    let (s, q, r, e, free, taken, o') = get_slot-IsOwned c zmalloc p h spec o in
    let x : RequestContext = aim c dev s offset (len % u32_mod / c.block_size) false r in
    let cell : q.memory s ≡ some r = o'.alive s r (write_here h s (some r)) in
    record {
      slot = s;
      contexts = refill q s x;
      context = x;
      returns = rw (==-zero c.block_size pos) (rw e (rw (cell, update) refl));
      free = free;
      owned = refill-again c q h s r x o' (o'.buffered s r cell);
      has_ctrl = refl;
      taken = taken;
      own_buffer = refl;
      address = refl;
    }

-- The front of a buffer is overwritten.
abbrev patched : List ℕ → ℕ → RequestContext → RequestContext
patched from n r = record r { data_buffer = take n from ++ drop n r.data_buffer }

copy_in-patched :
    (c : Conf) (from : List ℕ) (n : ℕ) (r : RequestContext)
    → IsBuffered c r
    → n ≤ length from
    → n ≤ r.buffer_size
    → (copy_in from n r ≡ ok (patched from n r)) × IsBuffered c (patched from n r)
unfolding copy_in
copy_in-patched c from n r (full, size) room fits = (
  rw (le→ltb_false (length from) n room)
      (rw (le→ltb_false (length r.data_buffer) n (omega (arith, full))) refl),
  (
    omega (
      arith,
      length-append (take n from) (drop n r.data_buffer),
      length-take n from,
      length-drop n r.data_buffer,
      full,
    ),
    size,
  ),
)

load-IsRequested :
    (c : Conf) (dev : Device) (from : List ℕ) (n : RequestContext → ℕ) (s : ℕ) (r : RequestContext)
    (q : Pool) (h : Held)
    → IsOwned c q (write h s (some r))
    → h s ≡ none
    → r.available ≡ false
    → n r ≤ length from
    → n r ≤ r.buffer_size
    → IsRequested c dev 0 h (load c (some dev) from n (r.buffer_size / c.block_size) s q)
unfolding load deref aim
load-IsRequested c dev from n s r q h o free taken room fits =
    let cell : q.memory s ≡ some r = o.alive s r (write_here h s (some r)) in
    let (copied, full) = copy_in-patched c from (n r) r (o.buffered s r cell) room fits in
    let x : RequestContext =
      aim c dev s 0 (r.buffer_size / c.block_size) true (patched from (n r) r) in
    record {
      slot = s;
      contexts = refill q s x;
      context = x;
      returns = rw (cell, load) (rw copied (rw (==_refl (r.buffer_size / c.block_size)) refl));
      free = free;
      owned = refill-again c q h s r x o full;
      has_ctrl = refl;
      taken = taken;
      own_buffer = refl;
      address = refl;
    }

-- An append of the configured size, no larger than a chunk, always adds one context to what is held.
pub make_write_request-IsRequested :
    (c : Conf) (zmalloc : ℕ → List ℕ) (dev : Device) (header : List ℕ) (p : Pool) (h : Held)
    → ((n : ℕ) → length (zmalloc n) ≡ n)
    → 0 < c.block_size
    → c.object_size ≤ c.chunk_size
    → c.object_size < u32_mod
    → 8 ≤ length header
    → 8 ≤ c.object_size
    → IsOwned c p h
    → IsRequested c dev 0 h (make_write_request c zmalloc (some dev) header c.object_size p)
unfolding make_write_request buffer_size_of
make_write_request-IsRequested c zmalloc dev header p h spec pos small word room fits o =
    let (s, q, r, e, free, taken, o') = get_slot-IsOwned c zmalloc p h spec o in
    let cell : q.memory s ≡ some r = o'.alive s r (write_here h s (some r)) in
    let size : r.buffer_size ≡ c.object_size =
      (o'.buffered s r cell).1 ∙ (rw (le→ltb_false c.chunk_size c.object_size small) refl) in
    let len : c.object_size % u32_mod ≡ r.buffer_size = mod-eq_of_lt word ∙ sym size in
    rw (==-zero c.block_size pos) (
      rw e (
        rw len (
          load-IsRequested c dev header (λ r. 8) s r q h o' free taken room (omega (arith, size)))))

-- The same of a write of a whole buffer.
pub make_write_chunk-IsRequested :
    (c : Conf) (zmalloc : ℕ → List ℕ) (dev : Device) (buffer : List ℕ) (p : Pool) (h : Held)
    → ((n : ℕ) → length (zmalloc n) ≡ n)
    → 0 < c.block_size
    → c.object_size ≤ c.chunk_size
    → c.object_size < u32_mod
    → c.object_size ≤ length buffer
    → IsOwned c p h
    → IsRequested c dev 0 h (make_write_chunk c zmalloc (some dev) buffer c.object_size p)
unfolding make_write_chunk buffer_size_of
make_write_chunk-IsRequested c zmalloc dev buffer p h spec pos small word room o =
    let (s, q, r, e, free, taken, o') = get_slot-IsOwned c zmalloc p h spec o in
    let cell : q.memory s ≡ some r = o'.alive s r (write_here h s (some r)) in
    let size : r.buffer_size ≡ c.object_size =
      (o'.buffered s r cell).1 ∙ (rw (le→ltb_false c.chunk_size c.object_size small) refl) in
    let len : c.object_size % u32_mod ≡ r.buffer_size = mod-eq_of_lt word ∙ sym size in
    rw (==-zero c.block_size pos) (
      rw e (
        rw len (
          load-IsRequested c dev buffer (λ x. x.buffer_size) s r q h o' free taken
            (omega (arith, size)) (omega (arith, size)))))
