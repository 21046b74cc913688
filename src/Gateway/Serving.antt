-- ===== src/Gateway/Serving.antt =====
-- GET and PUT of src/http_server.cc for a gateway none of whose contexts is in use: they run to their
-- end, and again no context is in use.
use mathlib.Core.Path.{subst}
use zstore.Common.{
  ℕ, ◌+◌, ◌%◌, ◌<◌, ◌≡◌, refl, ◌∙◌, true, false, none, some, List, length, ok, arith, u64_mod,
}
use zstore.Conf.{Conf}
use zstore.Device.{Device}
use zstore.Hash.{KeyHash, compute_sha256}
use zstore.Http.{HttpRequest, parse_url, handle_request}
use zstore.Pool.{RequestContext, Pool, buffer_size_of, write, clear}
use zstore.Pool.Buffers.{IsBuffered}
use zstore.Pool.Held.{Held, IsOwned, refill, write_twice}
use zstore.Pool.Held.Back.{refill-IsOwned, clear_context-IsOwned, return_request_context-IsOwned}
use zstore.Store.{MapEntry}
use zstore.Store.Map.{FlatMap, get_object}
use zstore.Request.{zone_read_dummy, assign_body}
use zstore.Request.Owned.{write_here, make_read_request-IsRequested}
use zstore.Request.Answers.{zone_read_lem, assign_body-full}
use zstore.Gateway.{
  Gateway, get_device_by_id, answer_entry, on_slot, read_entry, finish_read, is_empty, get_handler,
}
use zstore.Gateway.Lookup.{on_slot-lent, add_to_broadcast-cases, find_entry-some}

-- The end of a read: cleared and given back, the context is no longer held.
pub finish_read-IsOwned :
    (c : Conf) (F : FlatMap MapEntry) (h : Held) (s : ℕ) (r : RequestContext) (p : Pool)
    → IsOwned c p (write h s (some r))
    → h s ≡ none
    → (q : Pool) × (finish_read F s p ≡ ok q) × IsOwned c q h
unfolding finish_read
finish_read-IsOwned c F h s r p o free =
    let (e1, o1) = clear_context-IsOwned c p (write h s (some r)) s r o (write_here h s (some r)) in
    let (q, e2, o2) =
      return_request_context-IsOwned c (refill p s (clear r))
        (write (write h s (some r)) s (some (clear r))) s (clear r) o1
        (write_here (write h s (some r)) s (some (clear r))) (unfold clear in refl) in
    let back : write (write (write h s (some r)) s (some (clear r))) s none ≡ h = λ i t.
      (let e : write (write (write h s (some r)) s (some (clear r))) s none t ≡ h t =
          ground (arith, free) in
        e i) in
    (q, rw e1 e2, subst (IsOwned c q) back o2)

-- A read of an entry whose first device is known.
pub record IsReplied (c : Conf) (zmalloc : ℕ → List ℕ) (F : FlatMap MapEntry) (e : MapEntry)
    (g : Gateway F) (h : Held) : Type 0 where
  pub body : List ℕ
  pub contexts : Pool
  pub returns :
      read_entry F c zmalloc e g
      ≡ ok (body, record g { contexts = contexts; total_counts = (g.total_counts + 1) % u64_mod })
  pub body_length : length body ≡ buffer_size_of c
  pub owned : IsOwned c contexts h

pub filled-IsOwned :
    (c : Conf) (h : Held) (s : ℕ) (r x : RequestContext) (p : Pool)
    → IsOwned c p (write h s (some r))
    → IsBuffered c x
    → IsOwned c (refill p s x) (write h s (some x))
filled-IsOwned c h s r x p o full =
    subst (IsOwned c (refill p s x)) (write_twice h s (some r) (some x))
      (refill-IsOwned c p (write h s (some r)) s r x o (write_here h s (some r)) full)

pub read_entry-IsReplied :
    (c : Conf) (zmalloc : ℕ → List ℕ) (F : FlatMap MapEntry) (e : MapEntry) (g : Gateway F)
    (dev : Device) (h : Held)
    → ((n : ℕ) → length (zmalloc n) ≡ n)
    → 0 < c.block_size
    → IsOwned c g.contexts h
    → get_device_by_id F e.first.device_id g ≡ some dev
    → IsReplied c zmalloc F e g h
unfolding read_entry
read_entry-IsReplied c zmalloc F e g dev h spec pos o there =
    let m = make_read_request-IsRequested c zmalloc dev e.first.lba e.len g.contexts h spec pos o in
    let r = m.context in
    let s = m.slot in
    let p = m.contexts in
    let cell : p.memory s ≡ some r = m.owned.alive s r (write_here h s (some r)) in
    let (full, size) = m.owned.buffered s r cell in
    let x : RequestContext = record r { response_body = r.data_buffer; success = true } in
    let dummy : on_slot F s zone_read_dummy p ≡ ok (x, refill p s x) =
      on_slot-lent F s zone_read_dummy p r x cell
        ((zone_read_lem c r r.data_buffer (full, size) refl m.has_ctrl).1) in
    let o1 = filled-IsOwned c h s r x p m.owned (full, size) in
    let cell1 : (refill p s x).memory s ≡ some x = o1.alive s x (write_here h s (some x)) in
    let again : on_slot F s assign_body (refill p s x) ≡ ok (x, refill (refill p s x) s x) =
      on_slot-lent F s assign_body (refill p s x) x x cell1 (assign_body-full x full) in
    let (q, gone, o2) =
      finish_read-IsOwned c F h s x (refill (refill p s x) s x)
        (filled-IsOwned c h s x x (refill p s x) o1 (full, size)) m.free in
    record {
      body = r.data_buffer;
      contexts = q;
      returns = rw there (rw m.returns (rw dummy (rw again (rw gone refl))));
      body_length = full ∙ size;
      owned = o2;
    }

-- A GET of an object whose entry names a device of the gateway is answered, and what is held of the pool
-- is what was held before.
pub get_handler-IsOwned :
    (c : Conf) (zmalloc : ℕ → List ℕ) (digest : List ℕ → KeyHash) (F : FlatMap MapEntry)
    (req : HttpRequest) (g : Gateway F) (e : MapEntry) (dev : Device) (h : Held)
    → ((n : ℕ) → length (zmalloc n) ≡ n)
    → 0 < c.block_size
    → IsOwned c g.contexts h
    → is_empty F ((parse_url req.target).1) ≡ false
    → get_object F (compute_sha256 digest ((parse_url req.target).1)) g.objects ≡ some e
    → get_device_by_id F e.first.device_id g ≡ some dev
    → (body : List ℕ) × (g' : Gateway F) × (get_handler F c zmalloc digest req g
        ≡ ok (handle_request (record req { body = body }), g'))
      × (length body ≡ buffer_size_of c)
      × IsOwned c g'.contexts h
      × (g'.objects ≡ g.objects)
      × (g'.devices ≡ g.devices)
      × (g'.dev_hash ≡ g.dev_hash)
unfolding get_handler get_device_by_id answer_entry
get_handler-IsOwned c zmalloc digest F req g e dev h spec pos o named stored there =
    let k = compute_sha256 digest ((parse_url req.target).1) in
    let (b, eq) = add_to_broadcast-cases F k g in
    let g1 : Gateway F = record g { broadcast = b } in
    let a : IsReplied c zmalloc F e g1 h =
      read_entry-IsReplied c zmalloc F e g1 dev h spec pos o there in
    (
      a.body,
      record g1 { contexts = a.contexts; total_counts = (g.total_counts + 1) % u64_mod },
      rw named (rw eq (rw (find_entry-some c F k g1 e stored, answer_entry) (rw a.returns refl))),
      a.body_length,
      a.owned,
      refl,
      refl,
      refl,
    )
