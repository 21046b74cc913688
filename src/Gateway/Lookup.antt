-- ===== src/Gateway/Lookup.antt =====
-- What GET of src/http_server.cc answers, and what it leaves behind.

use zstore.Common.{
  ℕ, ◌+◌, ◌%◌, ◌<◌, ◌≡◌, refl, ap, ◌∙◌, true, false, none, some, List, ◌∷◌, length, Result, ok,
  ◌>>=◌, u64_mod, Bool-cases, inl, inr,
}
use zstore.Conf.{Conf}
use zstore.Device.{Device}
use zstore.Hash.{KeyHash, compute_sha256}
use zstore.Http.{HttpRequest, parse_url, handle_request, handle_not_found_request}
use zstore.Pool.{RequestContext, Pool, buffer_size_of, return_request_context, clear_context}
use zstore.Pool.Invariant.{IsPool}
use zstore.Pool.Lending.{IsLent, return_request_context-clear}
use zstore.Pool.Buffers.{AreBuffered, IsBuffered}
use zstore.Store.{MapEntry}
use zstore.Store.Map.{FlatMap, get_object}
use zstore.Request.{make_read_request, zone_read_dummy, assign_body}
use zstore.Request.Making.{make_read_request-lends}
use zstore.Pool.Held.{refill}
use zstore.Request.Lending.{refill-IsPool, refill-IsLent, refill-memory}
use zstore.Request.Answers.{zone_read_lem, assign_body-full}
use zstore.Gateway.{
  Gateway, add_to_broadcast, get_device_by_id, find_entry, answer_entry, on_slot, read_entry,
  is_empty, get_handler, contains,
}

-- The rest of a GET once the read has its context: it succeeds, answers with the buffer, and gives the
-- context back.
record IsAnswered (c : Conf) (zmalloc : ℕ → List ℕ) (F : FlatMap MapEntry) (e : MapEntry)
    (g : Gateway F) : Type 0 where
  body : List ℕ
  contexts : Pool
  returns :
      read_entry F c zmalloc e g
      ≡ ok (body, record g { contexts = contexts; total_counts = (g.total_counts + 1) % u64_mod })
  body_length : length body ≡ buffer_size_of c
  valid : IsPool contexts

pub on_slot-lent :
    (F : FlatMap MapEntry) (s : ℕ) (op : RequestContext → Result RequestContext) (p : Pool)
    (r x : RequestContext)
    → p.memory s ≡ some r
    → op r ≡ ok x
    → on_slot F s op p ≡ ok (x, refill p s x)
unfolding on_slot
on_slot-lent F s op p r x h k = rw (h, on_slot) (rw k refl)

-- The tail of the read, for a context that was lent.
tail-returns :
    (c : Conf) (s : ℕ) (p : Pool) (r : RequestContext)
    → IsPool p
    → IsLent p s
    → p.memory s ≡ some r
    → r.available ≡ false
    → (q : Pool) × ((clear_context s (refill p s r) >>= return_request_context s) ≡ ok q) × IsPool q
tail-returns c s p r v l cell taken =
    let (q, gone, vq, _, _) =
      return_request_context-clear (refill p s r) s (refill-IsPool p s r v l)
        (refill-IsLent p s r l taken) in
    (q, gone, vq)

answer :
    (c : Conf) (zmalloc : ℕ → List ℕ) (F : FlatMap MapEntry) (e : MapEntry) (g : Gateway F) (s : ℕ)
    (p : Pool) (r : RequestContext)
    → make_read_request c zmalloc
        (get_device_by_id F e.first.device_id g)
        e.first.lba
        e.len
        g.contexts
      ≡ ok (s, p)
    → IsPool p
    → IsLent p s
    → p.memory s ≡ some r
    → IsBuffered c r
    → r.has_ctrl ≡ true
    → r.available ≡ false
    → IsAnswered c zmalloc F e g
unfolding read_entry
answer c zmalloc F e g s p r made v l cell (full, size) ctrl taken =
    let x : RequestContext = record r { response_body = r.data_buffer; success = true } in
    let p1 : Pool = refill p s x in
    let (q, gone, vq) =
      tail-returns c s p1 x (refill-IsPool p s x v l) (refill-IsLent p s x l taken)
        (refill-memory p s x) taken in
    let dummy : on_slot F s zone_read_dummy p ≡ ok (x, p1) =
      on_slot-lent F s zone_read_dummy p r x cell
        ((zone_read_lem c r r.data_buffer (full, size) refl ctrl).1) in
    let again : on_slot F s assign_body p1 ≡ ok (x, refill p1 s x) =
      on_slot-lent F s assign_body p1 x x (refill-memory p s x) (assign_body-full x full) in
    let finish : Pool → Result (List ℕ × Gateway F) = λ p4.
      ok (
        r.data_buffer,
        record g { contexts = p4; total_counts = (g.total_counts + 1) % u64_mod },
      ) in
    record {
      body = r.data_buffer;
      contexts = q;
      returns = rw made (rw dummy (rw again (ap (λ m. m >>= finish) gone)));
      body_length = full ∙ size;
      valid = vq;
    }

read_entry-IsAnswered :
    (c : Conf) (zmalloc : ℕ → List ℕ) (F : FlatMap MapEntry) (e : MapEntry) (g : Gateway F)
    (dev : Device)
    → ((n : ℕ) → length (zmalloc n) ≡ n)
    → 0 < c.block_size
    → IsPool g.contexts
    → AreBuffered c g.contexts.memory
    → get_device_by_id F e.first.device_id g ≡ some dev
    → IsAnswered c zmalloc F e g
read_entry-IsAnswered c zmalloc F e g dev spec pos v all there =
    let (s, p, made, v', all', l, r, cell, ctrl, taken, _, _, _, _) =
      make_read_request-lends c zmalloc dev e.first.lba e.len g.contexts v all spec pos in
    answer c zmalloc F e g s p r (rw there made) v' l cell (all' s r cell) ctrl taken

pub add_to_broadcast-cases :
    (F : FlatMap MapEntry) (k : KeyHash) (g : Gateway F)
    → (b : List KeyHash) × (add_to_broadcast F k g ≡ record g { broadcast = b })
unfolding add_to_broadcast
add_to_broadcast-cases F k g = elim (Bool-cases (contains k g.broadcast)) [
  | inl e ↦ (g.broadcast, rw e refl)
  | inr e ↦ (k ∷ g.broadcast, rw e refl)
]

pub find_entry-some :
    (c : Conf) (F : FlatMap MapEntry) (k : KeyHash) (g : Gateway F) (e : MapEntry)
    → get_object F k g.objects ≡ some e
    → find_entry F c k g ≡ some e
unfolding find_entry
find_entry-some c F k g e h = rw (h, find_entry) refl

pub find_entry-none :
    (c : Conf) (F : FlatMap MapEntry) (k : KeyHash) (g : Gateway F)
    → c.experimental ≡ false
    → get_object F k g.objects ≡ none
    → find_entry F c k g ≡ none
unfolding find_entry
find_entry-none c F k g off h = rw (h, find_entry) (rw off refl)

-- A GET of an object whose key has an entry, the first replica of which names a device of the gateway,
-- runs to its end and is answered by handle_request with a body as large as a buffer; the pool that
-- it leaves is valid, and the map of objects is left alone. The conditions: a valid pool whose contexts
-- have their buffers, memory that is as large as asked for, and a block size that is not 0.
pub get_handler-found :
    (c : Conf) (zmalloc : ℕ → List ℕ) (digest : List ℕ → KeyHash) (F : FlatMap MapEntry)
    (req : HttpRequest) (g : Gateway F) (e : MapEntry) (dev : Device)
    → ((n : ℕ) → length (zmalloc n) ≡ n)
    → 0 < c.block_size
    → IsPool g.contexts
    → AreBuffered c g.contexts.memory
    → is_empty F ((parse_url req.target).1) ≡ false
    → get_object F (compute_sha256 digest ((parse_url req.target).1)) g.objects ≡ some e
    → get_device_by_id F e.first.device_id g ≡ some dev
    → (body : List ℕ) × (g' : Gateway F) × (get_handler F c zmalloc digest req g
        ≡ ok (handle_request (record req { body = body }), g'))
      × (length body ≡ buffer_size_of c)
      × IsPool g'.contexts
      × (g'.objects ≡ g.objects)
unfolding get_handler get_device_by_id answer_entry
get_handler-found c zmalloc digest F req g e dev spec pos v all named stored there =
    let k = compute_sha256 digest ((parse_url req.target).1) in
    let (b, eq) = add_to_broadcast-cases F k g in
    let g1 : Gateway F = record g { broadcast = b } in
    let a : IsAnswered c zmalloc F e g1 =
      read_entry-IsAnswered c zmalloc F e g1 dev spec pos v all there in
    (
      a.body,
      record g1 { contexts = a.contexts; total_counts = (g.total_counts + 1) % u64_mod },
      rw named (rw eq (rw (find_entry-some c F k g1 e stored, answer_entry) (rw a.returns refl))),
      a.body_length,
      a.valid,
      refl,
    )

-- Outside experiments, a key without an entry is not found.
pub get_handler-absent :
    (c : Conf) (zmalloc : ℕ → List ℕ) (digest : List ℕ → KeyHash) (F : FlatMap MapEntry)
    (req : HttpRequest) (g : Gateway F)
    → c.experimental ≡ false
    → get_object F (compute_sha256 digest ((parse_url req.target).1)) g.objects ≡ none
    → (g' : Gateway F) × (get_handler F c zmalloc digest req g
        ≡ ok (handle_not_found_request req, g'))
      × (g'.contexts ≡ g.contexts)
      × (g'.objects ≡ g.objects)
unfolding get_handler answer_entry
get_handler-absent c zmalloc digest F req g off gone =
    let k = compute_sha256 digest ((parse_url req.target).1) in
    let (b, eq) = add_to_broadcast-cases F k g in
    elim (Bool-cases (is_empty F ((parse_url req.target).1))) [
      | inl e ↦ (g, rw e refl, refl, refl)
      | inr e ↦ (
        record g { broadcast = b },
        rw e (
            rw eq (
              rw (find_entry-none c F k (record g { broadcast = b }) off gone, answer_entry) refl)),
        refl,
        refl,
      )
    ]
