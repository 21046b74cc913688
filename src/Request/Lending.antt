-- ===== src/Request/Lending.antt =====
-- A context stays lent while its holder fills it in: what the requests of src/common.cc share.
use zstore.Common.{length, ℕ, ◌≡◌, refl, true, false, some, List, arith, ==_refl, ok}
use zstore.Conf.{Conf}
use zstore.Pool.{RequestContext, Pool, get_request_context}
use zstore.Pool.Invariant.{IsPool, AreFree-write}
use zstore.Pool.Lending.{IsLent, get_request_context-lends}
use zstore.Pool.Buffers.{AreBuffered, get_request_context-AreBuffered}
use zstore.Pool.Held.{refill}
use zstore.Request.{get_slot}

pub refill-memory : (p : Pool) (s : ℕ) (r : RequestContext) → (refill p s r).memory s ≡ some r
refill-memory p s r = rw (==_refl s) refl

pub refill-IsPool :
    (p : Pool) (s : ℕ) (r : RequestContext) → IsPool p → IsLent p s → IsPool (refill p s r)
refill-IsPool p s r v l = record {
  free = AreFree-write p.memory p.capacity s (some r) p.available l.unlisted v.free;
  array_below = v.array_below;
  unused = λ t h. ground (arith, v.unused t, l.known);
}

pub refill-IsLent :
    (p : Pool) (s : ℕ) (r : RequestContext)
    → IsLent p s
    → r.available ≡ false
    → IsLent (refill p s r) s
refill-IsLent p s r l e = record {
  context = r;
  alive = rw (==_refl s) refl;
  taken = e;
  unlisted = l.unlisted;
  known = l.known;
}

pub get_slot-lends :
    (c : Conf) (zmalloc : ℕ → List ℕ) (p : Pool)
    → IsPool p
    → (s : ℕ) × (q : Pool) × (get_slot c zmalloc p ≡ ok (s, q))
      × IsPool q
      × IsLent q s
      × (((n : ℕ) → length (zmalloc n) ≡ n) → AreBuffered c p.memory → AreBuffered c q.memory)
get_slot-lends c zmalloc p v =
    let (s, e, v', l) = get_request_context-lends c zmalloc p v in
    (
      s,
      (get_request_context c zmalloc true p).1,
      unfold get_slot in rw (e, get_slot) refl,
      v',
      l,
      λ spec h. get_request_context-AreBuffered c zmalloc p spec h,
    )
