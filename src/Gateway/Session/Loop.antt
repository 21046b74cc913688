-- ===== src/Gateway/Session/Loop.antt =====
-- The choice of the handler and the loop of do_session (src/http_server.cc): every request is answered.
use zstore.Common.{
  ℕ, ◌^◌, ◌<◌, ◌≡◌, ◌⊎◌, refl, ap, sym, ◌∙◌, true, false, none, some, List, [], ◌∷◌, All, ok, arith,
  ◌>>◌, ◌>>=◌, if◌then◌else◌, Bool-cases, Option-cases, inl, inr, codes, lt→ltb, le→ltb_false,
}
use zstore.Conf.{Conf}
use zstore.Hash.{KeyHash, compute_sha256, key_eq}
use zstore.Http.{
  Verb, HttpRequest, HttpResponse, get, put, post, delete, head, other, parse_url, handle_request,
}
use zstore.Store.{MapEntry}
use zstore.Store.Map.{FlatMap, get_object}
use zstore.Store.Map.Laws.{get_object-delete_object_any}
use zstore.Gateway.{Gateway, delete_handler}
use zstore.Gateway.Put.{Surroundings}
use zstore.Gateway.Put.Conditions.{IsSized, IsSurroundings}
use zstore.Gateway.Session.{
  awaitable_on_request, do_session, handle_list_request, list_document, match_list, contains_text,
}
use zstore.Gateway.Session.Served.{IsServing, IsServed, get_handler-IsServed, put_handler-IsServed}

delete_handler-IsServing :
    (c : Conf) (F : FlatMap MapEntry) (raw : MapEntry) (digest : List ℕ → KeyHash)
    (req : HttpRequest) (g : Gateway F)
    → IsServing c F g
    → IsServing c F (delete_handler F raw digest req g).1
unfolding delete_handler
delete_handler-IsServing c F raw digest req g s =
    let k = compute_sha256 digest ((parse_url req.target).1) in
    record {
      ready = record { idle = s.ready.idle; six = s.ready.six; hash = s.ready.hash };
      known = λ j e there.
          (let left : (if key_eq k j then none else get_object F j g.objects) ≡ some e =
              sym (get_object-delete_object_any F raw k j g.objects) ∙ there in
            s.known j e (ground arith));
    }

-- A request whose listing, if it asks for one, is of fewer keys than an `int` can count.
unfoldable pub IsListable : HttpRequest → Type 0
IsListable req = (bucket : List ℕ) (n : ℕ) → match_list req.target ≡ some (bucket, n) → n < 2 ^ 31

list_request-IsServed :
    (c : Conf) (F : FlatMap MapEntry) (moved : HttpRequest → HttpRequest) (req : HttpRequest)
    (g : Gateway F)
    → IsListable req
    → IsServing c F g
    → IsServed c F (handle_list_request F req g >> ok (handle_request (moved req), g))
unfolding handle_list_request list_document IsListable
list_request-IsServed c F moved req g fits s = elim (Option-cases (match_list req.target)) [
  | inl n ↦ (handle_request (moved req), g, rw (n, list_document) refl, s)
  | inr ((bucket, n), e) ↦ (
    handle_request (moved req),
    g,
    rw (e, list_document) (rw (lt→ltb n (2 ^ 31) (fits bucket n e)) refl),
    s,
  )
]

awaitable_on_request-IsServed :
    (c : Conf) (w : Surroundings) (F : FlatMap MapEntry) (moved : HttpRequest → HttpRequest)
    (raw : MapEntry) (method : Verb) (req : HttpRequest) (g : Gateway F)
    → IsSized c
    → IsSurroundings c w
    → IsListable req
    → IsServing c F g
    → req.method ≡ method
    → IsServed c F (awaitable_on_request F c w moved raw req g)
unfolding awaitable_on_request
awaitable_on_request-IsServed c w F moved raw get req g sized around fits s e =
    elim (Bool-cases (contains_text (codes "max-keys=") req.target)) [
      | inl l ↦ rw (e, awaitable_on_request) (rw l (list_request-IsServed c F moved req g fits s))
      | inr l ↦
          rw (e, awaitable_on_request)
            (rw l (
              rw (le→ltb_false c.chunk_size c.object_size sized.one_chunk)
                (get_handler-IsServed c w.zmalloc w.digest F req g sized around.zmalloc_length s)))
    ]
awaitable_on_request-IsServed c w F moved raw put req g sized around fits s e =
    rw (e, awaitable_on_request) (put_handler-IsServed c w F req g sized around s)
awaitable_on_request-IsServed c w F moved raw post req g sized around fits s e =
    rw (e, awaitable_on_request) (put_handler-IsServed c w F req g sized around s)
awaitable_on_request-IsServed c w F moved raw delete req g sized around fits s e =
    rw (e, awaitable_on_request)
      (
        (delete_handler F raw w.digest req g).0,
        (delete_handler F raw w.digest req g).1,
        refl,
        delete_handler-IsServing c F raw w.digest req g s,
      )
awaitable_on_request-IsServed c w F moved raw head req g sized around fits s e =
    rw (e, awaitable_on_request) (handle_request req, g, refl, s)
awaitable_on_request-IsServed c w F moved raw other req g sized around fits s e =
    rw (e, awaitable_on_request) (handle_request req, g, refl, s)

-- As many responses as requests, or fewer where the last one does not keep the connection alive.
pub IsAnswering : List HttpResponse → List (Surroundings × HttpRequest) → Type 0
IsAnswering [] [] = Unit
IsAnswering [] (x ∷ reqs) = ⊥
IsAnswering (msg ∷ msgs) [] = ⊥
IsAnswering (msg ∷ msgs) (x ∷ reqs) =
    ((msg.keep_alive ≡ true) × IsAnswering msgs reqs) ⊎ ((msg.keep_alive ≡ false) × (msgs ≡ []))

-- A client's requests, in order, to a gateway that serves are all answered, up to the first response that
-- does not keep the connection alive, and the gateway serves again after them: no context is in use, and
-- the first device of every entry is one of its devices. The conditions: the sizes fit, the memory is
-- there for each request, and no listing asks for 2^31 keys or more.
pub do_session-IsServing :
    (c : Conf) (F : FlatMap MapEntry) (moved : HttpRequest → HttpRequest) (raw : MapEntry)
    (reqs : List (Surroundings × HttpRequest)) (g : Gateway F)
    → IsSized c
    → All (λ x. IsSurroundings c x.0 × IsListable x.1) reqs
    → IsServing c F g
    → (msgs : List HttpResponse) × (g' : Gateway F) × (do_session F c moved raw reqs g
        ≡ ok (msgs, g'))
      × IsAnswering msgs reqs
      × IsServing c F g'
unfolding do_session IsAnswering
do_session-IsServing c F moved raw [] g sized all s = ([], g, refl, tt, s)
do_session-IsServing c F moved raw ((w, req) ∷ rest) g sized ((around, fits), all) s =
    let (msg, g1, answered, s1) =
      awaitable_on_request-IsServed c w F moved raw req.method req g sized around fits s refl in
    elim (Bool-cases msg.keep_alive) [
      | inl e ↦
          (let (msgs, g2, more, count, s2) =
              do_session-IsServing c F moved raw rest g1 sized all s1 in
            (
              msg ∷ msgs,
              g2,
              rw answered (
                  ap
                    (λ b.
                      if b
                      then (do_session F c moved raw rest g1 >>= λ (ms, g''). ok (msg ∷ ms, g''))
                      else ok (msg ∷ [], g1))
                    e
                  ∙ rw more refl),
              inl (e, count),
              s2,
            ))
      | inr e ↦ (
        msg ∷ [],
        g1,
        rw answered (
            ap
              (λ b.
                if b
                then (do_session F c moved raw rest g1 >>= λ (ms, g''). ok (msg ∷ ms, g''))
                else ok (msg ∷ [], g1))
              e),
        inr (e, refl),
        s1,
      )
    ]
