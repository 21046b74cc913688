-- ===== src/Gateway/Overlap/Methods.antt =====
-- The first half of every request of src/http_server.cc, by its method.
use zstore.Common.{
  ◌≤◌, ◌≡◌, ◌⊎◌, inl, inr, refl, ap, sym, ◌∙◌, true, false, Bool-cases, none, some, Option-cases,
  List, length, le→ltb_false, lt→ltb, if◌then◌else◌, codes, Result, ok, ◌>>◌, ◌^◌, arith,
}
use zstore.Conf.{Conf}
use zstore.Device.{Device}
use zstore.Hash.{compute_sha256, key_eq}
use zstore.Http.{
  Verb, HttpRequest, HttpResponse, status_ok, get, put, post, delete, head, other, parse_url,
  respond, handle_request,
}
use zstore.Pool.Held.{Held}
use zstore.Store.{MapEntry}
use zstore.Store.Map.{FlatMap, get_object}
use zstore.Store.Map.Laws.{get_object-delete_object_any}
use zstore.Gateway.{Gateway, is_empty, delete_handler}
use zstore.Gateway.Lookup.{add_to_broadcast-cases}
use zstore.Gateway.Put.{Surroundings}
use zstore.Gateway.Put.Conditions.{IsSized, IsSurroundings}
use zstore.Gateway.Session.{contains_text, handle_list_request, list_document, match_list}
use zstore.Gateway.Session.Loop.{IsListable}
use zstore.Gateway.Overlap.{Outcome, answered, begin, begin_get, begin_put}
use zstore.Gateway.Overlap.Atomic.{View, view, store, atomic}
use zstore.Gateway.Overlap.Begun.{IsBusy, IsBegun, owned-IsBusy}
use zstore.Gateway.Overlap.Begun.Reading.{get-IsBegun}
use zstore.Gateway.Overlap.Begun.Writing.{write-IsBegun}

module _ (F : FlatMap MapEntry) (c : Conf) (devices : List Device)
    (moved : HttpRequest → HttpRequest) (raw : MapEntry) (w : Surroundings) (held : Held)
    (sized : IsSized c) (around : IsSurroundings c w) (six : 6 ≤ length devices) where
  put-IsBegun :
      (req : HttpRequest) (g : Gateway F)
      → IsBusy c F devices held g
      → ((m : View)
          → atomic F c devices moved (w, req) m ≡ (status_ok, store F c devices moved w req m))
      → (handle_request req).status ≡ status_ok
      → IsBegun F c devices moved w req held g (begin_put F c w req g)
  unfolding begin_put IsBegun
  put-IsBegun req g b stores status =
      let k = compute_sha256 w.digest ((parse_url req.target).1) in
      let (bc, eq) = add_to_broadcast-cases F k g in
      let g1 : Gateway F = record g { broadcast = bc } in
      let b1 : IsBusy c F devices held g1 =
        owned-IsBusy F c devices moved held held g g1 b b.owned refl refl refl in
      elim (Bool-cases (is_empty F ((parse_url req.target).1))) [
        | inl e ↦ inl (record {
          msg = handle_request req;
          after = g;
          returns = rw e refl;
          busy = b;
          same_status = status ∙ sym (ap (λ x. x.0) (stores (view F g)));
          same_view = λ j. sym (ap (λ x. x.1 j) (stores (view F g)) ∙ rw e refl);
        })
        | inr e ↦ rw e (
            rw eq (
              inr (
                inr (
                  write-IsBegun F c devices moved w held sized around six k req g g1 refl b1
                    (λ v. stores v ∙ rw e refl) status))))
      ]

  -- A response that leaves the gateway alone.
  unchanged-IsBegun :
      (req : HttpRequest) (g : Gateway F) (msg : HttpResponse)
      (result : Result (Outcome × Gateway F))
      → IsBusy c F devices held g
      → result ≡ ok (answered msg, g)
      → ((m : View) → atomic F c devices moved (w, req) m ≡ (msg.status, m))
      → IsBegun F c devices moved w req held g result
  unfolding IsBegun
  unchanged-IsBegun req g msg result b returns same = inl (record {
    msg = msg;
    after = g;
    returns = returns;
    busy = b;
    same_status = sym (ap (λ x. x.0) (same (view F g)));
    same_view = λ j. sym (ap (λ x. x.1 j) (same (view F g)));
  })

  begin-list :
      (req : HttpRequest) (g : Gateway F)
      → req.method ≡ get
      → contains_text (codes "max-keys=") req.target ≡ true
      → begin F c w moved raw req g
        ≡ (handle_list_request F req g >> ok (answered (handle_request (moved req)), g))
  unfolding begin
  begin-list req g e listing = simp (e, listing, begin)

  begin-get :
      (req : HttpRequest) (g : Gateway F)
      → req.method ≡ get
      → contains_text (codes "max-keys=") req.target ≡ false
      → begin F c w moved raw req g ≡ begin_get F c w req g
  unfolding begin
  begin-get req g e plain =
      simp (e, plain, le→ltb_false c.chunk_size c.object_size sized.one_chunk, begin)

  begin-put :
      (req : HttpRequest) (g : Gateway F)
      → (req.method ≡ put) ⊎ (req.method ≡ post)
      → begin F c w moved raw req g ≡ begin_put F c w req g
  unfolding begin
  begin-put req g (inl e) = simp (e, le→ltb_false c.chunk_size c.object_size sized.one_chunk, begin)
  begin-put req g (inr e) = simp (e, le→ltb_false c.chunk_size c.object_size sized.one_chunk, begin)

  list-IsBegun :
      (req : HttpRequest) (g : Gateway F)
      → req.method ≡ get
      → contains_text (codes "max-keys=") req.target ≡ true
      → IsListable req
      → IsBusy c F devices held g
      → IsBegun F c devices moved w req held g (begin F c w moved raw req g)
  unfolding IsListable handle_list_request list_document atomic
  list-IsBegun req g method listing fits b =
      unchanged-IsBegun req g (handle_request (moved req)) _ b
        (begin-list req g method listing ∙ elim (Option-cases (match_list req.target)) [
          | inl n ↦ rw (n, list_document) refl
          | inr ((bucket, n), e) ↦
              rw (e, list_document) (rw (lt→ltb n (2 ^ 31) (fits bucket n e)) refl)
        ])
        (λ m. simp (method, listing, atomic))

  begin-delete :
      (req : HttpRequest) (g : Gateway F)
      → req.method ≡ delete
      → begin F c w moved raw req g
        ≡ ok (
          answered (delete_handler F raw w.digest req g).0,
          (delete_handler F raw w.digest req g).1,
        )
  unfolding begin
  begin-delete req g e = simp (e, begin)

  begin-head :
      (req : HttpRequest) (g : Gateway F)
      → req.method ≡ head
      → begin F c w moved raw req g ≡ ok (answered (handle_request req), g)
  unfolding begin
  begin-head req g e = simp (e, begin)

  begin-other :
      (req : HttpRequest) (g : Gateway F)
      → req.method ≡ other
      → begin F c w moved raw req g ≡ ok (answered (handle_request req), g)
  unfolding begin
  begin-other req g e = simp (e, begin)

  delete-IsBegun :
      (req : HttpRequest) (g : Gateway F)
      → req.method ≡ delete
      → IsBusy c F devices held g
      → IsBegun F c devices moved w req held g (begin F c w moved raw req g)
  unfolding begin IsBegun delete_handler atomic handle_request respond
  delete-IsBegun req g method b = inl (record {
    msg = (delete_handler F raw w.digest req g).0;
    after = (delete_handler F raw w.digest req g).1;
    returns = begin-delete req g method;
    busy = record {
      owned = b.owned;
      same_devices = b.same_devices;
      hash = b.hash;
      known = λ j e there.
          (let k = compute_sha256 w.digest ((parse_url req.target).1) in
            let left : (if key_eq k j then none else get_object F j g.objects) ≡ some e =
              sym (get_object-delete_object_any F raw k j g.objects) ∙ there in
            b.known j e (ground arith));
    };
    same_status = rw (method, handle_request, atomic) refl;
    same_view = λ j.
        rw (method, atomic)
          (get_object-delete_object_any F raw (compute_sha256 w.digest ((parse_url req.target).1)) j
            g.objects);
  })

  by_method :
      (method : Verb) (req : HttpRequest) (g : Gateway F)
      → req.method ≡ method
      → IsListable req
      → IsBusy c F devices held g
      → IsBegun F c devices moved w req held g (begin F c w moved raw req g)
  unfolding atomic handle_request respond
  by_method get req g e fits b = elim (Bool-cases (contains_text (codes "max-keys=") req.target)) [
    | inl l ↦ list-IsBegun req g e l fits b
    | inr l ↦
        rw (begin-get req g e l) (get-IsBegun F c devices moved w held sized around six req g e l b)
  ]
  by_method put req g e fits b =
      rw (begin-put req g (inl e))
        (put-IsBegun req g b (λ m. rw (e, atomic) refl) (rw (e, handle_request) refl))
  by_method post req g e fits b =
      rw (begin-put req g (inr e))
        (put-IsBegun req g b (λ m. rw (e, atomic) refl) (rw (e, handle_request) refl))
  by_method delete req g e fits b = delete-IsBegun req g e b
  by_method head req g e fits b =
      unchanged-IsBegun req g (handle_request req) _ b (begin-head req g e)
        (λ m. rw (e, atomic, handle_request) refl)
  by_method other req g e fits b =
      unchanged-IsBegun req g (handle_request req) _ b (begin-other req g e)
        (λ m. rw (e, atomic, handle_request) refl)

  -- The first half of a request does not stop, whoever waits, and does to the entries what the request
  -- does at one moment, or leaves that for its second half.
  pub begin-IsBegun :
      (req : HttpRequest) (g : Gateway F)
      → IsListable req
      → IsBusy c F devices held g
      → IsBegun F c devices moved w req held g (begin F c w moved raw req g)
  begin-IsBegun req g fits b = by_method req.method req g refl fits b
