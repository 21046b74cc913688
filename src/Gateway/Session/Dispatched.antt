-- ===== src/Gateway/Session/Dispatched.antt =====
-- What a client gets from awaitable_on_request of src/http_server.cc: the choice of the handler, and a GET
-- after a PUT or a DELETE of the same target.
use zstore.Common.{
  ℕ, ◌≡◌, ◌⊎◌, inl, inr, refl, ◌∙◌, Bool-cases, false, none, List, length, ltb, le→ltb_false,
  lt→ltb, ◌<◌, codes, ok, if◌then◌else◌, ◌≤◌,
}
use zstore.Conf.{Conf}
use zstore.Hash.{compute_sha256}
use zstore.Http.{
  HttpRequest, get, put, post, delete, parse_url, handle_request, handle_not_found_request,
}
use zstore.Pool.{buffer_size_of}
use zstore.Store.{MapEntry}
use zstore.Store.Map.{FlatMap, get_object}
use zstore.Store.Map.Laws.{get_object-delete_object}
use zstore.Gateway.{Gateway, is_empty, get_handler, delete_handler}
use zstore.Gateway.Chunked.{get_large_handler, answer_large}
use zstore.Gateway.Lookup.{get_handler-absent, find_entry-none, add_to_broadcast-cases}
use zstore.Gateway.Put.{Surroundings, put_handler}
use zstore.Gateway.Put.Conditions.{IsSized, IsSurroundings, IsReady}
use zstore.Gateway.Put.Stored.{get_handler-put_handler}
use zstore.Gateway.Session.{awaitable_on_request, contains_text}

-- A GET that asks for no listing.
pub record IsLookup (req : HttpRequest) : Type 0 where
  pub by_get : req.method ≡ get
  pub no_listing : contains_text (codes "max-keys=") req.target ≡ false

module _ (F : FlatMap MapEntry) (c : Conf) (w : Surroundings) (moved : HttpRequest → HttpRequest)
    (raw : MapEntry) where
  awaitable_on_request-sizes :
      (req : HttpRequest) (g : Gateway F)
      → IsLookup req
      → awaitable_on_request F c w moved raw req g ≡ (
          if ltb c.chunk_size c.object_size
          then get_large_handler F c w.zmalloc w.filled w.string_object w.digest req g
          else get_handler F c w.zmalloc w.digest req g)
  unfolding awaitable_on_request
  awaitable_on_request-sizes req g l = simp (l.by_get, l.no_listing, awaitable_on_request)

  pub awaitable_on_request-large :
      (req : HttpRequest) (g : Gateway F)
      → IsLookup req
      → c.chunk_size < c.object_size
      → awaitable_on_request F c w moved raw req g
        ≡ get_large_handler F c w.zmalloc w.filled w.string_object w.digest req g
  awaitable_on_request-large req g l large =
      awaitable_on_request-sizes req g l ∙ rw (lt→ltb c.chunk_size c.object_size large) refl

  pub awaitable_on_request-get :
      (req : HttpRequest) (g : Gateway F)
      → IsLookup req
      → c.object_size ≤ c.chunk_size
      → awaitable_on_request F c w moved raw req g ≡ get_handler F c w.zmalloc w.digest req g
  awaitable_on_request-get req g l small =
      awaitable_on_request-sizes req g l ∙ rw (le→ltb_false c.chunk_size c.object_size small) refl

  awaitable_on_request-put :
      (req : HttpRequest) (g : Gateway F)
      → (req.method ≡ put) ⊎ (req.method ≡ post)
      → awaitable_on_request F c w moved raw req g ≡ put_handler F c w req g
  unfolding awaitable_on_request
  awaitable_on_request-put req g (inl e) = simp (e, awaitable_on_request)
  awaitable_on_request-put req g (inr e) = simp (e, awaitable_on_request)

  awaitable_on_request-delete :
      (req : HttpRequest) (g : Gateway F)
      → req.method ≡ delete
      → awaitable_on_request F c w moved raw req g ≡ ok (delete_handler F raw w.digest req g)
  unfolding awaitable_on_request
  awaitable_on_request-delete req g e = simp (e, awaitable_on_request)

  get_large_handler-absent :
      (req : HttpRequest) (g : Gateway F)
      → c.experimental ≡ false
      → get_object F (compute_sha256 w.digest ((parse_url req.target).1)) g.objects ≡ none
      → (g' : Gateway F) × (get_large_handler F c w.zmalloc w.filled w.string_object w.digest req g
          ≡ ok (handle_not_found_request req, g'))
        × (g'.contexts ≡ g.contexts)
        × (g'.objects ≡ g.objects)
  unfolding get_large_handler answer_large
  get_large_handler-absent req g off gone =
      let k = compute_sha256 w.digest ((parse_url req.target).1) in
      let (b, eq) = add_to_broadcast-cases F k g in
      elim (Bool-cases (is_empty F ((parse_url req.target).1))) [
        | inl e ↦ (g, rw e refl, refl, refl)
        | inr e ↦ (
          record g { broadcast = b },
          rw e (
              rw eq (
                rw (find_entry-none c F k (record g { broadcast = b }) off gone, answer_large)
                  refl)),
          refl,
          refl,
        )
      ]

  -- Outside experiments, a GET of a key without an entry, of whatever size the objects are.
  pub awaitable_on_request-absent :
      (req : HttpRequest) (g : Gateway F)
      → IsLookup req
      → c.experimental ≡ false
      → get_object F (compute_sha256 w.digest ((parse_url req.target).1)) g.objects ≡ none
      → (g' : Gateway F) × (awaitable_on_request F c w moved raw req g
          ≡ ok (handle_not_found_request req, g'))
        × (g'.contexts ≡ g.contexts)
        × (g'.objects ≡ g.objects)
  awaitable_on_request-absent req g l off gone =
      elim (Bool-cases (ltb c.chunk_size c.object_size)) [
        | inl large ↦
            (let (g', got, same, kept) = get_large_handler-absent req g off gone in
              (g', awaitable_on_request-sizes req g l ∙ rw large got, same, kept))
        | inr small ↦
            (let (g', got, same, kept) = get_handler-absent c w.zmalloc w.digest F req g off gone in
              (g', awaitable_on_request-sizes req g l ∙ rw small got, same, kept))
      ]

  -- A GET that asks for no listing and follows a PUT or POST of the same target, which has a key, finds the
  -- object, for a gateway with no context in use and the six devices: it is answered by handle_request with a
  -- body as large as a buffer, it changes no entry, and again no context is in use. The conditions: the sizes
  -- fit, so no object is larger than a chunk, and the memory is there.
  pub read_after_put :
      (upload req : HttpRequest) (g : Gateway F)
      → IsSized c
      → IsSurroundings c w
      → IsReady c F g
      → (upload.method ≡ put) ⊎ (upload.method ≡ post)
      → IsLookup req
      → is_empty F ((parse_url req.target).1) ≡ false
      → upload.target ≡ req.target
      → (g1 : Gateway F) × (body : List ℕ) × (g2 : Gateway F) × (awaitable_on_request F c w moved
            raw upload g
          ≡ ok (handle_request upload, g1))
        × (awaitable_on_request F c w moved raw req g1
            ≡ ok (handle_request (record req { body = body }), g2))
        × (length body ≡ buffer_size_of c)
        × (g2.objects ≡ g1.objects)
        × IsReady c F g2
  read_after_put upload req g sized around ready puts l named same =
      let (g1, body, g2, put_ok, got, size, kept, ready2) =
        get_handler-put_handler c w F upload req g sized around ready named same in
      (
        g1,
        body,
        g2,
        awaitable_on_request-put upload g puts ∙ put_ok,
        awaitable_on_request-get req g1 l sized.one_chunk ∙ got,
        size,
        kept,
        ready2,
      )

  -- Outside experiments, a GET that asks for no listing and follows a DELETE of the same target by the same
  -- gateway is answered with Not Found and leaves the contexts and the map alone.
  pub read_after_delete :
      (deletion req : HttpRequest) (g : Gateway F)
      → c.experimental ≡ false
      → deletion.method ≡ delete
      → IsLookup req
      → deletion.target ≡ req.target
      → (g1 g2 : Gateway F) × (awaitable_on_request F c w moved raw deletion g
          ≡ ok (handle_request deletion, g1))
        × (awaitable_on_request F c w moved raw req g1 ≡ ok (handle_not_found_request req, g2))
        × (g1.contexts ≡ g.contexts)
        × (g2.contexts ≡ g1.contexts)
        × (g2.objects ≡ g1.objects)
  unfolding delete_handler
  read_after_delete deletion req g off deletes l same =
      let k = compute_sha256 w.digest ((parse_url req.target).1) in
      let g1 = (delete_handler F raw w.digest deletion g).1 in
      let (g2, got, contexts, objects) =
        awaitable_on_request-absent req g1 l off
          (rw same (get_object-delete_object F raw k g.objects)) in
      (g1, g2, awaitable_on_request-delete deletion g deletes, got, refl, contexts, objects)
