-- ===== src/Gateway/Session/Listed.antt =====
-- What handle_list_request of src/http_server.cc lists, and what the client gets of it.
use zstore.Common.{
  ℕ, ◌^◌, ◌<◌, ◌≡◌, refl, ap, ◌∙◌, some, List, take, map, lt→ltb, ok, codes, true, ◌>>◌,
}
use zstore.Hash.{hash_to_c_string}
use zstore.Conf.{Conf}
use zstore.Http.{HttpRequest, get, handle_request}
use zstore.Http.Listing.{
  Element, create_s3_list_objects_response, keys_in, skip, children_of,
  keys_in-create_s3_list_objects_response,
}
use zstore.Store.{MapEntry}
use zstore.Store.Map.{FlatMap, list_objects}
use zstore.Store.Map.Laws.{list_objects-take}
use zstore.Gateway.{Gateway}
use zstore.Gateway.Put.{Surroundings}
use zstore.Gateway.Session.{
  awaitable_on_request, contains_text, list_document, handle_list_request, match_list,
}

-- A GET that asks for fewer than 2^31 keys of a bucket: the local document of handle_list_request has, behind
-- five elements about the bucket, the texts of the first so many keys of the whole map, in the order of
-- visit_all; the client gets none of it, but the answer to the request that was moved from, and the
-- gateway stays as it is.
pub handle_list_request-lost :
    (F : FlatMap MapEntry) (c : Conf) (w : Surroundings) (moved : HttpRequest → HttpRequest)
    (raw : MapEntry) (req : HttpRequest) (g : Gateway F) (bucket_name : List ℕ) (n : ℕ)
    → req.method ≡ get
    → contains_text (codes "max-keys=") req.target ≡ true
    → match_list req.target ≡ some (bucket_name, n)
    → n < 2 ^ 31
    → (doc : Element) × (list_document F req g ≡ ok (some doc))
      × (keys_in (skip 5 (children_of doc))
          ≡ map hash_to_c_string (take n (map (λ x. x.0) (F.visit_all g.objects))))
      × (awaitable_on_request F c w moved raw req g ≡ ok (handle_request (moved req), g))
unfolding list_document handle_list_request awaitable_on_request
handle_list_request-lost F c w moved raw req g bucket_name n by_get listing matched few =
    let doc = create_s3_list_objects_response bucket_name n (list_objects F n g.objects) in
    let made : list_document F req g ≡ ok (some doc) =
      rw (matched, list_document) (rw (lt→ltb n (2 ^ 31) few) refl) in
    let listed : awaitable_on_request F c w moved raw req g
        ≡ (handle_list_request F req g >> ok (handle_request (moved req), g)) =
      simp (by_get, listing, awaitable_on_request) in
    (
      doc,
      made,
      keys_in-create_s3_list_objects_response bucket_name n (list_objects F n g.objects)
          ∙ ap (map hash_to_c_string) ((list_objects-take F n g.objects).0),
      listed ∙ rw made refl,
    )
