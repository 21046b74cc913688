-- ===== src/Gateway/Session.antt =====
-- The choice of the handler at the end of awaitable_on_request, handle_list_request, and the loop of
-- do_session (src/http_server.cc). `moved` is what a request holds once it has been moved from.
pub mod Served
pub mod Loop
pub mod Listed
pub mod Dispatched
pub mod Tests
use mathlib.Core.Option
use zstore.Common.{
  ℕ, suc, ◌+◌, ◌-◌, ◌*◌, ◌^◌, Bool, true, false, not, ◌&&◌, Option, none, some, List, [], ◌∷◌, ltb,
  leb, ◌==◌, if◌then◌else◌, codes, Result, ok, err, exception, guard, ◌>>=◌, ◌>>◌,
}
use zstore.Conf.{Conf}
use zstore.Http.Listing.{Element, create_s3_list_objects_response}
use zstore.Http.{HttpRequest, HttpResponse, get, put, post, delete, head, other, handle_request}
use zstore.Store.{MapEntry}
use zstore.Store.Map.{FlatMap, list_objects}
use zstore.Gateway.{Gateway, get_handler, delete_handler}
use zstore.Gateway.Chunked.{get_large_handler}
use zstore.Gateway.Put.{Surroundings, put_handler}

-- What follows a prefix.
pub after : List ℕ → List ℕ → Option (List ℕ)
after [] cs = some cs
after (p ∷ ps) [] = none
after (p ∷ ps) (c ∷ cs) = if p == c then after ps cs else none

-- `url.contains(text)`
unfoldable pub contains_text : List ℕ → List ℕ → Bool
unfolding after
contains_text text [] = elim (after text []) [ none ↦ false | some rest ↦ true ]
contains_text text (c ∷ cs) =
    let later = contains_text text cs in
    elim (after text (c ∷ cs)) [ none ↦ later | some rest ↦ true ]

-- `[^?]+` and what follows it.
pub split_at_mark : List ℕ → List ℕ × List ℕ
split_at_mark [] = ([], [])
split_at_mark (c ∷ cs) =
    let (front, rest) = split_at_mark cs in if c == b'?' then ([], c ∷ cs) else (c ∷ front, rest)

-- `\d+` up to the end of the text, and the number that it is.
pub digits_value : ℕ → List ℕ → Option ℕ
digits_value n [] = some n
digits_value n (c ∷ cs) =
    let rest = digits_value (n * 10 + (c - b'0')) cs in
    if leb b'0' c && leb c b'9' then rest else none

pub some_digits : List ℕ → Option ℕ
unfolding digits_value
some_digits [] = none
some_digits (c ∷ cs) = digits_value 0 (c ∷ cs)

-- The number behind a bucket that is not empty.
pub named_list : List ℕ × List ℕ → Option (List ℕ × ℕ)
unfolding after some_digits
named_list ([], rest) = none
named_list (c ∷ cs, rest) = elim (after (codes "?max-keys=") rest) [
  | none ↦ none
  | some number ↦ Option.map (λ n. (c ∷ cs, n)) (some_digits number)
]

-- The match of the pattern `^\/([^?]+)\?max-keys=(\d+)`: the bucket and the number.
pub match_list : List ℕ → Option (List ℕ × ℕ)
unfolding split_at_mark after named_list
match_list target = elim (after (codes "/") target) [
  | none ↦ none
  | some rest ↦ named_list (split_at_mark rest)
]

-- The local document of handle_list_request. `std::stoi` throws where the number has more than 31 bits.
unfoldable pub list_document :
    (F : FlatMap MapEntry) → HttpRequest → Gateway F → Result (Option Element)
unfolding match_list
list_document F req g = elim (match_list req.target) [
  | none ↦ ok none
  | some (bucket_name, max_keys) ↦
      if ltb max_keys (2 ^ 31)
      then ok (
          some (
            create_s3_list_objects_response bucket_name max_keys
              (list_objects F max_keys g.objects)))
      else err exception
]

-- The document is printed into the body of the request, which is a copy and lost: nothing is returned.
unfoldable pub handle_list_request :
    (F : FlatMap MapEntry) → HttpRequest → Gateway F → Result (Unit {0})
unfolding list_document
handle_list_request F req g = list_document F req g >>= λ doc. ok tt

-- `raw` is what a local MapEntry holds before it is set.
unfoldable pub awaitable_on_request :
    (F : FlatMap MapEntry)
    → Conf
    → Surroundings
    → (HttpRequest → HttpRequest)
    → MapEntry
    → HttpRequest
    → Gateway F
    → Result (HttpResponse × Gateway F)
unfolding handle_list_request contains_text
awaitable_on_request F c w moved raw req g = elim req.method [
  | get ↦
      if contains_text (codes "max-keys=") req.target
      then (handle_list_request F req g >> ok (handle_request (moved req), g))
      else if ltb c.chunk_size c.object_size
      then get_large_handler F c w.zmalloc w.filled w.string_object w.digest req g
      else get_handler F c w.zmalloc w.digest req g
  | put ↦ put_handler F c w req g
  | post ↦ put_handler F c w req g
  | delete ↦ ok (delete_handler F raw w.digest req g)
  | head ↦ ok (handle_request req, g)
  | other ↦ ok (handle_request req, g)
]

-- The requests that one client sends, each with what memory and SPDK do in its course. An exception, which
-- the code catches to end the session, is the result here. The loop ends with a response that does not
-- keep the connection alive, or with the client.
pub do_session :
    (F : FlatMap MapEntry)
    → Conf
    → (HttpRequest → HttpRequest)
    → MapEntry
    → List (Surroundings × HttpRequest)
    → Gateway F
    → Result (List HttpResponse × Gateway F)
unfolding awaitable_on_request
do_session F c moved raw [] g = ok ([], g)
do_session F c moved raw ((w, req) ∷ rest) g =
    awaitable_on_request F c w moved raw req g >>= λ (msg, g').
    let more = do_session F c moved raw rest g' in
    if msg.keep_alive then (more >>= λ (msgs, g''). ok (msg ∷ msgs, g'')) else ok (msg ∷ [], g')
