-- ===== src/Http.antt =====
-- The S3 front end: parse_url of src/http_server.cc, and the responses that handle_request and
-- handle_not_found_request of src/include/boost_utils.h build. Text is the list of its character
-- codes. A response is what Boost.Beast is asked to send; its field `Server` is the same for all.
pub mod Url
pub mod Responses
pub mod Listing
pub mod Tests
use zstore.Common.{
  ℕ, ◌≡◌, Bool, true, false, Option, none, some, List, [], ◌∷◌, ◌++◌, ◌==◌, if◌then◌else◌, codes,
}

-- `str.find('/')`: the text before and behind the first slash.
pub split_at_slash : List ℕ → Option (List ℕ × List ℕ)
split_at_slash [] = none
split_at_slash (c ∷ cs) =
    if c == b'/'
    then some ([], cs)
    else elim (split_at_slash cs) [ none ↦ none | some (part1, part2) ↦ some (c ∷ part1, part2) ]

-- The bucket and the object key.
pub parse_url : List ℕ → List ℕ × List ℕ
parse_url [] = ([], [])
parse_url (c ∷ cs) =
    if c == b'/'
    then (elim (split_at_slash cs) [ none ↦ (cs, []) | some parts ↦ parts ])
    else ([], [])

-- `other` stands for the verbs that the server does not know.
pub data Verb : Type 0 where
  head get put post delete other : Verb

pub record HttpRequest : Type 0 where
  pub method : Verb
  pub target : List ℕ
  pub version : ℕ
  pub keep_alive : Bool
  pub body : List ℕ

pub data Status : Type 0 where
  status_ok bad_request not_found : Status

-- The fields are those of the request that every response repeats, and its own.
pub record HttpResponse : Type 0 where
  pub status : Status
  pub version : ℕ
  pub content_type : List ℕ
  pub keep_alive : Bool
  pub body : List ℕ

unfoldable pub respond : HttpRequest → Status → List ℕ → List ℕ → HttpResponse
respond req status content_type body = record {
  status = status;
  version = req.version;
  content_type = content_type;
  keep_alive = req.keep_alive;
  body = body;
}

unfoldable pub handle_request : HttpRequest → HttpResponse
unfolding respond
handle_request req = elim req.method [
  | head ↦ respond req status_ok (codes "text/html") []
  | get ↦ respond req status_ok (codes "object") req.body
  | put ↦ respond req status_ok (codes "object") (codes "PUT Object is done")
  | post ↦ respond req status_ok (codes "object") (codes "POST Object is done")
  | delete ↦ respond req status_ok (codes "object") (codes "Delete Object is done")
  | other ↦ respond req bad_request (codes "text/html") (codes "Unknown HTTP-method")
]

unfoldable pub handle_not_found_request : HttpRequest → HttpResponse
unfolding respond
handle_not_found_request req =
    respond req not_found (codes "text/html")
      (codes "The resource '" ++ (req.target ++ codes "' was not found."))
