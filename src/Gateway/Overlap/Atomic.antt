-- ===== src/Gateway/Overlap/Atomic.antt =====
-- What the requests of src/http_server.cc are to a client: each one looks at the entries of all keys, or
-- changes them, at one moment.
use zstore.Common.{
  Option, none, some, List, [], ◌∷◌, get_elem?, if◌then◌else◌, codes, Result, ok, err, ◌>>=◌,
}
use zstore.Conf.{Conf}
use zstore.Device.{Device}
use zstore.Hash.{KeyHash, compute_sha256, key_eq}
use zstore.Http.{
  HttpRequest, Status, status_ok, not_found, bad_request, get, put, post, delete, head, other,
  parse_url, handle_request,
}
use zstore.Request.{deref}
use zstore.Store.{MapEntry, DevTuple}
use zstore.Store.Map.{FlatMap, get_object}
use zstore.Store.DevHash.{populate_dev_hash, get_dev_tuple, get_dev_tuple_for_random_reads}
use zstore.Gateway.{Gateway, is_empty}
use zstore.Gateway.Put.{Surroundings, written_entry}
use zstore.Gateway.Put.Conditions.{append_lbas}
use zstore.Gateway.Session.{contains_text}

-- The entries of all keys.
abbrev pub View : Type 0
View = KeyHash → Option MapEntry

abbrev pub view : (F : FlatMap MapEntry) → Gateway F → View
view F g k = get_object F k g.objects

abbrev pub set : KeyHash → Option MapEntry → View → View
set k o m j = if key_eq k j then o else m j

abbrev pub chosen_tuple : Conf → Surroundings → List DevTuple → KeyHash → Result DevTuple
chosen_tuple c w hash k =
    if c.experimental then ok (get_dev_tuple_for_random_reads c) else get_dev_tuple w.rand hash k

unfoldable pub written_result : Conf → List Device → Surroundings → KeyHash → Result MapEntry
written_result c devices w k = do
  t ← chosen_tuple c w (populate_dev_hash c []) k
  d1 ← deref (get_elem? devices t.first.device_id)
  d2 ← deref (get_elem? devices t.second.device_id)
  d3 ← deref (get_elem? devices t.third.device_id)
  ok (written_entry t d1 d2 d3 (append_lbas w))

-- The entry that a PUT gives to its key, which depends on no other request.
unfoldable pub entry_for : Conf → List Device → Surroundings → KeyHash → Option MapEntry
unfolding written_result
entry_for c devices w k = elim (written_result c devices w k) [ err f ↦ none | ok e ↦ some e ]

abbrev pub found_status : Option MapEntry → Status
found_status none = not_found
found_status (some e) = status_ok

-- The status of a GET, which an experiment never misses.
abbrev pub lookup_status : Conf → Option MapEntry → Status
lookup_status c o = if c.experimental then status_ok else found_status o

module _ (F : FlatMap MapEntry) (c : Conf) (devices : List Device)
    (moved : HttpRequest → HttpRequest) where
  abbrev pub store : Surroundings → HttpRequest → View → View
  store w req m =
      if is_empty F ((parse_url req.target).1)
      then m
      else set (compute_sha256 w.digest ((parse_url req.target).1))
          (entry_for c devices w (compute_sha256 w.digest ((parse_url req.target).1))) m

  -- The status of the response and the entries that a request leaves.
  unfoldable pub atomic : Surroundings × HttpRequest → View → Status × View
  atomic (w, req) m = elim req.method [
    | get ↦ (
      if contains_text (codes "max-keys=") req.target
          then (handle_request (moved req)).status
          else if is_empty F ((parse_url req.target).1)
          then not_found
          else lookup_status c (m (compute_sha256 w.digest ((parse_url req.target).1))),
      m,
    )
    | put ↦ (status_ok, store w req m)
    | post ↦ (status_ok, store w req m)
    | delete ↦ (status_ok, set (compute_sha256 w.digest ((parse_url req.target).1)) none m)
    | head ↦ (status_ok, m)
    | other ↦ (bad_request, m)
  ]

  -- One request after the other, the latest first in the list: the entries in the end, and each request
  -- with its status.
  unfoldable pub in_order : List (Surroundings × HttpRequest) → View → View
  unfolding atomic
  in_order [] m = m
  in_order (x ∷ xs) m = (atomic x (in_order xs m)).1

  unfoldable pub statuses :
      List (Surroundings × HttpRequest) → View → List (Surroundings × HttpRequest × Status)
  unfolding in_order
  statuses [] m = []
  statuses (x ∷ xs) m = (x.0, x.1, (atomic x (in_order xs m)).0) ∷ statuses xs m
