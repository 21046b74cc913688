-- ===== src/Gateway/Overlap/Begun.antt =====
-- The first half of a request of src/http_server.cc, while others wait: what it answers or takes.
pub mod Reading
pub mod Writing
use mathlib.Core.Path.{subst}
use zstore.Common.{
  ℕ, ◌<◌, ◌≤◌, ◌≡◌, ◌⊎◌, inl, inr, refl, ap, sym, ◌∙◌, Bool, true, false, Bool-cases, Option, none,
  some, Option-cases, List, [], length, length-replicate, get_elem?, get_elem?_lt, ltb,
  le→ltb_false, if◌then◌else◌, codes, Result, ok, ◌>>=◌, ◌>>◌, guard, arith, lt→ltb, ◌^◌,
}
use zstore.Conf.{Conf}
use zstore.Device.{Device}
use zstore.Hash.{KeyHash, compute_sha256, key_eq}
use zstore.Http.{
  Verb, HttpRequest, HttpResponse, Status, status_ok, not_found, bad_request, get, put, post,
  delete, head, other, parse_url, respond, handle_request, handle_not_found_request,
}
use zstore.Object.Log.{write_zstore_object_to_buffer}
use zstore.Object.Log.Roundtrip.{write_zstore_object_to_buffer-block}
use zstore.Pool.{RequestContext, Pool, write}
use zstore.Pool.Held.{Held, IsOwned}
use zstore.Request.{make_read_request, make_write_request, deref}
use zstore.Request.Owned.{
  IsRequested, make_read_request-IsRequested, make_write_request-IsRequested,
}
use zstore.Store.{MapEntry, DevTuple, create_map_entry}
use zstore.Store.Map.{FlatMap, get_object}
use zstore.Store.Map.Laws.{get_object-delete_object_any}
use zstore.Store.DevHash.{
  create_fake_object, populate_dev_hash, get_dev_tuple, get_dev_tuple_for_random_reads,
}
use zstore.Store.DevHash.Tuples.{IsSpread}
use zstore.Gateway.{
  Gateway, add_to_broadcast, get_device_by_id, find_entry, fake_entry, is_empty, delete_handler,
}
use zstore.Gateway.Lookup.{add_to_broadcast-cases}
use zstore.Gateway.Put.{Surroundings, put_object_of, written_entry}
use zstore.Gateway.Put.Conditions.{IsSized, IsSurroundings, tuple-IsSpread, append_lbas}
use zstore.Gateway.Session.{contains_text, handle_list_request, match_list}
use zstore.Gateway.Session.Served.{find_entry-cases, fake_entry-known, Option-some}
use zstore.Gateway.Session.Loop.{IsListable}
use zstore.Gateway.Overlap.{
  Flight, reading, writing, Outcome, answered, waits, begin, begin_get, begin_put, begin_read,
  begin_write, at_once,
}
use zstore.Gateway.Overlap.Atomic.{
  View, view, set, chosen_tuple, written_result, entry_for, found_status, lookup_status, store,
  atomic,
}

-- A gateway while requests wait: its contexts, its devices and its hash, and entries that name one of the
-- devices.
pub record IsBusy (c : Conf) (F : FlatMap MapEntry) (devices : List Device) (held : Held)
    (g : Gateway F) : Type 0 where
  pub owned : IsOwned c g.contexts held
  pub same_devices : g.devices ≡ devices
  pub hash : g.dev_hash ≡ populate_dev_hash c []
  pub known :
      (k : KeyHash) (e : MapEntry)
      → get_object F k g.objects ≡ some e
      → e.first.device_id < length devices

module _ (F : FlatMap MapEntry) (c : Conf) (devices : List Device)
    (moved : HttpRequest → HttpRequest) where
  -- The response comes at once, and its status and the entries are those of the one moment.
  pub record IsAnswered (w : Surroundings) (req : HttpRequest) (held : Held) (g : Gateway F)
      (result : Result (Outcome × Gateway F)) : Type 0 where
    pub msg : HttpResponse
    pub after : Gateway F
    pub returns : result ≡ ok (answered msg, after)
    pub busy : IsBusy c F devices held after
    pub same_status : msg.status ≡ (atomic F c devices moved (w, req) (view F g)).0
    pub same_view :
        (j : KeyHash) → view F after j ≡ (atomic F c devices moved (w, req) (view F g)).1 j

  -- A GET waits: it has found an entry, and holds one context more.
  pub record IsReading (w : Surroundings) (req : HttpRequest) (held : Held) (g : Gateway F)
      (result : Result (Outcome × Gateway F)) : Type 0 where
    pub slot : ℕ
    pub context : RequestContext
    pub after : Gateway F
    pub returns : result ≡ ok (waits (reading w req slot), after)
    pub free : held slot ≡ none
    pub has_ctrl : context.has_ctrl ≡ true
    pub busy : IsBusy c F devices (write held slot (some context)) after
    pub is_get : req.method ≡ get
    pub same_status : (atomic F c devices moved (w, req) (view F g)).0 ≡ status_ok
    pub same_view :
        (j : KeyHash) → view F after j ≡ (atomic F c devices moved (w, req) (view F g)).1 j

  -- What a PUT that waits will do to the entries.
  pub record IsAimed (w : Surroundings) (req : HttpRequest) (key_hash : KeyHash) (tuple : DevTuple)
      (d1 d2 d3 : Device) : Type 0 where
    pub effect :
        (m : View)
        → atomic F c devices moved (w, req) m
          ≡ (status_ok, set key_hash (some (written_entry tuple d1 d2 d3 (append_lbas w))) m)
    pub status : (handle_request req).status ≡ status_ok
    pub first_known : tuple.first.device_id < length devices

  -- A PUT waits: it holds three contexts more.
  pub record IsWriting (w : Surroundings) (req : HttpRequest) (held : Held) (g : Gateway F)
      (result : Result (Outcome × Gateway F)) : Type 0 where
    pub key_hash : KeyHash
    pub tuple : DevTuple
    pub dev1 : Device
    pub dev2 : Device
    pub dev3 : Device
    pub s1 : ℕ
    pub s2 : ℕ
    pub s3 : ℕ
    pub r1 : RequestContext
    pub r2 : RequestContext
    pub r3 : RequestContext
    pub after : Gateway F
    pub returns :
        result
        ≡ ok (
          waits (writing w req key_hash tuple (some dev1, some dev2, some dev3) (s1, s2, s3)),
          after,
        )
    pub free1 : held s1 ≡ none
    pub free2 : write held s1 (some r1) s2 ≡ none
    pub free3 : write (write held s1 (some r1)) s2 (some r2) s3 ≡ none
    pub ctrl1 : r1.has_ctrl ≡ true
    pub ctrl2 : r2.has_ctrl ≡ true
    pub ctrl3 : r3.has_ctrl ≡ true
    pub busy :
        IsBusy c F devices (write (write (write held s1 (some r1)) s2 (some r2)) s3 (some r3)) after
    pub aimed : IsAimed w req key_hash tuple dev1 dev2 dev3
    pub same_view : (j : KeyHash) → view F after j ≡ view F g j

  unfoldable pub IsBegun :
      Surroundings → HttpRequest → Held → Gateway F → Result (Outcome × Gateway F) → Type 0
  IsBegun w req held g result =
      IsAnswered w req held g result
      ⊎ (IsReading w req held g result ⊎ IsWriting w req held g result)

  -- The same entries, and contexts that somebody holds.
  pub owned-IsBusy :
      (held held' : Held) (g g' : Gateway F)
      → IsBusy c F devices held g
      → IsOwned c g'.contexts held'
      → g'.devices ≡ g.devices
      → g'.dev_hash ≡ g.dev_hash
      → g'.objects ≡ g.objects
      → IsBusy c F devices held' g'
  owned-IsBusy held held' g g' b o same hash objects = record {
    owned = o;
    same_devices = same ∙ b.same_devices;
    hash = hash ∙ b.hash;
    known = λ k e there. b.known k e (rw objects at there);
  }
