-- ===== src/Gateway/Overlap/Begun/Reading.antt =====
-- A GET of src/http_server.cc up to its co_await, while other requests wait.
use mathlib.Core.Path.{subst}
use zstore.Common.{
  ◌<◌, ◌≤◌, ◌≡◌, inl, inr, refl, ap, sym, ◌∙◌, Bool, true, false, Bool-cases, Option, none, some,
  Option-cases, List, length, get_elem?_lt, if◌then◌else◌, codes, arith,
}
use zstore.Conf.{Conf}
use zstore.Device.{Device}
use zstore.Hash.{KeyHash, compute_sha256}
use zstore.Http.{HttpRequest, status_ok, get, parse_url, handle_not_found_request}
use zstore.Pool.Held.{Held}
use zstore.Request.Owned.{make_read_request-IsRequested}
use zstore.Store.{MapEntry}
use zstore.Store.Map.{FlatMap, get_object}
use zstore.Gateway.{Gateway, get_device_by_id, find_entry, fake_entry, is_empty}
use zstore.Gateway.Lookup.{add_to_broadcast-cases}
use zstore.Gateway.Put.{Surroundings}
use zstore.Gateway.Put.Conditions.{IsSized, IsSurroundings}
use zstore.Gateway.Session.{contains_text}
use zstore.Gateway.Session.Served.{find_entry-cases, fake_entry-known}
use zstore.Gateway.Overlap.{begin_get, begin_read}
use zstore.Gateway.Overlap.Atomic.{found_status, lookup_status, atomic}
use zstore.Gateway.Overlap.Begun.{IsBusy, IsBegun, owned-IsBusy}

module _ (F : FlatMap MapEntry) (c : Conf) (devices : List Device)
    (moved : HttpRequest → HttpRequest) where
  lookup-found :
      (b : Bool) (o : Option MapEntry) (x : MapEntry)
      → (if b then status_ok else found_status o)
        ≡ found_status (elim o [ none ↦ if b then some x else none | some e ↦ some e ])
  lookup-found true none x = refl
  lookup-found true (some e) x = refl
  lookup-found false none x = refl
  lookup-found false (some e) x = refl

  find_entry-status :
      (k : KeyHash) (g : Gateway F)
      → lookup_status c (get_object F k g.objects) ≡ found_status (find_entry F c k g)
  unfolding find_entry
  find_entry-status k g = lookup-found c.experimental (get_object F k g.objects) (fake_entry F c g)

  module _ (w : Surroundings) (held : Held) (sized : IsSized c) (around : IsSurroundings c w)
      (six : 6 ≤ length devices) where
    find_entry-device :
        (k : KeyHash) (g : Gateway F) (e : MapEntry)
        → IsBusy c F devices held g
        → find_entry F c k g ≡ some e
        → (d : Device) × (get_device_by_id F e.first.device_id g ≡ some d)
    unfolding get_device_by_id
    find_entry-device k g e b found =
        let below : e.first.device_id < length devices = elim (find_entry-cases c F k g e found) [
          | inl n ↦ b.known k e n
          | inr n ↦
              subst (λ x. x.first.device_id < length devices) n
                (omega (arith, fake_entry-known c F g, six))
        ] in
        rw b.same_devices (get_elem?_lt devices e.first.device_id below)

    -- A GET that is no listing.
    pub get-IsBegun :
        (req : HttpRequest) (g : Gateway F)
        → req.method ≡ get
        → contains_text (codes "max-keys=") req.target ≡ false
        → IsBusy c F devices held g
        → IsBegun F c devices moved w req held g (begin_get F c w req g)
    unfolding IsBegun begin_get begin_read atomic handle_not_found_request
    get-IsBegun req g method plain b =
        let k = compute_sha256 w.digest ((parse_url req.target).1) in
        let (bc, eq) = add_to_broadcast-cases F k g in
        let g1 : Gateway F = record g { broadcast = bc } in
        let b1 : IsBusy c F devices held g1 =
          owned-IsBusy F c devices moved held held g g1 b b.owned refl refl refl in
        elim (Bool-cases (is_empty F ((parse_url req.target).1))) [
          | inl e ↦ inl (record {
            msg = handle_not_found_request req;
            after = g;
            returns = rw e refl;
            busy = b;
            same_status = rw (method, atomic) (rw plain (rw e refl));
            same_view = λ j. rw (method, atomic) refl;
          })
          | inr e ↦ elim (Option-cases (find_entry F c k g1)) [
            | inl n ↦ inl (record {
              msg = handle_not_found_request req;
              after = g1;
              returns = rw e (rw eq (rw (n, begin_read) refl));
              busy = b1;
              same_status =
                  rw (method, atomic)
                    (rw plain (rw e (sym (find_entry-status k g1 ∙ ap found_status n))));
              same_view = λ j. rw (method, atomic) refl;
            })
            | inr (x, n) ↦
                (let (d, there) = find_entry-device k g1 x b1 n in
                  let m =
                    make_read_request-IsRequested c w.zmalloc d x.first.lba x.len g1.contexts held
                      around.zmalloc_length sized.block_pos b1.owned in
                  inr (
                    inl (record {
                      slot = m.slot;
                      context = m.context;
                      after = record g1 { contexts = m.contexts };
                      returns = rw e (rw eq (rw (n, begin_read) (rw there (rw m.returns refl))));
                      free = m.free;
                      has_ctrl = m.has_ctrl;
                      busy = owned-IsBusy F c devices moved held _ g _ b m.owned refl refl refl;
                      is_get = method;
                      same_status =
                          rw (method, atomic)
                            (rw plain (rw e (find_entry-status k g1 ∙ ap found_status n)));
                      same_view = λ j. rw (method, atomic) refl;
                    })))
          ]
        ]
