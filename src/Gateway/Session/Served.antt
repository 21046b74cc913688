-- ===== src/Gateway/Session/Served.antt =====
-- do_session of src/http_server.cc answers every request, and leaves the gateway fit for the next.
use zstore.Common.{
  ℕ, ◌+◌, ◌%◌, ◌<◌, ◌≡◌, ◌⊎◌, refl, sym, ◌∙◌, none, some, Option, List, length, get_elem?_lt,
  Result, ok, arith, u64_mod, Bool-cases, inl, inr,
}
use mathlib.Core.Path.{subst}
use zstore.Conf.{Conf}
use zstore.Hash.{KeyHash, compute_sha256, key_eq}
use zstore.Hash.Hex.{key_eq_iff}
use zstore.Http.{HttpRequest, HttpResponse, parse_url, handle_request, handle_not_found_request}
use zstore.Pool.Held.{nothing_held}
use zstore.Store.{MapEntry, create_map_entry}
use zstore.Store.Map.{FlatMap, get_object}
use zstore.Store.DevHash.Tuples.{get_dev_tuple_for_random_reads-IsSpread}
use zstore.Gateway.{
  Gateway, get_device_by_id, find_entry, fake_entry, answer_entry, is_empty, get_handler,
}
use zstore.Gateway.Lookup.{add_to_broadcast-cases}
use zstore.Gateway.Serving.{IsReplied, read_entry-IsReplied}
use zstore.Gateway.Put.{Surroundings, put_handler, written_entry}
use zstore.Gateway.Put.Conditions.{append_lbas, IsSized, IsSurroundings, IsReady}
use zstore.Gateway.Put.Stored.{put_handler-IsStoredIn, put_handler-bucket}

-- A gateway that can serve: it is between two requests, and the first device of every entry is one of
-- its devices.
pub record IsServing (c : Conf) (F : FlatMap MapEntry) (g : Gateway F) : Type 0 where
  pub ready : IsReady c F g
  pub known :
      (k : KeyHash) (e : MapEntry)
      → get_object F k g.objects ≡ some e
      → e.first.device_id < length g.devices

pub find_entry-cases :
    (c : Conf) (F : FlatMap MapEntry) (k : KeyHash) (g : Gateway F) (e : MapEntry)
    → find_entry F c k g ≡ some e
    → (get_object F k g.objects ≡ some e) ⊎ (fake_entry F c g ≡ e)
unfolding find_entry
find_entry-cases c F k g e found = ground arith

pub fake_entry-known :
    (c : Conf) (F : FlatMap MapEntry) (g : Gateway F) → (fake_entry F c g).first.device_id < 6
unfolding fake_entry create_map_entry
fake_entry-known c F g = (get_dev_tuple_for_random_reads-IsSpread c).0

find_entry-known :
    (c : Conf) (F : FlatMap MapEntry) (k : KeyHash) (g : Gateway F) (e : MapEntry)
    → IsServing c F g
    → find_entry F c k g ≡ some e
    → e.first.device_id < length g.devices
find_entry-known c F k g e s found = elim (find_entry-cases c F k g e found) [
  | inl n ↦ s.known k e n
  | inr n ↦
      subst (λ x. x.first.device_id < length g.devices) n
        (omega (arith, fake_entry-known c F g, s.ready.six))
]

IsServing-change :
    (c : Conf) (F : FlatMap MapEntry) (g g' : Gateway F)
    → IsServing c F g
    → IsReady c F g'
    → g'.objects ≡ g.objects
    → g'.devices ≡ g.devices
    → IsServing c F g'
IsServing-change c F g g' s ready objects devices = record {
  ready = ready;
  known = λ k e there. rw devices (s.known k e (rw objects at there));
}

-- The result of a request that is answered.
abbrev pub IsServed : (c : Conf) (F : FlatMap MapEntry) → Result (HttpResponse × Gateway F) → Type 0
IsServed c F result =
    (msg : HttpResponse) × (g' : Gateway F) × (result ≡ ok (msg, g')) × IsServing c F g'

answer_entry-IsServed :
    (c : Conf) (zmalloc : ℕ → List ℕ) (F : FlatMap MapEntry) (req : HttpRequest)
    (o : Option MapEntry) (g : Gateway F)
    → IsSized c
    → ((n : ℕ) → length (zmalloc n) ≡ n)
    → IsServing c F g
    → ((e : MapEntry) → o ≡ some e → e.first.device_id < length g.devices)
    → IsServed c F (answer_entry F c zmalloc req o g)
unfolding answer_entry get_device_by_id
answer_entry-IsServed c zmalloc F req none g sized spec s there =
    (handle_not_found_request req, g, refl, s)
answer_entry-IsServed c zmalloc F req (some e) g sized spec s there =
    let (dev, d) = get_elem?_lt g.devices e.first.device_id (there e refl) in
    let a : IsReplied c zmalloc F e g nothing_held =
      read_entry-IsReplied c zmalloc F e g dev nothing_held spec sized.block_pos s.ready.idle d in
    (
      handle_request (record req { body = a.body }),
      record g { contexts = a.contexts; total_counts = (g.total_counts + 1) % u64_mod },
      rw a.returns refl,
      IsServing-change c F g _ s (record { idle = a.owned; six = s.ready.six; hash = s.ready.hash })
          refl refl,
    )

pub get_handler-IsServed :
    (c : Conf) (zmalloc : ℕ → List ℕ) (digest : List ℕ → KeyHash) (F : FlatMap MapEntry)
    (req : HttpRequest) (g : Gateway F)
    → IsSized c
    → ((n : ℕ) → length (zmalloc n) ≡ n)
    → IsServing c F g
    → IsServed c F (get_handler F c zmalloc digest req g)
unfolding get_handler
get_handler-IsServed c zmalloc digest F req g sized spec s =
    elim (Bool-cases (is_empty F ((parse_url req.target).1))) [
      | inl e ↦ (handle_not_found_request req, g, rw e refl, s)
      | inr e ↦
          (let k = compute_sha256 digest ((parse_url req.target).1) in
            let (b, eq) = add_to_broadcast-cases F k g in
            let g1 : Gateway F = record g { broadcast = b } in
            let s1 : IsServing c F g1 =
              IsServing-change c F g g1 s
                (record { idle = s.ready.idle; six = s.ready.six; hash = s.ready.hash }) refl
                refl in
            let (msg, g', answered, s') =
              answer_entry-IsServed c zmalloc F req (find_entry F c k g1) g1 sized spec s1
                (λ x. find_entry-known c F k g1 x s1) in
            (msg, g', rw e (rw eq answered), s'))
    ]

pub Option-some : {A : Type 0} {a b : A} → some a ≡ some b → a ≡ b
Option-some e = cc

pub put_handler-IsServed :
    (c : Conf) (w : Surroundings) (F : FlatMap MapEntry) (req : HttpRequest) (g : Gateway F)
    → IsSized c
    → IsSurroundings c w
    → IsServing c F g
    → IsServed c F (put_handler F c w req g)
unfolding written_entry create_map_entry
put_handler-IsServed c w F req g sized around s =
    elim (Bool-cases (is_empty F ((parse_url req.target).1))) [
      | inl e ↦ (handle_request req, g, put_handler-bucket c w F req g e, s)
      | inr e ↦
          (let (g', done, st) = put_handler-IsStoredIn c w F req g sized around s.ready e in
            let k = compute_sha256 w.digest ((parse_url req.target).1) in
            (
              handle_request req,
              g',
              done,
              record {
                ready = st.ready;
                known = λ j x there. elim (Bool-cases (key_eq k j)) [
                  | inl same ↦
                      (let here : get_object F j g'.objects
                            ≡ some
                                (written_entry st.tuple st.dev1 st.dev2 st.dev3 (append_lbas w)) =
                          subst
                            (λ i.
                              get_object F i g'.objects
                              ≡ some
                                  (written_entry st.tuple st.dev1 st.dev2 st.dev3 (append_lbas w)))
                            ((key_eq_iff k j).0 same) st.entry in
                        subst (λ y. y.first.device_id < length g'.devices)
                          (Option-some (sym here ∙ there)) (omega (arith, st.spread, st.ready.six)))
                  | inr differs ↦
                      rw st.devices_kept (s.known j x (sym (st.others j differs) ∙ there))
                ];
              },
            ))
    ]
