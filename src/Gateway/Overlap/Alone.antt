-- ===== src/Gateway/Overlap/Alone.antt =====
-- A request that runs alone: awaitable_on_request of src/http_server.cc against its two halves.
use zstore.Common.{
  ◌+◌, ◌%◌, u64_mod, ℕ, List, ltb, Bool, Bool-cases, ◌≡◌, inl, inr, refl, true, false, Option, none,
  some, Result, Result-cases, ok, err, ◌>>=◌, if◌then◌else◌, codes,
}
use zstore.Conf.{Conf}
use zstore.Device.{Device}
use zstore.Hash.{KeyHash}
use zstore.Http.{
  Verb, HttpRequest, HttpResponse, handle_request, get, put, post, delete, head, other, parse_url,
}
use zstore.Object.Log.{write_zstore_object_to_buffer}
use zstore.Pool.{Pool}
use zstore.Request.{make_read_request, make_write_request, zone_read_dummy, assign_body, deref}
use zstore.Store.{MapEntry, DevTuple}
use zstore.Store.Map.{FlatMap, put_object}
use zstore.Store.DevHash.{create_fake_object}
use zstore.Gateway.{
  Gateway, get_device_by_id, on_slot, finish_read, is_empty, answer_entry, read_entry, get_handler,
}
use zstore.Gateway.Put.{
  Surroundings, put_object_of, written_entry, put_new, put_small, write_replicas, await_writes,
  put_handler,
}
use zstore.Gateway.Session.{awaitable_on_request, contains_text, handle_list_request}
use zstore.Gateway.Overlap.Atomic.{chosen_tuple}
use zstore.Gateway.Overlap.{
  Flight, Outcome, answered, waits, begin, begin_get, begin_put, begin_read, begin_write, finish,
  at_once,
}

module _ (F : FlatMap MapEntry) where
  pub conclude : Outcome × Gateway F → Result (HttpResponse × Gateway F)
  conclude (answered msg, g) = ok (msg, g)
  conclude (waits f, g) = finish F f g

  module _ (c : Conf) (w : Surroundings) where
    begin_read-conclude :
        (req : HttpRequest) (o : Option MapEntry) (g : Gateway F)
        → answer_entry F c w.zmalloc req o g ≡ (begin_read F c w req o g >>= conclude)
    unfolding answer_entry begin_read conclude finish read_entry
    begin_read-conclude req none g = refl
    begin_read-conclude req (some e) g =
        elim (Result-cases (
          make_read_request c w.zmalloc (get_device_by_id F e.first.device_id g) e.first.lba e.len
            g.contexts)) [
              | inr (f, e1) ↦ rw (e1, read_entry) refl
              | inl ((s, p), e1) ↦ elim (Result-cases (on_slot F s zone_read_dummy p)) [
                | inr (f, e2) ↦ rw (e1, read_entry) (rw e2 refl)
                | inl ((r, p1), e2) ↦ elim (Bool-cases r.success) [
                  | inr e3 ↦ rw (e1, read_entry) (rw e2 (rw e3 refl))
                  | inl e3 ↦ elim (Result-cases (on_slot F s assign_body p1)) [
                    | inr (f, e4) ↦ rw (e1, read_entry) (rw e2 (rw e3 (rw e4 refl)))
                    | inl ((r', p2), e4) ↦ elim (Result-cases (finish_read F s p2)) [
                      | inr (f, e5) ↦ rw (e1, read_entry) (rw e2 (rw e3 (rw e4 (rw e5 refl))))
                      | inl (p3, e5) ↦ rw (e1, read_entry) (rw e2 (rw e3 (rw e4 (rw e5 refl))))
                    ]
                  ]
                ]
              ]
            ]

    -- The address of the first append stands for all three.
    abbrev for_all : ℕ × Pool → Result ((ℕ × ℕ × ℕ) × Pool)
    for_all (lba, p) = ok ((lba, lba, lba), p)

    abbrev stored :
        KeyHash
        → Gateway F
        → DevTuple
        → Option Device
        → Option Device
        → Option Device
        → (ℕ × ℕ × ℕ) × Pool
        → Result (Gateway F)
    stored k g t o1 o2 o3 (lbas, p) = do
      d1 ← deref o1
      d2 ← deref o2
      d3 ← deref o3
      ok (record g {
        contexts = p;
        total_counts = (g.total_counts + 3) % u64_mod;
        objects = (put_object F k (written_entry t d1 d2 d3 lbas) g.objects).0;
      })

    abbrev answer_put :
        KeyHash
        → HttpRequest
        → Gateway F
        → DevTuple
        → Option Device
        → Option Device
        → Option Device
        → ℕ × Pool
        → Result (HttpResponse × Gateway F)
    answer_put k req g t o1 o2 o3 (lba, p) = do
      d1 ← deref o1
      d2 ← deref o2
      d3 ← deref o3
      ok (
        handle_request req,
        record g {
          contexts = p;
          total_counts = (g.total_counts + 3) % u64_mod;
          objects = (put_object F k (written_entry t d1 d2 d3 (lba, lba, lba)) g.objects).0;
        },
      )

    -- From the answers to the appends on.
    written-conclude :
        (k : KeyHash) (req : HttpRequest) (g : Gateway F) (t : DevTuple) (o1 o2 o3 : Option Device)
        (r : Result (ℕ × Pool))
        → ((r >>= for_all >>= stored k g t o1 o2 o3) >>= λ g'. ok (handle_request req, g'))
          ≡ (r >>= answer_put k req g t o1 o2 o3)
    unfolding deref
    written-conclude k req g t o1 o2 o3 (err f) = refl
    written-conclude k req g t none o2 o3 (ok (lba, p)) = refl
    written-conclude k req g t (some d1) none o3 (ok (lba, p)) = refl
    written-conclude k req g t (some d1) (some d2) none (ok (lba, p)) = refl
    written-conclude k req g t (some d1) (some d2) (some d3) (ok (lba, p)) = refl

    -- From the serialised object on.
    requested-conclude :
        (k : KeyHash) (req : HttpRequest) (g : Gateway F) (t : DevTuple) (o1 o2 o3 : Option Device)
        (header : List ℕ)
        → ((write_replicas F c w o1 o2 o3 header g.contexts >>= for_all >>= stored k g t o1 o2 o3)
            >>= λ g'. ok (handle_request req, g'))
          ≡ ((do
            (s1, p1) ← make_write_request c w.zmalloc o1 header c.object_size g.contexts
            (s2, p2) ← make_write_request c w.zmalloc o2 header c.object_size p1
            (s3, p3) ← make_write_request c w.zmalloc o3 header c.object_size p2
            ok (
              waits (Flight.writing w req k t (o1, o2, o3) (s1, s2, s3)),
              record g { contexts = p3 },
            ))
              >>= conclude)
    unfolding conclude finish write_replicas
    requested-conclude k req g t o1 o2 o3 header =
        let ask : Option Device → Pool → Result (ℕ × Pool) =
          λ o p. make_write_request c w.zmalloc o header c.object_size p in
        elim (Result-cases (ask o1 g.contexts)) [
          | inr (f, e1) ↦ rw e1 refl
          | inl ((s1, p1), e1) ↦ rw e1 (elim (Result-cases (ask o2 p1)) [
            | inr (f, e2) ↦ rw e2 refl
            | inl ((s2, p2), e2) ↦ rw e2 (elim (Result-cases (ask o3 p2)) [
              | inr (f, e3) ↦ rw e3 refl
              | inl ((s3, p3), e3) ↦
                  rw e3 (written-conclude k req g t o1 o2 o3 (await_writes F w s1 s2 s3 p3))
            ])
          ])
        ]

    begin_write-conclude :
        (k : KeyHash) (req : HttpRequest) (g : Gateway F)
        → ltb c.chunk_size c.object_size ≡ false
        → (put_new F c w k req g >>= λ g'. ok (handle_request req, g'))
          ≡ (begin_write F c w k req g >>= conclude)
    unfolding put_new begin_write conclude finish put_small write_replicas
    begin_write-conclude k req g small =
        let obj = put_object_of c w req in
        let dev : ℕ → Option Device = λ i. get_device_by_id F i g in
        let size = c.object_size in
        rw small (elim (Result-cases (chosen_tuple c w g.dev_hash k)) [
          | inr (f, e) ↦ rw (e, chosen_tuple) refl
          | inl (t, e) ↦
              rw (e, chosen_tuple)
                (let o1 = dev (create_fake_object t).first.device_id in
                  let o2 = dev (create_fake_object t).second.device_id in
                  let o3 = dev (create_fake_object t).third.device_id in
                  elim (Bool-cases (w.alloc size)) [
                    | inr a ↦ rw a refl
                    | inl a ↦
                        rw a (elim (Result-cases (write_zstore_object_to_buffer w.padding obj)) [
                          | inr (f, e1) ↦ rw e1 refl
                          | inl (buffer, e1) ↦
                              rw e1 (requested-conclude k req g t o1 o2 o3 (w.header buffer))
                        ])
                  ])
        ])

    at_once-conclude : (r : Result (HttpResponse × Gateway F)) → r ≡ (r >>= at_once F >>= conclude)
    unfolding conclude
    at_once-conclude (ok (msg, g)) = refl
    at_once-conclude (err f) = refl

    begin_get-conclude :
        (req : HttpRequest) (g : Gateway F)
        → get_handler F c w.zmalloc w.digest req g ≡ (begin_get F c w req g >>= conclude)
    unfolding get_handler begin_get conclude
    begin_get-conclude req g = elim (Bool-cases (is_empty F ((parse_url req.target).1))) [
      | inl e ↦ rw e refl
      | inr e ↦ rw e (begin_read-conclude req _ _)
    ]

    small_put-conclude :
        (req : HttpRequest) (g : Gateway F)
        → ltb c.chunk_size c.object_size ≡ false
        → put_handler F c w req g ≡ (begin_put F c w req g >>= conclude)
    unfolding put_handler begin_put conclude
    small_put-conclude req g small = elim (Bool-cases (is_empty F ((parse_url req.target).1))) [
      | inl e ↦ rw e refl
      | inr e ↦ rw e (begin_write-conclude _ req _ small)
    ]

    begin_put-conclude :
        (large : Bool) (req : HttpRequest) (g : Gateway F)
        → ltb c.chunk_size c.object_size ≡ large
        → put_handler F c w req g ≡ (
            (if large then (put_handler F c w req g >>= at_once F) else begin_put F c w req g)
            >>= conclude)
    begin_put-conclude true req g e = at_once-conclude (put_handler F c w req g)
    begin_put-conclude false req g e = small_put-conclude req g e

    by_method :
        (method : Verb) (moved : HttpRequest → HttpRequest) (raw : MapEntry) (req : HttpRequest)
        (g : Gateway F)
        → req.method ≡ method
        → awaitable_on_request F c w moved raw req g ≡ (begin F c w moved raw req g >>= conclude)
    unfolding awaitable_on_request begin conclude
    by_method get moved raw req g e =
        rw (e, awaitable_on_request, begin)
          (elim (Bool-cases (contains_text (codes "max-keys=") req.target)) [
            | inl l ↦ rw l (elim (Result-cases (handle_list_request F req g)) [
              | inl (done, a) ↦ rw a refl
              | inr (f, a) ↦ rw a refl
            ])
            | inr l ↦ rw l (elim (Bool-cases (ltb c.chunk_size c.object_size)) [
              | inl large ↦ rw large (at_once-conclude _)
              | inr small ↦ rw small (begin_get-conclude req g)
            ])
          ])
    by_method put moved raw req g e =
        rw (e, awaitable_on_request, begin) (begin_put-conclude _ req g refl)
    by_method post moved raw req g e =
        rw (e, awaitable_on_request, begin) (begin_put-conclude _ req g refl)
    by_method delete moved raw req g e = rw (e, awaitable_on_request, begin) refl
    by_method head moved raw req g e = rw (e, awaitable_on_request, begin) refl
    by_method other moved raw req g e = rw (e, awaitable_on_request, begin) refl

    -- A request that runs alone, from its start to its response: the handler that the code has in one piece
    -- and its two halves have the same result, on every branch, those that stop included.
    pub begin-conclude :
        (moved : HttpRequest → HttpRequest) (raw : MapEntry) (req : HttpRequest) (g : Gateway F)
        → awaitable_on_request F c w moved raw req g ≡ (begin F c w moved raw req g >>= conclude)
    begin-conclude moved raw req g = by_method req.method moved raw req g refl
