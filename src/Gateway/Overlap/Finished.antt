-- ===== src/Gateway/Overlap/Finished.antt =====
-- The second half of a request of src/http_server.cc, while others wait: it answers and gives back what the
-- first half took.
use mathlib.Core.Path.{subst}
use zstore.Common.{
  ℕ, ◌+◌, ◌%◌, ◌<◌, ◌≡◌, inl, inr, refl, sym, ◌∙◌, true, false, Bool-cases, none, some, List,
  length, ok, ◌==◌, ==_refl, ==_sym, if◌then◌else◌, u64_mod,
}
use zstore.Conf.{Conf}
use zstore.Device.{Device}
use zstore.Hash.{KeyHash, key_eq}
use zstore.Http.{HttpRequest, HttpResponse, status_ok, get, respond, handle_request}
use zstore.Pool.{RequestContext, Pool, write}
use zstore.Pool.Held.{Held, IsOwned, refill, write_twice}
use zstore.Pool.Held.Back.{refill-IsOwned}
use zstore.Pool.Held.Many.{clear-return}
use zstore.Request.{zone_read_dummy, assign_body, deref}
use zstore.Request.Answers.{zone_read_lem, assign_body-full}
use zstore.Request.Owned.{write_here}
use zstore.Store.{MapEntry, DevTuple, create_map_entry}
use zstore.Store.Map.{FlatMap, get_object, put_object}
use zstore.Store.Map.Laws.{get_object-put_object}
use zstore.Gateway.{Gateway, on_slot, finish_read}
use zstore.Gateway.Lookup.{on_slot-lent}
use zstore.Gateway.Put.{Surroundings, written_entry}
use zstore.Gateway.Put.Conditions.{append_lbas}
use zstore.Gateway.Put.Written.{IsHolding, await_writes-IsOwned}
use zstore.Gateway.Session.Served.{Option-some}
use zstore.Gateway.Overlap.{Flight, reading, writing, finish}
use zstore.Gateway.Overlap.Counted.{IsCounted, with_use, given_back-IsCounted}
use zstore.Gateway.Overlap.Atomic.{view, set}
use zstore.Gateway.Overlap.Begun.{IsBusy, IsAimed, owned-IsBusy}

kept :
    (h : Held) (s t : ℕ) (r : RequestContext)
    → write h s none t ≡ some r
    → ((s == t) ≡ false) × (h t ≡ some r)
kept h s t r e = elim (Bool-cases (s == t)) [
  | inl same ↦ absurd (let f : none ≡ some r = rw same at e in cc)
  | inr differs ↦ (differs, rw differs at e)
]

module _ (F : FlatMap MapEntry) (c : Conf) (devices : List Device)
    (moved : HttpRequest → HttpRequest) where
  pub record IsRead (w : Surroundings) (req : HttpRequest) (s : ℕ) (held : Held) (g : Gateway F)
      : Type 0 where
    pub msg : HttpResponse
    pub after : Gateway F
    pub returns : finish F (reading w req s) g ≡ ok (msg, after)
    pub status : msg.status ≡ status_ok
    pub busy : IsBusy c F devices (write held s none) after
    pub same_view : (j : KeyHash) → view F after j ≡ view F g j

  get-status :
      (req : HttpRequest) (body : List ℕ)
      → req.method ≡ get
      → (handle_request (record req { body = body })).status ≡ status_ok
  unfolding handle_request respond
  get-status req body e = rw (e, handle_request) refl

  pub finish-IsRead :
      (w : Surroundings) (req : HttpRequest) (s : ℕ) (held : Held) (g : Gateway F)
      (r : RequestContext)
      → IsBusy c F devices held g
      → held s ≡ some r
      → r.has_ctrl ≡ true
      → req.method ≡ get
      → IsRead w req s held g
  unfolding finish finish_read
  finish-IsRead w req s held g r b here ctrl method =
      let p = g.contexts in
      let cell : p.memory s ≡ some r = b.owned.alive s r here in
      let (full, size) = b.owned.buffered s r cell in
      let x : RequestContext = record r { response_body = r.data_buffer; success = true } in
      let dummy : on_slot F s zone_read_dummy p ≡ ok (x, refill p s x) =
        on_slot-lent F s zone_read_dummy p r x cell
          ((zone_read_lem c r r.data_buffer (full, size) refl ctrl).1) in
      let o1 = refill-IsOwned c p held s r x b.owned here (full, size) in
      let h1 = write held s (some x) in
      let cell1 : (refill p s x).memory s ≡ some x = o1.alive s x (write_here held s (some x)) in
      let again : on_slot F s assign_body (refill p s x) ≡ ok (x, refill (refill p s x) s x) =
        on_slot-lent F s assign_body (refill p s x) x x cell1 (assign_body-full x full) in
      let o2 =
        refill-IsOwned c (refill p s x) h1 s x x o1 (write_here held s (some x)) (full, size) in
      let (q, p', e1, e2, o3) =
        clear-return c (refill (refill p s x) s x) (write h1 s (some x)) s x o2
          (write_here h1 s (some x)) in
      let o4 : IsOwned c q (write held s none) =
        subst (IsOwned c q) (write_twice h1 s (some x) none ∙ write_twice held s (some x) none)
          o3 in
      record {
        msg = handle_request (record req { body = r.data_buffer });
        after = record g { contexts = q; total_counts = (g.total_counts + 1) % u64_mod };
        returns = rw dummy (rw again (rw e1 (rw e2 refl)));
        status = get-status req r.data_buffer method;
        busy = owned-IsBusy F c devices moved held _ g _ b o4 refl refl refl;
        same_view = λ j. refl;
      }

  pub record IsWritten (f : Flight) (k : KeyHash) (e : MapEntry) (held : Held) (g : Gateway F)
      : Type 0 where
    pub msg : HttpResponse
    pub after : Gateway F
    pub returns : finish F f g ≡ ok (msg, after)
    pub status : msg.status ≡ status_ok
    pub busy : IsBusy c F devices held after
    pub same_view : (j : KeyHash) → view F after j ≡ set k (some e) (view F g) j

  -- The three contexts are held, and three different ones.
  three-IsHolding :
      (held : Held) (p : Pool) (s1 s2 s3 : ℕ) (r1 r2 r3 : RequestContext)
      → IsOwned c p held
      → held s3 ≡ some r3
      → write held s3 none s2 ≡ some r2
      → write (write held s3 none) s2 none s1 ≡ some r1
      → IsHolding c (write (write (write held s3 none) s2 none) s1 none) s1 s2 s3 r1 r2 r3 p
  three-IsHolding held p s1 s2 s3 r1 r2 r3 o e3 e2 e1 =
      let (n32, k2) = kept held s3 s2 r2 e2 in
      let (n21, m1) = kept (write held s3 none) s2 s1 r1 e1 in
      let (n31, k1) = kept held s3 s1 r1 m1 in
      record {
        held = held;
        owned = o;
        first = k1;
        second = k2;
        third = e3;
        first_second = ==_sym s2 s1 n21;
        second_third = ==_sym s3 s2 n32;
        third_first = n31;
        free1 = rw (==_refl s1) refl;
        free2 = rw (==_sym s2 s1 n21, ==_refl s2) refl;
        free3 = rw (==_sym s3 s1 n31, ==_sym s3 s2 n32, ==_refl s3) refl;
        others = λ t a1 a2 a3. sym (rw (a1, a2, a3) refl);
      }

  pub finish-IsWritten :
      (w : Surroundings) (req : HttpRequest) (k : KeyHash) (tuple : DevTuple) (d1 d2 d3 : Device)
      (s1 s2 s3 : ℕ) (u : ℕ → ℕ) (held : Held) (g : Gateway F)
      → IsBusy c F devices held g
      → IsAimed F c devices moved w req k tuple d1 d2 d3
      → IsCounted held (with_use s3 (with_use s2 (with_use s1 u)))
      → (h : Held) × IsCounted h u
        × IsWritten
            (writing w req k tuple (some d1, some d2, some d3) (s1, s2, s3))
            k
            (written_entry tuple d1 d2 d3 (append_lbas w))
            h
            g
  unfolding finish deref written_entry create_map_entry
  finish-IsWritten w req k tuple d1 d2 d3 s1 s2 s3 u held g b aimed counted =
      let (r3, e3, c3, counted3) = given_back-IsCounted held _ s3 counted in
      let (r2, e2, c2, counted2) = given_back-IsCounted (write held s3 none) _ s2 counted3 in
      let (r1, e1, c1, counted1) =
        given_back-IsCounted (write (write held s3 none) s2 none) u s1 counted2 in
      let h = write (write (write held s3 none) s2 none) s1 none in
      let e = written_entry tuple d1 d2 d3 (append_lbas w) in
      let (q, done, o) =
        await_writes-IsOwned c F w h s1 s2 s3 r1 r2 r3 g.contexts
          (three-IsHolding held g.contexts s1 s2 s3 r1 r2 r3 b.owned e3 e2 e1) c1 c2 c3 in
      (
        h,
        counted1,
        record {
          msg = handle_request req;
          after = record g {
            contexts = q;
            total_counts = (g.total_counts + 3) % u64_mod;
            objects = (put_object F k e g.objects).0;
          };
          returns = rw done refl;
          status = aimed.status;
          busy = record {
            owned = o;
            same_devices = b.same_devices;
            hash = b.hash;
            known = λ j x there.
                (let left : (if key_eq k j then some e else get_object F j g.objects) ≡ some x =
                    sym (get_object-put_object F k j e g.objects) ∙ there in
                  elim (Bool-cases (key_eq k j)) [
                    | inl same ↦
                        subst (λ y. y.first.device_id < length devices)
                          (Option-some (rw same at left)) aimed.first_known
                    | inr differs ↦ b.known j x (rw differs at left)
                  ]);
          };
          same_view = λ j. get_object-put_object F k j e g.objects;
        },
      )
