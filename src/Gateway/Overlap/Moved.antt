-- ===== src/Gateway/Overlap/Moved.antt =====
-- Every order of moves of requests of src/http_server.cc: none stops, and the requests are as if each one
-- had run at one moment.
use mathlib.Core.List.{append_assoc}
use mathlib.Core.Path.{subst}
use zstore.Common.{
  ℕ, ◌≤◌, ◌≡◌, inl, inr, refl, ap, sym, ◌∙◌, none, some, Option-cases, List, [], ◌∷◌, ◌++◌, All,
  length, get_elem?, Result, ok, arith,
}
use zstore.Conf.{Conf}
use zstore.Device.{Device}
use zstore.Http.{HttpRequest, HttpResponse}
use zstore.Pool.{write}
use zstore.Store.{MapEntry, DevTuple}
use zstore.Store.Map.{FlatMap}
use zstore.Gateway.{Gateway}
use zstore.Gateway.Put.{Surroundings, written_entry}
use zstore.Gateway.Put.Conditions.{IsSized, IsSurroundings, append_lbas}
use zstore.Gateway.Session.Loop.{IsListable}
use zstore.Gateway.Overlap.{
  Flight, reading, writing, Server, Move, arrive, resume, request_of, remove_at, finish, move,
  moves,
}
use zstore.Gateway.Overlap.Counted.{all_uses, add_uses, given_back-IsCounted, removed-IsCounted}
use zstore.Gateway.Overlap.Atomic.{View, set, in_order, statuses}
use zstore.Gateway.Overlap.Begun.{IsAimed, IsBegun}
use zstore.Gateway.Overlap.Methods.{begin-IsBegun}
use zstore.Gateway.Overlap.Finished.{IsRead, finish-IsRead, finish-IsWritten}
use zstore.Gateway.Overlap.Linear.{
  IsFit, total, total-remove_at, All-get_elem?, All-remove_at, arrivals, undone, unanswered,
  IsAirborne, IsLinear, IsMoved, answered-IsMoved, reading-IsMoved, writing-IsMoved,
}

module _ (F : FlatMap MapEntry) (c : Conf) (devices : List Device)
    (moved : HttpRequest → HttpRequest) (raw : MapEntry) (sized : IsSized c)
    (six : 6 ≤ length devices) (start : View) where
  arrive-IsMoved :
      (w : Surroundings) (req : HttpRequest) (arrived order : List (Surroundings × HttpRequest))
      (σ : Server F)
      → IsSurroundings c w
      → IsListable req
      → IsLinear F c devices moved start arrived order σ
      → IsMoved F c devices moved raw sized six start
          ((w, req) ∷ arrived)
          order
          (move F c moved raw (arrive w req) σ)
  unfolding IsBegun
  arrive-IsMoved w req arrived order σ around fits l =
      elim (begin-IsBegun F c devices moved raw w l.held sized around six req σ.gateway fits
        l.busy) [
          | inl a ↦ answered-IsMoved F c devices moved raw sized six start w req arrived order σ l a
          | inr (inl a) ↦
              reading-IsMoved F c devices moved raw sized six start w req arrived order σ l a
          | inr (inr a) ↦
              writing-IsMoved F c devices moved raw sized six start w req arrived order σ l a
        ]

  move-resume :
      (j : ℕ) (f : Flight) (msg : HttpResponse) (g : Gateway F) (σ : Server F)
      → get_elem? σ.flights j ≡ some f
      → finish F f σ.gateway ≡ ok (msg, g)
      → move F c moved raw (resume j) σ
        ≡ ok (record {
          gateway = g;
          flights = remove_at j σ.flights;
          responses = ((request_of f).0, (request_of f).1, msg) ∷ σ.responses;
        })
  unfolding move
  move-resume j f msg g σ there done = rw (there, move) (rw done refl)

  resume_read-IsMoved :
      (w : Surroundings) (req : HttpRequest) (s j : ℕ)
      (arrived order : List (Surroundings × HttpRequest)) (σ : Server F)
      → get_elem? σ.flights j ≡ some (reading w req s)
      → IsLinear F c devices moved start arrived order σ
      → IsMoved F c devices moved raw sized six start arrived order
          (move F c moved raw (resume j) σ)
  unfolding total all_uses add_uses
  resume_read-IsMoved w req s j arrived order σ there l =
      let (r, here, ctrl, counted) =
        given_back-IsCounted l.held (all_uses (remove_at j σ.flights)) s
          (removed-IsCounted l.held σ.flights j (reading w req s) there l.counted) in
      let method = All-get_elem? (IsAirborne F c devices moved) σ.flights j _ l.airborne there in
      let a : IsRead F c devices moved w req s l.held σ.gateway =
        finish-IsRead F c devices moved w req s l.held σ.gateway r l.busy here ctrl method in
      (
        record {
          gateway = a.after;
          flights = remove_at j σ.flights;
          responses = (w, req, a.msg) ∷ σ.responses;
        },
        [],
        move-resume j _ a.msg a.after σ there a.returns,
        record {
          held = write l.held s none;
          busy = a.busy;
          counted = counted;
          airborne = All-remove_at (IsAirborne F c devices moved) σ.flights j l.airborne;
          same_view = (λ i k. a.same_view k i) ∙ l.same_view;
          each_once = λ weight.
              omega
                (arith, l.each_once weight, total-remove_at (undone weight) σ.flights j _ there);
          same_statuses = λ weight. omega (
            arith,
            l.same_statuses weight,
            total-remove_at (unanswered weight) σ.flights j _ there,
            ap (λ x. weight (w, req, x)) a.status,
          );
        },
      )

  resume_write-IsMoved :
      (w : Surroundings) (req : HttpRequest) (k : List ℕ) (tuple : DevTuple) (d1 d2 d3 : Device)
      (s1 s2 s3 j : ℕ) (arrived order : List (Surroundings × HttpRequest)) (σ : Server F)
      → get_elem? σ.flights j
        ≡ some (writing w req k tuple (some d1, some d2, some d3) (s1, s2, s3))
      → IsAimed F c devices moved w req k tuple d1 d2 d3
      → IsLinear F c devices moved start arrived order σ
      → IsMoved F c devices moved raw sized six start arrived order
          (move F c moved raw (resume j) σ)
  unfolding total all_uses add_uses in_order statuses
  resume_write-IsMoved w req k tuple d1 d2 d3 s1 s2 s3 j arrived order σ there aimed l =
      let f = writing w req k tuple (some d1, some d2, some d3) (s1, s2, s3) in
      let (h, counted, a) =
        finish-IsWritten F c devices moved w req k tuple d1 d2 d3 s1 s2 s3
          (all_uses (remove_at j σ.flights)) l.held σ.gateway l.busy aimed
          (removed-IsCounted l.held σ.flights j f there l.counted) in
      let m = in_order F c devices moved order start in
      let effect = aimed.effect m in
      (
        record {
          gateway = a.after;
          flights = remove_at j σ.flights;
          responses = (w, req, a.msg) ∷ σ.responses;
        },
        (w, req) ∷ [],
        move-resume j _ a.msg a.after σ there a.returns,
        record {
          held = h;
          busy = a.busy;
          counted = counted;
          airborne = All-remove_at (IsAirborne F c devices moved) σ.flights j l.airborne;
          same_view =
              (λ i x. a.same_view x i)
              ∙ ap (set k (some (written_entry tuple d1 d2 d3 (append_lbas w)))) l.same_view
              ∙ sym (ap (λ x. x.1) effect);
          each_once = λ weight.
              omega
                (arith, l.each_once weight, total-remove_at (undone weight) σ.flights j _ there);
          same_statuses = λ weight. omega (
            arith,
            l.same_statuses weight,
            total-remove_at (unanswered weight) σ.flights j _ there,
            ap (λ x. weight (w, req, x)) (a.status ∙ sym (ap (λ x. x.0) effect)),
          );
        },
      )

  pub flight-IsMoved :
      (f : Flight) (j : ℕ) (arrived order : List (Surroundings × HttpRequest)) (σ : Server F)
      → get_elem? σ.flights j ≡ some f
      → IsAirborne F c devices moved f
      → IsLinear F c devices moved start arrived order σ
      → IsMoved F c devices moved raw sized six start arrived order
          (move F c moved raw (resume j) σ)
  flight-IsMoved (reading w req s) j arrived order σ there method l =
      resume_read-IsMoved w req s j arrived order σ there l
  flight-IsMoved (writing w req k tuple targets (s1, s2, s3)) j arrived order σ there
        (d1, d2, d3, same, aimed) l =
      resume_write-IsMoved w req k tuple d1 d2 d3 s1 s2 s3 j arrived order σ
        (there ∙ ap (λ x. some (writing w req k tuple x (s1, s2, s3))) same) aimed l

  added_twice :
      (arrived added order : List (Surroundings × HttpRequest)) (result : Result (Server F))
      → IsMoved F c devices moved raw sized six start arrived (added ++ order) result
      → IsMoved F c devices moved raw sized six start arrived order result
  added_twice arrived added order result (σ, more, done, l) = (
    σ,
    more ++ added,
    done,
    subst (λ o. IsLinear F c devices moved start arrived o σ) (sym (append_assoc more added order))
        l,
  )

  pub moves-IsMoved :
      (ms : List Move) (arrived order : List (Surroundings × HttpRequest)) (σ : Server F)
      → All (IsFit c) ms
      → IsLinear F c devices moved start arrived order σ
      → IsMoved F c devices moved raw sized six start
          (arrivals ms arrived)
          order
          (moves F c moved raw ms σ)
  unfolding moves arrivals
  moves-IsMoved [] arrived order σ all l = (σ, [], refl, l)
  moves-IsMoved (arrive w req ∷ ms) arrived order σ ((around, fits), all) l =
      let (σ1, added, done, l1) = arrive-IsMoved w req arrived order σ around fits l in
      rw done (
        added_twice (arrivals ms ((w, req) ∷ arrived)) added order _
          (moves-IsMoved ms ((w, req) ∷ arrived) (added ++ order) σ1 all l1))
  moves-IsMoved (resume j ∷ ms) arrived order σ (u, all) l =
      elim (Option-cases (get_elem? σ.flights j)) [
        | inl e ↦
            (let still : move F c moved raw (resume j) σ ≡ ok σ =
                unfold move in rw (e, move) refl in
              rw still (moves-IsMoved ms arrived order σ all l))
        | inr (f, there) ↦
            (let airborne =
                All-get_elem? (IsAirborne F c devices moved) σ.flights j f l.airborne there in
              let (σ1, added, done, l1) = flight-IsMoved f j arrived order σ there airborne l in
              rw done (
                added_twice (arrivals ms arrived) added order _
                  (moves-IsMoved ms arrived (added ++ order) σ1 all l1)))
      ]
