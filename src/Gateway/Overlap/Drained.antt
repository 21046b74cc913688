-- ===== src/Gateway/Overlap/Drained.antt =====
-- The requests of src/http_server.cc that wait, until none does.
use zstore.Common.{
  ℕ, zero, suc, ◌+◌, ◌≤◌, ◌≡◌, refl, ap, sym, ◌∙◌, inl, inr, none, some, List, [], ◌∷◌, ◌++◌, All,
  length, get_elem?, replicate, Fault, Result, Result-cases, ok, err, ok-injective, arith,
}
use zstore.Conf.{Conf}
use zstore.Device.{Device}
use zstore.Http.{HttpRequest, HttpResponse}
use zstore.Store.{MapEntry}
use zstore.Store.Map.{FlatMap}
use zstore.Gateway.{Gateway}
use zstore.Gateway.Put.{Surroundings}
use zstore.Gateway.Put.Conditions.{IsSized}
use zstore.Gateway.Session.Served.{IsServing}
use zstore.Gateway.Overlap.{
  Flight, reading, writing, Server, Move, resume, remove_at, request_of, finish, move, moves,
}
use zstore.Gateway.Overlap.Atomic.{View, view, statuses}
use zstore.Gateway.Overlap.Linear.{
  IsFit, total, arrivals, undone, unanswered, response_weight, IsLinear,
}
use zstore.Gateway.Overlap.Moved.{flight-IsMoved}
use zstore.Gateway.Overlap.Serial.{new_server, moves-ordered}

total-responses :
    (rs : List (Surroundings × HttpRequest × HttpResponse))
    → total (response_weight (λ x. 1)) rs ≡ length rs
unfolding total
total-responses [] = refl
total-responses ((w, req, msg) ∷ rs) = omega (arith, total-responses rs)

total-length : (xs : List (Surroundings × HttpRequest)) → total (λ x. 1) xs ≡ length xs
unfolding total
total-length [] = refl
total-length (x ∷ xs) = omega (arith, total-length xs)

total-flights :
    (fs : List Flight) → total (undone (λ x. 1)) fs + total (unanswered (λ x. 1)) fs ≡ length fs
unfolding total
total-flights [] = refl
total-flights (reading w req s ∷ fs) = omega (arith, total-flights fs)
total-flights (writing w req k tuple targets slots ∷ fs) = omega (arith, total-flights fs)

module _ (F : FlatMap MapEntry) (c : Conf) (devices : List Device)
    (moved : HttpRequest → HttpRequest) (start : View) where
  total-statuses :
      (order : List (Surroundings × HttpRequest))
      → total (λ x. 1) (statuses F c devices moved order start) ≡ total (λ x. 1) order
  unfolding total statuses
  total-statuses [] = refl
  total-statuses (x ∷ order) = omega (arith, total-statuses order)

  -- Every request that has arrived has its response, or waits.
  responses-flights :
      (arrived order : List (Surroundings × HttpRequest)) (σ : Server F)
      → IsLinear F c devices moved start arrived order σ
      → length arrived ≡ length σ.responses + length σ.flights
  responses-flights arrived order σ l = omega (
    arith,
    l.each_once (λ x. 1),
    l.same_statuses (λ x. 1),
    total-statuses order,
    total-responses σ.responses,
    total-length arrived,
    total-length order,
    total-flights σ.flights,
  )

  module _ (raw : MapEntry) where
    abbrev IsDrained : List (Surroundings × HttpRequest) → Result (Server F) → Type 0
    IsDrained arrived result =
        (σ : Server F) × (order : List (Surroundings × HttpRequest)) × (result ≡ ok σ)
        × (σ.flights ≡ [])
        × IsLinear F c devices moved start arrived order σ

    move_lem :
        (σ : Server F) (f : Flight) (fs : List Flight) (msg : HttpResponse) (g : Gateway F)
        → σ.flights ≡ f ∷ fs
        → finish F f σ.gateway ≡ ok (msg, g)
        → move F c moved raw (resume 0) σ
          ≡ ok (record {
            gateway = g;
            flights = remove_at 0 σ.flights;
            responses = ((request_of f).0, (request_of f).1, msg) ∷ σ.responses;
          })
    unfolding move
    move_lem σ f fs msg g e a =
        let there : get_elem? σ.flights 0 ≡ some f = ap (λ x. get_elem? x 0) e in
        rw (there, move) (rw a refl)

    stop_lem :
        (σ : Server F) (f : Flight) (fs : List Flight) (x : Fault)
        → σ.flights ≡ f ∷ fs
        → finish F f σ.gateway ≡ err x
        → move F c moved raw (resume 0) σ ≡ err x
    unfolding move
    stop_lem σ f fs x e a =
        let there : get_elem? σ.flights 0 ≡ some f = ap (λ x. get_elem? x 0) e in
        rw (there, move) (rw a refl)

    -- The request that waits first goes on, and does not wait any more.
    next-flights :
        (σ σ' : Server F) (f : Flight) (fs : List Flight)
        → σ.flights ≡ f ∷ fs
        → move F c moved raw (resume 0) σ ≡ ok σ'
        → σ'.flights ≡ fs
    unfolding remove_at
    next-flights σ σ' f fs e done = elim (Result-cases (finish F f σ.gateway)) [
      | inl ((msg, g), a) ↦
          (let left = move_lem σ f fs msg g e a in
            sym (ap (λ τ. τ.flights) (ok-injective _ σ' (sym left ∙ done))) ∙ ap (remove_at 0) e)
      | inr (x, a) ↦ absurd (let left = stop_lem σ f fs x e a in cc)
    ]

    drain :
        (sized : IsSized c) (six : 6 ≤ length devices) (n : ℕ)
        (arrived order : List (Surroundings × HttpRequest)) (fs : List Flight) (σ : Server F)
        → σ.flights ≡ fs
        → length fs ≤ n
        → IsLinear F c devices moved start arrived order σ
        → IsDrained arrived (moves F c moved raw (replicate n (resume 0)) σ)
    unfolding moves
    drain sized six zero arrived order [] σ e few l = (σ, order, refl, e, l)
    drain sized six zero arrived order (f ∷ fs) σ e few l = absurd (omega (arith, few))
    drain sized six (suc n) arrived order [] σ e few l =
        let none_there : get_elem? σ.flights 0 ≡ none = ap (λ x. get_elem? x 0) e in
        let still : move F c moved raw (resume 0) σ ≡ ok σ =
          unfold move in rw (none_there, move) refl in
        rw still (drain sized six n arrived order [] σ e (omega arith) l)
    drain sized six (suc n) arrived order (f ∷ fs) σ e few l =
        let airborne = rw e at l.airborne in
        let (σ1, added, done, l1) =
          flight-IsMoved F c devices moved raw sized six start f 0 arrived order σ (rw e refl)
            airborne.0 l in
        rw done (
          drain sized six n arrived (added ++ order) fs σ1 (next-flights σ σ1 f fs e done)
            (omega (arith, few)) l1)

-- The moves of `ms`, and then the others.
moves-append :
    (F : FlatMap MapEntry) (c : Conf) (moved : HttpRequest → HttpRequest) (raw : MapEntry)
    (ms ns : List Move) (σ σ' : Server F)
    → moves F c moved raw ms σ ≡ ok σ'
    → moves F c moved raw (ms ++ ns) σ ≡ moves F c moved raw ns σ'
unfolding moves
moves-append F c moved raw [] ns σ σ' e = ap (moves F c moved raw ns) (ok-injective σ σ' e)
moves-append F c moved raw (m ∷ ms) ns σ σ' e = elim (Result-cases (move F c moved raw m σ)) [
  | inl (τ, a) ↦ rw a (moves-append F c moved raw ms ns τ σ' (rw a at e))
  | inr (x, a) ↦ absurd (let f : err x ≡ ok σ' = rw a at e in cc)
]

-- From a gateway that serves, after any moves, as many steps of waiting requests as requests have arrived
-- leave none that waits: the gateway has not stopped, and there are as many responses as requests. The
-- conditions: the sizes fit, the memory is there for each request, and no listing asks for 2^31 keys.
pub moves-drained :
    (F : FlatMap MapEntry) (c : Conf) (moved : HttpRequest → HttpRequest) (raw : MapEntry)
    (g : Gateway F) (ms : List Move)
    → IsSized c
    → IsServing c F g
    → All (IsFit c) ms
    → (σ : Server F) × (moves F c moved raw
          (ms ++ replicate (length (arrivals ms [])) (resume 0))
          (new_server F g)
        ≡ ok σ)
      × (σ.flights ≡ [])
      × (length σ.responses ≡ length (arrivals ms []))
moves-drained F c moved raw g ms sized s all =
    let (σ, order, runs, l) = moves-ordered F c moved raw g ms sized s all in
    let arrived = arrivals ms [] in
    let few = responses-flights F c g.devices moved (view F g) arrived order σ l in
    let (σ', order', rest, none_left, l') =
      drain F c g.devices moved (view F g) raw sized s.ready.six (length arrived) arrived order
        σ.flights σ refl (omega (arith, few)) l in
    let answered = responses-flights F c g.devices moved (view F g) arrived order' σ' l' in
    (
      σ',
      moves-append F c moved raw ms _ (new_server F g) σ runs ∙ rest,
      none_left,
      omega (arith, answered, ap length none_left),
    )
