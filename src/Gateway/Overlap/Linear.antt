-- ===== src/Gateway/Overlap/Linear.antt =====
-- Requests of src/http_server.cc that wait at the same time, against the same requests one at a time.
use mathlib.Core.Path.{subst}
use zstore.Common.{
  ℕ, zero, suc, ◌+◌, ◌≤◌, ◌≡◌, refl, ap, sym, ◌∙◌, some, List, [], ◌∷◌, ◌++◌, All, length,
  get_elem?, Result, ok, arith,
}
use zstore.Conf.{Conf}
use zstore.Device.{Device}
use zstore.Http.{HttpRequest, HttpResponse, Status, status_ok, get}
use zstore.Pool.{write}
use zstore.Pool.Held.{Held}
use zstore.Store.{MapEntry}
use zstore.Store.Map.{FlatMap}
use zstore.Gateway.Put.{Surroundings}
use zstore.Gateway.Put.Conditions.{IsSized, IsSurroundings}
use zstore.Gateway.Session.Served.{Option-some}
use zstore.Gateway.Session.Loop.{IsListable}
use zstore.Gateway.Overlap.{
  Flight, reading, writing, begin, Server, Move, arrive, resume, remove_at, move,
}
use zstore.Gateway.Overlap.Counted.{IsCounted, add_uses, all_uses, taken-IsCounted}
use zstore.Gateway.Overlap.Atomic.{View, view, atomic, in_order, statuses}
use zstore.Gateway.Overlap.Begun.{IsBusy, IsAnswered, IsReading, IsWriting, IsAimed}

unfoldable pub total : {A : Type 0} → (A → ℕ) → List A → ℕ
total weight [] = 0
total weight (x ∷ xs) = weight x + total weight xs

pub total-remove_at :
    {A : Type 0} (weight : A → ℕ) (xs : List A) (j : ℕ) (x : A)
    → get_elem? xs j ≡ some x
    → total weight xs ≡ weight x + total weight (remove_at j xs)
unfolding total remove_at
total-remove_at weight [] j x e = absurd (cc)
total-remove_at weight (y ∷ xs) zero x e = ap (λ z. weight z + total weight xs) (Option-some e)
total-remove_at weight (y ∷ xs) (suc j) x e = omega (arith, total-remove_at weight xs j x e)

pub All-get_elem? :
    {A : Type 0} (P : A → Type 0) (xs : List A) (j : ℕ) (x : A)
    → All P xs
    → get_elem? xs j ≡ some x
    → P x
All-get_elem? P [] j x all e = absurd (cc)
All-get_elem? P (y ∷ xs) zero x (p, all) e = subst P (Option-some e) p
All-get_elem? P (y ∷ xs) (suc j) x (p, all) e = All-get_elem? P xs j x all e

pub All-remove_at :
    {A : Type 0} (P : A → Type 0) (xs : List A) (j : ℕ) → All P xs → All P (remove_at j xs)
unfolding remove_at
All-remove_at P [] j all = tt
All-remove_at P (y ∷ xs) zero (p, all) = all
All-remove_at P (y ∷ xs) (suc j) (p, all) = (p, All-remove_at P xs j all)

-- The requests that have arrived, the latest first.
unfoldable pub arrivals :
    List Move → List (Surroundings × HttpRequest) → List (Surroundings × HttpRequest)
arrivals [] before = before
arrivals (arrive w req ∷ ms) before = arrivals ms ((w, req) ∷ before)
arrivals (resume j ∷ ms) before = arrivals ms before

-- What memory has to do for a request that arrives.
abbrev pub IsFit : Conf → Move → Type 0
IsFit c (arrive w req) = IsSurroundings c w × IsListable req
IsFit c (resume j) = Unit

-- A PUT that waits still has to take effect; a GET that waits has been decided, and will be OK.
abbrev pub undone : (Surroundings × HttpRequest → ℕ) → Flight → ℕ
undone weight (reading w req s) = 0
undone weight (writing w req k tuple devices slots) = weight (w, req)

abbrev pub unanswered : (Surroundings × HttpRequest × Status → ℕ) → Flight → ℕ
unanswered weight (reading w req s) = weight (w, req, status_ok)
unanswered weight (writing w req k tuple devices slots) = 0

abbrev pub response_weight :
    (Surroundings × HttpRequest × Status → ℕ) → Surroundings × HttpRequest × HttpResponse → ℕ
response_weight weight (w, req, msg) = weight (w, req, msg.status)

module _ (F : FlatMap MapEntry) (c : Conf) (devices : List Device)
    (moved : HttpRequest → HttpRequest) where
  -- What is known of a request that waits.
  abbrev pub IsAirborne : Flight → Type 0
  IsAirborne (reading w req s) = req.method ≡ get
  IsAirborne (writing w req k tuple targets slots) =
      (d1 d2 d3 : Device) × (targets ≡ (some d1, some d2, some d3))
      × IsAimed F c devices moved w req k tuple d1 d2 d3

  -- The server is where the requests in `order`, one after the other and each at one moment, lead: the
  -- entries are theirs, every request that has arrived is there once or waits to write, and every
  -- response has the status that it has there. The contexts in use are those of the requests that wait.
  pub record IsLinear (start : View) (arrived order : List (Surroundings × HttpRequest))
      (σ : Server F) : Type 0 where
    pub held : Held
    pub busy : IsBusy c F devices held σ.gateway
    pub counted : IsCounted held (all_uses σ.flights)
    pub airborne : All IsAirborne σ.flights
    pub same_view : view F σ.gateway ≡ in_order F c devices moved order start
    pub each_once :
        (weight : Surroundings × HttpRequest → ℕ)
        → total weight arrived ≡ total weight order + total (undone weight) σ.flights
    pub same_statuses :
        (weight : Surroundings × HttpRequest × Status → ℕ)
        → total weight (statuses F c devices moved order start)
          ≡ total (response_weight weight) σ.responses + total (unanswered weight) σ.flights

  module _ (raw : MapEntry) (sized : IsSized c) (six : 6 ≤ length devices) (start : View) where
    -- What a move leads to: requests are added to the order, and none goes.
    abbrev pub IsMoved :
        List (Surroundings × HttpRequest)
        → List (Surroundings × HttpRequest)
        → Result (Server F)
        → Type 0
    IsMoved arrived order result =
        (σ : Server F) × (added : List (Surroundings × HttpRequest)) × (result ≡ ok σ)
        × IsLinear start arrived (added ++ order) σ

    pub answered-IsMoved :
        (w : Surroundings) (req : HttpRequest) (arrived order : List (Surroundings × HttpRequest))
        (σ : Server F) (l : IsLinear start arrived order σ)
        → IsAnswered F c devices moved w req l.held σ.gateway (begin F c w moved raw req σ.gateway)
        → IsMoved ((w, req) ∷ arrived) order (move F c moved raw (arrive w req) σ)
    unfolding move total in_order statuses
    answered-IsMoved w req arrived order σ l a = (
      record σ { gateway = a.after; responses = (w, req, a.msg) ∷ σ.responses },
      (w, req) ∷ [],
      rw a.returns refl,
      record {
        held = l.held;
        busy = a.busy;
        counted = l.counted;
        airborne = l.airborne;
        same_view =
            (λ i j. a.same_view j i)
            ∙ ap (λ m. (atomic F c devices moved (w, req) m).1) l.same_view;
        each_once = λ weight. omega (arith, l.each_once weight);
        same_statuses = λ weight.
            (let e : a.msg.status
                  ≡ (atomic F c devices moved (w, req) (in_order F c devices moved order start)).0 =
                a.same_status ∙ ap (λ m. (atomic F c devices moved (w, req) m).0) l.same_view in
              omega (arith, l.same_statuses weight, ap (λ x. weight (w, req, x)) e));
      },
    )

    pub reading-IsMoved :
        (w : Surroundings) (req : HttpRequest) (arrived order : List (Surroundings × HttpRequest))
        (σ : Server F) (l : IsLinear start arrived order σ)
        → IsReading F c devices moved w req l.held σ.gateway (begin F c w moved raw req σ.gateway)
        → IsMoved ((w, req) ∷ arrived) order (move F c moved raw (arrive w req) σ)
    unfolding move total in_order statuses all_uses add_uses
    reading-IsMoved w req arrived order σ l a = (
      record σ { gateway = a.after; flights = reading w req a.slot ∷ σ.flights },
      (w, req) ∷ [],
      rw a.returns refl,
      record {
        held = write l.held a.slot (some a.context);
        busy = a.busy;
        counted =
            taken-IsCounted l.held (all_uses σ.flights) a.slot a.context l.counted a.free
              a.has_ctrl;
        airborne = (a.is_get, l.airborne);
        same_view =
            (λ i j. a.same_view j i)
            ∙ ap (λ m. (atomic F c devices moved (w, req) m).1) l.same_view;
        each_once = λ weight. omega (arith, l.each_once weight);
        same_statuses = λ weight.
            (let e : (atomic F c devices moved (w, req) (in_order F c devices moved order start)).0
                  ≡ status_ok =
                ap (λ m. (atomic F c devices moved (w, req) m).0) (sym l.same_view)
                ∙ a.same_status in
              omega (arith, l.same_statuses weight, ap (λ x. weight (w, req, x)) e));
      },
    )

    pub writing-IsMoved :
        (w : Surroundings) (req : HttpRequest) (arrived order : List (Surroundings × HttpRequest))
        (σ : Server F) (l : IsLinear start arrived order σ)
        → IsWriting F c devices moved w req l.held σ.gateway (begin F c w moved raw req σ.gateway)
        → IsMoved ((w, req) ∷ arrived) order (move F c moved raw (arrive w req) σ)
    unfolding move total in_order statuses all_uses add_uses
    writing-IsMoved w req arrived order σ l a =
        let h1 = write l.held a.s1 (some a.r1) in
        let h2 = write h1 a.s2 (some a.r2) in
        let k1 = taken-IsCounted l.held (all_uses σ.flights) a.s1 a.r1 l.counted a.free1 a.ctrl1 in
        let k2 = taken-IsCounted h1 _ a.s2 a.r2 k1 a.free2 a.ctrl2 in
        (
          record σ {
            gateway = a.after;
            flights =
                writing w req a.key_hash a.tuple (some a.dev1, some a.dev2, some a.dev3)
                  (a.s1, a.s2, a.s3)
                ∷ σ.flights;
          },
          [],
          rw a.returns refl,
          record {
            held = write h2 a.s3 (some a.r3);
            busy = a.busy;
            counted = taken-IsCounted h2 _ a.s3 a.r3 k2 a.free3 a.ctrl3;
            airborne = ((a.dev1, a.dev2, a.dev3, refl, a.aimed), l.airborne);
            same_view = (λ i j. a.same_view j i) ∙ l.same_view;
            each_once = λ weight. omega (arith, l.each_once weight);
            same_statuses = λ weight. omega (arith, l.same_statuses weight);
          },
        )
