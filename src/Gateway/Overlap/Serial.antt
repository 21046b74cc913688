-- ===== src/Gateway/Overlap/Serial.antt =====
-- What clients see of a gateway (src/http_server.cc) whose requests wait for SPDK at the same time.
use zstore.Common.{
  ℕ, ◌≡◌, inl, inr, refl, sym, ◌∙◌, none, List, [], ◌++◌, All, ok, ok-injective, arith,
}
use mathlib.Core.List.{append-nil}
use mathlib.Core.Path.{subst}
use zstore.Conf.{Conf}
use zstore.Http.{HttpRequest, Status}
use zstore.Pool.Held.{Held, IsOwned, nothing_held}
use zstore.Store.{MapEntry}
use zstore.Store.Map.{FlatMap}
use zstore.Gateway.{Gateway}
use zstore.Gateway.Put.{Surroundings}
use zstore.Gateway.Put.Conditions.{IsSized}
use zstore.Gateway.Session.Served.{IsServing}
use zstore.Gateway.Overlap.{Server, Move, moves}
use zstore.Gateway.Overlap.Counted.{IsCounted, all_uses, nothing-IsCounted}
use zstore.Gateway.Overlap.Atomic.{view, in_order, statuses}
use zstore.Gateway.Overlap.Linear.{IsFit, total, arrivals, response_weight, IsLinear}
use zstore.Gateway.Overlap.Moved.{moves-IsMoved}

-- Nobody waits yet.
abbrev pub new_server : (F : FlatMap MapEntry) → Gateway F → Server F
new_server F g = record { gateway = g; flights = []; responses = [] }

new_server-IsLinear :
    (F : FlatMap MapEntry) (c : Conf) (moved : HttpRequest → HttpRequest) (g : Gateway F)
    → IsServing c F g
    → IsLinear F c g.devices moved (view F g) [] [] (new_server F g)
unfolding total in_order statuses
new_server-IsLinear F c moved g s = record {
  held = nothing_held;
  busy = record { owned = s.ready.idle; same_devices = refl; hash = s.ready.hash; known = s.known };
  counted = nothing-IsCounted;
  airborne = tt;
  same_view = refl;
  each_once = λ weight. refl;
  same_statuses = λ weight. refl;
}

pub moves-ordered :
    (F : FlatMap MapEntry) (c : Conf) (moved : HttpRequest → HttpRequest) (raw : MapEntry)
    (g : Gateway F) (ms : List Move)
    → IsSized c
    → IsServing c F g
    → All (IsFit c) ms
    → (σ : Server F) × (order : List (Surroundings × HttpRequest)) × (moves F c moved raw ms
          (new_server F g)
        ≡ ok σ)
      × IsLinear F c g.devices moved (view F g) (arrivals ms []) order σ
moves-ordered F c moved raw g ms sized s all =
    let (σ, added, runs, l) =
      moves-IsMoved F c g.devices moved raw sized s.ready.six (view F g) ms [] [] (new_server F g)
        all (new_server-IsLinear F c moved g s) in
    (
      σ,
      added,
      runs,
      subst (λ o. IsLinear F c g.devices moved (view F g) (arrivals ms []) o σ) (append-nil added)
          l,
    )

-- From a gateway that serves, no order in which requests arrive and go on stops it. After the moves `ms`,
-- and after the moves `ns` that follow, the contexts in use are those of the requests that wait, and none
-- is used by two; and there is an order of the requests, one after the other and each at one moment, that
-- has led to the same entries and the same statuses, a GET that waits being decided and a PUT that waits
-- not. What follows only adds to the order: a request that has its response stands there before every
-- request that arrives later. The conditions: the sizes fit, the memory is there for each request, and no
-- listing asks for 2^31 keys.
pub moves-IsLinear :
    (F : FlatMap MapEntry) (c : Conf) (moved : HttpRequest → HttpRequest) (raw : MapEntry)
    (g : Gateway F) (ms ns : List Move)
    → IsSized c
    → IsServing c F g
    → All (IsFit c) ms
    → All (IsFit c) ns
    → (σ σ' : Server F) × (order added : List (Surroundings × HttpRequest)) × (moves F c moved raw
          ms
          (new_server F g)
        ≡ ok σ)
      × (moves F c moved raw ns σ ≡ ok σ')
      × IsLinear F c g.devices moved (view F g) (arrivals ms []) order σ
      × IsLinear F c g.devices moved (view F g) (arrivals ns (arrivals ms [])) (added ++ order) σ'
moves-IsLinear F c moved raw g ms ns sized s all later =
    let (σ, order, runs, l) = moves-ordered F c moved raw g ms sized s all in
    let (σ', added, runs', l') =
      moves-IsMoved F c g.devices moved raw sized s.ready.six (view F g) ns (arrivals ms []) order σ
        later l in
    (σ, σ', order, added, runs, runs', l, l')

counted-nothing : (h : Held) → IsCounted h (all_uses []) → h ≡ nothing_held
unfolding IsCounted all_uses
counted-nothing h counted = λ i t.
    (let e : h t ≡ none = elim (counted t) [
      | inl (z, off) ↦ off
      | inr (z, r, here, ctrl) ↦ absurd (omega (arith, z))
    ] in
      e i)

-- From a gateway that serves, where nobody waits any more after some moves, the gateway serves as before,
-- and all its requests are as if each had run at one moment, in some order: the entries in the end are
-- those, each request is there as often as it arrived, and each response has the status that it has
-- there. The conditions: the sizes fit, the memory is there for each request, and no listing asks for
-- 2^31 keys.
pub moves-serial :
    (F : FlatMap MapEntry) (c : Conf) (moved : HttpRequest → HttpRequest) (raw : MapEntry)
    (g : Gateway F) (ms : List Move) (σ : Server F)
    → IsSized c
    → IsServing c F g
    → All (IsFit c) ms
    → moves F c moved raw ms (new_server F g) ≡ ok σ
    → σ.flights ≡ []
    → (order : List (Surroundings × HttpRequest)) × IsServing c F σ.gateway
      × (view F σ.gateway ≡ in_order F c g.devices moved order (view F g))
      × ((weight : Surroundings × HttpRequest → ℕ)
          → total weight order ≡ total weight (arrivals ms []))
      × ((weight : Surroundings × HttpRequest × Status → ℕ)
          → total (response_weight weight) σ.responses
            ≡ total weight (statuses F c g.devices moved order (view F g)))
unfolding total
moves-serial F c moved raw g ms σ sized s all runs landed =
    let (σ', order, done, l') = moves-ordered F c moved raw g ms sized s all in
    let l : IsLinear F c g.devices moved (view F g) (arrivals ms []) order σ =
      subst (IsLinear F c g.devices moved (view F g) (arrivals ms []) order)
        (ok-injective σ' σ (sym done ∙ runs)) l' in
    let free : l.held ≡ nothing_held =
      counted-nothing l.held (subst (λ fs. IsCounted l.held (all_uses fs)) landed l.counted) in
    (
      order,
      record {
        ready = record {
          idle = subst (IsOwned c σ.gateway.contexts) free l.busy.owned;
          six = rw l.busy.same_devices s.ready.six;
          hash = l.busy.hash;
        };
        known = λ k e there. rw l.busy.same_devices (l.busy.known k e there);
      },
      l.same_view,
      λ weight. (let e = l.each_once weight in let e' = rw landed at e in omega (arith, e')),
      λ weight. (let e = l.same_statuses weight in let e' = rw landed at e in omega (arith, e')),
    )
