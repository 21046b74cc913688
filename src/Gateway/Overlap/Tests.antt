-- ===== src/Gateway/Overlap/Tests.antt =====
-- Tests of requests of src/http_server.cc that wait at the same time.
use zstore.Common.{ℕ, ◌≡◌, List, [], ◌∷◌, ◌++◌, All, length, replicate, ok}
use zstore.Http.{HttpRequest, Status}
use zstore.Gateway.Put.{Surroundings}
use zstore.Gateway.Session.Loop.{IsListable}
use zstore.Gateway.Session.Served.{IsServing}
use zstore.Gateway.Session.Tests.{
  conf_b, objects_b, raw_b, around_b, put_b, get_b, gateway_b, conf_b-IsSized,
  around_b-IsSurroundings, gateway_b-IsServing, no_listing,
}
use zstore.Gateway.Overlap.{Server, Move, arrive, resume, moves}
use zstore.Gateway.Overlap.Atomic.{view, in_order, statuses}
use zstore.Gateway.Overlap.Linear.{IsFit, total, arrivals, response_weight, IsLinear}
use zstore.Gateway.Overlap.Serial.{new_server, moves-IsLinear, moves-serial}
use zstore.Gateway.Overlap.Drained.{moves-drained}

-- A PUT and a GET of one key, both waiting.
abbrev arrived_b : List Move
arrived_b = arrive around_b put_b ∷ arrive around_b get_b ∷ []

-- Then the last of those that wait goes on, twice.
abbrev finished_b : List Move
finished_b = arrive around_b put_b ∷ arrive around_b get_b ∷ resume 0 ∷ resume 0 ∷ []

arrived_b-IsFit : All (IsFit conf_b) arrived_b
unfolding IsListable
arrived_b-IsFit =
    ((around_b-IsSurroundings, no_listing), ((around_b-IsSurroundings, no_listing), tt))

finished_b-IsFit : All (IsFit conf_b) finished_b
unfolding IsListable
finished_b-IsFit =
    ((around_b-IsSurroundings, no_listing), ((around_b-IsSurroundings, no_listing), (tt, (tt, tt))))

moves-IsLinear_example :
    (σ σ' : Server objects_b) × (order added : List (Surroundings × HttpRequest)) × (moves objects_b
        conf_b
        (λ r. r)
        raw_b
        arrived_b
        (new_server objects_b gateway_b)
      ≡ ok σ)
    × (moves objects_b conf_b (λ r. r) raw_b finished_b σ ≡ ok σ')
    × IsLinear objects_b conf_b gateway_b.devices
        (λ r. r)
        (view objects_b gateway_b)
        (arrivals arrived_b [])
        order
        σ
    × IsLinear objects_b conf_b gateway_b.devices
        (λ r. r)
        (view objects_b gateway_b)
        (arrivals finished_b (arrivals arrived_b []))
        (added ++ order)
        σ'
moves-IsLinear_example =
    moves-IsLinear objects_b conf_b (λ r. r) raw_b gateway_b arrived_b finished_b conf_b-IsSized
      gateway_b-IsServing arrived_b-IsFit finished_b-IsFit

moves-drained_example :
    (σ : Server objects_b) × (moves objects_b conf_b
        (λ r. r)
        raw_b
        (arrived_b ++ replicate (length (arrivals arrived_b [])) (resume 0))
        (new_server objects_b gateway_b)
      ≡ ok σ)
    × (σ.flights ≡ [])
    × (length σ.responses ≡ length (arrivals arrived_b []))
moves-drained_example =
    moves-drained objects_b conf_b (λ r. r) raw_b gateway_b arrived_b conf_b-IsSized
      gateway_b-IsServing arrived_b-IsFit

finished_b-drained :
    (σ : Server objects_b) × (moves objects_b conf_b
        (λ r. r)
        raw_b
        finished_b
        (new_server objects_b gateway_b)
      ≡ ok σ)
    × (σ.flights ≡ [])
    × (length σ.responses ≡ 2)
unfolding arrivals
finished_b-drained =
    moves-drained objects_b conf_b (λ r. r) raw_b gateway_b arrived_b conf_b-IsSized
      gateway_b-IsServing arrived_b-IsFit

moves-serial_example :
    (order : List (Surroundings × HttpRequest)) × IsServing conf_b objects_b
      finished_b-drained.0.gateway
    × (view objects_b finished_b-drained.0.gateway
        ≡ in_order objects_b conf_b gateway_b.devices (λ r. r) order (view objects_b gateway_b))
    × ((weight : Surroundings × HttpRequest → ℕ)
        → total weight order ≡ total weight (arrivals finished_b []))
    × ((weight : Surroundings × HttpRequest × Status → ℕ)
        → total (response_weight weight) finished_b-drained.0.responses
          ≡ total weight (
              statuses objects_b conf_b gateway_b.devices
                (λ r. r)
                order
                (view objects_b gateway_b)))
moves-serial_example =
    moves-serial objects_b conf_b (λ r. r) raw_b gateway_b finished_b finished_b-drained.0
      conf_b-IsSized gateway_b-IsServing finished_b-IsFit finished_b-drained.1 finished_b-drained.2
