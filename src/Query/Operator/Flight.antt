-- ===== src/Query/Operator/Flight.antt =====
-- query/index.ts: calls of `getHealthyRpc` (`getHealthyApi` is alike) that overlap. Those that need a
-- health check share one, `rpcHealthCheckInFlight`, and resume in turn when it ends.
use cosmad.Prelude.{
  ℕ, ◌≤◌, String, Bool, true, false, Option, List, [], ◌∷◌, ◌++◌, map, if◌then◌else◌,
}
use cosmad.Query.Health.{Health}
use cosmad.Query.Operator.{Endpoints, is_due, pick}

-- A call is known by a number. `waiting` are the calls that await the check in flight.
pub record Flight : Type 0 where
  pub endpoints : Endpoints
  pub in_flight : Bool
  pub waiting : List ℕ
  pub answered : List (ℕ × Option String)

-- A call made at a time, and the end of the check in flight, with its result.
pub data Event : Type 0 where
  called : (now caller : ℕ) → Event
  ended : (now : ℕ) → Health → Event

-- The rest of a call, after the check it may have awaited.
unfoldable pub resume : ℕ → Flight → Flight
resume caller s =
    let (choice, next) = pick s.endpoints in
    record s { endpoints = next; answered = s.answered ++ (caller, choice) ∷ [] }

unfoldable pub resume_all : List ℕ → Flight → Flight
resume_all [] s = s
resume_all (c ∷ cs) s = resume_all cs (resume c s)

module _ (interval : ℕ) where
  unfoldable pub step : Event → Flight → Flight
  step (called now caller) s =
      if is_due interval now s.endpoints
      then record s { in_flight = true; waiting = s.waiting ++ caller ∷ [] }
      else resume caller s
  step (ended now health) s =
      let e : Endpoints = record { health = health; index = s.endpoints.index; last_check = now } in
      let rest =
        resume_all s.waiting (record s { endpoints = e; in_flight = false; waiting = [] }) in
      if s.in_flight then rest else s

  unfoldable pub steps : List Event → Flight → Flight
  steps [] s = s
  steps (e ∷ es) s = steps es (step e s)

abbrev pub at_start : Endpoints → Flight
at_start e = record { endpoints = e; in_flight = false; waiting = []; answered = [] }

-- The calls, in the order in which they are made.
abbrev pub callers : List Event → List ℕ
callers [] = []
callers (called now caller ∷ es) = caller ∷ callers es
callers (ended now health ∷ es) = callers es

-- The clock does not go back.
abbrev pub InOrder : ℕ → List Event → Type 0
InOrder clock [] = Unit
InOrder clock (called now caller ∷ es) = (clock ≤ now) × InOrder now es
InOrder clock (ended now health ∷ es) = (clock ≤ now) × InOrder now es

-- The calls answered and those that wait.
abbrev pub served : Flight → List ℕ
served s = map (λ a. a.0) s.answered ++ s.waiting
