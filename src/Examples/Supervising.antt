-- ===== src/Examples/Supervising.antt =====
-- The theorems on the supervisor, at a run in which the API process fails, and at a start that finds
-- the engine of an earlier run.
use cosmad.Prelude.{suc, ◌+◌, ◌*◌, ◌≡◌, refl, true, some, none, List, [], ◌∷◌, ltb, arith}
use cosmad.Runner.{Event, message, exited, interrupted, at_start, run}
use cosmad.Runner.Reap.{Found, Signal, sigterm, sigkill, reap, Spares, reap-Spares}
use cosmad.Runner.Ready.{Ready}
use cosmad.Runner.Orderly.{Orderly, run-Orderly}

abbrev api_fails : List Event
api_fails =
    message "engine" true
    ∷ message "ingestion" true
    ∷ message "api" true
    ∷ exited "api" (some 1) none
    ∷ interrupted
    ∷ []

all_told : (run true api_fails at_start).terminated ≡ "engine" ∷ "ingestion" ∷ "api" ∷ []
unfolding run
all_told = refl

run-Orderly_example :
    Orderly true (run true api_fails at_start)
    × Ready true (run true api_fails at_start).phase api_fails
run-Orderly_example = run-Orderly true api_fails

-- The engine dies between the fourth question and the fifth, on SIGTERM.
abbrev slow_engine : Found
slow_engine = record {
  has_file = true;
  pid = some 4321;
  alive = (λ k. ltb k 4);
  is_engine = true;
  clock = (λ k. 1000 + 200 * k);
}

terminated_only : reap slow_engine 55 ≡ some (sigterm 4321 ∷ [])
unfolding reap
terminated_only = refl

-- One that SIGTERM does not end.
abbrev stuck_engine : Found
stuck_engine = record {
  has_file = true;
  pid = some 4321;
  alive = (λ k. ltb k 60);
  is_engine = true;
  clock = (λ k. 1000 + 200 * k);
}

killed : reap stuck_engine 111 ≡ some (sigterm 4321 ∷ sigkill 4321 ∷ [])
unfolding reap
killed = refl

reap-Spares_example :
    (signals : List Signal) × (reap stuck_engine (suc (50 + 60)) ≡ some signals)
    × Spares stuck_engine signals
reap-Spares_example =
    reap-Spares stuck_engine 60 (omega arith) (λ k. omega arith) (λ k l. ground (arith, l))
