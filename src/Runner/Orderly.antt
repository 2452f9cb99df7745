-- ===== src/Runner/Orderly.antt =====
-- runner.ts: in which order the processes start, and that they are not left behind.
use mathlib.Core.List.{append_assoc, append-nil}
use cosmad.Prelude.{
  ℕ, ◌≡◌, refl, sym, subst, String, Bool, true, false, not, ◌&&◌, Option, none, some, List, [], ◌∷◌,
  ◌++◌, arith, str_eq, Bool-cases, Option-cases, inl, inr,
}
use cosmad.Runner.{
  Phase, starting_engine, starting_ingestion, starting_api, running, Exit, exited_with, killed,
  Runner, Event, message, timed_out, exited, interrupted, at_start, kill_all, is_unexpected,
  awaited, is_running, spawn, proceed, handle, step, run,
}
use cosmad.Runner.Ready.{AllowsPhase, Ready, step-alive, step-ended, step-Ready}

-- The processes that are there in each phase.
abbrev pub started_by : Bool → Phase → List String
started_by api starting_engine = "engine" ∷ []
started_by api starting_ingestion = "engine" ∷ "ingestion" ∷ []
started_by api starting_api = "engine" ∷ "ingestion" ∷ "api" ∷ []
started_by true running = "engine" ∷ "ingestion" ∷ "api" ∷ []
started_by false running = "engine" ∷ "ingestion" ∷ []

-- Which of them were sent SIGTERM, by how the supervisor ended.
abbrev pub told_by : Option Exit → List String → List String
told_by none children = []
told_by (some killed) children = []
told_by (some (exited_with code)) children = children

pub record Orderly (api : Bool) (r : Runner) : Type 0 where
  pub in_phase : r.children ≡ started_by api r.phase
  pub told : r.terminated ≡ told_by r.exit r.children
  pub allowed : AllowsPhase api r.phase

module _ (api : Bool) where
  kill_all-Orderly : (code : ℕ) (r : Runner) → Orderly api r → Orderly api (kill_all code r)
  unfolding kill_all
  kill_all-Orderly code r o = record { in_phase = o.in_phase; told = refl; allowed = o.allowed }

  proceed-Orderly :
      (phase : Phase) (r : Runner)
      → r.phase ≡ phase
      → r.exit ≡ none
      → Orderly api r
      → Orderly api (proceed api phase r)
  unfolding proceed spawn
  proceed-Orderly starting_engine r at x o = record {
    in_phase = ground (arith, o.in_phase, at);
    told = ground (arith, o.told, x);
    allowed = λ e. absurd (ground (arith, e));
  }
  proceed-Orderly starting_ingestion r at x o = elim (Bool-cases api) [
    | inl b ↦ rw (b) (record {
      in_phase = ground (arith, o.in_phase, at);
      told = ground (arith, o.told, x);
      allowed = λ e. refl;
    })
    | inr b ↦ rw (b) (record {
      in_phase = ground (arith, o.in_phase, at);
      told = ground (arith, o.told, x);
      allowed = λ e. absurd (ground (arith, e));
    })
  ]
  proceed-Orderly starting_api r at x o =
      let enabled = o.allowed at in
      record {
        in_phase = ground (arith, o.in_phase, at, enabled);
        told = ground (arith, o.told, x);
        allowed = λ e. absurd (ground (arith, e));
      }
  proceed-Orderly running r at x o = o

  handle-Orderly :
      (e : Event) (r : Runner) → r.exit ≡ none → Orderly api r → Orderly api (handle api e r)
  unfolding handle
  handle-Orderly (message name is_ready) r x o =
      elim (Bool-cases (str_eq name (awaited r.phase) && r.listening)) [
        | inr b ↦ rw (b) o
        | inl b ↦ elim (Bool-cases is_ready) [
          | inl q ↦ rw (b, q) (proceed-Orderly r.phase r refl x o)
          | inr q ↦ rw (b, q) (record { in_phase = o.in_phase; told = o.told; allowed = o.allowed })
        ]
      ]
  handle-Orderly (timed_out name) r x o =
      elim (Bool-cases (str_eq name (awaited r.phase) && not (is_running r.phase))) [
        | inl b ↦ rw (b) (kill_all-Orderly 1 r o)
        | inr b ↦ rw (b) o
      ]
  handle-Orderly (exited name code signal) r x o = elim (Bool-cases (is_unexpected code signal)) [
    | inl b ↦ rw (b) (kill_all-Orderly 1 r o)
    | inr b ↦ elim (Bool-cases (str_eq name "engine")) [
      | inl q ↦ rw (b, q) (record { in_phase = o.in_phase; told = o.told; allowed = o.allowed })
      | inr q ↦ rw (b, q) o
    ]
  ]
  handle-Orderly interrupted r x o = elim (Bool-cases (is_running r.phase)) [
    | inl b ↦ rw (b) (kill_all-Orderly 0 r o)
    | inr b ↦
        rw (b)
          (record { in_phase = o.in_phase; told = ground (arith, o.told, x); allowed = o.allowed })
  ]

  step-Orderly : (e : Event) (r : Runner) → Orderly api r → Orderly api (step api e r)
  unfolding step
  step-Orderly e r o = elim (Option-cases r.exit) [
    | inl x ↦ subst (Orderly api) (sym (step-alive api e r x)) (handle-Orderly e r x o)
    | inr (end, x) ↦ subst (Orderly api) (sym (step-ended api e r end x)) o
  ]

  run-keeps :
      (past es : List Event) (r : Runner)
      → Orderly api r
      → Ready api r.phase past
      → Orderly api (run api es r) × Ready api (run api es r).phase (past ++ es)
  unfolding run
  run-keeps past [] r o h = (o, subst (Ready api r.phase) (sym (append-nil past)) h)
  run-keeps past (e ∷ es) r o h =
      subst
        (λ l.
          Orderly api (run api es (step api e r)) × Ready api (run api es (step api e r)).phase l)
        (append_assoc past (e ∷ []) es)
        (run-keeps (past ++ e ∷ []) es (step api e r) (step-Orderly e r o)
          (step-Ready api e r past o.allowed h))

-- Whatever happens to the processes and in whatever order: the engine is started first, the
-- ingestion only once the engine has said that it is ready, and the API only once the ingestion
-- has said so as well and if the API is enabled, each once; and where the supervisor has ended
-- itself, every process that it had started was sent SIGTERM, and none was before.
pub run-Orderly :
    (api : Bool) (es : List Event)
    → Orderly api (run api es at_start) × Ready api (run api es at_start).phase es
run-Orderly api es =
    run-keeps api [] es at_start
      (record { in_phase = refl; told = refl; allowed = λ e. absurd (ground (arith, e)) }) tt
