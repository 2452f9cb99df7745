-- ===== src/Runner/Ready.antt =====
-- runner.ts: that a process starts only once the one before it has said that it is ready.
use cosmad.Prelude.{
  ◌≡◌, refl, sym, subst, String, Bool, true, false, not, ◌&&◌, none, some, List, [], ◌∷◌, ◌⊎◌, ◌++◌,
  eq_iff, arith, str_eq, Bool-cases, Option-cases, inl, inr,
}
use cosmad.Runner.{
  Phase, starting_engine, starting_ingestion, starting_api, running, Exit, Runner, Event, message,
  timed_out, exited, interrupted, kill_all, is_unexpected, awaited, is_running, spawn, proceed,
  handle, step,
}

-- The API waits only where it is enabled.
abbrev pub AllowsPhase : Bool → Phase → Type 0
AllowsPhase api phase = phase ≡ starting_api → api ≡ true

-- The process has said that it is ready.
abbrev pub Heard : String → List Event → Type 0
Heard name [] = ⊥
Heard name (e ∷ es) = (e ≡ message name true) ⊎ Heard name es

-- Which processes have said so, by how far the supervisor has come.
abbrev pub Ready : Bool → Phase → List Event → Type 0
Ready api starting_engine es = Unit
Ready api starting_ingestion es = Heard "engine" es
Ready api starting_api es = Heard "engine" es × Heard "ingestion" es
Ready true running es = Heard "engine" es × Heard "ingestion" es × Heard "api" es
Ready false running es = Heard "engine" es × Heard "ingestion" es

-- What has happened, and then one more event.
module _ (api : Bool) where
  Heard-later :
      (name : String) (es : List Event) (e : Event) → Heard name es → Heard name (es ++ e ∷ [])
  Heard-later name [] e h = elim h [ ]
  Heard-later name (d ∷ es) e (inl h) = inl h
  Heard-later name (d ∷ es) e (inr h) = inr (Heard-later name es e h)

  Heard-now : (name : String) (es : List Event) → Heard name (es ++ message name true ∷ [])
  Heard-now name [] = inl refl
  Heard-now name (d ∷ es) = inr (Heard-now name es)

  Ready-later :
      (b : Bool) (phase : Phase) (es : List Event) (e : Event)
      → Ready b phase es
      → Ready b phase (es ++ e ∷ [])
  Ready-later b starting_engine es e h = tt
  Ready-later b starting_ingestion es e h = Heard-later "engine" es e h
  Ready-later b starting_api es e (h, i) =
      (Heard-later "engine" es e h, Heard-later "ingestion" es e i)
  Ready-later true running es e (h, i, a) =
      (Heard-later "engine" es e h, Heard-later "ingestion" es e i, Heard-later "api" es e a)
  Ready-later false running es e (h, i) =
      (Heard-later "engine" es e h, Heard-later "ingestion" es e i)

  Ready-proceed :
      (phase : Phase) (r : Runner) (es : List Event)
      → r.phase ≡ phase
      → AllowsPhase api phase
      → Ready api phase es
      → Ready api (proceed api phase r).phase (es ++ message (awaited phase) true ∷ [])
  unfolding proceed spawn
  Ready-proceed starting_engine r es at may h = Heard-now "engine" es
  Ready-proceed starting_ingestion r es at may h = elim (Bool-cases api) [
    | inl b ↦
        ground
          (arith, b, Heard-now "ingestion" es, Heard-later "engine" es (message "ingestion" true) h)
    | inr b ↦
        ground
          (arith, b, Heard-now "ingestion" es, Heard-later "engine" es (message "ingestion" true) h)
  ]
  Ready-proceed starting_api r es at may (h, i) =
      let enabled = may refl in
      let said = message "api" true in
      let all : Heard "engine" (es ++ said ∷ [])
          × Heard "ingestion" (es ++ said ∷ [])
          × Heard "api" (es ++ said ∷ []) =
        (Heard-later "engine" es said h, Heard-later "ingestion" es said i, Heard-now "api" es) in
      rw enabled all
  Ready-proceed running r es at may h = rw at (Ready-later api running es (message "" true) h)

  handle-Ready :
      (e : Event) (r : Runner) (es : List Event)
      → AllowsPhase api r.phase
      → Ready api r.phase es
      → Ready api (handle api e r).phase (es ++ e ∷ [])
  unfolding handle kill_all
  handle-Ready (message name is_ready) r es may h =
      let later = λ (q : Bool). Ready-later api r.phase es (message name q) h in
      elim (Bool-cases (str_eq name (awaited r.phase) && r.listening)) [
        | inr b ↦ rw (b) (later is_ready)
        | inl b ↦ elim (Bool-cases is_ready) [
          | inr q ↦ rw (b, q) (later false)
          | inl q ↦
              let is_awaited : name ≡ awaited r.phase =
                ground (arith, eq_iff name (awaited r.phase)) in
              rw (b, q)
                (subst (λ n. Ready api (proceed api r.phase r).phase (es ++ message n true ∷ []))
                  (sym is_awaited) (Ready-proceed r.phase r es refl may h))
        ]
      ]
  handle-Ready (timed_out name) r es may h =
      let later = Ready-later api r.phase es (timed_out name) h in
      elim (Bool-cases (str_eq name (awaited r.phase) && not (is_running r.phase))) [
        | inl b ↦ rw (b) later
        | inr b ↦ rw (b) later
      ]
  handle-Ready (exited name code signal) r es may h =
      let later = Ready-later api r.phase es (exited name code signal) h in
      elim (Bool-cases (is_unexpected code signal)) [
        | inl b ↦ rw (b) later
        | inr b ↦ elim (Bool-cases (str_eq name "engine")) [
          | inl q ↦ rw (b, q) later
          | inr q ↦ rw (b, q) later
        ]
      ]
  handle-Ready interrupted r es may h =
      let later = Ready-later api r.phase es interrupted h in
      elim (Bool-cases (is_running r.phase)) [ inl b ↦ rw (b) later | inr b ↦ rw (b) later ]

  pub step-alive : (e : Event) (r : Runner) → r.exit ≡ none → step api e r ≡ handle api e r
  unfolding step
  step-alive e r x = ground (arith, x)

  pub step-ended : (e : Event) (r : Runner) (end : Exit) → r.exit ≡ some end → step api e r ≡ r
  unfolding step
  step-ended e r end x = ground (arith, x)

  pub step-Ready :
      (e : Event) (r : Runner) (es : List Event)
      → AllowsPhase api r.phase
      → Ready api r.phase es
      → Ready api (step api e r).phase (es ++ e ∷ [])
  step-Ready e r es may h = elim (Option-cases r.exit) [
    | inl x ↦
        subst (λ (q : Runner). Ready api q.phase (es ++ e ∷ [])) (sym (step-alive e r x))
          (handle-Ready e r es may h)
    | inr (end, x) ↦
        subst (λ (q : Runner). Ready api q.phase (es ++ e ∷ [])) (sym (step-ended e r end x))
          (Ready-later api r.phase es e h)
  ]
