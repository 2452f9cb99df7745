-- ===== src/Runner/Reap.antt =====
-- runner.ts: `reapStaleEngine`, which ends an engine that an earlier run left behind.
use cosmad.Prelude.{
  ℕ, zero, suc, ◌+◌, ◌*◌, ◌≤◌, ◌≡◌, refl, Bool, true, false, not, ◌&&◌, Option, none, some, List,
  [], ◌∷◌, ltb, arith, Bool-cases, Option-cases, inl, inr, ◌⊎◌, if◌then◌else◌,
}

-- `STALE_ENGINE_KILL_TIMEOUT_MS`
abbrev pub stale_engine_kill_timeout_ms : ℕ
stale_engine_kill_timeout_ms = 10000

pub data Signal : Type 0 where
  sigterm sigkill : (pid : ℕ) → Signal

-- What the function finds: the process number in the file, if there is a file and a number in it,
-- whether the process lives when it is asked for the k-th time, its command line (`is_engine` is
-- whether that names the engine), and the clock: when the deadline is taken, then in the k-th round
-- of the loop up to the deadline.
pub record Found : Type 0 where
  pub has_file : Bool
  pub pid : Option ℕ
  pub alive : ℕ → Bool
  pub is_engine : Bool
  pub clock : ℕ → ℕ

module _ (f : Found) (deadline : ℕ) where
  -- The loop up to the deadline, from the k-th question on: the number of the next question, or
  -- none for a loop that still runs after so many rounds.
  unfoldable pub wait_term : (fuel k : ℕ) → Option ℕ
  wait_term zero k = none
  wait_term (suc fuel) k =
      let rest = wait_term fuel (suc k) in
      if f.alive k && ltb (f.clock k) deadline then rest else some (suc k)

-- The loop after SIGKILL.
unfoldable pub wait_gone : Found → (fuel k : ℕ) → Option ℕ
wait_gone f zero k = none
wait_gone f (suc fuel) k =
    let rest = wait_gone f fuel (suc k) in if f.alive k then rest else some (suc k)

-- The part after the first loop, which asks once more.
unfoldable pub finish : Found → (fuel pid : ℕ) → Option ℕ → Option (List Signal)
unfolding wait_gone
finish f fuel pid none = none
finish f fuel pid (some k) =
    let gone = wait_gone f fuel (suc k) in
    if f.alive k
    then elim gone [ none ↦ none | some j ↦ some (sigterm pid ∷ sigkill pid ∷ []) ]
    else some (sigterm pid ∷ [])

-- The first question is whether the process lives; the deadline is taken before the second. The
-- result is the signals sent, or none for a loop that still runs. The file is removed whenever there
-- is one.
unfoldable pub reap : Found → (fuel : ℕ) → Option (List Signal)
unfolding wait_term finish
reap f fuel =
    let deadline = f.clock 0 + stale_engine_kill_timeout_ms in
    if not f.has_file then some [] else elim f.pid [
      | none ↦ some []
      | some pid ↦
          let sent = finish f fuel pid (wait_term f deadline fuel 1) in
          if f.alive 0 && f.is_engine then sent else some []
    ]

module _ (f : Found) where
  clock_climbs :
      f.clock 0 ≤ f.clock 1
      → ((k : ℕ) → f.clock (suc k) + 200 ≤ f.clock (suc (suc k)))
      → (k : ℕ) → f.clock 0 + 200 * k ≤ f.clock (suc k)
  clock_climbs first h zero = omega arith
  clock_climbs first h (suc k) =
      let ih = clock_climbs first h k in let next = h k in omega (arith, ih, next)

  is_late :
      f.clock 0 ≤ f.clock 1
      → ((k : ℕ) → f.clock (suc k) + 200 ≤ f.clock (suc (suc k)))
      → (n j : ℕ) → 1 + (50 + n) ≤ j
      → ltb (f.clock j) (f.clock 0 + stale_engine_kill_timeout_ms) ≡ false
  is_late first h n zero l = absurd (omega (arith, l))
  is_late first h n (suc j) l = let c = clock_climbs first h j in ground (arith, c, l)

  wait_term_ends :
      (deadline fuel k : ℕ)
      → ((j : ℕ) → k + fuel ≤ j → ltb (f.clock j) deadline ≡ false)
      → (j : ℕ) × (wait_term f deadline (suc fuel) k ≡ some j)
  unfolding wait_term
  wait_term_ends deadline zero k late =
      let end = late k (omega arith) in (suc k, ground (arith, end))
  wait_term_ends deadline (suc fuel) k late =
      let (j, e) = wait_term_ends deadline fuel (suc k) (λ i l. late i (omega (arith, l))) in
      elim (Bool-cases (f.alive k && ltb (f.clock k) deadline)) [
        | inl b ↦ (j, rw (b) e)
        | inr b ↦ (suc k, rw (b) refl)
      ]

  wait_gone_ends :
      (fuel k : ℕ)
      → ((j : ℕ) → k + fuel ≤ j → f.alive j ≡ false)
      → (j : ℕ) × (wait_gone f (suc fuel) k ≡ some j)
  unfolding wait_gone
  wait_gone_ends zero k late = let end = late k (omega arith) in (suc k, rw (end) refl)
  wait_gone_ends (suc fuel) k late =
      let (j, e) = wait_gone_ends fuel (suc k) (λ i l. late i (omega (arith, l))) in
      elim (Bool-cases (f.alive k)) [ inl b ↦ (j, rw (b) e) | inr b ↦ (suc k, rw (b) refl) ]

  -- One signal, or two.
  abbrev Sent : (pid : ℕ) → List Signal → Type 0
  Sent pid signals = (signals ≡ sigterm pid ∷ []) ⊎ (signals ≡ sigterm pid ∷ sigkill pid ∷ [])

  finish_ends :
      (fuel pid k : ℕ)
      → ((j : ℕ) → fuel ≤ j → f.alive j ≡ false)
      → (signals : List Signal) × (finish f (suc fuel) pid (some k) ≡ some signals)
        × Sent pid signals
  unfolding finish
  finish_ends fuel pid k dead =
      let (j, e) = wait_gone_ends fuel (suc k) (λ i l. dead i (omega (arith, l))) in
      elim (Bool-cases (f.alive k)) [
        | inl b ↦ (sigterm pid ∷ sigkill pid ∷ [], rw (b, e) refl, inr refl)
        | inr b ↦ (sigterm pid ∷ [], rw (b) refl, inl refl)
      ]

  reap-finish :
      (fuel pid k : ℕ) (signals : List Signal)
      → f.has_file ≡ true
      → f.pid ≡ some pid
      → (f.alive 0 && f.is_engine) ≡ true
      → wait_term f (f.clock 0 + stale_engine_kill_timeout_ms) fuel 1 ≡ some k
      → finish f fuel pid (some k) ≡ some signals
      → reap f fuel ≡ some signals
  unfolding reap
  reap-finish fuel pid k signals h p b waited e = rw (h, p, b, waited) e

  -- No signal, or one or two to the process of the file, which then lives and is an engine.
  abbrev pub Spares : List Signal → Type 0
  Spares signals =
      (signals ≡ [])
      ⊎ ((pid : ℕ) × (f.has_file ≡ true)
          × (f.pid ≡ some pid)
          × (f.is_engine ≡ true)
          × (f.alive 0 ≡ true)
          × Sent pid signals)

-- If the clock does not go back and each round of the wait takes 200 milliseconds, and the process
-- is dead from some question on, `reapStaleEngine` ends; it has sent nothing, or SIGTERM alone or
-- SIGTERM and then SIGKILL, to the process of the file, which then was alive and an engine.
pub reap-Spares :
    (f : Found) (n : ℕ)
    → f.clock 0 ≤ f.clock 1
    → ((k : ℕ) → f.clock (suc k) + 200 ≤ f.clock (suc (suc k)))
    → ((k : ℕ) → n ≤ k → f.alive k ≡ false)
    → (signals : List Signal) × (reap f (suc (50 + n)) ≡ some signals) × Spares f signals
unfolding reap
reap-Spares f n first climbs dead = elim (Bool-cases f.has_file) [
  | inr h ↦ ([], rw (h) refl, inl refl)
  | inl h ↦ elim (Option-cases f.pid) [
    | inl p ↦ ([], rw (h, p) refl, inl refl)
    | inr (pid, p) ↦ elim (Bool-cases (f.alive 0 && f.is_engine)) [
      | inr b ↦ ([], rw (h, p, b) refl, inl refl)
      | inl b ↦
          let deadline = f.clock 0 + stale_engine_kill_timeout_ms in
          let (k, waited) = wait_term_ends f deadline (50 + n) 1 (is_late f first climbs n) in
          let (signals, e, sent) =
            finish_ends f (50 + n) pid k (λ j l. dead j (omega (arith, l))) in
          (
            signals,
            reap-finish f (suc (50 + n)) pid k signals h p b waited e,
            inr (pid, h, p, ground (arith, b), ground (arith, b), sent),
          )
    ]
  ]
]
