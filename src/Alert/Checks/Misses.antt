-- ===== src/Alert/Checks/Misses.antt =====
-- alert/index.ts: what `checkConsecutiveMiss` counts, and when it raises an alert.
use mathlib.Core.List.{reverse}
use cosmad.Prelude.{
  ℕ, zero, suc, ◌≤◌, String, Bool, true, false, ◌≡◌, ◌≢◌, ◌↔◌, refl, none, some, List, [], ◌∷◌,
  arith, leb, take, last?, length, All, Bool-cases, inl, inr,
}
use cosmad.Prelude.Int.{is_falsy}
use cosmad.Tables.{Block}
use cosmad.Alert.Types.{whole, AlertContext, ConsecutiveMissAlert}
use cosmad.Alert.Checks.{
  miss_run, trailing_misses, consecutive_events, check_consecutive_miss, block_context,
}

-- Signed 0: active, and missed.
abbrev pub IsMissed : Block → Type 0
IsMissed b = is_falsy b.signed ≡ true

-- The newest n blocks are there, and each was missed.
abbrev pub NewestMissed : ℕ → List Block → Type 0
NewestMissed n bs = (n ≤ length (reverse bs)) × All IsMissed (take n (reverse bs))

miss_run-at_least :
    (n : ℕ) (l : List Block) → n ≤ miss_run l → (n ≤ length l) × All IsMissed (take n l)
unfolding miss_run
miss_run-at_least zero l h = (omega arith, tt)
miss_run-at_least (suc n) [] h = absurd (omega arith)
miss_run-at_least (suc n) (b ∷ l) h = elim (Bool-cases (is_falsy b.signed)) [
  | inl e ↦ let (k, rest) = miss_run-at_least n l (ground arith) in (omega arith, (e, rest))
  | inr e ↦ absurd (ground arith)
]

at_least-miss_run :
    (n : ℕ) (l : List Block) → n ≤ length l → All IsMissed (take n l) → n ≤ miss_run l
unfolding miss_run
at_least-miss_run zero l h m = omega arith
at_least-miss_run (suc n) [] h m = absurd (omega arith)
at_least-miss_run (suc n) (b ∷ l) h m = ground (arith, at_least-miss_run n l (omega arith) m.1, m.0)

module _ (chain_id : String) (now : ℕ) (id : String) where
  raises :
      (cfg : ConsecutiveMissAlert) (b : Bool) (context : AlertContext)
      → consecutive_events chain_id now id cfg b context none ≢ [] ↔ (b ≡ true)
  unfolding consecutive_events
  raises cfg true context = ((λ h. refl), (λ e x. cc))
  raises cfg false context = ((λ h. absurd (h refl)), (λ e x. cc))

  reached :
      (cfg : ConsecutiveMissAlert) (recent : List Block)
      → cfg.enabled ≡ true
      → (check_consecutive_miss chain_id now id cfg recent none ≢ [])
        ↔ (leb cfg.threshold (trailing_misses recent) ≡ true)
  unfolding check_consecutive_miss
  reached cfg recent on = rw on (
      raises cfg (leb cfg.threshold (trailing_misses recent))
        (record (block_context (last? recent)) {
          consecutive_missed = some (trailing_misses recent);
          threshold = some (whole cfg.threshold);
        }))

  -- With the alert for consecutive misses switched on and none of its type open, the check raises
  -- one exactly if as many blocks as the threshold were read and the newest of them, that many,
  -- were all missed.
  pub check_consecutive_miss-NewestMissed :
      (cfg : ConsecutiveMissAlert) (recent : List Block)
      → cfg.enabled ≡ true
      → (check_consecutive_miss chain_id now id cfg recent none ≢ [])
        ↔ NewestMissed cfg.threshold recent
  unfolding trailing_misses
  check_consecutive_miss-NewestMissed cfg recent on =
      let (there, back) = reached cfg recent on in
      (
        (λ h. let e = there h in miss_run-at_least cfg.threshold (reverse recent) (ground arith)),
        (λ m.
            let le = at_least-miss_run cfg.threshold (reverse recent) m.0 m.1 in
            back (ground arith)),
      )
