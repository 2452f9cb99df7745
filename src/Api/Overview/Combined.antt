-- ===== src/Api/Overview/Combined.antt =====
-- api/routes/overview.ts: the combined figures and those of the chains.
use cosmad.Prelude.{
  ℕ, ◌+◌, ◌≡◌, refl, sym, ap, ◌∙◌, String, Bool, true, Option, List, [], ◌∷◌, map, arith, eq_iff,
  or_else, if◌then◌else◌,
}
use cosmad.Outcome.{Result}
use cosmad.Platform.{Platform}
use cosmad.Tables.{Block}
use cosmad.Dict.{Dict, get, set, string_eq}
use cosmad.Api.Types.{DailyBlockStats, sum_of}
use cosmad.Api.Overview.{
  DayMap, add_day, add_days, add_chains, insert_day, sort_days, day_of, combine_daily, ShownChain,
  chain_overview, daily_for, value_or_empty, overview, ChainOverviewJson,
}

-- A sum over numbers.
unfoldable pub sum : List ℕ → ℕ
sum [] = 0
sum (n ∷ ns) = n + sum ns

-- The part of a figure that falls on days which pass a test.
unfoldable pub on : (String → Bool) → (DailyBlockStats → ℕ) → List DailyBlockStats → ℕ
on test f [] = 0
on test f (d ∷ ds) = let rest = on test f ds in if test d.date then f d + rest else rest

-- A figure that a day's entry keeps as a sum.
record IsSummed (f : DailyBlockStats → ℕ) (g : ℕ × ℕ → ℕ) : Type 0 where
  of_day : (date : String) (e : ℕ × ℕ) → f (record { date = date; total = e.0; missed = e.1 }) ≡ g e
  of_none : g (0, 0) ≡ 0
  of_sum : (e : ℕ × ℕ) (d : DailyBlockStats) → g (e.0 + d.total, e.1 + d.missed) ≡ g e + f d

total-IsSummed : IsSummed (λ d. d.total) (λ e. e.0)
total-IsSummed = record { of_day = λ date e. refl; of_none = refl; of_sum = λ e d. refl }

missed-IsSummed : IsSummed (λ d. d.missed) (λ e. e.1)
missed-IsSummed = record { of_day = λ date e. refl; of_none = refl; of_sum = λ e d. refl }

module _ (f : DailyBlockStats → ℕ) (g : ℕ × ℕ → ℕ) (s : IsSummed f g) (test : String → Bool) where
  held : DayMap → ℕ
  held [] = 0
  held ((date, e) ∷ m) = let rest = held m in if test date then g e + rest else rest

  held-set :
      (date : String) (e : ℕ × ℕ) (m : DayMap)
      → held (set date e m) + (if test date then g (or_else (get date m) (0, 0)) else 0)
        ≡ held m + (if test date then g e else 0)
  unfolding held set get
  held-set date e [] = ground (arith, s.of_none)
  held-set date e ((j, w) ∷ m) = let ih = held-set date e m in ground (arith, ih, eq_iff j date)

  held-add_day :
      (d : DailyBlockStats) (m : DayMap)
      → held (add_day d m) ≡ held m + (if test d.date then f d else 0)
  unfolding add_day
  held-add_day d m =
      let old = or_else (get d.date m) (0, 0) in
      let h = held-set d.date (old.0 + d.total, old.1 + d.missed) m in
      let sum_up = s.of_sum old d in ground (arith, h, sum_up)

  held-add_days :
      (ds : List DailyBlockStats) (m : DayMap) → held (add_days ds m) ≡ held m + on test f ds
  unfolding add_days on
  held-add_days [] m = omega arith
  held-add_days (d ∷ ds) m =
      let ih = held-add_days ds (add_day d m) in
      let first = held-add_day d m in ground (arith, ih, first)

  held-add_chains :
      (per_chain : List (List DailyBlockStats)) (m : DayMap)
      → held (add_chains per_chain m) ≡ held m + sum (map (on test f) per_chain)
  unfolding add_chains sum
  held-add_chains [] m = omega arith
  held-add_chains (daily ∷ rest) m =
      let ih = held-add_chains rest (add_days daily m) in
      let first = held-add_days daily m in omega (arith, ih, first)

  module _ (not_after : String → String → Bool) where
    held-insert_day :
        (e : String × (ℕ × ℕ)) (m : DayMap) → held (insert_day not_after e m) ≡ held (e ∷ m)
    unfolding held insert_day
    held-insert_day e [] = refl
    held-insert_day e (x ∷ xs) = let ih = held-insert_day e xs in ground (arith, ih)

    held-sort_days : (m : DayMap) → held (sort_days not_after m) ≡ held m
    unfolding held sort_days
    held-sort_days [] = refl
    held-sort_days (e ∷ es) =
        let ih = held-sort_days es in
        let first = held-insert_day e (sort_days not_after es) in ground (arith, ih, first)

    on-day_of : (m : DayMap) → on test f (map (day_of not_after) m) ≡ held m
    unfolding on held
    on-day_of [] = refl
    on-day_of ((date, e) ∷ m) =
        let ih = on-day_of m in let here = s.of_day date e in ground (arith, ih, here)

    on-combine_daily :
        (per_chain : List (List DailyBlockStats))
        → on test f (combine_daily not_after per_chain) ≡ sum (map (on test f) per_chain)
    unfolding combine_daily held
    on-combine_daily per_chain =
        let m = add_chains per_chain [] in
        let from_zero : 0 + sum (map (on test f) per_chain) ≡ sum (map (on test f) per_chain) =
          omega arith in
        on-day_of (sort_days not_after m)
        ∙ held-sort_days m
        ∙ held-add_chains per_chain []
        ∙ from_zero

on_any : (f : DailyBlockStats → ℕ) (ds : List DailyBlockStats) → on (λ _. true) f ds ≡ sum_of f ds
unfolding on sum_of
on_any f [] = refl
on_any f (d ∷ ds) = ap (λ n. f d + n) (on_any f ds)

-- The figures of the days that pass a test, in the combined series and in those of the chains.
pub combine_daily-on :
    (not_after : String → String → Bool) (test : String → Bool)
    (per_chain : List (List DailyBlockStats))
    → let combined = combine_daily not_after per_chain in
      (on test (λ d. d.total) combined ≡ sum (map (on test (λ d. d.total)) per_chain))
      × (on test (λ d. d.missed) combined ≡ sum (map (on test (λ d. d.missed)) per_chain))
combine_daily-on not_after test per_chain = (
  on-combine_daily (λ d. d.total) (λ e. e.0) total-IsSummed test not_after per_chain,
  on-combine_daily (λ d. d.missed) (λ e. e.1) missed-IsSummed test not_after per_chain,
)

module _ (p : Platform) (not_after : String → String → Bool) (now : ℕ) (latest : Dict String Block)
    (daily : Dict String (List DailyBlockStats)) where
  shown : ShownChain → ChainOverviewJson
  shown = chain_overview p now latest daily

  totals :
      (cs : List ShownChain)
      → (sum (map (on (λ _. true) (λ d. d.total)) (map (daily_for p now latest daily) cs))
          ≡ sum (map (λ c. c.total_blocks) (map (chain_overview p now latest daily) cs)))
        × (sum (map (on (λ _. true) (λ d. d.missed)) (map (daily_for p now latest daily) cs))
            ≡ sum (map (λ c. c.missed_blocks) (map (chain_overview p now latest daily) cs)))
  unfolding sum chain_overview
  totals [] = (refl, refl)
  totals (c ∷ cs) =
      let (a, b) = totals cs in
      let x = on_any (λ d. d.total) (daily_for p now latest daily c) in
      let y = on_any (λ d. d.missed) (daily_for p now latest daily c) in
      (omega (arith, a, x), omega (arith, b, y))

-- The combined totals of the overview, of all blocks and of the missed ones, are the sums of the
-- totals of the chains that it lists, whatever the days of the chains are and in whatever order
-- dates are sorted.
pub overview-sum :
    (p : Platform) (not_after : String → String → Bool) (now : ℕ) (chains : List ShownChain)
    (latest : Option (Result (Dict String Block)))
    (daily : Option (Result (Dict String (List DailyBlockStats)))) (days : ℕ)
    → let shown = overview p not_after now chains latest daily days in
      (shown.combined_total_blocks ≡ sum (map (λ c. c.total_blocks) shown.chains))
      × (shown.combined_missed_blocks ≡ sum (map (λ c. c.missed_blocks) shown.chains))
unfolding overview
overview-sum p not_after now chains latest daily days =
    let l = value_or_empty latest in
    let d = value_or_empty daily in
    let per_chain = map (daily_for p now l d) chains in
    let combined = combine_daily not_after per_chain in
    let (a, b) = combine_daily-on not_after (λ _. true) per_chain in
    let (x, y) = totals p not_after now l d chains in
    (sym (on_any (λ d. d.total) combined) ∙ a ∙ x, sym (on_any (λ d. d.missed) combined) ∙ b ∙ y)
