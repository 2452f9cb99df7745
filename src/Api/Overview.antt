-- ===== src/Api/Overview.antt =====
-- api/routes/overview.ts: the figures of all chains, put together.
use cosmad.Prelude.{
  ℕ, ◌+◌, ◌*◌, String, Bool, true, false, Option, none, some, List, [], ◌∷◌, ◌++◌, map, ltb, min,
  max, or_else, if◌then◌else◌,
}
use cosmad.Outcome.{Result, ok, err}
use cosmad.Platform.{Platform}
use cosmad.Tables.{Block}
use cosmad.Dict.{Dict, get, set, string_eq}
use cosmad.Alert.Types.{Fraction}
use cosmad.Worker.Types.{ChainConfig}
use cosmad.Api.Types.{
  DailyBlockStats, DailyStatsJson, serialize_daily_stats, total_of, missed_of, sum_of,
}
use cosmad.Engine.Protocol.{optional}
use cosmad.Api.Types
pub mod Combined

pub data ChainStatus : Type 0 where
  online stalled : ChainStatus

-- A chain's configuration as the overview reads it: that of the worker, with what is shown.
pub record ShownChain : Type 0 where
  pub chain : ChainConfig
  pub pretty_name : String
  pub chain_logo : Option String
  pub poll_interval_ms : Option ℕ

-- `DEFAULT_STALLED_MULTIPLIER`
abbrev pub default_stalled_multiplier : ℕ
default_stalled_multiplier = 5

-- `chainStatus`, at `now`.
unfoldable pub chain_status : ShownChain → ℕ → Option ℕ → ChainStatus
chain_status c now none = stalled
chain_status c now (some time) =
    let alert = c.chain.alert_config.stalled_alert in
    let threshold_ms =
      if alert.enabled
      then alert.stalled_threshold * 1000
      else or_else c.poll_interval_ms 6000 * default_stalled_multiplier in
    if ltb now (time + threshold_ms) then online else stalled

-- The two sums kept for a date.
abbrev pub DayMap : Type 0
DayMap = Dict String (ℕ × ℕ)

unfoldable pub add_day : DailyBlockStats → DayMap → DayMap
unfolding get set
add_day d m =
    let existing = or_else (get d.date m) (0, 0) in
    set d.date (existing.0 + d.total, existing.1 + d.missed) m

unfoldable pub add_days : List DailyBlockStats → DayMap → DayMap
unfolding add_day
add_days [] m = m
add_days (d ∷ ds) m = add_days ds (add_day d m)

unfoldable pub add_chains : List (List DailyBlockStats) → DayMap → DayMap
unfolding add_days
add_chains [] m = m
add_chains (daily ∷ rest) m = add_chains rest (add_days daily m)

-- `not_after a b` is `a.localeCompare(b) <= 0`; the sort is stable.
module _ (not_after : String → String → Bool) where
  unfoldable pub insert_day : String × (ℕ × ℕ) → DayMap → DayMap
  insert_day e [] = e ∷ []
  insert_day e (f ∷ fs) =
      let rest = insert_day e fs in if not_after e.0 f.0 then e ∷ f ∷ fs else f ∷ rest

  unfoldable pub sort_days : DayMap → DayMap
  unfolding insert_day
  sort_days [] = []
  sort_days (e ∷ es) = insert_day e (sort_days es)

  abbrev pub day_of : String × (ℕ × ℕ) → DailyBlockStats
  day_of (date, (total, missed)) = record { date = date; total = total; missed = missed }

  -- `combineDaily`
  unfoldable pub combine_daily : List (List DailyBlockStats) → List DailyBlockStats
  unfolding add_chains sort_days
  combine_daily per_chain = map day_of (sort_days (add_chains per_chain []))

pub record ChainOverviewJson : Type 0 where
  pub chain_id : String
  pub pretty_name : String
  pub chain_logo : Option String
  pub status : ChainStatus
  pub latest_height : Option String
  pub latest_block_time : Option String
  pub total_blocks : ℕ
  pub missed_blocks : ℕ
  pub percentage_signed : Option Fraction

-- The field `combined` stands as four.
pub record OverviewJson : Type 0 where
  pub days : ℕ
  pub chains : List ChainOverviewJson
  pub combined_total_blocks : ℕ
  pub combined_missed_blocks : ℕ
  pub combined_percentage_signed : Option Fraction
  pub combined_daily : List DailyStatsJson

-- `MIN_DAYS`, `MAX_DAYS` and `DEFAULT_DAYS`: the days that are asked for, or the default. A number
-- below the least, also a negative one, is the least.
unfoldable pub days_query : Option ℕ → ℕ
days_query none = 30
days_query (some days) = min (max days 1) 365

module _ (p : Platform) (now : ℕ) (latest_blocks : Dict String Block)
    (daily_by_chain : Dict String (List DailyBlockStats)) where
  abbrev pub daily_for : ShownChain → List DailyBlockStats
  daily_for c = or_else (get c.chain.chain_id daily_by_chain) []

  -- The entry of one chain.
  unfoldable pub chain_overview : ShownChain → ChainOverviewJson
  unfolding get chain_status
  chain_overview c =
      let latest_block = get c.chain.chain_id latest_blocks in
      let total = total_of (daily_for c) in
      let missed = missed_of (daily_for c) in
      record {
        chain_id = c.chain.chain_id;
        pretty_name = c.pretty_name;
        chain_logo = c.chain_logo;
        status = chain_status c now (optional (λ (b : Block). b.time) latest_block);
        latest_height = optional (λ (b : Block). p.to_decimal b.height) latest_block;
        latest_block_time = optional (λ (b : Block). p.to_iso b.time) latest_block;
        total_blocks = total;
        missed_blocks = missed;
        percentage_signed = Types.percentage_signed total missed;
      }

-- What is left of a result: its value, or the empty map when there is no database or it failed.
abbrev pub value_or_empty {ℓ} : {A : Type ℓ} → Option (Result (Dict String A)) → Dict String A
value_or_empty none = []
value_or_empty (some (err e)) = []
value_or_empty (some (ok m)) = m

-- The handler of `/overview`, with the results of its two reads.
unfoldable pub overview :
    Platform
    → (String → String → Bool)
    → ℕ
    → List ShownChain
    → Option (Result (Dict String Block))
    → Option (Result (Dict String (List DailyBlockStats)))
    → (days : ℕ) → OverviewJson
unfolding combine_daily chain_overview
overview p not_after now chain_cfgs latest_result daily_result days =
    let latest_blocks = value_or_empty latest_result in
    let daily_by_chain = value_or_empty daily_result in
    let combined =
      combine_daily not_after (map (daily_for p now latest_blocks daily_by_chain) chain_cfgs) in
    record {
      days = days;
      chains = map (chain_overview p now latest_blocks daily_by_chain) chain_cfgs;
      combined_total_blocks = total_of combined;
      combined_missed_blocks = missed_of combined;
      combined_percentage_signed = Types.percentage_signed (total_of combined) (missed_of combined);
      combined_daily = map serialize_daily_stats combined;
    }
