-- ===== src/Database/Stats.antt =====
-- pkgs/database/duckdb/queries/blocks.ts: the statistics over days, of one chain and of all, as
-- their SQL statements say over the table of blocks.
use cosmad.Prelude.{
  ℕ, zero, ◌+◌, ◌-◌, ◌*◌, ◌/◌, String, Bool, true, false, ◌&&◌, Option, none, some, List, [], ◌∷◌,
  ◌++◌, map, min, max, leb, ltb, ◌==◌, str_eq, keep, length, or_else, if◌then◌else◌,
}
use cosmad.Prelude.Int.{is_falsy}
use cosmad.Outcome.{Result, ok}
use cosmad.Tables.{Block}
use cosmad.Dict.{Dict, get, set, contains, string_eq}
use cosmad.Api.Types.{DailyBlockStats}
use cosmad.Database.Store.{Store, was_active}
use cosmad.Database.Mappers.{
  CountsRow, ChainSignatureStats, row_to_sign_stats, DayRow, row_to_daily_block_stats,
}
pub mod Agree

-- A day in milliseconds, and in the microseconds of a timestamp.
abbrev pub day_ms : ℕ
day_ms = 24 * 60 * 60 * 1000

-- `daysCutoff`, in milliseconds; a number of days below 1 counts as 1. A cutoff before the epoch is
-- the epoch, before which there is no block.
unfoldable pub days_cutoff : (now days : ℕ) → ℕ
days_cutoff now days = now - min (max days 1) 365 * day_ms

-- `WHERE chain_id = ? AND time >= ?`
abbrev pub is_recent : String → ℕ → Block → Bool
is_recent chain_id cutoff b = str_eq b.chain_id chain_id && leb cutoff b.time

-- `count(*) FILTER (WHERE signed != -1)` and `count(*) FILTER (WHERE signed = 0)`, of one row.
abbrev pub counts_total : Block → ℕ
counts_total b = if was_active b then 1 else 0

abbrev pub counts_missed : Block → ℕ
counts_missed b = if is_falsy b.signed then 1 else 0

unfoldable pub count_rows : List Block → CountsRow
count_rows [] = record { total = 0; missed = 0 }
count_rows (b ∷ bs) =
    let rest = count_rows bs in
    record { total = counts_total b + rest.total; missed = counts_missed b + rest.missed }

-- `getChainSignedPercentage`
unfoldable pub get_chain_signed_percentage :
    String → (now days : ℕ) → Store → Result (Option ChainSignatureStats)
unfolding count_rows days_cutoff row_to_sign_stats
get_chain_signed_percentage chain_id now days s =
    let row = count_rows (keep (is_recent chain_id (days_cutoff now days)) s.blocks) in
    if row.total == 0 then ok none else ok (some (row_to_sign_stats row chain_id))

-- `date_trunc('day', time)` of a block's time, as a timestamp in microseconds.
abbrev pub day_of_block : Block → ℕ
day_of_block b = b.time / day_ms * day_ms * 1000

-- `GROUP BY day ORDER BY day`: a block is counted in the group of its day.
unfoldable pub count_in : Block → List DayRow → List DayRow
count_in b [] =
    record { day = day_of_block b; total = counts_total b; missed = counts_missed b } ∷ []
count_in b (r ∷ rs) =
    let here = record r { total = counts_total b + r.total; missed = counts_missed b + r.missed } in
    let new : DayRow = record {
      day = day_of_block b;
      total = counts_total b;
      missed = counts_missed b;
    } in
    let rest = count_in b rs in
    if day_of_block b == r.day
    then here ∷ rs
    else if ltb (day_of_block b) r.day
    then new ∷ r ∷ rs
    else r ∷ rest

unfoldable pub day_rows : List Block → List DayRow
unfolding count_in
day_rows [] = []
day_rows (b ∷ bs) = count_in b (day_rows bs)

-- The chains of the recent blocks, each once.
unfoldable pub chains_of : List Block → List String
unfolding contains
chains_of [] = []
chains_of (b ∷ bs) =
    let rest = chains_of bs in if contains b.chain_id rest then rest else b.chain_id ∷ rest

-- `GROUP BY chain_id, day`: the rows of one chain after those of another. The order of the chains
-- is not that of the statement; the result is read by chain.
unfoldable pub chain_rows : List String → ℕ → List Block → List (String × DayRow)
unfolding day_rows
chain_rows [] cutoff bs = []
chain_rows (c ∷ cs) cutoff bs =
    map (λ r. (c, r)) (day_rows (keep (is_recent c cutoff) bs)) ++ chain_rows cs cutoff bs

-- `date_of` is the text of a day.
module _ (date_of : ℕ → String) where
  -- `getDailySignedStats`
  unfoldable pub get_daily_signed_stats :
      String → (now days : ℕ) → Store → Result (List DailyBlockStats)
  unfolding day_rows days_cutoff row_to_daily_block_stats
  get_daily_signed_stats chain_id now days s = ok (
      map (row_to_daily_block_stats date_of)
        (day_rows (keep (is_recent chain_id (days_cutoff now days)) s.blocks)))

  -- The loop over the rows.
  unfoldable pub by_chain :
      List (String × DayRow)
      → Dict String (List DailyBlockStats)
      → Dict String (List DailyBlockStats)
  unfolding get set row_to_daily_block_stats
  by_chain [] m = m
  by_chain ((c, row) ∷ rows) m =
      let daily = or_else (get c m) [] in
      by_chain rows (set c (daily ++ row_to_daily_block_stats date_of row ∷ []) m)

  -- `getDailySignedStatsAllChains`
  unfoldable pub get_daily_signed_stats_all_chains :
      (now days : ℕ) → Store → Result (Dict String (List DailyBlockStats))
  unfolding chains_of chain_rows by_chain days_cutoff
  get_daily_signed_stats_all_chains now days s =
      let cutoff = days_cutoff now days in
      let recent = keep (λ (b : Block). leb cutoff b.time) s.blocks in
      ok (by_chain (chain_rows (chains_of recent) cutoff s.blocks) [])

-- `SELECT … WHERE chain_id = ? ORDER BY height DESC LIMIT 1`
unfoldable pub latest_of : String → List Block → Option Block → Option Block
latest_of chain_id [] best = best
latest_of chain_id (b ∷ bs) best =
    let better : Option Block = elim best [
      | none ↦ some b
      | some g ↦ if ltb g.height b.height then some b else some g
    ] in
    latest_of chain_id bs (if str_eq b.chain_id chain_id then better else best)

-- The loop over the chains and their latest blocks.
unfoldable pub add_latest : List String → List Block → Dict String Block → Dict String Block
unfolding latest_of set
add_latest [] bs m = m
add_latest (c ∷ cs) bs m = elim (latest_of c bs none) [
  | none ↦ add_latest cs bs m
  | some b ↦ add_latest cs bs (set c b m)
]

-- `getLatestBlocksAllChains`, for the chains that the engine knows.
unfoldable pub get_latest_blocks_all_chains : List String → Store → Result (Dict String Block)
unfolding add_latest
get_latest_blocks_all_chains chains s = ok (add_latest chains s.blocks [])
