-- ===== src/Database/Whole.antt =====
-- pkgs/database/duckdb/rw_db.ts over the tables of Database/Store.antt: the database of all chains.
use cosmad.Prelude.{
  ℕ, String, ◌&&◌, refl, Option, none, some, List, [], ◌∷◌, ◌==◌, ltb, str_eq, if◌then◌else◌, keep,
  find_first, take, map,
}
use cosmad.Outcome.{Result, ok, err}
use cosmad.Tables.{ChainType, Block, ValidatorInactivity}
use cosmad.Database.Rwdb.{Rwdb, ReadsKeep}
use cosmad.Database.Stats
use cosmad.Database.Store
use cosmad.Database.Store.{Store}

-- `rowToBlock`: the chain's type comes with the query.
abbrev pub row_to_block : ChainType → Block → Block
row_to_block t b = record b { chain_type = t }

abbrev pub optional_row : ChainType → Option Block → Option Block
optional_row t none = none
optional_row t (some b) = some (row_to_block t b)

-- `ORDER BY height DESC LIMIT 1`
abbrev pub newer : Option Block → Block → Option Block
newer none b = some b
newer (some a) b = some (if ltb a.height b.height then b else a)

unfoldable pub newest_row : String → List Block → Option Block → Option Block
newest_row chain_id [] best = best
newest_row chain_id (b ∷ bs) best =
    newest_row chain_id bs (if str_eq b.chain_id chain_id then newer best b else best)

unfoldable pub latest_block : String → ChainType → Store → Result (Option Block) × Store
unfolding newest_row
latest_block chain_id t s = (ok (optional_row t (newest_row chain_id s.blocks none)), s)

-- `WHERE chain_id = ? AND height = ?`
unfoldable pub get_block_by_height : String → ℕ → ChainType → Store → Result (Option Block) × Store
get_block_by_height chain_id height t s = (
  ok (optional_row t (find_first (λ b. str_eq b.chain_id chain_id && b.height == height) s.blocks)),
  s,
)

abbrev pub typed_rows : ChainType → Result (List Block) × Store → Result (List Block) × Store
typed_rows t (ok bs, s) = (ok (map (row_to_block t) bs), s)
typed_rows t (err e, s) = (err e, s)

-- `ORDER BY height DESC LIMIT ?`
unfoldable pub insert_period :
    ValidatorInactivity → List ValidatorInactivity → List ValidatorInactivity
insert_period i [] = i ∷ []
insert_period i (j ∷ l) =
    let rest = insert_period i l in if ltb j.height i.height then i ∷ j ∷ l else j ∷ rest

unfoldable pub sort_periods : List ValidatorInactivity → List ValidatorInactivity
unfolding insert_period
sort_periods [] = []
sort_periods (i ∷ l) = insert_period i (sort_periods l)

unfoldable pub get_inactivity_history :
    String → ℕ → Store → Result (List ValidatorInactivity) × Store
unfolding sort_periods
get_inactivity_history chain_id limit s =
    (ok (take limit (sort_periods (keep (λ i. str_eq i.chain_id chain_id) s.inactivity))), s)

-- `now` is the clock of the statistics, and `date_of` the text of a day.
module _ (now : ℕ) (date_of : ℕ → String) where
  abbrev pub store_db : Rwdb Store
  store_db = record {
    append_blocks = λ c. Store.insert_blocks;
    insert_blocks = λ c. Store.insert_blocks;
    latest_block = latest_block;
    latest_block_height = Store.latest_block_height;
    insert_alert = Store.insert_alert;
    get_alert = Store.get_alert;
    get_unclosed_alerts = Store.get_unclosed_alerts;
    close_alert = Store.close_alert;
    touch_alert_notified = Store.touch_alert_notified;
    insert_inactivity = Store.insert_inactivity;
    end_inactivity = Store.end_inactivity;
    get_open_inactivity = Store.get_open_inactivity;
    get_inactivity_history = get_inactivity_history;
    get_block_by_height = get_block_by_height;
    get_block_by_range = λ c lo hi t s. typed_rows t (Store.get_block_by_range c lo hi s);
    get_block_stats = Store.get_block_stats;
    get_chain_signed_percentage = λ c days s. (Stats.get_chain_signed_percentage c now days s, s);
    get_daily_signed_stats = λ c days s. (Stats.get_daily_signed_stats date_of c now days s, s);
  }

  -- The queries of the store keep it.
  pub store_db-ReadsKeep : ReadsKeep store_db
  unfolding latest_block Store.latest_block_height Store.get_alert Store.get_unclosed_alerts
      Store.get_open_inactivity get_inactivity_history get_block_by_height Store.get_block_by_range
      Store.get_block_stats
  store_db-ReadsKeep = record {
    latest_block_keeps = λ c t s. refl;
    latest_block_height_keeps = λ c s. refl;
    get_alert_keeps = λ k s. refl;
    get_unclosed_alerts_keeps = λ c l n s. refl;
    get_open_inactivity_keeps = λ c s. refl;
    get_inactivity_history_keeps = λ c l s. refl;
    get_block_by_height_keeps = λ c h t s. refl;
    get_block_by_range_keeps = λ c a z t s. refl;
    get_block_stats_keeps = λ c a z s. refl;
    get_chain_signed_percentage_keeps = λ c n s. refl;
    get_daily_signed_stats_keeps = λ c n s. refl;
  }
