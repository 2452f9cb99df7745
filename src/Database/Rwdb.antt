-- ===== src/Database/Rwdb.antt =====
-- pkgs/database/duckdb/rw_db.ts: `RWDB`, the one database of all chains, by its operations; and
-- pkgs/database/duckdb/scoped.ts: `ChainScopedDb`, the view of it for one chain.
use cosmad.Prelude.{ℕ, String, Option, List, ◌≡◌}
use cosmad.Outcome.{Result}
use cosmad.Tables.{ChainType, Block, Alert, ValidatorInactivity, BlockWindowStats}
use cosmad.Api.Types.{DailyBlockStats}
use cosmad.Database.{WriteDb}
use cosmad.Database.Mappers.{ChainSignatureStats}
use cosmad.Database.Reads.{ReadDb}

-- The queries over all chains are left out.
pub record Rwdb (S : Type 0) : Type 0 where
  pub append_blocks : String → List Block → S → Result (Unit {0}) × S
  pub insert_blocks : String → List Block → S → Result (Unit {0}) × S
  pub latest_block : String → ChainType → S → Result (Option Block) × S
  pub latest_block_height : String → S → Result (Option ℕ) × S
  pub insert_alert : Alert → S → Result (Unit {0}) × S
  pub get_alert : String → S → Result (Option Alert) × S
  pub get_unclosed_alerts : String → ℕ → ℕ → S → Result (List Alert) × S
  pub close_alert : String → ℕ → S → Result (Unit {0}) × S
  pub touch_alert_notified : String → ℕ → ℕ → S → Result (Unit {0}) × S
  pub insert_inactivity : ValidatorInactivity → S → Result (Unit {0}) × S
  pub end_inactivity : String → ℕ → ℕ → ℕ → S → Result (Unit {0}) × S
  pub get_open_inactivity : String → S → Result (Option ValidatorInactivity) × S
  pub get_inactivity_history : String → ℕ → S → Result (List ValidatorInactivity) × S
  pub get_block_by_height : String → ℕ → ChainType → S → Result (Option Block) × S
  pub get_block_by_range : String → ℕ → ℕ → ChainType → S → Result (List Block) × S
  pub get_block_stats : String → ℕ → ℕ → S → Result BlockWindowStats × S
  pub get_chain_signed_percentage : String → ℕ → S → Result (Option ChainSignatureStats) × S
  pub get_daily_signed_stats : String → ℕ → S → Result (List DailyBlockStats) × S

module _ {S : Type 0} where
  -- `forChain`: `new ChainScopedDb(this, chainId, chainType)`
  abbrev pub scoped : Rwdb S → String → ChainType → WriteDb S
  scoped db chain_id chain_type = record {
    latest_block_height = db.latest_block_height chain_id;
    get_block_by_range = λ lo hi. db.get_block_by_range chain_id lo hi chain_type;
    get_block_stats = db.get_block_stats chain_id;
    append_blocks = db.append_blocks chain_id;
    insert_blocks = db.insert_blocks chain_id;
    get_alert = db.get_alert;
    get_unclosed_alerts = db.get_unclosed_alerts chain_id;
    insert_alert = db.insert_alert;
    close_alert = db.close_alert;
    touch_alert_notified = db.touch_alert_notified;
    get_open_inactivity = db.get_open_inactivity chain_id;
    insert_inactivity = db.insert_inactivity;
    end_inactivity = db.end_inactivity chain_id;
  }

  abbrev pub scoped_reads : Rwdb S → String → ChainType → ReadDb S
  scoped_reads db chain_id chain_type = record {
    latest_block = db.latest_block chain_id chain_type;
    get_block_by_height = λ height. db.get_block_by_height chain_id height chain_type;
    get_chain_signed_percentage = db.get_chain_signed_percentage chain_id;
    get_daily_signed_stats = db.get_daily_signed_stats chain_id;
    get_inactivity_history = db.get_inactivity_history chain_id;
  }

  -- A query of the reader pool is a `SELECT`: it leaves the tables as they are.
  pub record ReadsKeep (db : Rwdb S) : Type 0 where
    pub latest_block_keeps : (c : String) (t : ChainType) (s : S) → (db.latest_block c t s).1 ≡ s
    pub latest_block_height_keeps : (c : String) (s : S) → (db.latest_block_height c s).1 ≡ s
    pub get_alert_keeps : (k : String) (s : S) → (db.get_alert k s).1 ≡ s
    pub get_unclosed_alerts_keeps :
        (c : String) (l n : ℕ) (s : S) → (db.get_unclosed_alerts c l n s).1 ≡ s
    pub get_open_inactivity_keeps : (c : String) (s : S) → (db.get_open_inactivity c s).1 ≡ s
    pub get_inactivity_history_keeps :
        (c : String) (l : ℕ) (s : S) → (db.get_inactivity_history c l s).1 ≡ s
    pub get_block_by_height_keeps :
        (c : String) (h : ℕ) (t : ChainType) (s : S) → (db.get_block_by_height c h t s).1 ≡ s
    pub get_block_by_range_keeps :
        (c : String) (a z : ℕ) (t : ChainType) (s : S) → (db.get_block_by_range c a z t s).1 ≡ s
    pub get_block_stats_keeps : (c : String) (a z : ℕ) (s : S) → (db.get_block_stats c a z s).1 ≡ s
    pub get_chain_signed_percentage_keeps :
        (c : String) (n : ℕ) (s : S) → (db.get_chain_signed_percentage c n s).1 ≡ s
    pub get_daily_signed_stats_keeps :
        (c : String) (n : ℕ) (s : S) → (db.get_daily_signed_stats c n s).1 ≡ s
