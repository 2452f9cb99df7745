-- ===== src/Database.antt =====
-- pkgs/database/interfaces.ts: `IWriteDb`, the database as the ingestion process sees it, for one
-- chain, less the queries that no worker makes, which are `ReadDb` of Database/Reads.antt. Each
-- operation returns its result and the state of the database after it.
pub mod Migrate
pub mod Reads
pub mod Mappers
pub mod Stats
pub mod Store
pub mod Scoped
pub mod Rwdb
pub mod Whole
pub mod Contiguous
use cosmad.Prelude.{ℕ, String, Option, List}
use cosmad.Outcome.{Result}
use cosmad.Tables.{Block, Alert, ValidatorInactivity, BlockWindowStats}

pub record WriteDb (S : Type 0) : Type 0 where
  pub latest_block_height : S → Result (Option ℕ) × S
  pub get_block_by_range : ℕ → ℕ → S → Result (List Block) × S
  pub get_block_stats : ℕ → ℕ → S → Result BlockWindowStats × S
  pub append_blocks : List Block → S → Result (Unit {0}) × S
  pub insert_blocks : List Block → S → Result (Unit {0}) × S
  pub get_alert : String → S → Result (Option Alert) × S
  pub get_unclosed_alerts : ℕ → ℕ → S → Result (List Alert) × S
  pub insert_alert : Alert → S → Result (Unit {0}) × S
  pub close_alert : String → ℕ → S → Result (Unit {0}) × S
  pub touch_alert_notified : String → ℕ → ℕ → S → Result (Unit {0}) × S
  pub get_open_inactivity : S → Result (Option ValidatorInactivity) × S
  pub insert_inactivity : ValidatorInactivity → S → Result (Unit {0}) × S
  pub end_inactivity : ℕ → ℕ → ℕ → S → Result (Unit {0}) × S
