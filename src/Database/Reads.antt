-- ===== src/Database/Reads.antt =====
-- pkgs/database/interfaces.ts: what `IReadDb` has beside the operations in `WriteDb`, for one chain.
use cosmad.Prelude.{ℕ, Option, List}
use cosmad.Outcome.{Result}
use cosmad.Tables.{Block, ValidatorInactivity}
use cosmad.Api.Types.{DailyBlockStats}
use cosmad.Database.Mappers.{ChainSignatureStats}

pub record ReadDb (S : Type 0) : Type 0 where
  pub latest_block : S → Result (Option Block) × S
  pub get_block_by_height : ℕ → S → Result (Option Block) × S
  pub get_chain_signed_percentage : ℕ → S → Result (Option ChainSignatureStats) × S
  pub get_daily_signed_stats : ℕ → S → Result (List DailyBlockStats) × S
  pub get_inactivity_history : ℕ → S → Result (List ValidatorInactivity) × S
