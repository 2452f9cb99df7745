-- ===== src/Worker/Types.antt =====
-- What dp/chain_worker.ts works with: the chain's configuration (config/chain_types.ts), the
-- answers of the chain's nodes (query/rpc/types.ts, query/api/types.ts) as far as they are read.
use cosmad.Prelude.{ℕ, String, Bool, Option, List}
use cosmad.Tables.{ChainType, bft, tm2}
use cosmad.Alert.Types.{AlertConfig}

-- An entry of `rpcUrls` or `apiUrls`.
pub record Endpoint : Type 0 where
  pub url : String
  pub alert_if_down : Bool

-- The part of the configuration in which the two kinds of chain differ.
pub data Identity : Type 0 where
  bft_identity : (valoper_address valcons_address : String) → Identity
  tm2_identity : (operator_address signing_address : String) → Identity

pub record ChainConfig : Type 0 where
  pub chain_id : String
  pub identity : Identity
  pub rpc_urls : List Endpoint
  pub api_urls : Option (List Endpoint)
  pub max_blocks_per_poll : Option ℕ
  pub allow_block_gaps : Bool
  pub alert_config : AlertConfig

abbrev pub chain_type : ChainConfig → ChainType
chain_type c = elim c.identity [ bft_identity a b ↦ bft | tm2_identity a b ↦ tm2 ]

-- `operatorAddress`
abbrev pub operator_address : ChainConfig → String
operator_address c = elim c.identity [ bft_identity a b ↦ a | tm2_identity a b ↦ a ]

-- `signerAddress`
abbrev pub signer_address : ChainConfig → String
signer_address c = elim c.identity [ bft_identity a b ↦ b | tm2_identity a b ↦ b ]

-- An entry of `signatures` (`block_flag` is `blockIdFlag`) or of `precommits` (it is `type`).
pub record Vote : Type 0 where
  pub block_flag : ℕ
  pub validator_address : String
  pub signature : Option String

-- A commit has one of the two lists; the code has a branch for neither. An entry may be null.
pub data Votes : Type 0 where
  signatures : List (Option Vote) → Votes
  precommits : List (Option Vote) → Votes
  no_votes : Votes

pub record Commit : Type 0 where
  pub height : ℕ
  pub time : String
  pub hash : String
  pub votes : Votes
  pub canonical : Option Bool

pub record ValidatorData : Type 0 where
  pub jailed : Bool
  pub status : String

pub record SigningInfo : Type 0 where
  pub tombstoned : Option Bool
  pub jailed_until : Option String
