-- ===== src/Examples/World.antt =====
-- A chain, its nodes and a store with which the other files of this folder run the code.
use cosmad.Prelude.{ℕ, suc, String, true, false, Option, none, some, [], ◌∷◌}
use cosmad.Prelude.Int.{pos}
use cosmad.Outcome.{Response}
use cosmad.Platform.{Platform}
use cosmad.Tables.{Block, Alert, bft, ValidatorInactivity}
use cosmad.Alert.Types.{AlertConfig}
use cosmad.Database.Store.{Store}
use cosmad.Worker.Types.{
  ChainConfig, bft_identity, Commit, Vote, signatures, ValidatorData, SigningInfo,
}
use cosmad.Worker.Poll.{Nodes}
use cosmad.Worker.Cycle.{Cycle}

-- Codecs that stand in for Node's.
abbrev pub plain : Platform
plain = record {
  to_hex = λ b. "00";
  of_hex = λ t. 1 ∷ [];
  to_base64 = λ b. "AA==";
  of_base64 = λ t. 2 ∷ [];
  to_iso = λ t. "1970-01-01T00:00:00.000Z";
  of_iso = λ t. 0;
  try_date = λ t. none;
  utc_year = λ t. 1970;
  trim = λ t. t;
  upper = λ t. t;
  to_decimal = λ n. "0";
  of_decimal = λ t. 0;
}

abbrev pub alerts_on : AlertConfig
alerts_on = record {
  stalled_alert = record { enabled = true; stalled_threshold = 60 };
  consecutive_miss_alert = record {
    enabled = true;
    threshold = 2;
    repeats = true;
    repeat_interval = 600;
  };
  percentage_missed_blocks_alert = record {
    enabled = true;
    threshold = record { num = 5; den = 1 };
    repeats = true;
  };
  alert_if_inactive = true;
  endpoint_down_alert_after = some 60;
  signing_window_size = some 100;
}

abbrev pub hub : ChainConfig
hub = record {
  chain_id = "hub-1";
  identity = bft_identity "valoper1" "valcons1";
  rpc_urls = record { url = "http://a"; alert_if_down = true } ∷ [];
  api_urls = none;
  max_blocks_per_poll = some 3;
  allow_block_gaps = false;
  alert_config = alerts_on;
}

-- The validator's vote, in every commit of the example.
abbrev pub our_vote : Vote
our_vote = record { block_flag = 2; validator_address = "AB"; signature = some "c2ln" }

abbrev pub commit_at : ℕ → Commit
commit_at h = record {
  height = h;
  time = "1970-01-01T00:00:00.000Z";
  hash = "00";
  votes = signatures (none ∷ some our_vote ∷ []);
  canonical = some true;
}

abbrev pub tip_at : ℕ → Commit
tip_at h = record (commit_at h) { canonical = some false }

abbrev pub bonded : ValidatorData
bonded = record { jailed = false; status = "BOND_STATUS_BONDED" }

abbrev pub jailed : ValidatorData
jailed = record { jailed = true; status = "BOND_STATUS_UNBONDING" }

abbrev pub no_info : SigningInfo
no_info = record { tombstoned = none; jailed_until = none }

-- The range is answered for its first two heights, and the third fails.
abbrev pub hub_nodes : Nodes
hub_nodes = record {
  latest_commit = Response.ok (tip_at 9);
  range_commits = λ a z.
      Response.ok (commit_at a)
      ∷ Response.ok (commit_at (suc a))
      ∷ Response.fail (some "timeout")
      ∷ [];
  validator_at = λ h. Response.ok bonded;
  signing_info_at = λ h. Response.ok no_info;
}

abbrev pub block_at : ℕ → Block
block_at h = record {
  chain_id = "hub-1";
  height = h;
  hash = 1 ∷ [];
  time = 0;
  signed = pos 1;
  signature = some (2 ∷ []);
  precommitted = some true;
  chain_type = bft;
}

abbrev pub other_block : Block
other_block = record (block_at 40) { chain_id = "other-2" }

abbrev pub ended_at : Option ℕ → ValidatorInactivity
ended_at e = record {
  chain_id = "hub-1";
  height = 3;
  time = 0;
  jailed = true;
  permanent = false;
  bond_status = "BOND_STATUS_UNBONDING";
  jailed_until = none;
  end_height = e;
  end_time = e;
}

abbrev pub alert_of : String → String → Alert
alert_of id kind = record {
  alert_id = id;
  chain_id = "hub-1";
  alert_type = kind;
  subject = none;
  opened_at = 5;
  closed_at = none;
  last_notified_at = none;
  repeat_count = 0;
}

abbrev pub held : Store
held = record {
  blocks = block_at 4 ∷ other_block ∷ block_at 5 ∷ [];
  alerts = alert_of "a1" "stalled" ∷ [];
  inactivity = ended_at none ∷ [];
}

abbrev pub at_rest : Cycle Store
at_rest = record { store = held; down_since = [] }
