-- ===== src/Worker/Poll.antt =====
-- dp/chain_worker.ts: `pollChain`, one poll of the chain itself.
pub mod Contiguous
use cosmad.Prelude.{
  ℕ, zero, suc, ◌+◌, ◌-◌, String, Bool, true, false, Option, none, some, List, [], ◌∷◌, ltb, leb,
  if◌then◌else◌, or_else, last?, min, max,
}
use cosmad.Outcome.{Result, Response}
use cosmad.Platform.{Platform}
use cosmad.Tables.{Block, Alert, ValidatorInactivity}
use cosmad.Database.{WriteDb}
use cosmad.Database.Store.{sort_by_height}
use cosmad.Ingest.{ingest_blocks}
use cosmad.Alert.{evaluate}
use cosmad.Alert.Types.{AlertEvent, ChainTip, ValidatorStatus}
use cosmad.Worker.Types.{ChainConfig, Commit, ValidatorData, SigningInfo}
use cosmad.Worker.Commit.{ActiveFallbackCache}
use cosmad.Worker.Collect.{collect_blocks}
use cosmad.Worker.Inactivity.{resolve_validator_status, record_inactivity}

abbrev pub default_max_blocks_per_poll : ℕ
default_max_blocks_per_poll = 100

-- What the chain's nodes answer during one poll: `QueryOperator`, with the arguments that do not
-- change left out.
pub record Nodes : Type 0 where
  pub latest_commit : Response Commit
  pub range_commits : ℕ → ℕ → List (Response Commit)
  pub validator_at : ℕ → Response ValidatorData
  pub signing_info_at : ℕ → Response SigningInfo

-- `dbHeight != null ? Number(dbHeight) + 1 : Math.max(rpcHeight - 1, 1)`
unfoldable pub from_height : Option ℕ → ℕ → ℕ
from_height none rpc_height = max (rpc_height - 1) 1
from_height (some h) rpc_height = h + 1

-- `Math.min(rpcHeight, fromHeight + maxBlocksPerPoll - 1)`
unfoldable pub to_height : ChainConfig → ℕ → ℕ → ℕ
to_height chain from rpc_height =
    min rpc_height (from + or_else chain.max_blocks_per_poll default_max_blocks_per_poll - 1)

-- The first height of a window of `size` heights that ends at `latest`, at least 1. The source has
-- `span = size - 1` and tests `latest - span > 0`.
unfoldable pub window_start : ℕ → ℕ → ℕ
window_start latest size = if leb size latest then latest + 1 - size else 1

-- `validatorStatus?.active ?? (openInactivity.ok && openInactivity.value != null ? false : undefined)`
unfoldable pub last_known_active :
    Option ValidatorStatus → Result (Option ValidatorInactivity) → Option Bool
last_known_active (some s) r = some s.active
last_known_active none (Result.ok (some i)) = some false
last_known_active none (Result.ok none) = none
last_known_active none (Result.err e) = none

-- `lastKnownActive === false ? undefined : activeSetHex`
unfoldable pub trusted_active_set : Option Bool → Option (List String) → Option (List String)
trusted_active_set (some false) hexes = none
trusted_active_set _ hexes = hexes

module _ {S : Type 0} (p : Platform) (db : WriteDb S) (chain : ChainConfig) (nodes : Nodes) where
  -- The validator's period is recorded where both its status and the ongoing period are known.
  unfoldable pub record_status :
      Option ValidatorStatus → Result (Option ValidatorInactivity) → S → S
  record_status none r s = s
  record_status (some status) (Result.err e) s = s
  record_status (some status) (Result.ok ongoing) s = record_inactivity db chain status ongoing s

  -- The blocks of this poll, in the database if the insertion succeeds.
  unfoldable pub ingest_missing :
      Option String → Option (List String) → Option Bool → ℕ → ℕ → S → List Block × S
  unfolding to_height
  ingest_missing valcons_hex active_set_hex last_active from rpc_height s =
      let commits = nodes.range_commits from (to_height chain from rpc_height + 1) in
      let cache : ActiveFallbackCache = record { value = none; currently_active = last_active } in
      let blocks =
        collect_blocks p nodes.validator_at chain valcons_hex active_set_hex commits cache in
      if leb from rpc_height then (blocks, (ingest_blocks db blocks s).1) else ([], s)

  -- The windows behind the newest block, and the alerts that they call for.
  unfoldable pub evaluate_windows :
      ℕ
      → (ℕ → String)
      → ℕ
      → ℕ
      → List Alert
      → Option ValidatorStatus
      → ChainTip
      → S
      → List AlertEvent × S
  unfolding window_start
  evaluate_windows now ids signing_window_size latest open_alerts status tip s =
      let threshold = chain.alert_config.consecutive_miss_alert.threshold in
      let (tail_result, s1) =
        db.get_block_by_range (window_start latest (max threshold 1)) latest s in
      let (stats_result, s2) =
        db.get_block_stats (window_start latest signing_window_size) latest s1 in
      elim tail_result [
        | Result.err e ↦ ([], s1)
        | Result.ok tail ↦ elim stats_result [
          | Result.err e ↦ ([], s2)
          | Result.ok stats ↦ (
            evaluate chain.chain_id chain.alert_config now ids (sort_by_height tail) threshold stats
                open_alerts status tip,
            s2,
          )
        ]
      ]

  -- `pollChain` behind the two reads that can end it.
  unfoldable pub poll_from :
      ℕ
      → (ℕ → String)
      → Option String
      → ℕ
      → Option (List String)
      → List Alert
      → Option ℕ
      → Commit
      → S
      → List AlertEvent × S
  poll_from now ids valcons_hex signing_window_size active_set_hex open_alerts db_height tip s =
      let rpc_height = tip.height in
      let tip_time = p.of_iso tip.time in
      let status =
        resolve_validator_status p nodes.validator_at nodes.signing_info_at chain rpc_height
          tip_time in
      let (ongoing, s1) = db.get_open_inactivity s in
      let known = last_known_active status ongoing in
      let s2 = record_status status ongoing s1 in
      let (blocks, s3) =
        ingest_missing valcons_hex (trusted_active_set known active_set_hex) known
          (from_height db_height rpc_height) rpc_height s2 in
      let latest : ℕ = elim (last? blocks) [
        | some b ↦ b.height
        | none ↦ or_else db_height rpc_height
      ] in
      evaluate_windows now ids signing_window_size latest open_alerts status
        (record { height = rpc_height; time = tip_time }) s3

  -- The branches on the newest commit.
  unfoldable pub poll_tip :
      ℕ
      → (ℕ → String)
      → Option String
      → ℕ
      → Option (List String)
      → List Alert
      → Option ℕ
      → Response Commit
      → S
      → List AlertEvent × S
  poll_tip now ids valcons_hex signing_window_size active_set_hex open_alerts db_height
        (Response.fail e) s =
      ([], s)
  poll_tip now ids valcons_hex signing_window_size active_set_hex open_alerts db_height
        (Response.ok tip) s =
      poll_from now ids valcons_hex signing_window_size active_set_hex open_alerts db_height tip s

  -- `pollChain`
  unfoldable pub poll_chain :
      ℕ
      → (ℕ → String)
      → Option String
      → ℕ
      → Option (List String)
      → List Alert
      → S
      → List AlertEvent × S
  poll_chain now ids valcons_hex signing_window_size active_set_hex open_alerts s =
      let (latest, s1) = db.latest_block_height s in
      elim latest [
        | Result.err e ↦ ([], s1)
        | Result.ok db_height ↦
            poll_tip now ids valcons_hex signing_window_size active_set_hex open_alerts db_height
              nodes.latest_commit s1
      ]
