-- ===== src/Alert.antt =====
-- alert/index.ts: `evaluate`, the four checks of one poll.
pub mod Notifiers
pub mod Types
pub mod Checks
pub mod Status
pub mod Endpoints
pub mod Effect
use cosmad.Prelude.{ℕ, String, Option, List, [], ◌++◌, map, last?}
use cosmad.Tables.{Block, Alert, BlockWindowStats}
use cosmad.Dict.{Dict, string_eq, get, of_entries}
use Types.{ValidatorStatus, AlertEvent, AlertConfig, ChainTip}
use Checks.{check_stalled, slice_last, check_consecutive_miss, check_percentage_miss}
use Status.{check_validator_status}

-- `new Map(openAlerts.map((a) => [a.alertType, a]))`
unfoldable pub open_by_type : List Alert → Dict String Alert
unfolding of_entries
open_by_type alerts = of_entries [] (map (λ a. (a.alert_type, a)) alerts)

-- `evaluate`; `ids` are the results of `Alert.generateId()`, one for each check.
unfoldable pub evaluate :
    String
    → AlertConfig
    → ℕ
    → (ℕ → String)
    → List Block
    → ℕ
    → BlockWindowStats
    → List Alert
    → Option ValidatorStatus
    → ChainTip
    → List AlertEvent
evaluate chain_id cfg now ids tail_blocks threshold stats open_alerts status tip =
    let open_map = open_by_type open_alerts in
    check_stalled chain_id now (ids 0) cfg.stalled_alert tip (get "stalled" open_map)
    ++ (check_consecutive_miss chain_id now (ids 1) cfg.consecutive_miss_alert
          (slice_last threshold tail_blocks) (get "consecutive_miss" open_map)
        ++ (check_percentage_miss chain_id now (ids 2) cfg.percentage_missed_blocks_alert stats
              (last? tail_blocks) (get "percentage_miss" open_map)
            ++ check_validator_status chain_id now (ids 3) cfg status open_map))
