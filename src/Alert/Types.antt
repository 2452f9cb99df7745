-- ===== src/Alert/Types.antt =====
-- alert/types.ts and config/alert_types.ts: the events of the alert evaluator, its inputs and its
-- configuration. A JavaScript number that may have decimals is an exact fraction.
use cosmad.Prelude.{ℕ, ◌*◌, String, Bool, Option, none, leb}
use cosmad.Tables.{Alert}

pub record Fraction : Type 0 where
  pub num : ℕ
  pub den : ℕ

abbrev pub whole : ℕ → Fraction
whole n = record { num = n; den = 1 }

-- `a >= b`
unfoldable pub at_least : Fraction → Fraction → Bool
at_least a b = leb (b.num * a.den) (a.num * b.den)

-- Snapshot of the chain at the moment an alert was evaluated.
pub record AlertContext : Type 0 where
  pub latest_block_height : Option ℕ
  pub latest_block_time : Option ℕ
  pub window_total : Option ℕ
  pub window_missed : Option ℕ
  pub window_missed_percent : Option Fraction
  pub consecutive_missed : Option ℕ
  pub threshold : Option Fraction
  pub reason : Option String
  pub bond_status : Option String
  pub jailed_until : Option ℕ

-- `{}`
abbrev pub no_context : AlertContext
no_context = record {
  latest_block_height = none;
  latest_block_time = none;
  window_total = none;
  window_missed = none;
  window_missed_percent = none;
  consecutive_missed = none;
  threshold = none;
  reason = none;
  bond_status = none;
  jailed_until = none;
}

pub record ValidatorStatus : Type 0 where
  pub height : ℕ
  pub time : ℕ
  pub active : Bool
  pub jailed : Bool
  pub permanent : Bool
  pub bond_status : String
  pub jailed_until : Option ℕ

pub data EndpointKind : Type 0 where
  rpc api : EndpointKind

-- `healthy` is missing while the endpoint has not been health checked.
pub record EndpointCheck : Type 0 where
  pub kind : EndpointKind
  pub url : String
  pub alert_if_down : Bool
  pub healthy : Option Bool
  pub reason : Option String

-- The last field of `close` is the context; `closedAt` stands before it.
pub data AlertEvent : Type 0 where
  opened : Alert → AlertContext → AlertEvent
  closed : Alert → ℕ → AlertContext → AlertEvent
  repeated : Alert → AlertContext → AlertEvent

-- The chain's newest block as RPC reports it.
pub record ChainTip : Type 0 where
  pub height : ℕ
  pub time : ℕ

pub record StalledAlert : Type 0 where
  pub enabled : Bool
  pub stalled_threshold : ℕ  -- seconds

pub record ConsecutiveMissAlert : Type 0 where
  pub enabled : Bool
  pub threshold : ℕ  -- blocks
  pub repeats : Bool
  pub repeat_interval : ℕ  -- seconds

pub record PercentageMissAlert : Type 0 where
  pub enabled : Bool
  pub threshold : Fraction  -- percent
  pub repeats : Bool

pub record AlertConfig : Type 0 where
  pub stalled_alert : StalledAlert
  pub consecutive_miss_alert : ConsecutiveMissAlert
  pub percentage_missed_blocks_alert : PercentageMissAlert
  pub alert_if_inactive : Bool
  pub endpoint_down_alert_after : Option ℕ  -- seconds
  pub signing_window_size : Option ℕ
