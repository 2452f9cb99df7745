-- ===== src/Api/Types.antt =====
-- api/types.ts: what the HTTP API and the event stream send.
use cosmad.Prelude.{
  ℕ, ◌+◌, ◌-◌, String, Bool, Option, none, some, List, [], ◌∷◌, map, ltb, if◌then◌else◌,
}
use cosmad.Prelude.Int.{ℤ}
use cosmad.Platform.{Platform}
use cosmad.Tables.{Block, Alert, bft, tm2}
use cosmad.Alert.Types.{Fraction}
use cosmad.Engine.Protocol.{optional}

pub record BlockJson : Type 0 where
  pub height : String
  pub hash : String
  pub time : String
  pub signed : ℤ
  pub signature : Option String
  pub precommitted : Option Bool

pub record AlertJson : Type 0 where
  pub alert_id : String
  pub chain_id : String
  pub alert_type : String
  pub subject : Option String
  pub opened_at : String
  pub closed_at : Option String

-- The events that the watcher publishes.
pub data SseEvent : Type 0 where
  block : (chain_id : String) → BlockJson → SseEvent
  alert_opened : (chain_id : String) → AlertJson → SseEvent
  alert_closed : (chain_id alert_id : String) → SseEvent
  chain_online : (chain_id : String) → SseEvent

module _ (p : Platform) where
  unfoldable pub serialize_block : Block → BlockJson
  serialize_block b = record {
    height = p.to_decimal b.height;
    hash = elim b.chain_type [ bft ↦ p.to_hex b.hash | tm2 ↦ p.to_base64 b.hash ];
    time = p.to_iso b.time;
    signed = b.signed;
    signature = optional p.to_hex b.signature;
    precommitted = b.precommitted;
  }

  unfoldable pub serialize_alert : Alert → AlertJson
  serialize_alert a = record {
    alert_id = a.alert_id;
    chain_id = a.chain_id;
    alert_type = a.alert_type;
    subject = a.subject;
    opened_at = p.to_iso a.opened_at;
    closed_at = optional p.to_iso a.closed_at;
  }

-- `DailyBlockStats` of pkgs/database/analytics.ts: a day's blocks, and those of them that were
-- missed.
pub record DailyBlockStats : Type 0 where
  pub date : String
  pub total : ℕ
  pub missed : ℕ

pub record DailyStatsJson : Type 0 where
  pub date : String
  pub total : ℕ
  pub missed : ℕ
  pub percentage_signed : Option Fraction

-- The share of signed blocks; no more blocks are missed than there are.
unfoldable pub percentage_signed : ℕ → ℕ → Option Fraction
percentage_signed total missed =
    if ltb 0 total then some (record { num = total - missed; den = total }) else none

unfoldable pub serialize_daily_stats : DailyBlockStats → DailyStatsJson
unfolding percentage_signed
serialize_daily_stats d = record {
  date = d.date;
  total = d.total;
  missed = d.missed;
  percentage_signed = percentage_signed d.total d.missed;
}

-- `daily.reduce((sum, d) => sum + d.total, 0)`, and of `d.missed`.
unfoldable pub sum_of : (DailyBlockStats → ℕ) → List DailyBlockStats → ℕ
sum_of f [] = 0
sum_of f (d ∷ ds) = f d + sum_of f ds

abbrev pub total_of : List DailyBlockStats → ℕ
total_of = sum_of (λ d. d.total)

abbrev pub missed_of : List DailyBlockStats → ℕ
missed_of = sum_of (λ d. d.missed)

pub record ChainStatsJson : Type 0 where
  pub chain_id : String
  pub days : ℕ
  pub total_blocks : ℕ
  pub missed_blocks : ℕ
  pub percentage_signed : Option Fraction
  pub daily : List DailyStatsJson

unfoldable pub build_chain_stats : String → ℕ → List DailyBlockStats → ChainStatsJson
unfolding sum_of serialize_daily_stats percentage_signed
build_chain_stats chain_id days daily = record {
  chain_id = chain_id;
  days = days;
  total_blocks = total_of daily;
  missed_blocks = missed_of daily;
  percentage_signed = percentage_signed (total_of daily) (missed_of daily);
  daily = map serialize_daily_stats daily;
}
