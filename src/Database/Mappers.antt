-- ===== src/Database/Mappers.antt =====
-- pkgs/database/duckdb/mappers.ts: the rows of the database, to the program's records and back.
use cosmad.Prelude.{ℕ, ◌*◌, ◌/◌, ◌-◌, String, Bool, Option, none, some, List, take}
use cosmad.Prelude.Int.{ℤ}
use cosmad.Outcome.{Result}
use cosmad.Platform.{Platform}
use cosmad.Tables.{
  ChainType, Block, BlockOptions, bytes, new_block, Alert, new_alert, ValidatorInactivity,
  BlockWindowStats,
}
use cosmad.Alert.Types.{Fraction}
use cosmad.Api.Types.{DailyBlockStats}
use cosmad.Engine.Protocol.{optional}
pub mod Back

-- A timestamp is its microseconds since the epoch.
abbrev pub to_timestamp : ℕ → ℕ
to_timestamp date = date * 1000

abbrev pub from_timestamp : ℕ → ℕ
from_timestamp micros = micros / 1000

pub record BlockRow : Type 0 where
  pub chain_id : String
  pub height : ℕ
  pub hash : List ℕ
  pub time : ℕ
  pub signed : ℤ
  pub signature : Option (List ℕ)
  pub precommitted : Option Bool

unfoldable pub block_to_row : Block → BlockRow
block_to_row b = record {
  chain_id = b.chain_id;
  height = b.height;
  hash = b.hash;
  time = to_timestamp b.time;
  signed = b.signed;
  signature = b.signature;
  precommitted = b.precommitted;
}

abbrev pub options_of_row : BlockRow → ChainType → BlockOptions
options_of_row row chain_type = record {
  chain_id = row.chain_id;
  height = row.height;
  hash = bytes row.hash;
  time = from_timestamp row.time;
  signed = row.signed;
  signature = optional bytes row.signature;
  precommitted = row.precommitted;
  chain_type = chain_type;
}

unfoldable pub row_to_block : Platform → BlockRow → ChainType → Result Block
unfolding new_block
row_to_block p row chain_type = new_block p (options_of_row row chain_type)

pub record AlertRow : Type 0 where
  pub alert_id : String
  pub chain_id : String
  pub alert_type : String
  pub subject : Option String
  pub opened_at : ℕ
  pub closed_at : Option ℕ
  pub last_notified_at : Option ℕ
  pub repeat_count : ℕ

unfoldable pub alert_to_row : Alert → AlertRow
alert_to_row a = record {
  alert_id = a.alert_id;
  chain_id = a.chain_id;
  alert_type = a.alert_type;
  subject = a.subject;
  opened_at = to_timestamp a.opened_at;
  closed_at = optional to_timestamp a.closed_at;
  last_notified_at = optional to_timestamp a.last_notified_at;
  repeat_count = a.repeat_count;
}

unfoldable pub row_to_alert : AlertRow → Alert
unfolding new_alert
row_to_alert row = new_alert (record {
  alert_id = row.alert_id;
  chain_id = row.chain_id;
  alert_type = row.alert_type;
  subject = row.subject;
  opened_at = from_timestamp row.opened_at;
  closed_at = optional from_timestamp row.closed_at;
  last_notified_at = optional from_timestamp row.last_notified_at;
  repeat_count = some row.repeat_count;
})

pub record ValidatorInactivityRow : Type 0 where
  pub chain_id : String
  pub height : ℕ
  pub time : ℕ
  pub jailed : Bool
  pub permanent : Bool
  pub bond_status : String
  pub jailed_until : Option ℕ
  pub end_height : Option ℕ
  pub end_time : Option ℕ

unfoldable pub inactivity_to_row : ValidatorInactivity → ValidatorInactivityRow
inactivity_to_row period = record {
  chain_id = period.chain_id;
  height = period.height;
  time = to_timestamp period.time;
  jailed = period.jailed;
  permanent = period.permanent;
  bond_status = period.bond_status;
  jailed_until = optional to_timestamp period.jailed_until;
  end_height = period.end_height;
  end_time = optional to_timestamp period.end_time;
}

unfoldable pub row_to_inactivity : ValidatorInactivityRow → ValidatorInactivity
row_to_inactivity row = record {
  chain_id = row.chain_id;
  height = row.height;
  time = from_timestamp row.time;
  jailed = row.jailed;
  permanent = row.permanent;
  bond_status = row.bond_status;
  jailed_until = optional from_timestamp row.jailed_until;
  end_height = row.end_height;
  end_time = optional from_timestamp row.end_time;
}

-- The counts of a window of blocks, as a query returns them.
pub record CountsRow : Type 0 where
  pub total : ℕ
  pub missed : ℕ

-- `ChainSignatureStats` of pkgs/database/analytics.ts.
pub record ChainSignatureStats : Type 0 where
  pub chain_id : String
  pub percentage_signed : Fraction
  pub percentage_missed : Fraction

-- A share of no blocks at all is NaN: a fraction whose denominator is 0.
unfoldable pub row_to_sign_stats : CountsRow → String → ChainSignatureStats
row_to_sign_stats row chain_id = record {
  chain_id = chain_id;
  percentage_signed = record { num = row.total - row.missed; den = row.total };
  percentage_missed = record { num = row.missed; den = row.total };
}

unfoldable pub row_to_block_window_stats : CountsRow → BlockWindowStats
row_to_block_window_stats row = record { total = row.total; missed = row.missed }

-- The counts of one day; `date_of` is the first ten characters of its ISO text.
pub record DayRow : Type 0 where
  pub day : ℕ
  pub total : ℕ
  pub missed : ℕ

unfoldable pub row_to_daily_block_stats : (date_of : ℕ → String) → DayRow → DailyBlockStats
row_to_daily_block_stats date_of row = record {
  date = date_of (from_timestamp row.day);
  total = row.total;
  missed = row.missed;
}
