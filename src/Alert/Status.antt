-- ===== src/Alert/Status.antt =====
-- alert/index.ts: `checkValidatorStatus`, the alerts that say why the validator is outside the
-- active set.
pub mod Exclusive
use cosmad.Prelude.{
  ℕ, String, Bool, true, false, not, Option, none, some, List, [], ◌∷◌, ◌++◌, if◌then◌else◌,
}
use cosmad.Tables.{Alert}
use cosmad.Dict.{Dict, string_eq, get}
use cosmad.Alert.Types.{
  AlertContext, no_context, ValidatorStatus, AlertEvent, opened, closed, AlertConfig,
}
use cosmad.Alert.Checks.{fresh_alert}

-- `ValidatorStatusAlert`
pub data StatusAlert : Type 0 where
  inactive jailed tombstoned : StatusAlert

abbrev pub alert_type : StatusAlert → String
alert_type inactive = "inactive"
alert_type jailed = "jailed"
alert_type tombstoned = "tombstoned"

abbrev pub same : StatusAlert → StatusAlert → Bool
same inactive inactive = true
same jailed jailed = true
same tombstoned tombstoned = true
same _ _ = false

-- `VALIDATOR_STATUS_ALERTS`
abbrev pub validator_status_alerts : List StatusAlert
validator_status_alerts = inactive ∷ jailed ∷ tombstoned ∷ []

-- The alert that should be open.
unfoldable pub wanted_alert : ValidatorStatus → Option StatusAlert
wanted_alert s =
    if not s.active
    then some (if s.permanent then tombstoned else if s.jailed then jailed else inactive)
    else none

abbrev pub is_wanted : Option StatusAlert → StatusAlert → Bool
is_wanted none t = false
is_wanted (some w) t = same t w

unfoldable pub status_context : ValidatorStatus → AlertContext
status_context s = record no_context {
  latest_block_height = some s.height;
  latest_block_time = some s.time;
  bond_status = some s.bond_status;
  jailed_until = if s.permanent then none else s.jailed_until;
}

module _ (chain_id : String) (now : ℕ) (id : String) where
  -- One round of the loop: an open alert of another reason is closed.
  abbrev pub close_unwanted :
      Option StatusAlert → AlertContext → StatusAlert → Option Alert → List AlertEvent
  close_unwanted wanted context t none = []
  close_unwanted wanted context t (some a) =
      if is_wanted wanted t then [] else closed a now context ∷ []

  -- The loop over the three types.
  unfoldable pub close_events :
      Option StatusAlert → AlertContext → Dict String Alert → List StatusAlert → List AlertEvent
  close_events wanted context open_by_type [] = []
  close_events wanted context open_by_type (t ∷ ts) =
      close_unwanted wanted context t (get (alert_type t) open_by_type)
      ++ close_events wanted context open_by_type ts

  abbrev pub open_if_missing : AlertContext → StatusAlert → Option Alert → List AlertEvent
  open_if_missing context w none =
      opened (fresh_alert id chain_id (alert_type w) none now) context ∷ []
  open_if_missing context w (some a) = []

  abbrev pub open_wanted : Option StatusAlert → AlertContext → Dict String Alert → List AlertEvent
  open_wanted none context open_by_type = []
  open_wanted (some w) context open_by_type =
      open_if_missing context w (get (alert_type w) open_by_type)

  unfoldable pub status_events : ValidatorStatus → Dict String Alert → List AlertEvent
  unfolding wanted_alert status_context close_events fresh_alert
  status_events s open_by_type =
      close_events (wanted_alert s) (status_context s) open_by_type validator_status_alerts
      ++ open_wanted (wanted_alert s) (status_context s) open_by_type

  unfoldable pub check_validator_status :
      AlertConfig → Option ValidatorStatus → Dict String Alert → List AlertEvent
  check_validator_status cfg none open_by_type = []
  check_validator_status cfg (some s) open_by_type =
      if not cfg.alert_if_inactive then [] else status_events s open_by_type
