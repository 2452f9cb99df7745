-- ===== src/Worker/Inactivity.antt =====
-- dp/chain_worker.ts: `resolveValidatorStatus` and `recordInactivity`.
pub mod Sync
use cosmad.Prelude.{
  ℕ, String, Bool, true, false, not, ◌&&◌, ◌||◌, Option, none, some, leb, str_eq, if◌then◌else◌,
  is_some,
}
use cosmad.Outcome.{Result, Response}
use cosmad.Platform.{Platform}
use cosmad.Tables.{ValidatorInactivity}
use cosmad.Database.{WriteDb}
use cosmad.Alert.Types.{ValidatorStatus}
use cosmad.Worker.Types.{
  ChainConfig, Identity, bft_identity, tm2_identity, ValidatorData, SigningInfo,
}
use cosmad.Worker.Commit.{same_bool, is_active}

-- `permanent` and `jailedUntil`, from the signing info of a jailed validator.
unfoldable pub read_signing_info : Platform → Response SigningInfo → Bool × Option ℕ
read_signing_info p (Response.fail e) = (false, none)
read_signing_info p (Response.ok info) =
    let tombstoned : Bool = elim info.tombstoned [ some true ↦ true | _ ↦ false ] in
    elim info.jailed_until [
      | none ↦ (tombstoned, none)
      | some until ↦ elim (p.try_date until) [
        | none ↦ (tombstoned, none)
        | some t ↦ (leb 9999 (p.utc_year t) || tombstoned, some t)
      ]
    ]

module _ (p : Platform) (validator_at : ℕ → Response ValidatorData)
    (signing_info_at : ℕ → Response SigningInfo) (chain : ChainConfig) where
  unfoldable pub status_of : ℕ → ℕ → ValidatorData → ValidatorStatus
  unfolding read_signing_info is_active
  status_of height time v =
      let (permanent, jailed_until) =
        if v.jailed then read_signing_info p (signing_info_at height) else (false, none) in
      record {
        height = height;
        time = time;
        active = is_active v;
        jailed = v.jailed;
        permanent = permanent;
        bond_status = v.status;
        jailed_until = jailed_until;
      }

  unfoldable pub resolve_validator_status : ℕ → ℕ → Option ValidatorStatus
  unfolding status_of
  resolve_validator_status height time = elim chain.identity [
    | tm2_identity a b ↦ none
    | bft_identity a b ↦ elim (validator_at height) [
      | Response.fail e ↦ none
      | Response.ok v ↦ some (status_of height time v)
    ]
  ]

-- `open != null && open.jailed === status.jailed && open.permanent === status.permanent`
unfoldable pub same_reason : Option ValidatorInactivity → ValidatorStatus → Bool
same_reason none s = false
same_reason (some o) s = same_bool o.jailed s.jailed && same_bool o.permanent s.permanent

-- The period that `recordInactivity` starts.
unfoldable pub new_period : ChainConfig → ValidatorStatus → ValidatorInactivity
new_period chain s = record {
  chain_id = chain.chain_id;
  height = s.height;
  time = s.time;
  jailed = s.jailed;
  permanent = s.permanent;
  bond_status = s.bond_status;
  jailed_until = s.jailed_until;
  end_height = none;
  end_time = none;
}

module _ {S : Type 0} (db : WriteDb S) (chain : ChainConfig) where
  -- The ongoing period is ended; a failure is only logged.
  unfoldable pub end_open : ValidatorStatus → Option ValidatorInactivity → S → S
  end_open status none s = s
  end_open status (some o) s = (db.end_inactivity o.height status.height status.time s).1

  unfoldable pub record_inactivity : ValidatorStatus → Option ValidatorInactivity → S → S
  unfolding same_reason end_open
  record_inactivity status ongoing s =
      let same = same_reason ongoing status in
      let s' =
        if status.active || (is_some ongoing && not same) then end_open status ongoing s else s in
      if not status.active && not same
      then (db.insert_inactivity (new_period chain status) s').1
      else s'
