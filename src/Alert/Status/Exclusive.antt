-- ===== src/Alert/Status/Exclusive.antt =====
-- alert/index.ts: which alerts are open once the events of `checkValidatorStatus` are applied.
use mathlib.Core.List.{append-nil}
use cosmad.Prelude.{
  ℕ, suc, ◌≤◌, ◌≡◌, ◌≢◌, refl, subst, String, Bool, true, false, inl, inr, List, [], ◌∷◌, ◌++◌,
  arith, not, ◌&&◌, ◌∙◌, str_eq, eq_iff, if◌then◌else◌, Bool-cases, Option, none, some,
}
use cosmad.Tables.{Alert}
use cosmad.Dict.{string_eq, Dict, get}
use cosmad.Alert.{open_by_type}
use cosmad.Alert.Types.{
  AlertEvent, AlertContext, opened, closed, repeated, ValidatorStatus, AlertConfig,
}
use cosmad.Alert.Effect.{
  settle, remove, count, count-append, count-remove, All-remove, DistinctIds, PickedOut,
}
use cosmad.Alert.Checks.{fresh_alert}
use cosmad.Alert.Effect.Picked.{Found, get-Found, get-counted}
use cosmad.Alert.Status.{
  StatusAlert, inactive, jailed, tombstoned, alert_type, same, validator_status_alerts, is_wanted,
  wanted_alert, status_context, close_unwanted, close_events, open_wanted, open_if_missing,
  status_events, check_validator_status,
}

-- Removing one alert that is picked out leaves what is found of another type as it was, and
-- nothing of its own type.
Found-remove :
    (t : String) (a : Alert) (l : List Alert) (o : Option Alert)
    → PickedOut a l
    → Found t l o
    → Found t (remove a.alert_id l) o
Found-remove t a l none h f = rw (count-remove t a l h) (ground arith)
Found-remove t a l (some b) h f = (
  f.0,
  All-remove
      (λ (c : Alert).
        (c.alert_id ≡ b.alert_id → c.alert_type ≡ b.alert_type)
        × (c.alert_type ≡ b.alert_type → c.alert_id ≡ b.alert_id))
      a.alert_id l f.1,
)

abbrev is_closed : Option StatusAlert → List StatusAlert → String → Bool
is_closed wanted [] k = false
is_closed wanted (t ∷ ts) k =
    if is_wanted wanted t
    then is_closed wanted ts k
    else if str_eq (alert_type t) k
    then true
    else is_closed wanted ts k

settle-append :
    (es fs : List AlertEvent) (l : List Alert) → settle (es ++ fs) l ≡ settle fs (settle es l)
unfolding settle
settle-append [] fs l = refl
settle-append (opened a c ∷ es) fs l = settle-append es fs (l ++ a ∷ [])
settle-append (closed a t c ∷ es) fs l = settle-append es fs (remove a.alert_id l)
settle-append (repeated a c ∷ es) fs l = settle-append es fs l

module _ (chain_id : String) (now : ℕ) (id : String) (wanted : Option StatusAlert)
    (context : AlertContext) (m : Dict String Alert) where
  abbrev Tracks : List Alert → Type 0
  Tracks l = (t : StatusAlert) → Found (alert_type t) l (get (alert_type t) m)

  closes_one :
      (t : StatusAlert) (o : Option Alert) (k : String) (l : List Alert)
      → Found (alert_type t) l o
      → count k (settle (close_unwanted chain_id now id wanted context t o) l) ≡ (
          if is_wanted wanted t
          then count k l
          else if str_eq (alert_type t) k
          then 0
          else count k l)
  unfolding settle
  closes_one t none k l f = ground (arith, eq_iff (alert_type t) k)
  closes_one t (some a) k l f = ground (arith, count-remove k a l f.1)

  Tracks-one :
      (t : StatusAlert) (o : Option Alert) (l : List Alert)
      → Found (alert_type t) l o
      → Tracks l
      → Tracks (settle (close_unwanted chain_id now id wanted context t o) l)
  unfolding settle
  Tracks-one t none l f h = h
  Tracks-one t (some a) l f h = elim (Bool-cases (is_wanted wanted t)) [
    | inl e ↦ rw e h
    | inr e ↦ rw e (λ u. Found-remove (alert_type u) a l (get (alert_type u) m) f.1 (h u))
  ]

  count-close_events :
      (ts : List StatusAlert) (k : String) (l : List Alert)
      → Tracks l
      → count k (settle (close_events chain_id now id wanted context m ts) l)
        ≡ (if is_closed wanted ts k then 0 else count k l)
  unfolding close_events
  count-close_events [] k l h = unfold settle in refl
  count-close_events (t ∷ ts) k l h =
      let o = get (alert_type t) m in
      let first = close_unwanted chain_id now id wanted context t o in
      rw (settle-append first (close_events chain_id now id wanted context m ts) l) (
        rw (count-close_events ts k (settle first l) (Tracks-one t o l (h t) h))
          (rw (closes_one t o k l (h t)) (ground arith)))

-- Distinct identifiers, and at most one open alert for each reason.
pub record WellKept (l : List Alert) : Type 0 where
  pub distinct : DistinctIds l
  pub at_most_one : (t : StatusAlert) → count (alert_type t) l ≤ 1

closed_unless_wanted :
    (wanted : Option StatusAlert) (t : StatusAlert)
    → is_closed wanted validator_status_alerts (alert_type t)
      ≡ (if is_wanted wanted t then false else true)
closed_unless_wanted none inactive = refl
closed_unless_wanted none jailed = refl
closed_unless_wanted none tombstoned = refl
closed_unless_wanted (some inactive) inactive = refl
closed_unless_wanted (some inactive) jailed = refl
closed_unless_wanted (some inactive) tombstoned = refl
closed_unless_wanted (some jailed) inactive = refl
closed_unless_wanted (some jailed) jailed = refl
closed_unless_wanted (some jailed) tombstoned = refl
closed_unless_wanted (some tombstoned) inactive = refl
closed_unless_wanted (some tombstoned) jailed = refl
closed_unless_wanted (some tombstoned) tombstoned = refl

type_same : (t u : StatusAlert) → str_eq (alert_type u) (alert_type t) ≡ same t u
type_same inactive inactive = refl
type_same inactive jailed = refl
type_same inactive tombstoned = refl
type_same jailed inactive = refl
type_same jailed jailed = refl
type_same jailed tombstoned = refl
type_same tombstoned inactive = refl
type_same tombstoned jailed = refl
type_same tombstoned tombstoned = refl

-- The alerts of type `k` after the check: one of the wanted type, none of the other two.
abbrev pub kept_open : Option StatusAlert → String → List Alert → ℕ
kept_open none k l = if is_closed none validator_status_alerts k then 0 else count k l
kept_open (some w) k l =
    if str_eq (alert_type w) k
    then 1
    else if is_closed (some w) validator_status_alerts k
    then 0
    else count k l

wanted_stays : (w : StatusAlert) → is_closed (some w) validator_status_alerts (alert_type w) ≡ false
wanted_stays inactive = refl
wanted_stays jailed = refl
wanted_stays tombstoned = refl

kept_open_status :
    (v : Option StatusAlert) (t : StatusAlert) (l : List Alert)
    → kept_open v (alert_type t) l ≡ (if is_wanted v t then 1 else 0)
kept_open_status none t l = rw (closed_unless_wanted none t)
kept_open_status (some w) t l = ground (arith, closed_unless_wanted (some w) t, type_same t w)

kept_open_other :
    (v : Option StatusAlert) (k : String) (l : List Alert)
    → ((t : StatusAlert) → alert_type t ≢ k)
    → kept_open v k l ≡ count k l
kept_open_other none k l other = ground (
  arith,
  other inactive,
  other jailed,
  other tombstoned,
  eq_iff "inactive" k,
  eq_iff "jailed" k,
  eq_iff "tombstoned" k,
)
kept_open_other (some w) k l other = ground (
  arith,
  other w,
  other inactive,
  other jailed,
  other tombstoned,
  eq_iff (alert_type w) k,
  eq_iff "inactive" k,
  eq_iff "jailed" k,
  eq_iff "tombstoned" k,
)

module _ (chain_id : String) (now : ℕ) (id : String) where
  opens_one :
      (w : StatusAlert) (o : Option Alert) (context : AlertContext) (k : String) (l : List Alert)
      → count k (settle (open_if_missing chain_id now id context w o) l) ≡ (elim o [
        | none ↦ if str_eq (alert_type w) k then suc (count k l) else count k l
        | some a ↦ count k l
      ])
  unfolding settle fresh_alert count
  opens_one w none context k l =
      ground (arith, count-append k l (fresh_alert id chain_id (alert_type w) none now ∷ []))
  opens_one w (some a) context k l = refl

  count_open_wanted :
      (w : StatusAlert) (o : Option Alert) (context : AlertContext) (k : String) (l l' : List Alert)
      → count k l' ≡ (if is_closed (some w) validator_status_alerts k then 0 else count k l)
      → (o ≡ none → count (alert_type w) l ≡ 0)
      → ((a : Alert) → o ≡ some a → count (alert_type w) l ≡ 1)
      → count k (settle (open_if_missing chain_id now id context w o) l') ≡ kept_open (some w) k l
  count_open_wanted w none context k l l' h z one =
      rw (opens_one w none context k l')
        (ground (arith, z refl, wanted_stays w, eq_iff (alert_type w) k))
  count_open_wanted w (some a) context k l l' h z one =
      rw (opens_one w (some a) context k l')
        (ground (arith, one a refl, wanted_stays w, eq_iff (alert_type w) k))

  count_status :
      (v : Option StatusAlert) (context : AlertContext) (l : List Alert)
      → WellKept l
      → (k : String)
      → count k (
          settle
            (close_events chain_id now id v context (open_by_type l) validator_status_alerts
              ++ open_wanted chain_id now id v context (open_by_type l))
            l)
        ≡ kept_open v k l
  count_status none context l kept k = rw append-nil (
      count-close_events chain_id now id none context (open_by_type l) validator_status_alerts k l
        (λ t. get-Found (alert_type t) l kept.distinct (kept.at_most_one t)))
  count_status (some w) context l kept k =
      let m = open_by_type l in
      let closes = close_events chain_id now id (some w) context m validator_status_alerts in
      rw (settle-append closes (open_wanted chain_id now id (some w) context m) l) (
        count_open_wanted w (get (alert_type w) m) context k l (settle closes l)
          (count-close_events chain_id now id (some w) context m validator_status_alerts k l
            (λ t. get-Found (alert_type t) l kept.distinct (kept.at_most_one t)))
          (λ e.
            subst (Found (alert_type w) l) e
              (get-Found (alert_type w) l kept.distinct (kept.at_most_one w)))
          (λ a e. omega (arith, get-counted (alert_type w) l a e, kept.at_most_one w)))

  count_wanted :
      (cfg : AlertConfig) (s : ValidatorStatus) (l : List Alert)
      → cfg.alert_if_inactive ≡ true
      → WellKept l
      → (t : StatusAlert)
      → count
          (alert_type t)
          (settle (check_validator_status chain_id now id cfg (some s) (open_by_type l)) l)
        ≡ (if is_wanted (wanted_alert s) t then 1 else 0)
  unfolding check_validator_status status_events
  count_wanted cfg s l on kept t = rw on (
      rw (count_status (wanted_alert s) (status_context s) l kept (alert_type t))
        (kept_open_status (wanted_alert s) t l))

  -- Where the validator's status is known and its alerts are switched on, the events of the check
  -- leave no open alert on the status if the validator is active, and otherwise exactly one:
  -- "tombstoned" if the removal is permanent, "jailed" if it is not and the validator is jailed,
  -- "inactive" if it is neither; from open alerts with distinct identifiers and at most one of
  -- each reason.
  pub check_validator_status-exclusive :
      (cfg : AlertConfig) (s : ValidatorStatus) (l : List Alert)
      → cfg.alert_if_inactive ≡ true
      → WellKept l
      → let after =
          settle (check_validator_status chain_id now id cfg (some s) (open_by_type l)) l in
        (count "tombstoned" after ≡ (if not s.active && s.permanent then 1 else 0))
        × (count "jailed" after ≡ (if not s.active && (not s.permanent && s.jailed) then 1 else 0))
        × (count "inactive" after
            ≡ (if not s.active && (not s.permanent && not s.jailed) then 1 else 0))
  unfolding wanted_alert
  check_validator_status-exclusive cfg s l on kept = (
    count_wanted cfg s l on kept tombstoned ∙ ground arith,
    count_wanted cfg s l on kept jailed ∙ ground arith,
    count_wanted cfg s l on kept inactive ∙ ground arith,
  )

  -- The check of the validator's status leaves the number of open alerts of every other type as it
  -- was, whatever the status and the configuration, from open alerts with distinct identifiers and
  -- at most one of each reason.
  pub check_validator_status-others :
      (cfg : AlertConfig) (s : Option ValidatorStatus) (l : List Alert)
      → WellKept l
      → (k : String) → ((t : StatusAlert) → alert_type t ≢ k)
      → count k (settle (check_validator_status chain_id now id cfg s (open_by_type l)) l)
        ≡ count k l
  unfolding check_validator_status status_events
  check_validator_status-others cfg none l kept k other = unfold settle in refl
  check_validator_status-others cfg (some s) l kept k other =
      elim (Bool-cases cfg.alert_if_inactive) [
        | inl e ↦ rw e (
            rw (count_status (wanted_alert s) (status_context s) l kept k)
              (kept_open_other (wanted_alert s) k l other))
        | inr e ↦ rw e (unfold settle in refl)
      ]
