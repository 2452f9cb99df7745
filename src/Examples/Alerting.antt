-- ===== src/Examples/Alerting.antt =====
-- The theorems on alerts, framing and requests, at the example's data.
use cosmad.Prelude.{
  ℕ, true, false, ◌≡◌, ◌≢◌, refl, none, some, [], ◌∷◌, str_eq, eq_iff, leb, ◌≤◌, ◌<◌, arith, map,
  length, if◌then◌else◌, All, List,
}
use cosmad.Outcome.{Response}
use cosmad.Alert.{open_by_type}
use cosmad.Alert.Types.{ValidatorStatus}
use cosmad.Tables.{Alert}
use cosmad.Alert.Status.{
  StatusAlert, inactive, jailed, tombstoned, alert_type, check_validator_status,
}
use cosmad.Alert.Status.Exclusive.{
  WellKept, check_validator_status-exclusive, check_validator_status-others,
}
use cosmad.Alert.Effect.{settle, count}
use cosmad.Socket.{on_lines, newline, send_line}
use mathlib.Core.List.{flatten}
use cosmad.Socket.Framing.{on_lines-send_line}
use cosmad.Worker.Types.{Commit}
use cosmad.Worker.Collect.Contiguous.{count_up, Answers}
use cosmad.Query.Range.{
  Settled, fulfilled, rejected, response_of, chunks, get_range_commits, get_range_commits-eq-map,
  get_range_commits-Answers,
}
use cosmad.Query.Retry.{Attempt, returned, thrown}
use cosmad.Query.Valset.{ValSet, get_valset, get_valset-never_returns}
use cosmad.Examples.World.{alerts_on, alert_of, commit_at}

abbrev in_jail : ValidatorStatus
in_jail = record {
  height = 9;
  time = 0;
  active = false;
  jailed = true;
  permanent = false;
  bond_status = "BOND_STATUS_UNBONDING";
  jailed_until = none;
}

-- The validator was inactive, and the chain had stalled.
abbrev open_alerts : List Alert
open_alerts = alert_of "a1" "stalled" ∷ alert_of "a2" "inactive" ∷ []

one_of_each : (t : StatusAlert) → count (alert_type t) open_alerts ≤ 1
unfolding count
one_of_each inactive = omega arith
one_of_each jailed = omega arith
one_of_each tombstoned = omega arith

open_alerts-WellKept : WellKept open_alerts
unfolding count
open_alerts-WellKept = record {
  distinct = (((λ e. ground (arith, eq_iff "a2" "a1")), tt), (tt, tt));
  at_most_one = one_of_each;
}

check_validator_status-exclusive_example :
    let after =
      settle
        (check_validator_status "hub-1" 100 "a3" alerts_on
          (some in_jail)
          (open_by_type open_alerts))
        open_alerts in
    (count "tombstoned" after ≡ 0) × (count "jailed" after ≡ 1) × (count "inactive" after ≡ 0)
check_validator_status-exclusive_example =
    check_validator_status-exclusive "hub-1" 100 "a3" alerts_on in_jail open_alerts refl
      open_alerts-WellKept

stalled_is_other : (t : StatusAlert) → alert_type t ≢ "stalled"
stalled_is_other inactive e = ground (arith, eq_iff "inactive" "stalled")
stalled_is_other jailed e = ground (arith, eq_iff "jailed" "stalled")
stalled_is_other tombstoned e = ground (arith, eq_iff "tombstoned" "stalled")

check_validator_status-others_example :
    count "stalled" (
      settle
        (check_validator_status "hub-1" 100 "a3" alerts_on
          (some in_jail)
          (open_by_type open_alerts))
        open_alerts)
    ≡ count "stalled" open_alerts
check_validator_status-others_example =
    check_validator_status-others "hub-1" 100 "a3" alerts_on (some in_jail) open_alerts
      open_alerts-WellKept "stalled" stalled_is_other

-- "a" and "b" with their newlines, cut inside the second line.
both_messages :
    All
      (λ (m : List ℕ). (m ≢ []) × All (λ c. c ≢ newline) m × All (λ c. c < 128) m)
      ((97 ∷ []) ∷ (98 ∷ 99 ∷ []) ∷ [])
both_messages = (
  ((λ e. ground arith), ((λ e. omega arith), tt), (omega arith, tt)),
  (
    (
      (λ e. ground arith),
      ((λ e. omega arith), ((λ e. omega arith), tt)),
      (omega arith, (omega arith, tt)),
    ),
    tt,
  ),
)

on_lines-send_line_example :
    on_lines (λ b. b) [] ((97 ∷ 10 ∷ 98 ∷ []) ∷ (99 ∷ 10 ∷ []) ∷ [])
    ≡ ((97 ∷ []) ∷ (98 ∷ 99 ∷ []) ∷ [], [])
unfolding flatten send_line
on_lines-send_line_example =
    on_lines-send_line (λ b. b) (λ b h. refl) ((97 ∷ []) ∷ (98 ∷ 99 ∷ []) ∷ [])
      ((97 ∷ 10 ∷ 98 ∷ []) ∷ (99 ∷ 10 ∷ []) ∷ []) both_messages refl

abbrev half_answered : ℕ → Settled
half_answered h = if leb h 7 then fulfilled (Response.ok (commit_at h)) else rejected "timeout"

get_range_commits-eq-map_example :
    (get_range_commits half_answered 2 5 10
      ≡ map (λ h. response_of (half_answered h)) (count_up 5 5))
    × All (λ c. length c ≤ 2) (chunks 5 2 (count_up 5 5))
get_range_commits-eq-map_example = get_range_commits-eq-map half_answered 2 5 10 (omega arith)

half_answered-right :
    (h : ℕ) (c : Commit) → response_of (half_answered h) ≡ Response.ok c → c.height ≡ h
half_answered-right h c e = ground arith

get_range_commits-Answers_example : Answers 5 (get_range_commits half_answered 2 5 10)
get_range_commits-Answers_example =
    get_range_commits-Answers half_answered 2 5 10 (omega arith) half_answered-right

-- The second attempt answers.
abbrev second_try : ℕ → Attempt ℕ
second_try n = if leb 1 n then returned (Response.ok 42) else thrown "reset"

abbrev page_one : ValSet
page_one = record { validators = "v1" ∷ []; next_key = some "k1" }

abbrev page_two : ValSet
page_two = record { validators = "v2" ∷ []; next_key = none }

get_valset-never_returns_example :
    get_valset (λ key. if str_eq key "" then Response.ok page_one else Response.ok page_two) 1000
    ≡ none
get_valset-never_returns_example =
    get_valset-never_returns
      (λ key. if str_eq key "" then Response.ok page_one else Response.ok page_two) 1000 "k1"
      page_one page_two refl refl (λ e. ground (arith, eq_iff "k1" "")) refl
