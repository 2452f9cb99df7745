-- ===== src/Examples/Publishing.antt =====
-- The theorems on what is told to browsers and to the on-call service, at small inputs.
use cosmad.Prelude.{
  ℕ, ◌≡◌, refl, String, Bool, true, false, ◌==◌, none, some, List, [], ◌∷◌, ◌++◌, str_eq,
  if◌then◌else◌,
}
use cosmad.Outcome.{ok, err}
use cosmad.Tables.{Alert}
use cosmad.Dict.{contains, string_eq}
use cosmad.Alert.Types.{AlertEvent, opened, closed, no_context}
use cosmad.Alert.Notifiers.{Post, Channels, PagerdutyConfig, new_dispatcher}
use cosmad.Alert.Notifiers.Incidents.{dispatch_all, incident, is_open, incident-dispatch_all}
use cosmad.Api.Watcher.{Reads, Watcher, polls, ids_of}
use cosmad.Api.Watcher.Mirror.{shows, holds, shows-polls}
use cosmad.Examples.World.{plain, alert_of}

abbrev reads_with : List Alert → Reads
reads_with alerts = record {
  latest_block_height = ok (some 5);
  latest_block = ok none;
  unclosed_alerts = ok alerts;
}

-- Two chains. The alert a1 of the first opens, then closes while a2 opens; the second cannot be read.
abbrev reading : List Alert → String → Reads
reading alerts chain =
    if str_eq chain "hub-1"
    then reads_with alerts
    else record (reads_with []) { unclosed_alerts = err "closed" }

abbrev chains : List String
chains = "hub-1" ∷ "hub-2" ∷ []

abbrev at_first : Watcher
at_first = record { last_heights = []; last_alert_ids = [] }

shows-polls_example :
    shows "hub-1" "a2"
      (polls plain chains
        (reading (alert_of "a1" "stalled" ∷ []) ∷ [] ++ reading (alert_of "a2" "stalled" ∷ []) ∷ [])
        at_first).0
      (holds "hub-1" "a2" at_first)
    ≡ contains "a2" (ids_of (alert_of "a2" "stalled" ∷ []))
unfolding contains
shows-polls_example =
    shows-polls "hub-1" "a2" plain chains (reading (alert_of "a1" "stalled" ∷ []) ∷ [])
      (reading (alert_of "a2" "stalled" ∷ [])) at_first (alert_of "a2" "stalled" ∷ []) refl refl

abbrev on_call : PagerdutyConfig
on_call = record { enabled = true; service_key = "key" }

abbrev of_chain : Channels
of_chain = record { telegram = none; discord = none; pagerduty = none }

abbrev of_all : Channels
of_all = record { telegram = none; discord = none; pagerduty = some on_call }

-- Each request succeeds at its second try.
abbrev second_try : ℕ → ℕ → Post → Bool
second_try n attempt post = attempt == 2

abbrev events : List AlertEvent
events =
    opened (alert_of "a1" "stalled") no_context
    ∷ opened (alert_of "a2" "jailed") no_context
    ∷ closed (alert_of "a1" "stalled") 9 no_context
    ∷ []

incident-dispatch_all_example :
    incident "a2"
      (dispatch_all plain
        (λ f. "5")
        (λ f. "5.00")
        second_try
        (new_dispatcher of_chain of_all)
        0
        events
        "hub-1")
      false
    ≡ is_open "a2" events false
incident-dispatch_all_example =
    incident-dispatch_all plain (λ f. "5") (λ f. "5.00") of_chain of_all on_call second_try refl
      refl (λ n post. refl) "a2" "hub-1" events false
