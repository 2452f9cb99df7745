-- ===== src/Examples/Watching.antt =====
-- The theorems on missed blocks, endpoints, ingestion and pending requests, at small inputs.
use cosmad.Prelude.{
  ℕ, ◌+◌, ◌≤◌, String, true, false, ◌≡◌, ◌≢◌, ◌↔◌, refl, none, some, List, [], ◌∷◌,
}
use cosmad.Prelude.Int.{pos}
use cosmad.Outcome.{ok}
use cosmad.Tables.{Block, Alert}
use cosmad.Dict.{Dict, get, set, pair_eq}
use cosmad.Alert.Types.{no_context, rpc, EndpointCheck, opened}
use cosmad.Alert.Checks.{check_consecutive_miss, fresh_alert}
use cosmad.Alert.Checks.Misses.{NewestMissed, check_consecutive_miss-NewestMissed}
use cosmad.Alert.Endpoints.{Key, is_down, endpoint_key, check_endpoint, note_down, endpoint_events}
use cosmad.Alert.Endpoints.Grace.{Checked, DownFrom, remembered, check_endpoint-DownFrom}
use cosmad.Database.Scoped.{chain_scoped}
use cosmad.Ingest.{ingest_alert}
use cosmad.Ingest.Store.{ingest_alert-twice}
use cosmad.Engine.Protocol.{Body, Message, request, EngineResponse}
use cosmad.Engine.Protocol
use cosmad.Engine.Connection.{send, receive}
use cosmad.Engine.Connection.Waiting.{Event, sent, received, after, receive-waiting}
use cosmad.Examples.World.{alerts_on, alert_of, block_at, held}

-- Signed, then missed twice: the threshold of the example.
abbrev two_missed : List Block
two_missed =
    block_at 4
    ∷ record (block_at 5) { signed = pos 0 }
    ∷ record (block_at 6) { signed = pos 0 }
    ∷ []

check_consecutive_miss-NewestMissed_example :
    (check_consecutive_miss "hub-1" 100 "a9" alerts_on.consecutive_miss_alert two_missed none ≢ [])
    ↔ NewestMissed 2 two_missed
check_consecutive_miss-NewestMissed_example =
    check_consecutive_miss-NewestMissed "hub-1" 100 "a9" alerts_on.consecutive_miss_alert two_missed
      refl

abbrev down : EndpointCheck
down = record {
  kind = rpc;
  url = "http://a";
  alert_if_down = true;
  healthy = some false;
  reason = some "timeout";
}

abbrev not_checked : EndpointCheck
not_checked = record down { healthy = none }

abbrev outage : List Checked
outage = (40, not_checked) ∷ (10, down) ∷ []

raised :
    (check_endpoint "hub-1" 70 "a9" 60 [] (remembered "hub-1" 60 [] outage) down).0
    ≡ opened
        (fresh_alert "a9" "hub-1" "rpc_down" (some "http://a") 70)
        (record no_context { reason = some "timeout" })
      ∷ []
unfolding check_endpoint remembered note_down endpoint_events fresh_alert get set
raised = refl

abbrev no_alerts : Dict Key Alert
no_alerts = []

-- Down at 10, not checked at 40 and down at 70, with a grace period of 60.
check_endpoint-DownFrom_example :
    (is_down down ≡ true)
    × (get (endpoint_key down) no_alerts ≡ none)
    × ((t : ℕ) × DownFrom t ((70, down) ∷ outage) × (t + 60 ≤ 70))
unfolding endpoint_key
check_endpoint-DownFrom_example =
    check_endpoint-DownFrom "hub-1" 60 [] "a9" 70 down outage (refl, (refl, tt))
      (fresh_alert "a9" "hub-1" "rpc_down" (some "http://a") 70)
      (record no_context { reason = some "timeout" }) raised

ingest_alert-twice_example :
    let db = chain_scoped "hub-1" in
    ((ingest_alert db (alert_of "a2" "jailed") held).0 ≡ ok tt)
    × (ingest_alert db (alert_of "a2" "jailed") (ingest_alert db (alert_of "a2" "jailed") held).1
        ≡ (ok tt, (ingest_alert db (alert_of "a2" "jailed") held).1))
ingest_alert-twice_example = ingest_alert-twice "hub-1" (alert_of "a2" "jailed") held

abbrev answer_to : ℕ → EngineResponse
answer_to n = record { id = n; body = ok Protocol.Value.nothing }

-- Two requests, of which the second was answered first.
abbrev crossed : List (Event String)
crossed =
    received (answer_to 2)
    ∷ sent "second" (Body.get_alert "hub-1" "a1")
    ∷ sent "first" (Body.latest_block_height "hub-1")
    ∷ []

receive-waiting_example :
    ((receive (answer_to 1) (after crossed)).0 ≡ some "first")
    × ((send "third" (Body.latest_block_height "hub-1") (after crossed)).0
        ≡ request 3 (Body.latest_block_height "hub-1"))
receive-waiting_example =
    receive-waiting crossed (answer_to 1) "third" (Body.latest_block_height "hub-1")
