-- ===== src/Api/Watcher.antt =====
-- api/watcher.ts: `startWatcher`, which reads each chain's database at intervals and publishes what
-- is new.
use cosmad.Prelude.{
  ℕ, String, Bool, true, false, not, Option, none, some, List, [], ◌∷◌, ◌++◌, map, leb, or_else,
  if◌then◌else◌,
}
use cosmad.Outcome.{Result, ok, err}
use cosmad.Platform.{Platform}
use cosmad.Tables.{Block, Alert}
use cosmad.Dict.{Dict, get, set, contains, string_eq}
use cosmad.Api.Types.{
  SseEvent, block, alert_opened, alert_closed, chain_online, serialize_block, serialize_alert,
}
pub mod Mirror

-- What one chain's database answers during one poll.
pub record Reads : Type 0 where
  pub latest_block_height : Result (Option ℕ)
  pub latest_block : Result (Option Block)
  pub unclosed_alerts : Result (List Alert)

-- `lastHeights` and `lastAlertIds`.
pub record Watcher : Type 0 where
  pub last_heights : Dict String ℕ
  pub last_alert_ids : Dict String (List String)

abbrev pub ids_of : List Alert → List String
ids_of = map (λ a. a.alert_id)

-- `new Set(…)`: an element that is there already is not added again.
unfoldable pub new_set : List String → List String → List String
unfolding contains
new_set acc [] = acc
new_set acc (x ∷ xs) =
    let rest = new_set (acc ++ x ∷ []) xs in
    let same = new_set acc xs in if contains x acc then same else rest

-- The part of `startWatcher` before the first poll, for one chain.
unfoldable pub init_chain : String → Reads → Watcher → Watcher
unfolding set new_set
init_chain chain_id r w =
    let height : ℕ = elim r.latest_block_height [ ok h ↦ or_else h 0 | err e ↦ 0 ] in
    let alerts : List Alert = elim r.unclosed_alerts [ ok a ↦ a | err e ↦ [] ] in
    record {
      last_heights = set chain_id height w.last_heights;
      last_alert_ids = set chain_id (new_set [] (ids_of alerts)) w.last_alert_ids;
    }

unfoldable pub init : List String → (String → Reads) → Watcher → Watcher
unfolding init_chain
init [] reads w = w
init (c ∷ cs) reads w = init cs reads (init_chain c (reads c) w)

module _ (p : Platform) where
  -- What `checkBlocks` publishes once the height has grown.
  unfoldable pub block_events : String → Result (Option Block) → List SseEvent
  block_events chain_id (ok (some b)) =
      block chain_id (serialize_block p b) ∷ chain_online chain_id ∷ []
  block_events chain_id (ok none) = []
  block_events chain_id (err e) = []

  -- `checkBlocks`
  unfoldable pub check_blocks : String → Reads → Watcher → List SseEvent × Watcher
  unfolding set get block_events
  check_blocks chain_id r w = elim r.latest_block_height [
    | err e ↦ ([], w)
    | ok none ↦ ([], w)
    | ok (some new_height) ↦
        if leb new_height (or_else (get chain_id w.last_heights) 0) then ([], w) else (
          block_events chain_id r.latest_block,
          record w { last_heights = set chain_id new_height w.last_heights },
        )
  ]

  -- The loop over the current alerts.
  unfoldable pub opened_events : String → List String → List Alert → List SseEvent
  unfolding contains
  opened_events chain_id prev_ids [] = []
  opened_events chain_id prev_ids (a ∷ rest) =
      let events = opened_events chain_id prev_ids rest in
      if contains a.alert_id prev_ids
      then events
      else alert_opened chain_id (serialize_alert p a) ∷ events

  -- The loop over the previous identifiers.
  unfoldable pub closed_events : String → List String → List String → List SseEvent
  unfolding contains
  closed_events chain_id current_ids [] = []
  closed_events chain_id current_ids (i ∷ rest) =
      let events = closed_events chain_id current_ids rest in
      if contains i current_ids then events else alert_closed chain_id i ∷ events

  -- `checkAlerts`
  unfoldable pub check_alerts : String → Reads → Watcher → List SseEvent × Watcher
  unfolding set get new_set opened_events closed_events
  check_alerts chain_id r w = elim r.unclosed_alerts [
    | err e ↦ ([], w)
    | ok current ↦
        let current_ids = new_set [] (ids_of current) in
        let prev_ids = or_else (get chain_id w.last_alert_ids) [] in
        (
          opened_events chain_id prev_ids current ++ closed_events chain_id current_ids prev_ids,
          record w { last_alert_ids = set chain_id current_ids w.last_alert_ids },
        )
  ]

  -- `poll`, over the chains in the order of the map.
  unfoldable pub poll : List String → (String → Reads) → Watcher → List SseEvent × Watcher
  unfolding check_blocks check_alerts
  poll [] reads w = ([], w)
  poll (c ∷ cs) reads w =
      let (blocks, w1) = check_blocks c (reads c) w in
      let (alerts, w2) = check_alerts c (reads c) w1 in
      let (rest, w3) = poll cs reads w2 in (blocks ++ alerts ++ rest, w3)

  -- One poll after another.
  unfoldable pub polls : List String → List (String → Reads) → Watcher → List SseEvent × Watcher
  unfolding poll
  polls chains [] w = ([], w)
  polls chains (reads ∷ more) w =
      let (events, w1) = poll chains reads w in
      let (rest, w2) = polls chains more w1 in (events ++ rest, w2)
