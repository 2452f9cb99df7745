-- ===== src/Worker/Cycle.antt =====
-- dp/chain_worker.ts: `endpointChecks` and `doPoll`, one poll cycle with the alerts it applies.
use Prim.Native.Char.{code}
use cosmad.Prelude.{
  ◌==◌, if◌then◌else◌, ℕ, ◌+◌, String, Bool, Option, none, some, List, [], ◌∷◌, ◌++◌, str_eq, map,
  find_first, or_else,
}
use cosmad.Outcome.{Result}
use cosmad.Platform.{Platform}
use cosmad.Tables.{Alert}
use cosmad.Dict.{Dict}
use cosmad.Database.{WriteDb}
use cosmad.Ingest.{ingest_alert, close_alert}
use cosmad.Alert.Types.{AlertEvent, opened, closed, repeated, EndpointKind, rpc, api, EndpointCheck}
use cosmad.Alert.Endpoints.{Key, evaluate_endpoints}
use cosmad.Worker.Types.{ChainConfig, Endpoint, bft_identity, tm2_identity}
use cosmad.Worker.Poll.{Nodes, poll_chain}

-- `EndpointHealth` of query/index.ts.
pub record EndpointHealth : Type 0 where
  pub url : String
  pub healthy : Bool
  pub reason : Option String

-- `url.endsWith("/") ? url.slice(0, -1) : url`, by the last character.
unfoldable pub without_slash : String → String
without_slash String.[] = String.[]
without_slash (String.◌∷◌ c String.[]) = if code c == 47 then "" else String.◌∷◌ c ""
without_slash (String.◌∷◌ c (String.◌∷◌ d s)) = String.◌∷◌ c (without_slash (String.◌∷◌ d s))

module _ (p : Platform) where
  abbrev pub normalize_url : String → String
  normalize_url url = without_slash (p.trim url)

  -- The function `add`.
  unfoldable pub check_of : EndpointKind → Option (List EndpointHealth) → Endpoint → EndpointCheck
  check_of kind health configured =
      let url = normalize_url configured.url in
      let known : Option EndpointHealth = elim health [
        | none ↦ none
        | some entries ↦ find_first (λ (e : EndpointHealth). str_eq e.url url) entries
      ] in
      record {
        kind = kind;
        url = url;
        alert_if_down = configured.alert_if_down;
        healthy = elim known [ none ↦ none | some e ↦ some e.healthy ];
        reason = elim known [ none ↦ none | some e ↦ e.reason ];
      }

  unfoldable pub endpoint_checks :
      ChainConfig → Option (List EndpointHealth) → Option (List EndpointHealth) → List EndpointCheck
  unfolding check_of
  endpoint_checks chain rpc_health api_health =
      map (check_of rpc rpc_health) chain.rpc_urls ++ elim chain.identity [
        | bft_identity a b ↦ map (check_of api api_health) (or_else chain.api_urls [])
        | tm2_identity a b ↦ []
      ]

module _ {S : Type 0} (db : WriteDb S) where
  -- The database call for one event; a failure is only logged.
  unfoldable pub apply_event : ℕ → AlertEvent → S → S
  apply_event now (opened a c) s = (ingest_alert db a s).1
  apply_event now (repeated a c) s =
      (db.touch_alert_notified a.alert_id now (a.repeat_count + 1) s).1
  apply_event now (closed a t c) s = (close_alert db a.alert_id t s).1

  -- The loop of `doPoll`: each event is applied, then dispatched. The result lists what was handed
  -- to the dispatcher.
  unfoldable pub apply_events : ℕ → List AlertEvent → S → List AlertEvent × S
  unfolding apply_event
  apply_events now [] s = ([], s)
  apply_events now (e ∷ es) s =
      let (sent, s') = apply_events now es (apply_event now e s) in (e ∷ sent, s')

-- What the worker holds between two polls: the database and the evaluator's `endpointDownSince`.
pub record Cycle (S : Type 0) : Type 0 where
  pub store : S
  pub down_since : Dict Key ℕ

module _ {S : Type 0} (p : Platform) (db : WriteDb S) (chain : ChainConfig) (nodes : Nodes)
    (rpc_health api_health : Option (List EndpointHealth)) where
  -- `doPoll` once the open alerts are read.
  unfoldable pub poll_with :
      ℕ
      → (ℕ → String)
      → (ℕ → String)
      → Option String
      → ℕ
      → Option (List String)
      → List Alert
      → Cycle S
      → List AlertEvent × Cycle S
  poll_with now ids endpoint_ids valcons_hex signing_window_size active_set_hex alerts c =
      let (events, s1) =
        poll_chain p db chain nodes now ids valcons_hex signing_window_size active_set_hex alerts
          c.store in
      let (more, since) =
        evaluate_endpoints chain.chain_id now endpoint_ids chain.alert_config c.down_since
          (endpoint_checks p chain rpc_health api_health) alerts in
      let (sent, s2) = apply_events db now (events ++ more) s1 in
      (sent, record { store = s2; down_since = since })

  -- `doPoll`; `ids` and `endpoint_ids` are the generated identifiers.
  unfoldable pub do_poll :
      ℕ
      → (ℕ → String)
      → (ℕ → String)
      → Option String
      → ℕ
      → Option (List String)
      → Cycle S
      → List AlertEvent × Cycle S
  do_poll now ids endpoint_ids valcons_hex signing_window_size active_set_hex c =
      let (open_alerts, s1) = db.get_unclosed_alerts 500 1 c.store in
      elim open_alerts [
        | Result.err e ↦ ([], record c { store = s1 })
        | Result.ok alerts ↦
            poll_with now ids endpoint_ids valcons_hex signing_window_size active_set_hex alerts
              (record c { store = s1 })
      ]
