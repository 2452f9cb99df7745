-- ===== src/Alert/Endpoints.antt =====
-- alert/index.ts: `evaluateEndpoints`, the rpc_down and api_down alerts.
pub mod Grace
use cosmad.Prelude.{
  ℕ, suc, ◌+◌, ◌*◌, String, Bool, true, false, not, ◌&&◌, ◌||◌, Option, none, some, List, [], ◌∷◌,
  ◌++◌, leb, str_eq, if◌then◌else◌, or_else, is_some, map, keep,
}
use cosmad.Tables.{Alert}
use cosmad.Dict.{Dict, pair_eq, get, has, set, delete, of_entries, contains}
use cosmad.Alert.Types.{
  no_context, EndpointKind, rpc, api, EndpointCheck, AlertEvent, opened, closed, AlertConfig,
}
use cosmad.Alert.Checks.{fresh_alert}

abbrev pub default_endpoint_down_alert_after : ℕ
default_endpoint_down_alert_after = 180

-- `${endpoint.kind}_down`
abbrev pub down_type : EndpointKind → String
down_type rpc = "rpc_down"
down_type api = "api_down"

-- The key is the text `${type} ${url}`; neither type holds a space, so the pair says the same.
abbrev pub Key : Type 0
Key = String × String

abbrev pub subject_or_empty : Alert → String
subject_or_empty a = or_else a.subject ""

-- `(type === "rpc_down" || type === "api_down") && a.subject`: an empty subject is falsy.
unfoldable pub is_endpoint_alert : Alert → Bool
is_endpoint_alert a =
    (str_eq a.alert_type "rpc_down" || str_eq a.alert_type "api_down")
    && not (str_eq (subject_or_empty a) "")

-- The map `open`.
unfoldable pub open_endpoints : List Alert → Dict Key Alert
unfolding is_endpoint_alert of_entries
open_endpoints alerts =
    of_entries []
      (map (λ a. ((a.alert_type, subject_or_empty a), a)) (keep is_endpoint_alert alerts))

-- `endpoint.alertIfDown && endpoint.healthy === false`
unfoldable pub is_down : EndpointCheck → Bool
is_down e = e.alert_if_down && elim e.healthy [ some false ↦ true | _ ↦ false ]

-- `endpoint.alertIfDown && endpoint.healthy === undefined`
unfoldable pub is_unchecked : EndpointCheck → Bool
is_unchecked e = e.alert_if_down && not (is_some e.healthy)

unfoldable pub endpoint_key : EndpointCheck → Key
endpoint_key e = (down_type e.kind, e.url)

-- `endpointDownSince` after one endpoint.
unfoldable pub note_down : Bool → Key → ℕ → Dict Key ℕ → Dict Key ℕ
note_down false k now since = delete k since
note_down true k now since = if has k since then since else set k now since

module _ (chain_id : String) (now : ℕ) where
  -- The two branches behind the update; `id` is fresh. `downFor >= alertAfterMs` has its
  -- difference, `now - since`, moved across.
  unfoldable pub endpoint_events :
      String → ℕ → EndpointCheck → Bool → Option Alert → ℕ → List AlertEvent
  unfolding fresh_alert
  endpoint_events id alert_after_ms e true none since =
      if leb (since + alert_after_ms) now
      then opened (fresh_alert id chain_id (down_type e.kind) (some e.url) now)
          (record no_context { reason = e.reason })
        ∷ []
      else []
  endpoint_events id alert_after_ms e true (some a) since = []
  endpoint_events id alert_after_ms e false none since = []
  endpoint_events id alert_after_ms e false (some a) since =
      closed a now (record no_context { reason = e.reason }) ∷ []

  -- One round of the loop over the endpoints.
  unfoldable pub check_endpoint :
      String → ℕ → Dict Key Alert → Dict Key ℕ → EndpointCheck → List AlertEvent × Dict Key ℕ
  unfolding endpoint_key is_down is_unchecked note_down endpoint_events
  check_endpoint id alert_after_ms open_alerts since e =
      let k = endpoint_key e in
      let since' = note_down (is_down e) k now since in
      if is_unchecked e then ([], since) else (
        endpoint_events id alert_after_ms e (is_down e) (get k open_alerts)
            (or_else (get k since') now),
        since',
      )

  -- The loop; the n-th endpoint takes the n-th generated id.
  unfoldable pub check_endpoints :
      (ℕ → String)
      → ℕ
      → ℕ
      → Dict Key Alert
      → Dict Key ℕ
      → List EndpointCheck
      → List AlertEvent × Dict Key ℕ
  check_endpoints ids n alert_after_ms open_alerts since [] = ([], since)
  check_endpoints ids n alert_after_ms open_alerts since (e ∷ es) =
      let (events, since') = check_endpoint (ids n) alert_after_ms open_alerts since e in
      let (more, last) = check_endpoints ids (suc n) alert_after_ms open_alerts since' es in
      (events ++ more, last)

  -- Alerts of endpoints that are configured no more.
  unfoldable pub close_removed : List Key → Dict Key Alert → List AlertEvent
  close_removed configured [] = []
  close_removed configured ((k, a) ∷ m) =
      let rest = close_removed configured m in
      if contains k configured then rest else closed a now no_context ∷ rest

  unfoldable pub forget_removed : List Key → Dict Key ℕ → Dict Key ℕ
  forget_removed configured [] = []
  forget_removed configured ((k, t) ∷ m) =
      let rest = forget_removed configured m in
      if contains k configured then (k, t) ∷ rest else rest

  unfoldable pub evaluate_endpoints :
      (ℕ → String)
      → AlertConfig
      → Dict Key ℕ
      → List EndpointCheck
      → List Alert
      → List AlertEvent × Dict Key ℕ
  evaluate_endpoints ids cfg since endpoints open_alerts =
      let after_ms =
        or_else cfg.endpoint_down_alert_after default_endpoint_down_alert_after * 1000 in
      let open_map = open_endpoints open_alerts in
      let configured = map endpoint_key endpoints in
      let (events, since') = check_endpoints ids 0 after_ms open_map since endpoints in
      (events ++ close_removed configured open_map, forget_removed configured since')
