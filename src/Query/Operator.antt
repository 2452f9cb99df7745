-- ===== src/Query/Operator.antt =====
-- query/index.ts: the state of `QueryOperator`, its health checks, the choice of an endpoint, and the
-- queries that go through it.
use cosmad.Prelude.{
  ℕ, zero, suc, ◌+◌, ◌-◌, ◌*◌, ◌%◌, String, ◌<>◌, Bool, true, false, ◌&&◌, ◌||◌, not, Option, none,
  some, List, [], ◌∷◌, map, length, get_elem?, ltb, ◌==◌, str_eq, or_else, if◌then◌else◌,
}
use cosmad.Outcome.{Response, fail, Result, ok, err}
use cosmad.Platform.{Platform}
use cosmad.Tables.{ChainType, bft, tm2}
use cosmad.Dict.{get, string_eq, contains}
use cosmad.Worker.Cycle.{EndpointHealth}
use cosmad.Query.Retry.{Attempt, returned, thrown, with_retry}
use cosmad.Query.Health.{
  RpcStatus, NodeData, Health, no_health, client_urls, check_rpcs, check_apis,
}
pub mod Rotation
pub mod Choice
pub mod Reports
pub mod Flight
pub mod Turn
pub mod Requests
pub mod Outage

-- What the operator keeps of one kind of endpoint: the last check's result and its time, and the
-- index from which the next endpoint is chosen.
pub record Endpoints : Type 0 where
  pub health : Health
  pub index : ℕ
  pub last_check : ℕ

abbrev pub unchecked : Endpoints
unchecked = record { health = no_health; index = 0; last_check = 0 }

-- The fields of `QueryOperator`; the interval is in seconds.
pub record QueryOperator : Type 0 where
  pub chain_id : String
  pub chain_type : ChainType
  pub rpc_urls : List String
  pub api_urls : Option (List String)  -- those of `apiClient`, which may be undefined
  pub health_check_interval : ℕ
  pub retry_attempts : ℕ
  pub rpc : Endpoints
  pub api : Endpoints

-- `chainType === "bft" && apiUrls && apiUrls.length > 0`
abbrev api_client : Platform → ChainType → Option (List String) → Option (List String)
api_client p bft (some (u ∷ us)) = some (client_urls p (u ∷ us))
api_client p _ _ = none

-- The constructor.
unfoldable pub new_operator :
    Platform
    → String
    → ChainType
    → List String
    → Option (List String)
    → (health_check_interval retry_attempts : ℕ) → QueryOperator
new_operator p chain_id chain_type rpc_urls api_urls interval attempts = record {
  chain_id = chain_id;
  chain_type = chain_type;
  rpc_urls = client_urls p rpc_urls;
  api_urls = api_client p chain_type api_urls;
  health_check_interval = interval;
  retry_attempts = attempts;
  rpc = unchecked;
  api = unchecked;
}

-- `isStale || healthy.length === 0`
abbrev pub is_due : ℕ → ℕ → Endpoints → Bool
is_due interval now e = ltb (interval * 1000) (now - e.last_check) || length e.health.healthy == 0

-- `healthy[index++ % healthy.length]`, where a missing and an empty URL both count as none.
unfoldable pub pick : Endpoints → Option String × Endpoints
pick e =
    let next = record e { index = suc e.index } in
    elim e.health.healthy [
      | [] ↦ (none, next)
      | u ∷ us ↦ elim (get_elem? (u ∷ us) (e.index % suc (length us))) [
        | none ↦ (none, next)
        | some url ↦ if str_eq url "" then (none, next) else (some url, next)
      ]
    ]

-- What is returned or thrown for a choice.
abbrev pub picked : String → Option String → Result String
picked message none = err message
picked message (some url) = ok url

-- `number` is the language's `Number`, on the text of a height.
module _ (p : Platform) (number : String → ℕ) where
  -- `runRpcHealthCheck`, which ends at `now`.
  unfoldable pub run_rpc_health_check :
      (String → Response RpcStatus) → ℕ → QueryOperator → QueryOperator
  run_rpc_health_check get_status now o = record o {
    rpc = record {
      health = check_rpcs number o.chain_id p get_status o.rpc_urls;
      index = o.rpc.index;
      last_check = now;
    };
  }

  -- `getHealthyRpc`, called at `now`; a check that it runs ends at `later`.
  unfoldable pub get_healthy_rpc :
      (String → Response RpcStatus)
      → (now later : ℕ) → QueryOperator
      → Result String × QueryOperator
  get_healthy_rpc get_status now later o =
      let checked =
        if is_due o.health_check_interval now o.rpc
        then run_rpc_health_check get_status later o
        else o in
      let (choice, rpc) = pick checked.rpc in
      let message = "No healthy RPC endpoints available for chain " <> o.chain_id in
      (picked message choice, record checked { rpc = rpc })

-- `runApiHealthCheck`, which ends at `now`.
unfoldable pub run_api_health_check :
    (String → Response NodeData) → ℕ → QueryOperator → QueryOperator
run_api_health_check get_status now o = elim o.api_urls [
  | none ↦ o
  | some urls ↦ record o {
    api = record {
      health = check_apis o.chain_id get_status urls;
      index = o.api.index;
      last_check = now;
    };
  }
]

-- `getHealthyApi`, called at `now`; a check that it runs ends at `later`.
unfoldable pub get_healthy_api :
    (String → Response NodeData) → (now later : ℕ) → QueryOperator → Result String × QueryOperator
get_healthy_api get_status now later o =
    let checked =
      if is_due o.health_check_interval now o.api
      then run_api_health_check get_status later o
      else o in
    let (choice, api) = pick checked.api in
    let message = "No healthy API endpoints available for chain " <> o.chain_id in
    elim o.api_urls [
      | none ↦ (err ("API client not available for chain " <> o.chain_id <> " (tm2)"), o)
      | some urls ↦ (picked message choice, record checked { api = api })
    ]

-- The function `snapshot` of `endpointHealth`: the entry of one URL, and those of all.
unfoldable pub entry_of : Health → String → EndpointHealth
unfolding get contains
entry_of h url =
    if contains url h.healthy then record { url = url; healthy = true; reason = none } else record {
      url = url;
      healthy = false;
      reason = some (or_else (get url h.reasons) "unhealthy");
    }

unfoldable pub snapshot : List String → Health → List EndpointHealth
unfolding entry_of
snapshot urls h = map (entry_of h) urls

-- `endpointHealth().rpc` and `endpointHealth().api`.
unfoldable pub rpc_health : QueryOperator → Option (List EndpointHealth)
rpc_health o = if ltb 0 o.rpc.last_check then some (snapshot o.rpc_urls o.rpc.health) else none

unfoldable pub api_health : QueryOperator → Option (List EndpointHealth)
api_health o = elim o.api_urls [
  | none ↦ none
  | some urls ↦ if ltb 0 o.api.last_check then some (snapshot urls o.api.health) else none
]
