-- ===== src/Examples/Querying.antt =====
-- The theorems on the operator's endpoints, at three nodes: one ahead, one behind, one that is out.
use cosmad.Prelude.{
  ℕ, String, true, false, not, ◌≡◌, ◌≢◌, ◌↔◌, refl, none, some, List, [], ◌∷◌, ◌++◌, map, All,
  str_eq, eq_iff, if◌then◌else◌, is_some, or_else, arith, take, drop,
}
use cosmad.Outcome.{Response, ok, fail}
use cosmad.Tables.{bft}
use cosmad.Dict.{contains, string_eq}
use cosmad.Alert.Types.{rpc}
use cosmad.Worker.Types.{Commit}
use cosmad.Worker.Cycle.{check_of, normalize_url}
use cosmad.Query.Health.{RpcStatus, check_rpcs, Health}
use cosmad.Query.Health.Fit.{fit}
use cosmad.Query.Health.Graded.{Serves, check_rpcs-Serves}
use cosmad.Query.Operator.{
  QueryOperator, Endpoints, run_rpc_health_check, rpc_health, get_healthy_rpc,
}
use cosmad.Query.Operator.Rotation.{picks, picks-rotation}
use cosmad.Query.Operator.Choice.{ServesOrNone, get_healthy_rpc-ServesOrNone}
use cosmad.Query.Operator.Reports.{check_of-Serves}
use cosmad.Query.Operator.Flight.{called, ended, Event, steps, at_start, callers, served}
use cosmad.Query.Operator.Turn.{steps-callers}
use cosmad.Query.Operator.Requests.{Round, get_latest_commit}
use cosmad.Query.Operator.Outage.{get_latest_commit-Serves}
use cosmad.Examples.World.{plain, commit_at}

abbrev urls : List String
urls = "http://a" ∷ "http://b" ∷ "http://c" ∷ []

abbrev number : String → ℕ
number t = if str_eq t "40" then 40 else 9

abbrev statuses : String → Response RpcStatus
statuses u =
    if str_eq u "http://a"
    then ok (record { network = "hub-1"; latest_block_height = "40"; catching_up = false })
    else if str_eq u "http://b"
    then ok (record { network = "hub-1"; latest_block_height = "9"; catching_up = false })
    else fail none

ahead : (check_rpcs number "hub-1" plain statuses urls).healthy ≡ "http://a" ∷ []
unfolding check_rpcs cosmad.Query.Health.grade cosmad.Query.Health.scan cosmad.Query.Health.scan_one
    cosmad.Query.Health.put_unhealthy cosmad.Query.Health.put_healthy
ahead = refl

check_rpcs-Serves_example :
    (contains "http://a" (check_rpcs number "hub-1" plain statuses urls).healthy ≡ true)
    ↔ Serves number "hub-1" statuses urls "http://a"
check_rpcs-Serves_example = check_rpcs-Serves number "hub-1" statuses plain urls "http://a"

abbrev operator : QueryOperator
operator = record {
  chain_id = "hub-1";
  chain_type = bft;
  rpc_urls = urls;
  api_urls = none;
  health_check_interval = 60;
  retry_attempts = 5;
  rpc = record {
    health = record { healthy = []; unhealthy = []; reasons = [] };
    index = 7;
    last_check = 0;
  };
  api = record {
    health = record { healthy = []; unhealthy = []; reasons = [] };
    index = 0;
    last_check = 0;
  };
}

name_of : (u : String) → str_eq u "" ≡ false → u ≢ ""
name_of u h e = absurd (ground (arith, eq_iff u "", h, e))

named : All (λ u. u ≢ "") urls
named = (name_of "http://a" refl, (name_of "http://b" refl, (name_of "http://c" refl, tt)))

get_healthy_rpc-ServesOrNone_example :
    ServesOrNone plain number statuses operator
      (get_healthy_rpc plain number statuses 1000 1001 operator).0
get_healthy_rpc-ServesOrNone_example =
    get_healthy_rpc-ServesOrNone plain number statuses operator 1000 1001 refl named

abbrev healthy_pair : Endpoints
healthy_pair = record {
  health = record { healthy = "http://a" ∷ "http://b" ∷ []; unhealthy = []; reasons = [] };
  index = 7;
  last_check = 1000;
}

picks-rotation_example :
    picks 2 healthy_pair
    ≡ map some (drop 1 healthy_pair.health.healthy ++ take 1 healthy_pair.health.healthy)
picks-rotation_example =
    picks-rotation healthy_pair (name_of "http://a" refl, (name_of "http://b" refl, tt))
      λ e. absurd (ground (arith, e))

check_of-Serves_example :
    let check =
      check_of plain rpc
        (rpc_health (run_rpc_health_check plain number statuses 1001 operator))
        (record { url = "http://b"; alert_if_down = true }) in
    (is_some check.healthy ≡ true)
    × ((check.healthy ≡ some true)
        ↔ Serves number "hub-1" statuses urls (normalize_url plain "http://b"))
    × (is_some check.reason ≡ not (or_else check.healthy true))
unfolding contains cosmad.Worker.Cycle.without_slash
check_of-Serves_example =
    check_of-Serves plain number statuses 1001 operator
      (record { url = "http://b"; alert_if_down = true }) (omega arith) refl

-- Two calls that share a check, and one after it that needs none.
abbrev calls : List Event
calls =
    called 1000 1
    ∷ called 1001 2
    ∷ ended 1002 (record { healthy = urls; unhealthy = []; reasons = [] })
    ∷ called 1003 3
    ∷ []

steps-callers_example : served (steps 60 calls (at_start operator.rpc)) ≡ callers calls
steps-callers_example =
    steps-callers 60 1000 calls operator.rpc
      (omega arith, (omega arith, (omega arith, (omega arith, tt))))

abbrev rounds : ℕ → Round RpcStatus Commit
rounds n = record { now = 1000; later = 1001; status = statuses; answer = λ u. ok (commit_at 5) }

get_latest_commit-Serves_example :
    (u : String) × Serves number "hub-1" statuses urls u
    × (get_latest_commit plain number rounds operator ≡ ok (commit_at 5))
unfolding contains fit
get_latest_commit-Serves_example =
    get_latest_commit-Serves plain number rounds operator refl (omega arith) named "http://a" 40
      refl refl λ u s. refl
