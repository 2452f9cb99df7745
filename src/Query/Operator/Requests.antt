-- ===== src/Query/Operator/Requests.antt =====
-- query/index.ts: the queries that go to one node, each retried with a healthy endpoint chosen anew.
use cosmad.Prelude.{ℕ, zero, suc, String, ◌<>◌, none, some}
use cosmad.Outcome.{Response, fail, Result, ok, err}
use cosmad.Platform.{Platform}
use cosmad.Tables.{bft, tm2}
use cosmad.Worker.Types.{Commit, ValidatorData, SigningInfo}
use cosmad.Query.Retry.{Attempt, returned, thrown, with_retry}
use cosmad.Query.Health.{RpcStatus, NodeData}
use cosmad.Query.Operator.{QueryOperator, get_healthy_rpc, get_healthy_api}

-- What the network gives to one attempt: the time it starts, the time at which a check that it runs
-- ends, the statuses such a check is told, and the answer of each node to the request.
pub record Round (S A : Type 0) : Type 0 where
  pub now : ℕ
  pub later : ℕ
  pub status : String → Response S
  pub answer : String → Response A

module _ {A : Type 0} where
  -- The request to the endpoint chosen, or what the choice throws.
  unfoldable pub request_to : (String → Response A) → Result String → Attempt A
  request_to answer (ok url) = returned (answer url)
  request_to answer (err message) = thrown message

  module _ (p : Platform) (number : String → ℕ) (rounds : ℕ → Round RpcStatus A) where
    -- The operator before the n-th attempt.
    unfoldable pub before_rpc : ℕ → QueryOperator → QueryOperator
    unfolding get_healthy_rpc
    before_rpc zero o = o
    before_rpc (suc n) o =
        let r = rounds n in (get_healthy_rpc p number r.status r.now r.later (before_rpc n o)).1

    unfoldable pub rpc_attempt : QueryOperator → ℕ → Attempt A
    unfolding get_healthy_rpc request_to
    rpc_attempt o n =
        let r = rounds n in
        request_to r.answer (get_healthy_rpc p number r.status r.now r.later (before_rpc n o)).0

    -- `withRetry` around `getHealthyRpc` and one request.
    unfoldable pub with_rpc : QueryOperator → Response A
    unfolding with_retry
    with_rpc o = with_retry o.retry_attempts (rpc_attempt o)

  module _ (rounds : ℕ → Round NodeData A) where
    -- The operator before the n-th attempt.
    unfoldable pub before_api : ℕ → QueryOperator → QueryOperator
    unfolding get_healthy_api
    before_api zero o = o
    before_api (suc n) o =
        let r = rounds n in (get_healthy_api r.status r.now r.later (before_api n o)).1

    unfoldable pub api_attempt : QueryOperator → ℕ → Attempt A
    unfolding get_healthy_api request_to
    api_attempt o n =
        let r = rounds n in
        request_to r.answer (get_healthy_api r.status r.now r.later (before_api n o)).0

    -- The guards and the retried request that the API's queries share.
    unfoldable pub with_api : QueryOperator → Response A
    unfolding with_retry
    with_api o =
        let request = with_retry o.retry_attempts (api_attempt o) in
        elim o.chain_type [
          | tm2 ↦ fail (some ("Unsupported method for tm2 on " <> o.chain_id))
          | bft ↦ elim o.api_urls [
            | none ↦ fail (some "No API client available")
            | some urls ↦ request
          ]
        ]

-- `getLatestCommit`; the answer of a node is that of `getCommit` without a height.
unfoldable pub get_latest_commit :
    Platform → (String → ℕ) → (ℕ → Round RpcStatus Commit) → QueryOperator → Response Commit
get_latest_commit p number rounds o = with_rpc p number rounds o

-- `getValidatorData`, `getSigningInfo` and `getSlashingParams`.
unfoldable pub get_validator_data :
    (ℕ → Round NodeData ValidatorData) → QueryOperator → Response ValidatorData
get_validator_data rounds o = with_api rounds o

unfoldable pub get_signing_info :
    (ℕ → Round NodeData SigningInfo) → QueryOperator → Response SigningInfo
get_signing_info rounds o = with_api rounds o

-- The parameter that is read: `signedBlocksWindow`.
unfoldable pub get_slashing_params : (ℕ → Round NodeData ℕ) → QueryOperator → Response ℕ
get_slashing_params rounds o = with_api rounds o
