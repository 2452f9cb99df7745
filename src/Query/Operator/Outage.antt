-- ===== src/Query/Operator/Outage.antt =====
-- query/index.ts: a query of an operator that knows of no healthy node.
use cosmad.Prelude.{ℕ, ◌<◌, ◌≡◌, ◌≢◌, refl, ap, ◌∙◌, String, true, some, [], All, arith}
use cosmad.Outcome.{is_ok, Result, ok, err}
use cosmad.Platform.{Platform}
use cosmad.Dict.{contains, string_eq}
use cosmad.Worker.Types.{Commit}
use cosmad.Query.Retry.{response_of, with_retry-first}
use cosmad.Query.Health.{RpcStatus}
use cosmad.Query.Health.Fit.{fit}
use cosmad.Query.Health.Graded.{Serves}
use cosmad.Query.Operator.{QueryOperator, is_due, get_healthy_rpc}
use cosmad.Query.Operator.Choice.{ServesOrNone, get_healthy_rpc-ServesOrNone}
use cosmad.Query.Operator.Requests.{
  Round, request_to, rpc_attempt, before_rpc, with_rpc, get_latest_commit,
}

module _ (p : Platform) (number : String → ℕ) (rounds : ℕ → Round RpcStatus Commit)
    (o : QueryOperator) where
  is_due-empty :
      (now : ℕ) → o.rpc.health.healthy ≡ [] → is_due o.health_check_interval now o.rpc ≡ true
  is_due-empty now h = ground (arith, h)

  rpc_attempt-ok :
      (u : String)
      → (get_healthy_rpc p number (rounds 0).status (rounds 0).now (rounds 0).later o).0 ≡ ok u
      → response_of (rpc_attempt p number rounds o 0) ≡ (rounds 0).answer u
  unfolding rpc_attempt before_rpc request_to
  rpc_attempt-ok u h = rw (h) refl

  first_try :
      0 < o.retry_attempts
      → (u : String)
      → (get_healthy_rpc p number (rounds 0).status (rounds 0).now (rounds 0).later o).0 ≡ ok u
      → is_ok ((rounds 0).answer u) ≡ true
      → get_latest_commit p number rounds o ≡ (rounds 0).answer u
  unfolding get_latest_commit with_rpc
  first_try tries u h good =
      let a = rpc_attempt-ok u h in
      with_retry-first o.retry_attempts 0 (rpc_attempt p number rounds o) tries (ap is_ok a ∙ good)
        (λ j l. absurd (omega (arith, l)))
      ∙ a

  -- From an operator with no healthy endpoint, such as a new one, the latest commit is found at
  -- the first attempt: the result is the answer of a node that is healthy by the check which that
  -- attempt makes. It holds with at least one attempt allowed, configured URLs that are not empty,
  -- one configured node that answers the check from the chain and has caught up, and healthy nodes
  -- that answer the request.
  pub get_latest_commit-Serves :
      o.rpc.health.healthy ≡ []
      → 0 < o.retry_attempts
      → All (λ u. u ≢ "") o.rpc_urls
      → (v : String) (height : ℕ) → contains v o.rpc_urls ≡ true
      → fit number o.chain_id ((rounds 0).status v) ≡ some height
      → ((u : String)
          → Serves number o.chain_id (rounds 0).status o.rpc_urls u
          → is_ok ((rounds 0).answer u) ≡ true)
      → (u : String) × Serves number o.chain_id (rounds 0).status o.rpc_urls u
        × (get_latest_commit p number rounds o ≡ (rounds 0).answer u)
  get_latest_commit-Serves empty tries named v height c f answers =
      let r = rounds 0 in
      let chosen =
        get_healthy_rpc-ServesOrNone p number r.status o r.now r.later (is_due-empty r.now empty)
          named in
      go (get_healthy_rpc p number r.status r.now r.later o).0 refl chosen
    where
      go :
          (result : Result String)
          → (get_healthy_rpc p number (rounds 0).status (rounds 0).now (rounds 0).later o).0
            ≡ result
          → ServesOrNone p number (rounds 0).status o result
          → (u : String) × Serves number o.chain_id (rounds 0).status o.rpc_urls u
            × (get_latest_commit p number rounds o ≡ (rounds 0).answer u)
      go (err m) e s = absurd (ground (arith, s v c, f))
      go (ok u) e s = (u, s, first_try tries u e (answers u s))
