-- ===== src/Query/Operator/Reports.antt =====
-- query/index.ts and dp/chain_worker.ts: what the worker is told of each configured endpoint.
use cosmad.Prelude.{
  ℕ, ◌≡◌, refl, ap, String, true, not, none, some, List, [], ◌∷◌, arith, lt→ltb, ◌<◌, ◌↔◌, str_eq,
  eq_iff, Bool-cases, inl, inr, if◌then◌else◌, or_else, find_first, is_some,
}
use cosmad.Outcome.{Response}
use cosmad.Platform.{Platform}
use cosmad.Dict.{contains, get, string_eq}
use cosmad.Alert.Types.{rpc}
use cosmad.Worker.Types.{Endpoint}
use cosmad.Worker.Cycle.{EndpointHealth, check_of, normalize_url}
use cosmad.Query.Health.{RpcStatus, Health, check_rpcs}
use cosmad.Query.Health.Graded.{Serves, check_rpcs-Serves}
use cosmad.Query.Operator.{QueryOperator, run_rpc_health_check, entry_of, snapshot, rpc_health}

entry_of-url : (h : Health) (u : String) → (entry_of h u).url ≡ u
unfolding entry_of
entry_of-url h u = ground arith

find_first-snapshot :
    (urls : List String) (h : Health) (url : String)
    → contains url urls ≡ true
    → find_first (λ (e : EndpointHealth). str_eq e.url url) (snapshot urls h)
      ≡ some (entry_of h url)
unfolding snapshot contains
find_first-snapshot [] h url c = absurd (ground arith)
find_first-snapshot (u ∷ us) h url c = elim (Bool-cases (str_eq u url)) [
  | inl b ↦ ground (arith, entry_of-url h u, b, eq_iff u url)
  | inr b ↦
      let ih = find_first-snapshot us h url (ground (arith, c, b)) in
      ground (arith, entry_of-url h u, b, ih)
]

-- Before the first check nothing is told of any endpoint.
pub check_of-unchecked :
    (p : Platform) (o : QueryOperator) (e : Endpoint)
    → o.rpc.last_check ≡ 0
    → (check_of p rpc (rpc_health o) e).healthy ≡ none
unfolding check_of rpc_health
check_of-unchecked p o e h = rw (h) refl

check_of-snapshot :
    (p : Platform) (urls : List String) (h : Health) (e : Endpoint)
    → let url = normalize_url p e.url in
      contains url urls ≡ true
      → let check = check_of p rpc (some (snapshot urls h)) e in
        (check.healthy ≡ some (contains url h.healthy))
        × (check.reason ≡ (
            if contains url h.healthy
            then none
            else some (or_else (get url h.reasons) "unhealthy")))
unfolding check_of entry_of
check_of-snapshot p urls h e c =
    let found = find_first-snapshot urls h (normalize_url p e.url) c in
    (ground (arith, found), ground (arith, found))

module _ (p : Platform) (number : String → ℕ) (get_status : String → Response RpcStatus) (now : ℕ)
    (o : QueryOperator) (e : Endpoint) where
  rpc_health-checked :
      0 < now
      → rpc_health (run_rpc_health_check p number get_status now o)
        ≡ some (snapshot o.rpc_urls (check_rpcs number o.chain_id p get_status o.rpc_urls))
  unfolding rpc_health run_rpc_health_check
  rpc_health-checked later = rw (lt→ltb 0 now later) refl

  -- After a health check that ended at a time above 0, the worker is told of each RPC endpoint
  -- whose normalized URL the operator has whether it is up; it is told that it is up exactly if
  -- its node is healthy by its answers to that check, and it is given a reason exactly if it is
  -- told that it is down.
  pub check_of-Serves :
      0 < now
      → contains (normalize_url p e.url) o.rpc_urls ≡ true
      → let check =
          check_of p rpc (rpc_health (run_rpc_health_check p number get_status now o)) e in
        (is_some check.healthy ≡ true)
        × ((check.healthy ≡ some true)
            ↔ Serves number o.chain_id get_status o.rpc_urls (normalize_url p e.url))
        × (is_some check.reason ≡ not (or_else check.healthy true))
  check_of-Serves later c =
      let h = check_rpcs number o.chain_id p get_status o.rpc_urls in
      let (a, b) = check_of-snapshot p o.rpc_urls h e c in
      let s = check_rpcs-Serves number o.chain_id get_status p o.rpc_urls (normalize_url p e.url) in
      rw (rpc_health-checked later, a, b)
        (refl, (λ t. s.0 (ground (arith, t)), λ t. ap some (s.1 t)), ground arith)
