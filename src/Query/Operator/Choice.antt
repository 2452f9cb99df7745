-- ===== src/Query/Operator/Choice.antt =====
-- query/index.ts: what `getHealthyRpc` returns or throws when it runs a health check first.
use native.Mathlib.Nat.{mod-lt}
use cosmad.Prelude.{
  ℕ, zero, suc, ◌%◌, ◌≡◌, ◌≢◌, refl, subst, String, true, Option, none, some, List, [], ◌∷◌, All,
  length, get_elem?, arith, str_eq, eq_iff, eq_refl, Bool-cases, inl, inr,
}
use cosmad.Outcome.{Response, Result, ok, err}
use cosmad.Platform.{Platform}
use cosmad.Dict.{contains, string_eq}
use cosmad.Query.Health.{RpcStatus, check_rpcs}
use cosmad.Query.Health.Fit.{fit}
use cosmad.Query.Health.Graded.{Serves, check_rpcs-Serves, check_rpcs-none-fit}
use cosmad.Query.Operator.{
  Endpoints, QueryOperator, is_due, pick, picked, run_rpc_health_check, get_healthy_rpc,
}
use cosmad.Query.Operator.Rotation.{drop_at, All-get}

get-contains :
    (xs : List String) (r : ℕ) (u : String) → get_elem? xs r ≡ some u → contains u xs ≡ true
unfolding contains
get-contains [] r u h = absurd (ground arith)
get-contains (x ∷ xs) zero u h = ground (arith, h, eq_iff x u)
get-contains (x ∷ xs) (suc r) u h = ground (arith, get-contains xs r u h)

All-contains {ℓ} :
    (P : String → Type ℓ) (xs : List String)
    → ((u : String) → contains u xs ≡ true → P u)
    → All P xs
unfolding contains
All-contains P [] h = tt
All-contains P (x ∷ xs) h =
    (h x (rw (eq_refl x) refl), All-contains P xs λ u c. h u (ground (arith, c)))

All-of_contains {ℓ} :
    (P : String → Type ℓ) (xs : List String) (u : String) → All P xs → contains u xs ≡ true → P u
unfolding contains
All-of_contains P [] u a c = absurd (ground arith)
All-of_contains P (x ∷ xs) u a c = elim (Bool-cases (str_eq x u)) [
  | inl b ↦ subst P ((eq_iff x u).0 b) a.0
  | inr b ↦ All-of_contains P xs u a.1 (ground (arith, c, b))
]

-- What a choice says of the healthy list: a member of it, or that it is empty.
abbrev ChosenFrom : List String → Option String → Type 0
ChosenFrom hs none = hs ≡ []
ChosenFrom hs (some u) = contains u hs ≡ true

pick-ChosenFrom :
    (e : Endpoints) (hs : List String)
    → e.health.healthy ≡ hs
    → All (λ u. u ≢ "") hs
    → ChosenFrom hs (pick e).0
unfolding pick
pick-ChosenFrom e [] h a = rw (h) refl
pick-ChosenFrom e (v ∷ vs) h a =
    let (u, at, rest) =
      drop_at (v ∷ vs) (e.index % suc (length vs)) (mod-lt e.index (omega arith)) in
    let c = get-contains (v ∷ vs) (e.index % suc (length vs)) u at in
    let named = All-get (λ w. w ≢ "") (v ∷ vs) (e.index % suc (length vs)) u a at in
    let chosen : (pick e).0 ≡ some u = ground (arith, h, at, eq_iff u "", named) in rw (chosen) c

module _ (p : Platform) (number : String → ℕ) (get_status : String → Response RpcStatus)
    (o : QueryOperator) where
  -- An endpoint that serves, or an error that no configured endpoint does.
  abbrev pub ServesOrNone : Result String → Type 0
  ServesOrNone (ok u) = Serves number o.chain_id get_status o.rpc_urls u
  ServesOrNone (err message) =
      (v : String) → contains v o.rpc_urls ≡ true → fit number o.chain_id (get_status v) ≡ none

  ServesOrNone-of :
      (message : String) (choice : Option String)
      → ChosenFrom (check_rpcs number o.chain_id p get_status o.rpc_urls).healthy choice
      → ServesOrNone (picked message choice)
  ServesOrNone-of message none c = check_rpcs-none-fit number o.chain_id get_status p o.rpc_urls c
  ServesOrNone-of message (some u) c =
      (check_rpcs-Serves number o.chain_id get_status p o.rpc_urls u).0 c

  -- Called when a check is due, with configured URLs that are not empty, `getHealthyRpc` returns
  -- the URL of a node that is healthy by what the nodes answer to that check, or it throws, and
  -- then none of the configured nodes answers from the chain and has caught up.
  pub get_healthy_rpc-ServesOrNone :
      (now later : ℕ)
      → is_due o.health_check_interval now o.rpc ≡ true
      → All (λ u. u ≢ "") o.rpc_urls
      → ServesOrNone (get_healthy_rpc p number get_status now later o).0
  unfolding get_healthy_rpc run_rpc_health_check
  get_healthy_rpc-ServesOrNone now later due named =
      let checked = run_rpc_health_check p number get_status later o in
      let health = check_rpcs number o.chain_id p get_status o.rpc_urls in
      rw (due) (
        ServesOrNone-of _ _ (
          pick-ChosenFrom checked.rpc health.healthy refl (
            All-contains (λ u. u ≢ "") health.healthy
              λ u c.
                All-of_contains (λ w. w ≢ "") o.rpc_urls u named
                  ((check_rpcs-Serves number o.chain_id get_status p o.rpc_urls u).0 c).0)))
