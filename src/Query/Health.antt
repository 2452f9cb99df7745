-- ===== src/Query/Health.antt =====
-- query/rpc/client.ts and query/api/client.ts: the clients' constructors and their `checkHealth`.
use cosmad.Prelude.{
  ℕ, ◌+◌, String, ◌<>◌, Bool, true, false, not, ◌&&◌, Option, none, some, List, [], ◌∷◌, ◌++◌, map,
  ltb, str_eq, or_else, if◌then◌else◌,
}
use cosmad.Outcome.{Response, ok, fail}
use cosmad.Platform.{Platform}
use cosmad.Dict.{Dict, set, string_eq}
use cosmad.Worker.Cycle.{normalize_url}
pub mod Fit
pub mod Graded

-- `MAX_HEIGHT_DIFFERENCE`.
abbrev pub max_height_difference : ℕ
max_height_difference = 20

-- What the check reads of an RPC node's status; the height is text of an integer.
pub record RpcStatus : Type 0 where
  pub network : String
  pub latest_block_height : String
  pub catching_up : Bool

-- What the check reads of an API node's status.
pub record NodeData : Type 0 where
  pub network : String
  pub syncing : Bool

-- The result of both checks.
pub record Health : Type 0 where
  pub healthy : List String
  pub unhealthy : List String
  pub reasons : Dict String String

abbrev pub no_health : Health
no_health = record { healthy = []; unhealthy = []; reasons = [] }

unfoldable pub put_healthy : String → Health → Health
put_healthy url h = record h { healthy = h.healthy ++ url ∷ [] }

unfoldable pub put_unhealthy : String → String → Health → Health
unfolding set
put_unhealthy url reason h = record h {
  unhealthy = h.unhealthy ++ url ∷ [];
  reasons = set url reason h.reasons;
}

abbrev pub unreachable : Option String → String
unreachable error = "unreachable: " <> or_else error "unknown error"

abbrev pub wrong_network : String → String → String
wrong_network network chain_id = "wrong network " <> network <> " (expected " <> chain_id <> ")"

-- The constructors' loop over the URLs.
abbrev pub client_urls : Platform → List String → List String
client_urls p = map (normalize_url p)

-- What the first loop of the RPC check leaves: the nodes it turned away, the heights of the others
-- and the highest of them.
pub record Scan : Type 0 where
  pub health : Health
  pub responsive : Dict String ℕ
  pub highest : ℕ

abbrev pub no_scan : Scan
no_scan = record { health = no_health; responsive = []; highest = 0 }

module _ (p : Platform) where
  -- The second loop: a node is healthy when it is less than `max_height_difference` behind.
  unfoldable pub grade : ℕ → Dict String ℕ → Health → Health
  grade highest [] h = h
  grade highest ((url, height) ∷ rest) h =
      let lagging =
        "lagging behind: at height "
        <> p.to_decimal height
        <> ", best known height "
        <> p.to_decimal highest in
      let near = grade highest rest (put_healthy url h) in
      let far = grade highest rest (put_unhealthy url lagging h) in
      if ltb highest (height + max_height_difference) then near else far

-- `number` is the language's `Number`, on the text of a height.
module _ (number : String → ℕ) (chain_id : String) where
  -- One round of the first loop.
  unfoldable pub scan_one : String → Response RpcStatus → Scan → Scan
  unfolding set
  scan_one url (fail error) s = record s { health = put_unhealthy url (unreachable error) s.health }
  scan_one url (ok status) s =
      let height = number status.latest_block_height in
      let right = str_eq chain_id status.network in
      let reason =
        if not right then wrong_network status.network chain_id else "node is catching up" in
      if right && not status.catching_up
      then record s {
        responsive = set url height s.responsive;
        highest = if ltb s.highest height then height else s.highest;
      }
      else record s { health = put_unhealthy url reason s.health }

  unfoldable pub scan : List (String × Response RpcStatus) → Scan → Scan
  scan [] s = s
  scan ((url, answer) ∷ rest) s = scan rest (scan_one url answer s)

  -- `RpcClient.checkHealth`; `get_status url` is what the node at that URL answers.
  unfoldable pub check_rpcs : Platform → (String → Response RpcStatus) → List String → Health
  check_rpcs p get_status urls =
      let s = scan (map (λ url. (url, get_status url)) urls) no_scan in
      grade p s.highest s.responsive s.health

module _ (chain_id : String) where
  -- One round of the loop of the API check.
  unfoldable pub check_api : String → Response NodeData → Health → Health
  check_api url (fail error) h = put_unhealthy url (unreachable error) h
  check_api url (ok node) h =
      if not (str_eq node.network chain_id)
      then put_unhealthy url (wrong_network node.network chain_id) h
      else if node.syncing
      then put_unhealthy url "node is still syncing" h
      else put_healthy url h

  unfoldable pub check_apis_from : List (String × Response NodeData) → Health → Health
  check_apis_from [] h = h
  check_apis_from ((url, answer) ∷ rest) h = check_apis_from rest (check_api url answer h)

  -- `ApiClient.checkHealth`.
  unfoldable pub check_apis : (String → Response NodeData) → List String → Health
  check_apis get_status urls = check_apis_from (map (λ url. (url, get_status url)) urls) no_health
