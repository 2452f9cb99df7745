-- ===== src/Worker/Poll/Contiguous.antt =====
-- dp/chain_worker.ts: a poll over the store, and the heights that are stored.
use mathlib.Core.List.{append-nil}
use cosmad.Prelude.{
  ℕ, zero, suc, ◌+◌, ◌-◌, String, Bool, false, ◌≡◌, refl, ap, sym, subst, ◌∙◌, inl, inr, Option,
  none, some, List, [], ◌∷◌, ◌++◌, arith, Bool-cases, length, keep, take, drop, last?, or_else, leb,
  max,
}
use cosmad.Outcome.{Result, Response}
use cosmad.Platform.{Platform}
use cosmad.Tables.{Block, Alert, ValidatorInactivity}
use cosmad.Alert.Types.{AlertEvent, opened, closed, repeated, ValidatorStatus, ChainTip}
use cosmad.Alert.Endpoints.{evaluate_endpoints}
use cosmad.Database.Store
use cosmad.Database.Store.{Store, add_blocks, highest, insert_blocks, latest_block_height}
use cosmad.Database.Scoped.{chain_scoped}
use cosmad.Database.Contiguous.{
  of_chain, IsContiguous, OfChain, Below, add_blocks-above, highest-count_up, Below-of_count_up,
  rows_after,
}
use cosmad.Ingest.{ingest_blocks, ingest_alert, close_alert}
use cosmad.Worker.Types.{ChainConfig, Commit}
use cosmad.Worker.Commit.{ActiveFallbackCache}
use cosmad.Worker.Collect.{collect_blocks}
use cosmad.Worker.Collect.Contiguous.{
  count_up, heights, Answers, Climbs, collect_blocks-contiguous, collect_blocks-Climbs,
  collect_blocks-own,
}
use cosmad.Worker.Inactivity.{record_inactivity, resolve_validator_status}
use cosmad.Worker.Poll.{
  Nodes, from_height, to_height, ingest_missing, record_status, last_known_active,
  trusted_active_set, evaluate_windows, poll_from, poll_tip, poll_chain,
}
use cosmad.Worker.Cycle.{
  Cycle, apply_event, apply_events, endpoint_checks, poll_with, do_poll, EndpointHealth,
}

insert_blocks-added :
    (bs : List Block) (s : Store) {table : List Block}
    → add_blocks bs s.blocks ≡ some table
    → insert_blocks bs s ≡ (Result.ok tt, record s { blocks = table })
unfolding insert_blocks
insert_blocks-added bs s e = rw (e, insert_blocks)

-- Blocks of the chain above all that is stored are added behind it.
ingest_blocks-adds :
    (c : String) (n hi : ℕ) (bs : List Block) (s : Store)
    → OfChain c bs
    → Climbs n hi bs
    → Below c n s.blocks
    → (ingest_blocks (chain_scoped c) bs s).1.blocks ≡ s.blocks ++ bs
unfolding ingest_blocks
ingest_blocks-adds c n hi [] s own climbs below = sym (append-nil s.blocks)
ingest_blocks-adds c n hi (b ∷ bs) s own climbs below = ground (
  arith,
  insert_blocks-added (b ∷ bs) s (add_blocks-above c n hi (b ∷ bs) s.blocks own climbs below),
)

-- Where a poll starts: at `lo + m` behind `m` stored blocks from `lo` on.
from_height-stored :
    (c : String) (lo m rpc_height : ℕ) (s : Store)
    → heights (of_chain c s.blocks) ≡ count_up lo m
    → (first : ℕ) × (heights (of_chain c s.blocks) ≡ count_up first m)
      × (from_height (highest c s.blocks none) rpc_height ≡ first + m)
unfolding from_height
from_height-stored c lo zero rpc_height s stored = (
  max (rpc_height - 1) 1,
  stored,
  rw (highest-count_up c lo zero s.blocks none stored (λ g e. cc)) (omega arith),
)
from_height-stored c lo (suc m) rpc_height s stored =
    (lo, stored, rw (highest-count_up c lo (suc m) s.blocks none stored (λ g e. cc)) (grind arith))

module _ (p : Platform) (chain : ChainConfig) (nodes : Nodes) where
  -- The blocks of one poll go on where the stored ones end.
  ingest_missing-IsContiguous :
      (valcons_hex : Option String) (hexes : Option (List String)) (last_active : Option Bool)
      → (lo m rpc_height : ℕ) (s : Store) → chain.allow_block_gaps ≡ false
      → ((a z : ℕ) → Answers a (nodes.range_commits a z))
      → heights (of_chain chain.chain_id s.blocks) ≡ count_up lo m
      → IsContiguous chain.chain_id
          (ingest_missing p
            (chain_scoped chain.chain_id)
            chain
            nodes
            valcons_hex
            hexes
            last_active
            (lo + m)
            rpc_height
            s).1
  unfolding ingest_missing
  ingest_missing-IsContiguous valcons_hex hexes last_active lo m rpc_height s gaps answers stored =
      let from = lo + m in
      let rs = nodes.range_commits from (to_height chain from rpc_height + 1) in
      let cache : ActiveFallbackCache = record { value = none; currently_active = last_active } in
      let bs = collect_blocks p nodes.validator_at chain valcons_hex hexes rs cache in
      let a = answers from (to_height chain from rpc_height + 1) in
      let own = collect_blocks-own p nodes.validator_at chain valcons_hex hexes rs cache in
      let climbs =
        collect_blocks-Climbs p nodes.validator_at chain valcons_hex hexes from (from + length rs)
          rs cache a (omega arith) in
      let run =
        collect_blocks-contiguous p nodes.validator_at chain valcons_hex hexes from rs cache gaps
          a in
      elim (Bool-cases (leb from rpc_height)) [
        | inl t ↦ rw t (
          lo,
          m + length bs,
          rw
              (ingest_blocks-adds chain.chain_id from (from + length rs) bs s own climbs
                (Below-of_count_up chain.chain_id lo m s.blocks stored))
              (rows_after chain.chain_id lo m (length bs) s.blocks bs stored own run),
        )
        | inr f ↦ rw f (lo, m, stored)
      ]

-- Recording the status, reading the windows and applying alerts do not touch the blocks.
blocks-record_status :
    (p : Platform) (chain : ChainConfig) (nodes : Nodes) (status : Option ValidatorStatus)
    (r : Result (Option ValidatorInactivity)) (s : Store)
    → (record_status p (chain_scoped chain.chain_id) chain nodes status r s).blocks ≡ s.blocks
unfolding record_status record_inactivity Store.end_inactivity Store.insert_inactivity
blocks-record_status p chain nodes none r s = refl
blocks-record_status p chain nodes (some v) (Result.err e) s = refl
blocks-record_status p chain nodes (some v) (Result.ok none) s = ground arith
blocks-record_status p chain nodes (some v) (Result.ok (some o)) s = ground arith

blocks-evaluate_windows :
    (p : Platform) (chain : ChainConfig) (nodes : Nodes) (now : ℕ) (ids : ℕ → String) (w latest : ℕ)
    (alerts : List Alert) (status : Option ValidatorStatus) (tip : ChainTip) (s : Store)
    → (evaluate_windows p
        (chain_scoped chain.chain_id)
        chain
        nodes
        now
        ids
        w
        latest
        alerts
        status
        tip
        s).1.blocks
      ≡ s.blocks
unfolding evaluate_windows Store.get_block_by_range Store.get_block_stats
blocks-evaluate_windows p chain nodes now ids w latest alerts status tip s = refl

blocks-apply_event :
    (c : String) (now : ℕ) (e : AlertEvent) (s : Store)
    → (apply_event (chain_scoped c) now e s).blocks ≡ s.blocks
unfolding apply_event ingest_alert close_alert Store.get_alert Store.insert_alert Store.close_alert
    Store.touch_alert_notified
blocks-apply_event c now (opened a x) s = ground arith
blocks-apply_event c now (repeated a x) s = refl
blocks-apply_event c now (closed a t x) s = refl

blocks-apply_events_cons :
    (c : String) (now : ℕ) (e : AlertEvent) (es : List AlertEvent) (s : Store)
    → (apply_events (chain_scoped c) now es (apply_event (chain_scoped c) now e s)).1.blocks
      ≡ (apply_event (chain_scoped c) now e s).blocks
    → (apply_events (chain_scoped c) now (e ∷ es) s).1.blocks ≡ s.blocks
blocks-apply_events_cons c now e es s h = unfold apply_events in (h ∙ blocks-apply_event c now e s)

blocks-apply_events :
    (c : String) (now : ℕ) (es : List AlertEvent) (s : Store)
    → (apply_events (chain_scoped c) now es s).1.blocks ≡ s.blocks
blocks-apply_events c now [] s = unfold apply_events in refl
blocks-apply_events c now (e ∷ es) s =
    blocks-apply_events_cons c now e es s
      (blocks-apply_events c now es (apply_event (chain_scoped c) now e s))

IsContiguous-same :
    (c : String) (s s' : Store) → s'.blocks ≡ s.blocks → IsContiguous c s → IsContiguous c s'
IsContiguous-same c s s' e k = (k.0, k.1, ap (λ (l : List Block). heights (of_chain c l)) e ∙ k.2)

poll_from-IsContiguous :
    (p : Platform) (chain : ChainConfig) (nodes : Nodes) (now : ℕ) (ids : ℕ → String)
    (valcons_hex : Option String) (w : ℕ) (hexes : Option (List String)) (alerts : List Alert)
    (tip : Commit) (s : Store)
    → chain.allow_block_gaps ≡ false
    → ((a z : ℕ) → Answers a (nodes.range_commits a z))
    → IsContiguous chain.chain_id s
    → IsContiguous chain.chain_id
        (poll_from p
          (chain_scoped chain.chain_id)
          chain
          nodes
          now
          ids
          valcons_hex
          w
          hexes
          alerts
          (highest chain.chain_id s.blocks none)
          tip
          s).1
unfolding poll_from Store.get_open_inactivity
poll_from-IsContiguous p chain nodes now ids valcons_hex w hexes alerts tip s gaps answers k =
    let c = chain.chain_id in
    let time = p.of_iso tip.time in
    let status =
      resolve_validator_status p nodes.validator_at nodes.signing_info_at chain tip.height time in
    let ongoing : Result (Option ValidatorInactivity) = (Store.get_open_inactivity c s).0 in
    let known = last_known_active status ongoing in
    let s2 = record_status p (chain_scoped c) chain nodes status ongoing s in
    let kept = blocks-record_status p chain nodes status ongoing s in
    let (first, stored, start) = from_height-stored c k.0 k.1 tip.height s k.2 in
    let grown =
      ingest_missing-IsContiguous p chain nodes valcons_hex (trusted_active_set known hexes) known
        first k.1 tip.height s2 gaps answers (rw kept stored) in
    let after : ℕ → List Block × Store = λ f.
      ingest_missing p (chain_scoped c) chain nodes valcons_hex (trusted_active_set known hexes)
        known f tip.height s2 in
    let from = from_height (highest c s.blocks none) tip.height in
    let latest : ℕ = elim (last? (after from).0) [
      | some b ↦ b.height
      | none ↦ or_else (highest c s.blocks none) tip.height
    ] in
    IsContiguous-same c (after from).1
      (evaluate_windows p (chain_scoped c) chain nodes now ids w latest alerts status
        (record { height = tip.height; time = time }) (after from).1).1
      (blocks-evaluate_windows p chain nodes now ids w latest alerts status
        (record { height = tip.height; time = time }) (after from).1)
      (subst (λ f. IsContiguous c (after f).1) (sym start) grown)

poll_tip-IsContiguous :
    (p : Platform) (chain : ChainConfig) (nodes : Nodes) (now : ℕ) (ids : ℕ → String)
    (valcons_hex : Option String) (w : ℕ) (hexes : Option (List String)) (alerts : List Alert)
    (tip : Response Commit) (s : Store)
    → chain.allow_block_gaps ≡ false
    → ((a z : ℕ) → Answers a (nodes.range_commits a z))
    → IsContiguous chain.chain_id s
    → IsContiguous chain.chain_id
        (poll_tip p
          (chain_scoped chain.chain_id)
          chain
          nodes
          now
          ids
          valcons_hex
          w
          hexes
          alerts
          (highest chain.chain_id s.blocks none)
          tip
          s).1
unfolding poll_tip
poll_tip-IsContiguous p chain nodes now ids valcons_hex w hexes alerts (Response.fail e) s gaps
      answers k =
    k
poll_tip-IsContiguous p chain nodes now ids valcons_hex w hexes alerts (Response.ok t) s gaps
      answers k =
    poll_from-IsContiguous p chain nodes now ids valcons_hex w hexes alerts t s gaps answers k

module _ (p : Platform) (chain : ChainConfig) (nodes : Nodes)
    (rpc_health api_health : Option (List EndpointHealth)) where
  poll_with-IsContiguous :
      (now : ℕ) (ids endpoint_ids : ℕ → String) (valcons_hex : Option String) (w : ℕ)
      → (hexes : Option (List String)) (alerts : List Alert) (cycle : Cycle Store)
      → chain.allow_block_gaps ≡ false
      → ((a z : ℕ) → Answers a (nodes.range_commits a z))
      → IsContiguous chain.chain_id cycle.store
      → IsContiguous chain.chain_id
          (poll_with p
            (chain_scoped chain.chain_id)
            chain
            nodes
            rpc_health
            api_health
            now
            ids
            endpoint_ids
            valcons_hex
            w
            hexes
            alerts
            cycle).1.store
  unfolding poll_with poll_chain latest_block_height
  poll_with-IsContiguous now ids endpoint_ids valcons_hex w hexes alerts cycle gaps answers k =
      let db = chain_scoped chain.chain_id in
      let (events, s1) =
        poll_chain p db chain nodes now ids valcons_hex w hexes alerts cycle.store in
      let more =
        (evaluate_endpoints chain.chain_id now endpoint_ids chain.alert_config cycle.down_since
          (endpoint_checks p chain rpc_health api_health) alerts).0 in
      IsContiguous-same chain.chain_id s1 (apply_events db now (events ++ more) s1).1
        (blocks-apply_events chain.chain_id now (events ++ more) s1)
        (poll_tip-IsContiguous p chain nodes now ids valcons_hex w hexes alerts nodes.latest_commit
          cycle.store gaps answers k)

  -- A poll cycle over the store keeps the heights of the chain's stored blocks free of gaps: if
  -- the stored heights were consecutive, they are afterwards, whatever the nodes answer or refuse,
  -- whatever the votes, the validator's status and the alerts are, without `allowBlockGaps` and
  -- with nodes that answer a request for a height with the commit of that height, or fail.
  pub do_poll-IsContiguous :
      (now : ℕ) (ids endpoint_ids : ℕ → String) (valcons_hex : Option String) (w : ℕ)
      → (hexes : Option (List String)) (cycle : Cycle Store) → chain.allow_block_gaps ≡ false
      → ((a z : ℕ) → Answers a (nodes.range_commits a z))
      → IsContiguous chain.chain_id cycle.store
      → IsContiguous chain.chain_id
          (do_poll p
            (chain_scoped chain.chain_id)
            chain
            nodes
            rpc_health
            api_health
            now
            ids
            endpoint_ids
            valcons_hex
            w
            hexes
            cycle).1.store
  unfolding do_poll Store.get_unclosed_alerts
  do_poll-IsContiguous now ids endpoint_ids valcons_hex w hexes cycle gaps answers k =
      poll_with-IsContiguous now ids endpoint_ids valcons_hex w hexes
        (take 500 (
          drop 0
            (Store.sort_by_opened (keep (Store.is_unclosed chain.chain_id) cycle.store.alerts))))
        cycle gaps answers k
