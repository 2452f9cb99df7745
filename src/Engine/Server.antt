-- ===== src/Engine/Server.antt =====
-- engine/server.ts: the handler of each request, the check of its chain, and one connection.
pub mod Gate
use cosmad.Prelude.{
  ℕ, String, ◌<>◌, Bool, true, false, ◌&&◌, Option, none, some, List, [], ◌∷◌, ◌++◌, map,
  if◌then◌else◌, str_eq,
}
use cosmad.Outcome.{Result, ok, err}
use cosmad.Platform.{Platform}
use cosmad.Tables.{ChainType, Block, BlockWindowStats}
use cosmad.Dict.{Dict, string_eq, get}
use cosmad.Database.Rwdb.{Rwdb}
use cosmad.Engine.Stats.{chain_signature_stats_to_wire, day_to_wire}
use cosmad.Engine.Protocol.{
  optional, WireBlock, block_to_wire, wire_to_block, alert_to_wire, wire_to_alert,
  inactivity_to_wire, wire_to_inactivity, Body, chain_of, type_of, is_write, Value, Role, reader,
  Message, hello, request, EngineResponse,
}

-- `r.ok ? { ok: true, value: f(r.value) } : r`, beside the state.
abbrev pub answer {ℓ} : {S : Type 0} {A : Type ℓ} → (A → Value) → Result A × S → Result Value × S
answer f (ok a, s) = (ok (f a), s)
answer f (err e, s) = (err e, s)

-- `value ? … : null`
abbrev pub or_null {ℓ} : {A : Type ℓ} → (A → Value) → Option A → Value
or_null f none = Value.nothing
or_null f (some a) = f a

-- `blocks.map((b) => wireToBlock(b, chainType))`: the first throw ends it.
unfoldable pub wire_to_blocks : Platform → ChainType → List WireBlock → Result (List Block)
wire_to_blocks p t [] = ok []
wire_to_blocks p t (w ∷ ws) =
    let rest = wire_to_blocks p t ws in
    elim (wire_to_block p t w) [
      | err e ↦ err e
      | ok b ↦ elim rest [ err e ↦ err e | ok bs ↦ ok (b ∷ bs) ]
    ]

module _ {S : Type 0} (p : Platform) (db : Rwdb S) where
  abbrev pub with_blocks :
      (List Block → S → Result (Unit {0}) × S) → Result (List Block) → S → Result Value × S
  with_blocks f (err e) s = (err e, s)
  with_blocks f (ok bs) s = answer (λ u. Value.nothing) (f bs s)

  -- `handlers`, with the `catch` of `dispatch` around them.
  unfoldable pub handle : ChainType → Body → S → Result Value × S
  unfolding wire_to_blocks
  handle t (Body.append_blocks c ws) s = with_blocks (db.append_blocks c) (wire_to_blocks p t ws) s
  handle t (Body.insert_blocks c ws) s = with_blocks (db.insert_blocks c) (wire_to_blocks p t ws) s
  handle t (Body.latest_block c u) s =
      answer (or_null (λ b. Value.block (block_to_wire p t b))) (db.latest_block c u s)
  handle t (Body.latest_block_height c) s =
      answer (or_null (λ h. Value.height (p.to_decimal h))) (db.latest_block_height c s)
  handle t (Body.insert_alert c w) s =
      answer (λ u. Value.nothing) (db.insert_alert (wire_to_alert p w) s)
  handle t (Body.get_alert c k) s =
      answer (or_null (λ a. Value.alert (alert_to_wire p a))) (db.get_alert k s)
  handle t (Body.get_unclosed_alerts c l n) s =
      answer (λ l. Value.alert_list (map (alert_to_wire p) l)) (db.get_unclosed_alerts c l n s)
  handle t (Body.close_alert c i at) s =
      answer (λ u. Value.nothing) (db.close_alert i (p.of_iso at) s)
  handle t (Body.touch_alert_notified c i at n) s =
      answer (λ u. Value.nothing) (db.touch_alert_notified i (p.of_iso at) n s)
  handle t (Body.insert_inactivity c w) s =
      answer (λ u. Value.nothing) (db.insert_inactivity (wire_to_inactivity p w) s)
  handle t (Body.end_inactivity c a z at) s =
      answer (λ u. Value.nothing)
        (db.end_inactivity c (p.of_decimal a) (p.of_decimal z) (p.of_iso at) s)
  handle t (Body.get_open_inactivity c) s =
      answer (or_null (λ i. Value.period (inactivity_to_wire p i))) (db.get_open_inactivity c s)
  handle t (Body.get_inactivity_history c l) s =
      answer (λ l. Value.period_list (map (inactivity_to_wire p) l))
        (db.get_inactivity_history c l s)
  handle t (Body.get_block_by_height c h u) s =
      answer (or_null (λ b. Value.block (block_to_wire p t b)))
        (db.get_block_by_height c (p.of_decimal h) t s)
  handle t (Body.get_block_by_range c a z u) s =
      answer (λ l. Value.block_list (map (block_to_wire p t) l))
        (db.get_block_by_range c (p.of_decimal a) (p.of_decimal z) t s)
  handle t (Body.get_block_stats c a z) s =
      answer (λ (w : BlockWindowStats). Value.window w.total w.missed)
        (db.get_block_stats c (p.of_decimal a) (p.of_decimal z) s)
  handle t (Body.get_chain_signed_percentage c n) s =
      answer (or_null (λ r. Value.signature_stats (chain_signature_stats_to_wire r)))
        (db.get_chain_signed_percentage c n s)
  handle t (Body.get_daily_signed_stats c n) s =
      answer (λ l. Value.days (map day_to_wire l)) (db.get_daily_signed_stats c n s)

  -- `dispatch`: `known` is `knownChainIds`.
  unfoldable pub dispatch : Dict String ChainType → Body → S → Result Value × S
  dispatch known body s = elim (get (chain_of body) known) [
    | none ↦ (err ("Unknown chain '" <> chain_of body <> "'"), s)
    | some t ↦ handle t body s
  ]

  -- `handleLine`: what is sent, and the role and the database afterwards.
  unfoldable pub handle_line :
      Dict String ChainType → Message → Option Role → S → List EngineResponse × Option Role × S
  handle_line known (hello role) held s = ([], role, s)
  handle_line known (request id body) none s =
      (record { id = id; body = err "No hello/role handshake received" } ∷ [], none, s)
  handle_line known (request id body) (some role) s =
      let (r, s') = dispatch known body s in
      if str_eq role reader && is_write body
      then (
        record {
          id = id;
          body = err ("Read-only connection cannot perform '" <> type_of body <> "'");
        }
            ∷ [],
        some role,
        s,
      )
      else (record { id = id; body = r } ∷ [], some role, s')

  -- One connection's lines in turn. Lines of the real server are handled without waiting for each
  -- other; this is the order in which each waits for the one before.
  unfoldable pub serve :
      Dict String ChainType → List Message → Option Role → S → List EngineResponse × Option Role × S
  serve known [] role s = ([], role, s)
  serve known (m ∷ ms) role s =
      let (sent, role', s') = handle_line known m role s in
      let (more, last, s'') = serve known ms role' s' in (sent ++ more, last, s'')
