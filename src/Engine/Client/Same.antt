-- ===== src/Engine/Client/Same.antt =====
-- engine/client.ts: `EngineClient` against `ChainScopedDb` of pkgs/database/duckdb/scoped.ts.
use cosmad.Prelude.{ℕ, String, ◌≡◌, refl, ap, ◌∙◌, some, List, map, All}
use cosmad.Platform.{Platform, IsLawful}
use cosmad.Tables.{ChainType, Block, Alert, ValidatorInactivity}
use cosmad.Dict.{Dict, string_eq, get}
use cosmad.Database.{WriteDb}
use cosmad.Database.Rwdb.{Rwdb, scoped, scoped_reads}
use cosmad.Database.Reads.{ReadDb}
use cosmad.Engine.Protocol.{
  block_to_wire, alert_to_wire, inactivity_to_wire, Body, chain_of, writer,
}
use cosmad.Engine.Protocol.Wire.{
  IsWireable, wire_to_alert-alert_to_wire, wire_to_inactivity-inactivity_to_wire,
}
use cosmad.Engine.Server.{handle, dispatch, handle_line}
use cosmad.Engine.Client.Back.{
  AllWireable, OneWireable, stats_same, days_same, void_same, window_same, blocks_back, height_same,
  alert_same, alerts_same, period_same, periods_same, block_same, blocks_same,
}
use cosmad.Engine.Client.{
  to_result, as_void, as_height, as_blocks, as_alert, as_alerts, as_period, as_window, as_block,
  as_periods, as_signature_stats, as_days, engine_client, engine_reads, ask,
}

module _ {S : Type 0} (p : Platform) (lawful : IsLawful p) (db : Rwdb S)
    (known : Dict String ChainType) (chain_id : String) (t : ChainType)
    (is_known : get chain_id known ≡ some t) (id : ℕ) where
  asked :
      (body : Body) (s : S)
      → chain_of body ≡ chain_id
      → ask p db known writer id body s ≡ handle p db t body s
  unfolding ask handle_line dispatch
  asked body s e = rw (ap (λ c. get c known) e ∙ is_known, dispatch)

  abbrev remote : WriteDb S
  remote = engine_client p (ask p db known writer id) chain_id t

  abbrev local : WriteDb S
  local = scoped db chain_id t

  abbrev remote_reads : ReadDb S
  remote_reads = engine_reads p (ask p db known writer id) chain_id t

  abbrev local_reads : ReadDb S
  local_reads = scoped_reads db chain_id t

  -- Blocks of the chain's type with `signed` in range are appended and inserted by a client of the
  -- engine with the same result and the same effect as inside the engine, for a writer's
  -- connection, a chain that the engine knows by its type, and codecs that read back what they
  -- wrote.
  pub engine_client-blocks :
      (bs : List Block) (s : S)
      → All (IsWireable t) bs
      → (remote.append_blocks bs s ≡ local.append_blocks bs s)
        × (remote.insert_blocks bs s ≡ local.insert_blocks bs s)
  unfolding engine_client handle
  engine_client-blocks bs s fits =
      let wires = map (block_to_wire p t) bs in
      let back = blocks_back p lawful t bs fits in
      (
        ap (to_result as_void) (asked (Body.append_blocks chain_id wires) s refl)
            ∙ rw back (void_same (db.append_blocks chain_id bs s)),
        ap (to_result as_void) (asked (Body.insert_blocks chain_id wires) s refl)
            ∙ rw back (void_same (db.insert_blocks chain_id bs s)),
      )

  -- A range of blocks that are of the chain's type, with `signed` in range, is read by a client of
  -- the engine with the same result and state as inside the engine, an error too, for a writer's
  -- connection, a chain that the engine knows by its type, and codecs that read back what they
  -- wrote.
  pub engine_client-get_block_by_range :
      (lo hi : ℕ) (s : S)
      → AllWireable t (local.get_block_by_range lo hi s).0
      → remote.get_block_by_range lo hi s ≡ local.get_block_by_range lo hi s
  unfolding engine_client handle
  engine_client-get_block_by_range lo hi s fits =
      ap (to_result (as_blocks p t))
        (asked (Body.get_block_by_range chain_id (p.to_decimal lo) (p.to_decimal hi) t) s refl)
      ∙ rw (lawful.decimal_back lo, lawful.decimal_back hi)
          (blocks_same p lawful t (db.get_block_by_range chain_id lo hi t s) fits)

  -- The newest block and the block of a height are read by a client as inside the engine, where
  -- they are of the chain's type with `signed` in range.
  engine_reads-block :
      (h : ℕ) (s : S)
      → OneWireable t (local_reads.latest_block s).0
      → OneWireable t (local_reads.get_block_by_height h s).0
      → (remote_reads.latest_block s ≡ local_reads.latest_block s)
        × (remote_reads.get_block_by_height h s ≡ local_reads.get_block_by_height h s)
  unfolding engine_reads handle
  engine_reads-block h s fits fits_too = (
    ap (to_result (as_block p t)) (asked (Body.latest_block chain_id t) s refl)
        ∙ block_same p lawful t (db.latest_block chain_id t s) fits,
    ap (to_result (as_block p t))
          (asked (Body.get_block_by_height chain_id (p.to_decimal h) t) s refl)
        ∙ rw (lawful.decimal_back h)
            (block_same p lawful t (db.get_block_by_height chain_id h t s) fits_too),
  )

  -- The queries over days and the finished periods of inactivity.
  engine_reads-others :
      (n : ℕ) (s : S)
      → (remote_reads.get_inactivity_history n s ≡ local_reads.get_inactivity_history n s)
        × (remote_reads.get_chain_signed_percentage n s
            ≡ local_reads.get_chain_signed_percentage n s)
        × (remote_reads.get_daily_signed_stats n s ≡ local_reads.get_daily_signed_stats n s)
  unfolding engine_reads handle
  engine_reads-others n s = (
    ap (to_result (as_periods p)) (asked (Body.get_inactivity_history chain_id n) s refl)
        ∙ periods_same p lawful (db.get_inactivity_history chain_id n s),
    ap (to_result as_signature_stats) (asked (Body.get_chain_signed_percentage chain_id n) s refl)
        ∙ stats_same (db.get_chain_signed_percentage chain_id n s),
    ap (to_result as_days) (asked (Body.get_daily_signed_stats chain_id n) s refl)
        ∙ days_same (db.get_daily_signed_stats chain_id n s),
  )

  -- The operations of a client of the engine that do not carry blocks have the same result and the
  -- same effect as those of the chain's view inside the engine: the newest height, the counts of a
  -- window, the statistics over days, the alerts, the ongoing period of inactivity, its start and
  -- end, and the periods so far; for a writer's connection, a chain that the engine knows by its
  -- type, and codecs that read back what they wrote.
  pub engine_client-others :
      (a : Alert) (i : ValidatorInactivity) (k : String) (m n o : ℕ) (s : S)
      → (remote.latest_block_height s ≡ local.latest_block_height s)
        × (remote.get_block_stats m n s ≡ local.get_block_stats m n s)
        × (remote.get_alert k s ≡ local.get_alert k s)
        × (remote.get_unclosed_alerts m n s ≡ local.get_unclosed_alerts m n s)
        × (remote.insert_alert a s ≡ local.insert_alert a s)
        × (remote.close_alert k m s ≡ local.close_alert k m s)
        × (remote.touch_alert_notified k m n s ≡ local.touch_alert_notified k m n s)
        × (remote.get_open_inactivity s ≡ local.get_open_inactivity s)
        × (remote.insert_inactivity i s ≡ local.insert_inactivity i s)
        × (remote.end_inactivity m n o s ≡ local.end_inactivity m n o s)
        × (remote_reads.get_inactivity_history n s ≡ local_reads.get_inactivity_history n s)
        × (remote_reads.get_chain_signed_percentage n s
            ≡ local_reads.get_chain_signed_percentage n s)
        × (remote_reads.get_daily_signed_stats n s ≡ local_reads.get_daily_signed_stats n s)
  unfolding engine_client handle
  engine_client-others a i k m n o s =
      let void : (body : Body)
          → chain_of body ≡ chain_id
          → to_result as_void (ask p db known writer id body s)
            ≡ to_result as_void (handle p db t body s) =
        λ body e. ap (to_result as_void) (asked body s e) in
      let iso = lawful.iso_back in
      let dec = lawful.decimal_back in
      (
        ap (to_result (as_height p)) (asked (Body.latest_block_height chain_id) s refl)
            ∙ height_same p lawful (db.latest_block_height chain_id s),
        ap (to_result as_window)
              (asked (Body.get_block_stats chain_id (p.to_decimal m) (p.to_decimal n)) s refl)
            ∙ rw (dec m, dec n) (window_same (db.get_block_stats chain_id m n s)),
        ap (to_result (as_alert p)) (asked (Body.get_alert chain_id k) s refl)
            ∙ alert_same p lawful (db.get_alert k s),
        ap (to_result (as_alerts p)) (asked (Body.get_unclosed_alerts chain_id m n) s refl)
            ∙ alerts_same p lawful (db.get_unclosed_alerts chain_id m n s),
        void (Body.insert_alert chain_id (alert_to_wire p a)) refl
            ∙ rw (wire_to_alert-alert_to_wire p lawful a) (void_same (db.insert_alert a s)),
        void (Body.close_alert chain_id k (p.to_iso m)) refl
            ∙ rw (iso m) (void_same (db.close_alert k m s)),
        void (Body.touch_alert_notified chain_id k (p.to_iso m) n) refl
            ∙ rw (iso m) (void_same (db.touch_alert_notified k m n s)),
        ap (to_result (as_period p)) (asked (Body.get_open_inactivity chain_id) s refl)
            ∙ period_same p lawful (db.get_open_inactivity chain_id s),
        void (Body.insert_inactivity chain_id (inactivity_to_wire p i)) refl
            ∙ rw (wire_to_inactivity-inactivity_to_wire p lawful i)
                (void_same (db.insert_inactivity i s)),
        void (Body.end_inactivity chain_id (p.to_decimal m) (p.to_decimal n) (p.to_iso o)) refl
            ∙ rw (dec m, dec n, iso o) (void_same (db.end_inactivity chain_id m n o s)),
        (engine_reads-others n s).0,
        (engine_reads-others n s).1,
        (engine_reads-others n s).2,
      )
