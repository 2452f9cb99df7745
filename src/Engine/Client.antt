-- ===== src/Engine/Client.antt =====
-- engine/client.ts: `EngineClient`, the database of one chain behind the socket, as an `IWriteDb`.
pub mod Back
pub mod Same
use cosmad.Prelude.{ℕ, String, Option, none, some, List, [], ◌∷◌, map}
use cosmad.Outcome.{Result, ok, err}
use cosmad.Platform.{Platform}
use cosmad.Tables.{ChainType, Block, Alert, ValidatorInactivity, BlockWindowStats}
use cosmad.Dict.{Dict}
use cosmad.Api.Types.{DailyBlockStats}
use cosmad.Database.{WriteDb}
use cosmad.Database.Mappers.{ChainSignatureStats}
use cosmad.Database.Reads.{ReadDb}
use cosmad.Database.Rwdb.{Rwdb}
use cosmad.Engine.Stats.{wire_to_chain_signature_stats, wire_to_day}
use cosmad.Engine.Protocol.{
  block_to_wire, wire_to_block, alert_to_wire, wire_to_alert, inactivity_to_wire,
  wire_to_inactivity, Body, Value, Role, request, EngineResponse,
}
use cosmad.Engine.Server.{wire_to_blocks, handle_line}

-- `toResult`. A value of another shape than the request's is outside of what the casts allow: an
-- `err` stands for whatever happens then, and for a decoder that throws.
abbrev pub to_result {ℓ} :
    {S : Type 0} {A : Type ℓ} → (Value → Result A) → Result Value × S → Result A × S
to_result decode (err e, s) = (err e, s)
to_result decode (ok v, s) = (decode v, s)

abbrev pub misshapen : String
misshapen = "unexpected value"

abbrev pub as_void : Value → Result (Unit {0})
as_void v = ok tt

module _ (p : Platform) where
  abbrev pub as_height : Value → Result (Option ℕ)
  as_height Value.nothing = ok none
  as_height (Value.height t) = ok (some (p.of_decimal t))
  as_height _ = err misshapen

  abbrev pub as_blocks : ChainType → Value → Result (List Block)
  as_blocks t (Value.block_list ws) = wire_to_blocks p t ws
  as_blocks t _ = err misshapen

  abbrev pub as_alert : Value → Result (Option Alert)
  as_alert Value.nothing = ok none
  as_alert (Value.alert w) = ok (some (wire_to_alert p w))
  as_alert _ = err misshapen

  abbrev pub as_alerts : Value → Result (List Alert)
  as_alerts (Value.alert_list ws) = ok (map (wire_to_alert p) ws)
  as_alerts _ = err misshapen

  abbrev pub as_periods : Value → Result (List ValidatorInactivity)
  as_periods (Value.period_list ws) = ok (map (wire_to_inactivity p) ws)
  as_periods _ = err misshapen

  -- A block of the wire may be refused.
  abbrev pub as_block : ChainType → Value → Result (Option Block)
  as_block t Value.nothing = ok none
  as_block t (Value.block w) = elim (wire_to_block p t w) [ err e ↦ err e | ok b ↦ ok (some b) ]
  as_block t _ = err misshapen

  abbrev pub as_period : Value → Result (Option ValidatorInactivity)
  as_period Value.nothing = ok none
  as_period (Value.period w) = ok (some (wire_to_inactivity p w))
  as_period _ = err misshapen

abbrev pub as_window : Value → Result BlockWindowStats
as_window (Value.window total missed) = ok (record { total = total; missed = missed })
as_window _ = err misshapen

abbrev pub as_signature_stats : Value → Result (Option ChainSignatureStats)
as_signature_stats Value.nothing = ok none
as_signature_stats (Value.signature_stats w) = ok (some (wire_to_chain_signature_stats w))
as_signature_stats _ = err misshapen

abbrev pub as_days : Value → Result (List DailyBlockStats)
as_days (Value.days ws) = ok (map wire_to_day ws)
as_days _ = err misshapen

-- `connection.request` is `call`: the body of the response, and the database behind the socket.
module _ {S : Type 0} (p : Platform) (call : Body → S → Result Value × S) (chain_id : String)
    (chain_type : ChainType) where
  unfoldable pub engine_client : WriteDb S
  engine_client = record {
    latest_block_height = λ s. to_result (as_height p) (call (Body.latest_block_height chain_id) s);
    get_block_by_range = λ lo hi s.
        to_result (as_blocks p chain_type) (
          call (Body.get_block_by_range chain_id (p.to_decimal lo) (p.to_decimal hi) chain_type) s);
    get_block_stats = λ lo hi s.
        to_result as_window
          (call (Body.get_block_stats chain_id (p.to_decimal lo) (p.to_decimal hi)) s);
    append_blocks = λ bs s.
        to_result as_void
          (call (Body.append_blocks chain_id (map (block_to_wire p chain_type) bs)) s);
    insert_blocks = λ bs s.
        to_result as_void
          (call (Body.insert_blocks chain_id (map (block_to_wire p chain_type) bs)) s);
    get_alert = λ k s. to_result (as_alert p) (call (Body.get_alert chain_id k) s);
    get_unclosed_alerts =
        λ l n s. to_result (as_alerts p) (call (Body.get_unclosed_alerts chain_id l n) s);
    insert_alert =
        λ a s. to_result as_void (call (Body.insert_alert chain_id (alert_to_wire p a)) s);
    close_alert = λ i t s. to_result as_void (call (Body.close_alert chain_id i (p.to_iso t)) s);
    touch_alert_notified =
        λ i t n s. to_result as_void (call (Body.touch_alert_notified chain_id i (p.to_iso t) n) s);
    get_open_inactivity = λ s. to_result (as_period p) (call (Body.get_open_inactivity chain_id) s);
    insert_inactivity = λ i s.
        to_result as_void (call (Body.insert_inactivity chain_id (inactivity_to_wire p i)) s);
    end_inactivity = λ a z t s.
        to_result as_void
          (call (Body.end_inactivity chain_id (p.to_decimal a) (p.to_decimal z) (p.to_iso t)) s);
  }

  -- The rest of `EngineClient`.
  unfoldable pub engine_reads : ReadDb S
  engine_reads = record {
    latest_block =
        λ s. to_result (as_block p chain_type) (call (Body.latest_block chain_id chain_type) s);
    get_block_by_height = λ h s.
        to_result (as_block p chain_type)
          (call (Body.get_block_by_height chain_id (p.to_decimal h) chain_type) s);
    get_chain_signed_percentage =
        λ n s. to_result as_signature_stats (call (Body.get_chain_signed_percentage chain_id n) s);
    get_daily_signed_stats =
        λ n s. to_result as_days (call (Body.get_daily_signed_stats chain_id n) s);
    get_inactivity_history =
        λ l s. to_result (as_periods p) (call (Body.get_inactivity_history chain_id l) s);
  }

-- One request on a connection of this role: the body of the first response.
abbrev pub first_body : List EngineResponse → Result Value
first_body [] = err "no response"
first_body (r ∷ rs) = r.body

module _ {S : Type 0} (p : Platform) (db : Rwdb S) (known : Dict String ChainType) where
  unfoldable pub ask : Role → ℕ → Body → S → Result Value × S
  ask role id body s =
      let (sent, held, s') = handle_line p db known (request id body) (some role) s in
      (first_body sent, s')
