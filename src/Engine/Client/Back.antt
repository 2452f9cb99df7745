-- ===== src/Engine/Client/Back.antt =====
-- engine/client.ts: what the client makes of a result is what the handler had.
use cosmad.Prelude.{ℕ, ◌≡◌, refl, Option, none, some, List, [], ◌∷◌, map, All}
use cosmad.Outcome.{Result, ok, err}
use cosmad.Platform.{Platform, IsLawful}
use cosmad.Tables.{ChainType, Block, Alert, ValidatorInactivity, BlockWindowStats}
use cosmad.Api.Types.{DailyBlockStats}
use cosmad.Database.Mappers.{ChainSignatureStats}
use cosmad.Engine.Protocol.{
  block_to_wire, alert_to_wire, wire_to_alert, inactivity_to_wire, wire_to_inactivity, Value,
}
use cosmad.Engine.Protocol.Wire.{
  IsWireable, wire_to_block-block_to_wire, wire_to_alert-alert_to_wire,
  wire_to_inactivity-inactivity_to_wire,
}
use cosmad.Engine.Stats.{
  chain_signature_stats_to_wire, day_to_wire, wire_to_day, stats_back, day_back,
}
use cosmad.Engine.Server.{answer, or_null, wire_to_blocks}
use cosmad.Engine.Client.{
  to_result, as_void, as_height, as_block, as_blocks, as_alert, as_alerts, as_period, as_periods,
  as_window, as_signature_stats, as_days,
}

map_back {ℓ κ} :
    {A : Type ℓ} {B : Type κ} (f : A → B) (g : B → A)
    → ((a : A) → g (f a) ≡ a)
    → (l : List A) → map g (map f l) ≡ l
map_back f g back [] = refl
map_back f g back (a ∷ l) = rw (back a, map_back f g back l)

module _ {S : Type 0} where
  pub stats_same :
      (r : Result (Option ChainSignatureStats) × S)
      → to_result as_signature_stats
          (answer (or_null (λ c. Value.signature_stats (chain_signature_stats_to_wire c))) r)
        ≡ r
  stats_same (ok none, s) = refl
  stats_same (ok (some c), s) = rw (stats_back c)
  stats_same (err e, s) = refl

  pub days_same :
      (r : Result (List DailyBlockStats) × S)
      → to_result as_days (answer (λ l. Value.days (map day_to_wire l)) r) ≡ r
  days_same (ok l, s) = rw (map_back day_to_wire wire_to_day day_back l)
  days_same (err e, s) = refl

  pub void_same :
      (r : Result (Unit {0}) × S) → to_result as_void (answer (λ u. Value.nothing) r) ≡ r
  void_same (ok u, s) = refl
  void_same (err e, s) = refl

  pub window_same :
      (r : Result BlockWindowStats × S)
      → to_result as_window (answer (λ (w : BlockWindowStats). Value.window w.total w.missed) r) ≡ r
  window_same (ok w, s) = refl
  window_same (err e, s) = refl

-- Fits: where the result is a list of blocks, each can be sent.
abbrev pub AllWireable : ChainType → Result (List Block) → Type 0
AllWireable t (ok bs) = All (IsWireable t) bs
AllWireable t (err e) = Unit

-- Where the result is a block, it can be sent.
abbrev pub OneWireable : ChainType → Result (Option Block) → Type 0
OneWireable t (ok none) = Unit
OneWireable t (ok (some b)) = IsWireable t b
OneWireable t (err e) = Unit

module _ (p : Platform) (lawful : IsLawful p) where
  pub blocks_back :
      (t : ChainType) (bs : List Block)
      → All (IsWireable t) bs
      → wire_to_blocks p t (map (block_to_wire p t) bs) ≡ ok bs
  unfolding wire_to_blocks
  blocks_back t [] h = refl
  blocks_back t (b ∷ bs) h =
      rw (wire_to_block-block_to_wire p lawful t b h.0, blocks_back t bs h.1, wire_to_blocks)

module _ {S : Type 0} (p : Platform) (lawful : IsLawful p) where
  pub height_same :
      (r : Result (Option ℕ) × S)
      → to_result (as_height p) (answer (or_null (λ h. Value.height (p.to_decimal h))) r) ≡ r
  height_same (ok none, s) = refl
  height_same (ok (some h), s) = rw (lawful.decimal_back h)
  height_same (err e, s) = refl

  pub alert_same :
      (r : Result (Option Alert) × S)
      → to_result (as_alert p) (answer (or_null (λ a. Value.alert (alert_to_wire p a))) r) ≡ r
  alert_same (ok none, s) = refl
  alert_same (ok (some a), s) = rw (wire_to_alert-alert_to_wire p lawful a)
  alert_same (err e, s) = refl

  pub alerts_same :
      (r : Result (List Alert) × S)
      → to_result (as_alerts p) (answer (λ l. Value.alert_list (map (alert_to_wire p) l)) r) ≡ r
  alerts_same (ok l, s) =
      rw (map_back (alert_to_wire p) (wire_to_alert p) (wire_to_alert-alert_to_wire p lawful) l)
  alerts_same (err e, s) = refl

  pub period_same :
      (r : Result (Option ValidatorInactivity) × S)
      → to_result (as_period p) (answer (or_null (λ i. Value.period (inactivity_to_wire p i))) r)
        ≡ r
  period_same (ok none, s) = refl
  period_same (ok (some i), s) = rw (wire_to_inactivity-inactivity_to_wire p lawful i)
  period_same (err e, s) = refl

  pub periods_same :
      (r : Result (List ValidatorInactivity) × S)
      → to_result (as_periods p) (answer (λ l. Value.period_list (map (inactivity_to_wire p) l)) r)
        ≡ r
  periods_same (ok l, s) = rw (
      map_back (inactivity_to_wire p) (wire_to_inactivity p)
        (wire_to_inactivity-inactivity_to_wire p lawful) l)
  periods_same (err e, s) = refl

  pub block_same :
      (t : ChainType) (r : Result (Option Block) × S)
      → OneWireable t r.0
      → to_result (as_block p t) (answer (or_null (λ b. Value.block (block_to_wire p t b))) r) ≡ r
  block_same t (ok none, s) h = refl
  block_same t (ok (some b), s) h = rw (wire_to_block-block_to_wire p lawful t b h, as_block)
  block_same t (err e, s) h = refl

  pub blocks_same :
      (t : ChainType) (r : Result (List Block) × S)
      → AllWireable t r.0
      → to_result (as_blocks p t) (answer (λ l. Value.block_list (map (block_to_wire p t) l)) r) ≡ r
  blocks_same t (ok bs, s) h = rw (blocks_back p lawful t bs h)
  blocks_same t (err e, s) h = refl
