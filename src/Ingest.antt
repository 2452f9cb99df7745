-- ===== src/Ingest.antt =====
-- ingest/index.ts: `IngestLayer`.
pub mod Store
use cosmad.Prelude.{ℕ, String, none, some, List, [], ◌∷◌}
use cosmad.Outcome.{Result, ok, err}
use cosmad.Tables.{Block, Alert}
use cosmad.Database.{WriteDb}

module _ {S : Type 0} (db : WriteDb S) where
  unfoldable pub ingest_blocks : List Block → S → Result (Unit {0}) × S
  ingest_blocks [] s = (ok tt, s)
  ingest_blocks (b ∷ bs) s =
      let (r, s') = db.append_blocks (b ∷ bs) s in
      elim r [ ok u ↦ (ok u, s') | err e ↦ db.insert_blocks (b ∷ bs) s' ]

  unfoldable pub ingest_alert : Alert → S → Result (Unit {0}) × S
  ingest_alert a s =
      let (r, s') = db.get_alert a.alert_id s in
      elim r [
        | err e ↦ (err e, s')
        | ok (some existing) ↦ (ok tt, s')
        | ok none ↦ db.insert_alert a s'
      ]

  unfoldable pub close_alert : String → ℕ → S → Result (Unit {0}) × S
  close_alert alert_id closed_at s = db.close_alert alert_id closed_at s
