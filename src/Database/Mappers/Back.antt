-- ===== src/Database/Mappers/Back.antt =====
-- pkgs/database/duckdb/mappers.ts: a record that is written as a row is read back as it was.
use cosmad.Prelude.{ℕ, ◌≡◌, refl, ap, ◌∙◌, Option, none, some, List, arith}
use cosmad.Outcome.{Result}
use cosmad.Platform.{Platform}
use cosmad.Tables.{
  Block, Alert, new_alert, ValidatorInactivity, bytes, num_check, built, new_block, new_block-built,
  hash_fn, signature_fn,
}
use cosmad.Engine.Protocol.{optional}
use cosmad.Database.Mappers.{
  to_timestamp, from_timestamp, block_to_row, options_of_row, row_to_block, alert_to_row,
  row_to_alert, inactivity_to_row, row_to_inactivity,
}

timestamp_back : (t : ℕ) → from_timestamp (to_timestamp t) ≡ t
timestamp_back t = omega arith

timestamps_back : (o : Option ℕ) → optional from_timestamp (optional to_timestamp o) ≡ o
timestamps_back none = refl
timestamps_back (some t) = ap some (timestamp_back t)

signature_fn_back : (p : Platform) (o : Option (List ℕ)) → signature_fn p (optional bytes o) ≡ o
unfolding signature_fn
signature_fn_back p none = refl
signature_fn_back p (some b) = refl

-- A block whose `signed` passes the constructor's check is read back from its row as it was.
pub row_to_block-block_to_row :
    (p : Platform) (b : Block)
    → num_check b.signed ≡ Result.ok b.signed
    → row_to_block p (block_to_row b) b.chain_type ≡ Result.ok b
unfolding row_to_block block_to_row new_block built hash_fn
row_to_block-block_to_row p b ok =
    new_block-built p (options_of_row (block_to_row b) b.chain_type) b.signed ok
    ∙ rw (timestamp_back b.time, signature_fn_back p b.signature) refl

pub row_to_alert-alert_to_row : (a : Alert) → row_to_alert (alert_to_row a) ≡ a
unfolding row_to_alert alert_to_row new_alert
row_to_alert-alert_to_row a =
    rw (timestamp_back a.opened_at, timestamps_back a.closed_at, timestamps_back a.last_notified_at)
      refl

pub row_to_inactivity-inactivity_to_row :
    (i : ValidatorInactivity) → row_to_inactivity (inactivity_to_row i) ≡ i
unfolding row_to_inactivity inactivity_to_row
row_to_inactivity-inactivity_to_row i =
    rw (timestamp_back i.time, timestamps_back i.jailed_until, timestamps_back i.end_time) refl
