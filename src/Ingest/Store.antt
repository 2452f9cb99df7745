-- ===== src/Ingest/Store.antt =====
-- ingest/index.ts over the tables of Database/Store.antt.
use cosmad.Prelude.{
  String, true, ◌≡◌, inl, inr, Option, none, some, List, [], ◌∷◌, ◌++◌, arith, Option-cases,
  find_first, str_eq, eq_refl, is_some,
}
use cosmad.Outcome.{ok, err}
use cosmad.Tables.{Block, Alert}
use cosmad.Database.{WriteDb}
use cosmad.Database.Scoped.{chain_scoped}
use cosmad.Database.Store
use cosmad.Database.Store.{Store, insert_alert}
use cosmad.Ingest.{ingest_alert}

-- The store with an appender of DuckDB that may also fail for reasons of its own, given by what it
-- is asked to append; it has then appended nothing.
abbrev pub with_appender : (List Block → Option String) → String → WriteDb Store
with_appender fails chain_id = record (chain_scoped chain_id) {
  append_blocks = λ bs s. elim (fails bs) [ none ↦ Store.insert_blocks bs s | some e ↦ (err e, s) ];
}

found_last :
    (a : Alert) (l : List Alert)
    → is_some (find_first (λ (b : Alert). str_eq b.alert_id a.alert_id) (l ++ a ∷ [])) ≡ true
found_last a [] = ground (arith, eq_refl a.alert_id)
found_last a (b ∷ l) = ground (arith, found_last a l)

-- Over the store, an alert that is ingested again changes nothing: the first result is a success,
-- and the second is a success that leaves the store as after the first.
pub ingest_alert-twice :
    (chain_id : String) (a : Alert) (s : Store)
    → let db = chain_scoped chain_id in
      ((ingest_alert db a s).0 ≡ ok tt)
      × (ingest_alert db a (ingest_alert db a s).1 ≡ (ok tt, (ingest_alert db a s).1))
unfolding ingest_alert Store.get_alert Store.insert_alert
ingest_alert-twice chain_id a s =
    elim (Option-cases (find_first (λ (b : Alert). str_eq b.alert_id a.alert_id) s.alerts)) [
      | inl e ↦ (ground arith, ground (arith, found_last a s.alerts))
      | inr (b, e) ↦ (ground arith, ground arith)
    ]
