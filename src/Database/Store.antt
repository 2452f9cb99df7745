-- ===== src/Database/Store.antt =====
-- pkgs/database/duckdb/queries/*.ts and scoped.ts: what the SQL statements say, over the tables as
-- lists of rows in the order of insertion. The primary keys are those of pkgs/database/tables.ts.
-- Failures of DuckDB itself are not here, except for a key that is taken.
use cosmad.Prelude.{
  ℕ, zero, ◌*◌, ◌-◌, String, Bool, true, false, not, ◌&&◌, ◌||◌, Option, none, some, List, [], ◌∷◌,
  ◌++◌, ltb, leb, ◌==◌, str_eq, if◌then◌else◌, is_some, keep, find_first, take, drop, length,
}
use cosmad.Prelude.Int.{is_falsy, negsuc}
use cosmad.Outcome.{Result, ok, err}
use cosmad.Tables.{Block, Alert, ValidatorInactivity, BlockWindowStats}

pub record Store : Type 0 where
  pub blocks : List Block
  pub alerts : List Alert
  pub inactivity : List ValidatorInactivity

-- `PRIMARY KEY (chain_id, height)`
unfoldable pub has_block : String → ℕ → List Block → Bool
has_block chain_id height [] = false
has_block chain_id height (b ∷ bs) =
    (str_eq b.chain_id chain_id && b.height == height) || has_block chain_id height bs

-- Rows are added one after another; the statement fails as a whole on a key that is taken.
unfoldable pub add_blocks : List Block → List Block → Option (List Block)
unfolding has_block
add_blocks [] table = some table
add_blocks (b ∷ bs) table =
    let rest = add_blocks bs (table ++ b ∷ []) in
    if has_block b.chain_id b.height table then none else rest

-- `appendBlocks` and `insertBlocks`
unfoldable pub insert_blocks : List Block → Store → Result (Unit {0}) × Store
insert_blocks bs s = elim (add_blocks bs s.blocks) [
  | none ↦ (err "Constraint Error: Duplicate key", s)
  | some table ↦ (ok tt, record s { blocks = table })
]

-- `ORDER BY height DESC LIMIT 1`
abbrev pub max_height : Option ℕ → ℕ → Option ℕ
max_height none h = some h
max_height (some g) h = some (if ltb g h then h else g)

unfoldable pub highest : String → List Block → Option ℕ → Option ℕ
highest chain_id [] best = best
highest chain_id (b ∷ bs) best =
    highest chain_id bs (if str_eq b.chain_id chain_id then max_height best b.height else best)

unfoldable pub latest_block_height : String → Store → Result (Option ℕ) × Store
unfolding highest
latest_block_height chain_id s = (ok (highest chain_id s.blocks none), s)

-- `WHERE chain_id = ? AND height >= ? AND height <= ?`
abbrev pub in_range : String → ℕ → ℕ → Block → Bool
in_range chain_id lo hi b = str_eq b.chain_id chain_id && (leb lo b.height && leb b.height hi)

-- `ORDER BY height ASC`
unfoldable pub insert_by_height : Block → List Block → List Block
insert_by_height b [] = b ∷ []
insert_by_height b (c ∷ cs) =
    let rest = insert_by_height b cs in if ltb b.height c.height then b ∷ c ∷ cs else c ∷ rest

unfoldable pub sort_by_height : List Block → List Block
unfolding insert_by_height
sort_by_height [] = []
sort_by_height (b ∷ bs) = insert_by_height b (sort_by_height bs)

unfoldable pub get_block_by_range : String → ℕ → ℕ → Store → Result (List Block) × Store
unfolding sort_by_height
get_block_by_range chain_id lo hi s =
    (ok (sort_by_height (keep (in_range chain_id lo hi) s.blocks)), s)

-- `count(*) FILTER (WHERE signed != -1)`, `count(*) FILTER (WHERE signed = 0)`
abbrev pub was_active : Block → Bool
was_active b = elim b.signed [ negsuc zero ↦ false | _ ↦ true ]

unfoldable pub get_block_stats : String → ℕ → ℕ → Store → Result BlockWindowStats × Store
get_block_stats chain_id lo hi s =
    let rows = keep (in_range chain_id lo hi) s.blocks in
    (
      ok (record {
        total = length (keep was_active rows);
        missed = length (keep (λ b. is_falsy b.signed) rows);
      }),
      s,
    )

-- `WHERE alert_id = ? LIMIT 1`
unfoldable pub get_alert : String → Store → Result (Option Alert) × Store
get_alert id s = (ok (find_first (λ a. str_eq a.alert_id id) s.alerts), s)

-- `PRIMARY KEY (alert_id)`
unfoldable pub insert_alert : Alert → Store → Result (Unit {0}) × Store
insert_alert a s =
    if is_some (find_first (λ b. str_eq b.alert_id a.alert_id) s.alerts)
    then (err "Constraint Error: Duplicate key", s)
    else (ok tt, record s { alerts = s.alerts ++ a ∷ [] })

-- `ORDER BY opened_at ASC`
unfoldable pub insert_by_opened : Alert → List Alert → List Alert
insert_by_opened a [] = a ∷ []
insert_by_opened a (b ∷ bs) =
    let rest = insert_by_opened a bs in if leb a.opened_at b.opened_at then a ∷ b ∷ bs else b ∷ rest

unfoldable pub sort_by_opened : List Alert → List Alert
unfolding insert_by_opened
sort_by_opened [] = []
sort_by_opened (a ∷ as') = insert_by_opened a (sort_by_opened as')

abbrev pub is_unclosed : String → Alert → Bool
is_unclosed chain_id a = str_eq a.chain_id chain_id && not (is_some a.closed_at)

-- `LIMIT ? OFFSET ?`, the offset being `(page - 1) * limit`
unfoldable pub get_unclosed_alerts : String → ℕ → ℕ → Store → Result (List Alert) × Store
unfolding sort_by_opened
get_unclosed_alerts chain_id limit page s = (
  ok (
      take limit
        (drop ((page - 1) * limit) (sort_by_opened (keep (is_unclosed chain_id) s.alerts)))),
  s,
)

-- `UPDATE alerts SET … WHERE alert_id = ?`
unfoldable pub update_alert : (Alert → Alert) → String → List Alert → List Alert
update_alert f id [] = []
update_alert f id (a ∷ l) = (if str_eq a.alert_id id then f a else a) ∷ update_alert f id l

unfoldable pub close_alert : String → ℕ → Store → Result (Unit {0}) × Store
unfolding update_alert
close_alert id closed_at s = (
  ok tt,
  record s { alerts = update_alert (λ a. record a { closed_at = some closed_at }) id s.alerts },
)

unfoldable pub touch_alert_notified : String → ℕ → ℕ → Store → Result (Unit {0}) × Store
unfolding update_alert
touch_alert_notified id notified_at repeat_count s = (
  ok tt,
  record s {
    alerts =
        update_alert
          (λ a. record a { last_notified_at = some notified_at; repeat_count = repeat_count }) id
          s.alerts;
  },
)

abbrev pub starts_at : String → ℕ → ValidatorInactivity → Bool
starts_at chain_id height i = str_eq i.chain_id chain_id && i.height == height

-- `INSERT OR REPLACE INTO validator_inactivity`, by the key (chain_id, height)
unfoldable pub insert_inactivity : ValidatorInactivity → Store → Result (Unit {0}) × Store
insert_inactivity i s = (
  ok tt,
  record s {
    inactivity = keep (λ j. not (starts_at i.chain_id i.height j)) s.inactivity ++ i ∷ [];
  },
)

unfoldable pub end_rows : String → ℕ → ℕ → ℕ → List ValidatorInactivity → List ValidatorInactivity
end_rows chain_id start end_height end_time [] = []
end_rows chain_id start end_height end_time (i ∷ l) =
    (if starts_at chain_id start i
      then record i { end_height = some end_height; end_time = some end_time }
      else i)
    ∷ end_rows chain_id start end_height end_time l

unfoldable pub end_inactivity : String → ℕ → ℕ → ℕ → Store → Result (Unit {0}) × Store
unfolding end_rows
end_inactivity chain_id start end_height end_time s =
    (ok tt, record s { inactivity = end_rows chain_id start end_height end_time s.inactivity })

-- `WHERE chain_id = ? AND end_height IS NULL ORDER BY height DESC LIMIT 1`
abbrev pub is_open : String → ValidatorInactivity → Bool
is_open chain_id i = str_eq i.chain_id chain_id && not (is_some i.end_height)

abbrev pub later : Option ValidatorInactivity → ValidatorInactivity → Option ValidatorInactivity
later none i = some i
later (some j) i = some (if ltb j.height i.height then i else j)

unfoldable pub latest_open :
    String → List ValidatorInactivity → Option ValidatorInactivity → Option ValidatorInactivity
latest_open chain_id [] best = best
latest_open chain_id (i ∷ l) best =
    latest_open chain_id l (if is_open chain_id i then later best i else best)

unfoldable pub get_open_inactivity : String → Store → Result (Option ValidatorInactivity) × Store
unfolding latest_open
get_open_inactivity chain_id s = (ok (latest_open chain_id s.inactivity none), s)
