-- ===== src/Database/Stats/Agree.antt =====
-- pkgs/database/duckdb/queries/blocks.ts: the statistics of all chains and those of each.
use mathlib.Core.List.{append-nil, append_assoc}
use cosmad.Prelude.{
  ℕ, ◌≡◌, refl, sym, ap, subst, ◌∙◌, String, true, false, ◌||◌, some, List, [], ◌∷◌, ◌++◌, map,
  arith, leb, str_eq, eq_iff, keep, or_else, if◌then◌else◌, Bool-cases, inl, inr,
}
use cosmad.Outcome.{ok}
use cosmad.Tables.{Block}
use cosmad.Dict.{Dict, get, set, get-set, contains, string_eq}
use cosmad.Api.Types.{DailyBlockStats}
use cosmad.Database.Store.{Store}
use cosmad.Database.Mappers.{DayRow, row_to_daily_block_stats}
use cosmad.Database.Stats.{
  is_recent, day_rows, chains_of, chain_rows, by_chain, get_daily_signed_stats,
  get_daily_signed_stats_all_chains, days_cutoff,
}

-- The rows of one chain.
rows_of : String → List (String × DayRow) → List DayRow
rows_of c [] = []
rows_of c ((d, r) ∷ rows) = let rest = rows_of c rows in if str_eq d c then r ∷ rest else rest

module _ (c : String) where
  rows_of-append :
      (xs ys : List (String × DayRow)) → rows_of c (xs ++ ys) ≡ rows_of c xs ++ rows_of c ys
  unfolding rows_of
  rows_of-append [] ys = refl
  rows_of-append ((d, r) ∷ xs) ys = let ih = rows_of-append xs ys in ground (arith, ih)

  rows_of_chain :
      (d : String) (rs : List DayRow)
      → rows_of c (map (λ r. (d, r)) rs) ≡ (if str_eq d c then rs else [])
  unfolding rows_of
  rows_of_chain d [] = ground arith
  rows_of_chain d (r ∷ rs) = let ih = rows_of_chain d rs in ground (arith, ih)

  -- Each chain once.
  abbrev Once : List String → Type 0
  Once [] = Unit
  Once (d ∷ ds) = (contains d ds ≡ false) × Once ds

  rows_of-chain_rows :
      (ds : List String) (cutoff : ℕ) (bs : List Block)
      → Once ds
      → rows_of c (chain_rows ds cutoff bs)
        ≡ (if contains c ds then day_rows (keep (is_recent c cutoff) bs) else [])
  unfolding chain_rows contains rows_of
  rows_of-chain_rows [] cutoff bs o = refl
  rows_of-chain_rows (d ∷ ds) cutoff bs (fresh, o) =
      let ih = rows_of-chain_rows ds cutoff bs o in
      let mine : List (String × DayRow) =
        map (λ r. (d, r)) (day_rows (keep (is_recent d cutoff) bs)) in
      let first = rows_of-append mine (chain_rows ds cutoff bs) in
      let here = rows_of_chain d (day_rows (keep (is_recent d cutoff) bs)) in
      let both : List DayRow =
        if str_eq d c || contains c ds then day_rows (keep (is_recent c cutoff) bs) else [] in
      elim (Bool-cases (str_eq d c)) [
        | inl b ↦
            let e = (eq_iff d c).0 b in
            let end : day_rows (keep (is_recent c cutoff) bs) ≡ both = rw (b) refl in
            let missing : contains c ds ≡ false = subst (λ x. contains x ds ≡ false) e fresh in
            let theirs : rows_of c mine ≡ day_rows (keep (is_recent c cutoff) bs) =
              here ∙ rw (b) (ap (λ x. day_rows (keep (is_recent x cutoff) bs)) e) in
            let no_more : rows_of c (chain_rows ds cutoff bs) ≡ [] = ih ∙ rw (missing) refl in
            let split = first ∙ ap (λ rs. rs ++ rows_of c (chain_rows ds cutoff bs)) theirs in
            split
            ∙ ap (λ rs. day_rows (keep (is_recent c cutoff) bs) ++ rs) no_more
            ∙ append-nil (day_rows (keep (is_recent c cutoff) bs))
            ∙ end
        | inr b ↦
            let end : (if contains c ds then day_rows (keep (is_recent c cutoff) bs) else [])
                ≡ both =
              rw (b) refl in
            let theirs : rows_of c mine ≡ [] = here ∙ rw (b) refl in
            let split = first ∙ ap (λ rs. rs ++ rows_of c (chain_rows ds cutoff bs)) theirs in
            split ∙ ih ∙ end
      ]

  chains_of-known :
      (b : Block) (bs : List Block)
      → contains b.chain_id (chains_of bs) ≡ true
      → chains_of (b ∷ bs) ≡ chains_of bs
  unfolding chains_of
  chains_of-known b bs e = ground (arith, e)

  chains_of-new :
      (b : Block) (bs : List Block)
      → contains b.chain_id (chains_of bs) ≡ false
      → chains_of (b ∷ bs) ≡ b.chain_id ∷ chains_of bs
  unfolding chains_of
  chains_of-new b bs e = ground (arith, e)

  Once-chains_of : (bs : List Block) → Once (chains_of bs)
  unfolding chains_of
  Once-chains_of [] = tt
  Once-chains_of (b ∷ bs) = elim (Bool-cases (contains b.chain_id (chains_of bs))) [
    | inl e ↦ subst Once (sym (chains_of-known b bs e)) (Once-chains_of bs)
    | inr e ↦ subst Once (sym (chains_of-new b bs e)) (e, Once-chains_of bs)
  ]

  missing-chains_of :
      (cutoff : ℕ) (bs : List Block)
      → contains c (chains_of (keep (λ (b : Block). leb cutoff b.time) bs)) ≡ false
      → keep (is_recent c cutoff) bs ≡ []
  unfolding chains_of contains
  missing-chains_of cutoff [] h = refl
  missing-chains_of cutoff (b ∷ bs) h =
      ground (arith, h, missing-chains_of cutoff bs, eq_iff b.chain_id c)

  module _ (date_of : ℕ → String) where
    get-by_chain :
        (rows : List (String × DayRow)) (m : Dict String (List DailyBlockStats))
        → or_else (get c (by_chain date_of rows m)) []
          ≡ or_else (get c m) [] ++ map (row_to_daily_block_stats date_of) (rows_of c rows)
    unfolding by_chain rows_of
    get-by_chain [] m = sym (append-nil (or_else (get c m) []))
    get-by_chain ((d, r) ∷ rows) m =
        let f = row_to_daily_block_stats date_of in
        let new = or_else (get d m) [] ++ f r ∷ [] in
        let k = get-set d c new m in
        let ih = get-by_chain rows (set d new m) in
        elim (Bool-cases (str_eq d c)) [
          | inl b ↦
              let e = (eq_iff d c).0 b in
              let got : get c (set d new m) ≡ some new = k ∙ rw (b) refl in
              ih
              ∙ ap (λ o. or_else o [] ++ map f (rows_of c rows)) got
              ∙ append_assoc (or_else (get d m) []) (f r ∷ []) (map f (rows_of c rows))
              ∙ ap (λ x. or_else (get x m) [] ++ f r ∷ map f (rows_of c rows)) e
              ∙ rw (b) refl
          | inr b ↦
              let got : get c (set d new m) ≡ get c m = k ∙ rw (b) refl in
              ih ∙ ap (λ o. or_else o [] ++ map f (rows_of c rows)) got ∙ rw (b) refl
        ]

module _ (date_of : ℕ → String) (now days : ℕ) (s : Store) where
  rows_of-recent :
      (c : String) (cutoff : ℕ)
      → let recent = keep (λ (b : Block). leb cutoff b.time) s.blocks in
        rows_of c (chain_rows (chains_of recent) cutoff s.blocks)
        ≡ day_rows (keep (is_recent c cutoff) s.blocks)
  unfolding day_rows
  rows_of-recent c cutoff =
      let recent = keep (λ (b : Block). leb cutoff b.time) s.blocks in
      let rows =
        rows_of-chain_rows c (chains_of recent) cutoff s.blocks (Once-chains_of c recent) in
      elim (Bool-cases (contains c (chains_of recent))) [
        | inl b ↦ rows ∙ rw (b) refl
        | inr b ↦ rows ∙ rw (b, missing-chains_of c cutoff s.blocks b) refl
      ]

  -- The daily statistics of all chains, which are read in one statement, are those of the
  -- statement for one chain: both succeed, and what the former holds for a chain, or an empty list
  -- where it holds nothing, is the answer of the latter, at the same time and for the same number
  -- of days, whatever is stored.
  pub get_daily_signed_stats_all_chains-agrees :
      (m : Dict String (List DailyBlockStats)) × (get_daily_signed_stats_all_chains date_of now days
          s
        ≡ ok m)
      × ((c : String) → get_daily_signed_stats date_of c now days s ≡ ok (or_else (get c m) []))
  unfolding get_daily_signed_stats_all_chains get_daily_signed_stats get
  get_daily_signed_stats_all_chains-agrees =
      let cutoff = days_cutoff now days in
      let recent = keep (λ (b : Block). leb cutoff b.time) s.blocks in
      let rows = chain_rows (chains_of recent) cutoff s.blocks in
      (
        by_chain date_of rows [],
        refl,
        λ c. ap ok (
            sym (
              get-by_chain c date_of rows []
              ∙ ap (map (row_to_daily_block_stats date_of)) (rows_of-recent c cutoff))),
      )
