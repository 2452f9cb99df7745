-- ===== src/Database/Migrate/Resume.antt =====
-- pkgs/database/duckdb/rw_db.ts: where `migrate` leaves the database when a migration fails.
use cosmad.Prelude.{
  ℕ, ◌<◌, ◌≡◌, ◌⊎◌, refl, sym, ap, subst, ◌∙◌, String, Option, none, some, List, [], ◌∷◌, ◌++◌, All,
  arith, Option-cases, inl, inr, max,
}
use cosmad.Database.Migrate.{
  Migration, Connection, pending, run_all, migrate_body, migrate_one, migrate_each, migrate,
  highest, current_version,
}
use cosmad.Database.Migrate.Order.{
  DistinctVersions, Climb, reached, All-pending, pending-Climb, pending-rest,
}

-- The states inside a transaction that was begun at `s`: `plain` says which statements leave the
-- transaction open.
pub data Within {S : Type 0} (c : Connection S) (plain : String → Type 0) (s : S) : S → Type 0 where
  begun : Within c plain s (c.run "BEGIN TRANSACTION" s).1
  ran : (q : String) (t : S) → plain q → Within c plain s t → Within c plain s (c.run q t).1
  recorded : (v : ℕ) (t : S) → Within c plain s t → Within c plain s (c.insert_version v t).1
  not_committed :
      (t : S) (e : String)
      → (c.run "COMMIT" t).0 ≡ some e
      → Within c plain s t
      → Within c plain s (c.run "COMMIT" t).1

-- What DuckDB documents of transactions, and of the table of versions.
pub record IsTransactional {S : Type 0} (c : Connection S) (plain : String → Type 0) : Type 0 where
  pub begin_fails :
      (s : S) (e : String)
      → (c.run "BEGIN TRANSACTION" s).0 ≡ some e
      → (c.run "BEGIN TRANSACTION" s).1 ≡ s
  pub rollback_restores :
      (s t : S)
      → (c.run "BEGIN TRANSACTION" s).0 ≡ none
      → Within c plain s t
      → (c.run "ROLLBACK" t).1 ≡ s
  pub begin_keeps : (s : S) → c.versions (c.run "BEGIN TRANSACTION" s).1 ≡ c.versions s
  pub plain_keeps : (q : String) (s : S) → plain q → c.versions (c.run q s).1 ≡ c.versions s
  pub insert_adds :
      (v : ℕ) (s : S)
      → (c.insert_version v s).0 ≡ none
      → highest (c.versions (c.insert_version v s).1) ≡ max v (highest (c.versions s))
  pub commit_keeps :
      (s : S) → (c.run "COMMIT" s).0 ≡ none → c.versions (c.run "COMMIT" s).1 ≡ c.versions s

module _ {S : Type 0} (c : Connection S) where
  -- The state once a migration has committed.
  abbrev committed : Migration → S → Option String × S
  committed m s = migrate_body c m (c.run "BEGIN TRANSACTION" s).1

  -- Each of these migrations committed in turn, from the first state to the second.
  abbrev pub Applied : List Migration → S → S → Type 0
  Applied [] s t = s ≡ t
  Applied (m ∷ ms) s t = ((committed m s).0 ≡ none) × Applied ms (committed m s).1 t

-- A migration of statements that leave the transaction open.
abbrev pub Plain : (String → Type 0) → Migration → Type 0
Plain plain m = All plain m.sql

module _ {S : Type 0} (c : Connection S) (plain : String → Type 0) (law : IsTransactional c plain)
    (number : ℕ → String) where
  run_all-Within :
      (qs : List String) (s t : S)
      → All plain qs
      → Within c plain s t
      → Within c plain s (run_all c qs t).1 × (c.versions (run_all c qs t).1 ≡ c.versions t)
  unfolding run_all
  run_all-Within [] s t a w = (w, refl)
  run_all-Within (q ∷ qs) s t (first, rest) w =
      let w1 = ran q t first w in
      let k = law.plain_keeps q t first in
      elim (Option-cases (c.run q t).0) [
        | inl e ↦
            let (more, kept) = run_all-Within qs s (c.run q t).1 rest w1 in
            rw (e, run_all) (more, kept ∙ k)
        | inr (m, e) ↦ rw (e, run_all) (w1, k)
      ]

  -- One migration commits and is recorded, or leaves the database as it was.
  migrate_body-ends :
      (m : Migration) (s : S)
      → Plain plain m
      → let begun_at = (c.run "BEGIN TRANSACTION" s).1 in
        let end = migrate_body c m begun_at in
        (end.0 ≡ none → current_version c end.1 ≡ max m.version (current_version c s))
        × ((e : String) → end.0 ≡ some e → Within c plain s end.1)
  unfolding migrate_body current_version
  migrate_body-ends m s a =
      let begun_at = (c.run "BEGIN TRANSACTION" s).1 in
      let (w1, k1) = run_all-Within m.sql s begun_at a begun in
      let s1 = (run_all c m.sql begun_at).1 in
      let w2 = recorded m.version s1 w1 in
      let s2 = (c.insert_version m.version s1).1 in
      elim (Option-cases (run_all c m.sql begun_at).0) [
        | inr (e, h) ↦ rw (h, migrate_body) (λ n. absurd (ground (arith, n)), λ _ _. w1)
        | inl h ↦ elim (Option-cases (c.insert_version m.version s1).0) [
          | inr (e, h2) ↦ rw (h, h2, migrate_body) (λ n. absurd (ground (arith, n)), λ _ _. w2)
          | inl h2 ↦
              rw (h, h2, migrate_body)
                (
                  λ n.
                      ap highest (law.commit_keeps s2 n)
                      ∙ law.insert_adds m.version s1 h2
                      ∙ ap (λ vs. max m.version (highest vs)) (k1 ∙ law.begin_keeps s),
                  λ e n. not_committed s2 e n w2,
                )
        ]
      ]

  abbrev OneEnds : Migration → S → Option String × S → Type 0
  OneEnds m s end =
      ((end.0 ≡ none) × ((committed c m s).0 ≡ none) × (end.1 ≡ (committed c m s).1))
      ⊎ ((e : String) × (end.0 ≡ some e) × (end.1 ≡ s))

  migrate_one-OneEnds :
      (m : Migration) (s : S) → Plain plain m → OneEnds m s (migrate_one c number m s)
  unfolding migrate_one
  migrate_one-OneEnds m s a =
      let s1 = (c.run "BEGIN TRANSACTION" s).1 in
      let (done, failed) = migrate_body-ends m s a in
      elim (Option-cases (c.run "BEGIN TRANSACTION" s).0) [
        | inr (e, h) ↦ rw (h, migrate_one) (inr (e, refl, law.begin_fails s e h))
        | inl h ↦ elim (Option-cases (migrate_body c m s1).0) [
          | inl h2 ↦ rw (h, h2, migrate_one) (inl (refl, refl, refl))
          | inr (e, h2) ↦
              let back = law.rollback_restores s (migrate_body c m s1).1 h (failed e h2) in
              elim (Option-cases (c.run "ROLLBACK" (migrate_body c m s1).1).0) [
                | inr (e3, h3) ↦ rw (h, h2, h3, migrate_one) (inr (e3, refl, back))
                | inl h3 ↦ rw (h, h2, h3, migrate_one) (inr (_, refl, back))
              ]
        ]
      ]

  abbrev EachEnds : List Migration → S → Option String × S → Type 0
  EachEnds ms s end =
      (done rest : List Migration) × (ms ≡ done ++ rest)
      × Applied c done s end.1
      × (end.0 ≡ none → rest ≡ [])
      × (current_version c end.1 ≡ reached (current_version c s) done)

  committed-current_version :
      (m : Migration) (s : S)
      → Plain plain m
      → (committed c m s).0 ≡ none
      → current_version c s < m.version
      → current_version c (committed c m s).1 ≡ m.version
  committed-current_version m s a h l = let e = (migrate_body-ends m s a).0 h in omega (arith, e, l)

  EachEnds-cons :
      (m : Migration) (ms : List Migration) (s : S) (end : Option String × S)
      → Plain plain m
      → (committed c m s).0 ≡ none
      → current_version c s < m.version
      → EachEnds ms (committed c m s).1 end
      → EachEnds (m ∷ ms) s end
  EachEnds-cons m ms s end a h l (done, rest, split, applied, all, at) = (
    m ∷ done,
    rest,
    ap (λ ns. m ∷ ns) split,
    (h, applied),
    all,
    at ∙ ap (λ v. reached v done) (committed-current_version m s a h l),
  )

  migrate_each-EachEnds :
      (ms : List Migration) (s : S)
      → All (Plain plain) ms
      → Climb (current_version c s) ms
      → EachEnds ms s (migrate_each c number ms s)
  unfolding migrate_each
  migrate_each-EachEnds [] s a climb = ([], [], refl, refl, (λ _. refl), refl)
  migrate_each-EachEnds (m ∷ ms) s a climb = elim (migrate_one-OneEnds m s a.0) [
    | inr (e, h, back) ↦
        rw (h, migrate_each)
          (
            [],
            m ∷ ms,
            refl,
            sym back,
            (λ n. absurd (ground (arith, n))),
            ap (current_version c) back,
          )
    | inl (h, good, at) ↦
        let now = committed-current_version m s a.0 good climb.0 in
        let next = (committed c m s).1 in
        let ends = migrate_each-EachEnds ms next a.1 (subst (λ v. Climb v ms) (sym now) climb.1) in
        rw (h, at, migrate_each) (EachEnds-cons m ms s _ a.0 good climb.0 ends)
  ]

  -- However a run of the migrations ends, some first ones of those that were pending have
  -- committed, each in full, and nothing else has happened to the database: those that were
  -- pending are these, followed by those that the next start finds pending; and after a run
  -- without an error nothing is pending. It holds for migrations of different versions, whose
  -- statements leave their transaction open, over a database whose transactions and table of
  -- versions do what is documented.
  pub migrate-resumes :
      (ms : List Migration) (s : S)
      → All (Plain plain) ms
      → DistinctVersions ms
      → let end = migrate c number ms (current_version c s) s in
        (done : List Migration) × Applied c done s end.1
        × (pending (current_version c s) ms ≡ done ++ pending (current_version c end.1) ms)
        × (end.0 ≡ none → pending (current_version c end.1) ms ≡ [])
  unfolding migrate
  migrate-resumes ms s a d =
      let now = current_version c s in
      let (done, rest, split, applied, all, at) =
        migrate_each-EachEnds (pending now ms) s (All-pending (Plain plain) now ms a)
          (pending-Climb now ms d) in
      let left = ap (λ v. pending v ms) at ∙ pending-rest now ms done rest d split in
      (done, applied, split ∙ ap (λ ns. done ++ ns) (sym left), λ n. left ∙ all n)
