-- ===== src/Examples/Migrating.antt =====
-- The theorem on migrations, with a small database that has transactions.
use cosmad.Prelude.{
  ℕ, ◌≡◌, ◌≢◌, ◌⊎◌, refl, sym, ap, ◌∙◌, String, Option, none, some, List, [], ◌∷◌, ◌++◌, arith,
  str_eq, inl, inr, if◌then◌else◌,
}
use cosmad.Database.Migrate.{Migration, Connection, pending, migrate, highest, current_version}
use cosmad.Database.Migrate.Resume.{
  Within, begun, ran, recorded, not_committed, IsTransactional, Applied, migrate-resumes,
}

-- The versions that are stored, and those to go back to while a transaction is open.
record Versions : Type 0 where
  now : List ℕ
  saved : Option (List ℕ)

begin : Versions → Option String × Versions
begin s = elim s.saved [
  | none ↦ (none, record s { saved = some s.now })
  | some v ↦ (some "a transaction is open", s)
]

commit : Versions → Option String × Versions
commit s = elim s.saved [
  | none ↦ (some "no transaction is open", s)
  | some v ↦ (none, record s { saved = none })
]

rollback : Versions → Option String × Versions
rollback s = elim s.saved [
  | none ↦ (some "no transaction is open", s)
  | some v ↦ (none, record { now = v; saved = none })
]

run : String → Versions → Option String × Versions
run q s =
    if str_eq q "BEGIN TRANSACTION"
    then begin s
    else if str_eq q "COMMIT"
    then commit s
    else if str_eq q "ROLLBACK"
    then rollback s
    else if str_eq q "BAD"
    then (some "syntax error", s)
    else (none, s)

abbrev small : Connection Versions
small = record {
  run = run;
  insert_version = λ v s. (none, record s { now = v ∷ s.now });
  versions = λ s. s.now;
  table_names = λ s. "blocks" ∷ [];
}

abbrev Simple : String → Type 0
Simple q = (q ≡ "ALTER") ⊎ (q ≡ "BAD")

Simple-run : (q : String) (s : Versions) → Simple q → (run q s).1 ≡ s
unfolding run
Simple-run q s (inl e) = rw (e) refl
Simple-run q s (inr e) = rw (e) refl

commit_fails : (s t : Versions) (e : String) → t.saved ≡ some s.now → (commit t).0 ≢ some e
unfolding commit
commit_fails s t e h f = absurd (ground (arith, h, f))

Within-saved :
    (s t : Versions) → (begin s).0 ≡ none → Within small Simple s t → t.saved ≡ some s.now
unfolding run begin
Within-saved s t h begun = ground (arith, h)
Within-saved s t h (ran q u p w) = ap (λ x. x.saved) (Simple-run q u p) ∙ Within-saved s u h w
Within-saved s t h (recorded v u w) = Within-saved s u h w
Within-saved s t h (not_committed u e f w) = absurd (commit_fails s u e (Within-saved s u h w) f)

begin-back : (s : Versions) (e : String) → (begin s).0 ≡ some e → (begin s).1 ≡ s
unfolding begin
begin-back s e h = ground (arith, h)

begin-now : (s : Versions) → (begin s).1.now ≡ s.now
unfolding begin
begin-now s = ground arith

commit-now : (s : Versions) → (commit s).1.now ≡ s.now
unfolding commit
commit-now s = ground arith

rollback-back : (s t : Versions) → (begin s).0 ≡ none → t.saved ≡ some s.now → (rollback t).1 ≡ s
unfolding begin rollback
rollback-back s t h e =
    let free : s.saved ≡ none = ground (arith, h) in
    rw (e, rollback) (ap (λ v. record s { saved = v }) (sym free))

small-IsTransactional : IsTransactional small Simple
unfolding run highest
small-IsTransactional = record {
  begin_fails = begin-back;
  rollback_restores = λ s t h w. rollback-back s t h (Within-saved s t h w);
  begin_keeps = begin-now;
  plain_keeps = λ q s p. ap (λ x. x.now) (Simple-run q s p);
  insert_adds = λ v s h. refl;
  commit_keeps = λ s h. commit-now s;
}

-- Out of order, and the second in order fails.
abbrev two : List Migration
two =
    record { version = 2; sql = "ALTER" ∷ "BAD" ∷ [] }
    ∷ record { version = 1; sql = "ALTER" ∷ [] }
    ∷ []

abbrev old : Versions
old = record { now = 0 ∷ []; saved = none }

stops_at_one : (migrate small (λ n. "2") two 0 old).1 ≡ record { now = 1 ∷ 0 ∷ []; saved = none }
unfolding migrate run begin rollback commit
stops_at_one = refl

migrate-resumes_example :
    let end = migrate small (λ n. "2") two (current_version small old) old in
    (done : List Migration) × Applied small done old end.1
    × (pending (current_version small old) two ≡ done ++ pending (current_version small end.1) two)
    × (end.0 ≡ none → pending (current_version small end.1) two ≡ [])
migrate-resumes_example =
    migrate-resumes small Simple small-IsTransactional (λ n. "2") two old
      ((inl refl, (inr refl, tt)), ((inl refl, tt), tt))
      (((λ e. absurd (omega (arith, e))), tt), (tt, tt))
