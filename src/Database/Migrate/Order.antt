-- ===== src/Database/Migrate/Order.antt =====
-- pkgs/database/duckdb/rw_db.ts: the pending migrations, in the order in which they run.
use cosmad.Prelude.{
  ℕ, ◌<◌, ◌≤◌, ◌≡◌, ◌≢◌, refl, sym, ap, subst, ◌∙◌, true, false, List, [], ◌∷◌, ◌++◌, All, ltb, leb,
  arith, Bool-cases, inl, inr,
}
use cosmad.Database.Migrate.{Migration, newer, insert, sort, pending}

-- No two migrations have one version.
abbrev pub DistinctVersions : List Migration → Type 0
DistinctVersions [] = Unit
DistinctVersions (m ∷ ms) = All (λ (n : Migration). n.version ≢ m.version) ms × DistinctVersions ms

-- Versions that climb strictly, from above `low`.
abbrev pub Climb : ℕ → List Migration → Type 0
Climb low [] = Unit
Climb low (m ∷ ms) = (low < m.version) × Climb m.version ms

-- The version that is reached.
abbrev pub reached : ℕ → List Migration → ℕ
reached from [] = from
reached from (m ∷ ms) = reached m.version ms

newer-kept :
    (from : ℕ) (m : Migration) (ms : List Migration)
    → ltb from m.version ≡ true
    → newer from (m ∷ ms) ≡ m ∷ newer from ms
newer-kept from m ms h = ground (arith, h)

newer-dropped :
    (from : ℕ) (m : Migration) (ms : List Migration)
    → ltb from m.version ≡ false
    → newer from (m ∷ ms) ≡ newer from ms
newer-dropped from m ms h = ground (arith, h)

insert-Climb :
    (low : ℕ) (m : Migration) (ms : List Migration)
    → low < m.version
    → All (λ (n : Migration). n.version ≢ m.version) ms
    → Climb low ms
    → Climb low (insert m ms)
unfolding insert
insert-Climb low m [] h d c = (h, tt)
insert-Climb low m (n ∷ ns) h (here, rest) (first, more) =
    elim (Bool-cases (leb m.version n.version)) [
      | inl b ↦ rw (b) (h, (ground (arith, b, here), more))
      | inr b ↦ rw (b) (first, insert-Climb n.version m ns (ground (arith, b)) rest more)
    ]

module _ (P : Migration → Type 0) where
  All-insert : (m : Migration) (ms : List Migration) → P m → All P ms → All P (insert m ms)
  unfolding insert
  All-insert m [] h a = (h, tt)
  All-insert m (n ∷ ns) h a = elim (Bool-cases (leb m.version n.version)) [
    | inl b ↦ rw (b) (h, a)
    | inr b ↦ rw (b) (a.0, All-insert m ns h a.1)
  ]

  All-sort : (ms : List Migration) → All P ms → All P (sort ms)
  unfolding sort
  All-sort [] a = tt
  All-sort (m ∷ ms) a = All-insert m (sort ms) a.0 (All-sort ms a.1)

  pub All-newer : (from : ℕ) (ms : List Migration) → All P ms → All P (newer from ms)
  All-newer from [] a = tt
  All-newer from (m ∷ ms) a = elim (Bool-cases (ltb from m.version)) [
    | inl b ↦ subst (All P) (sym (newer-kept from m ms b)) (a.0, All-newer from ms a.1)
    | inr b ↦ subst (All P) (sym (newer-dropped from m ms b)) (All-newer from ms a.1)
  ]

  pub All-pending : (from : ℕ) (ms : List Migration) → All P ms → All P (pending from ms)
  unfolding pending
  All-pending from ms a = All-sort (newer from ms) (All-newer from ms a)

pub pending-Climb :
    (from : ℕ) (ms : List Migration) → DistinctVersions ms → Climb from (pending from ms)
unfolding pending sort
pending-Climb from [] d = tt
pending-Climb from (m ∷ ms) (here, rest) = elim (Bool-cases (ltb from m.version)) [
  | inl b ↦
      subst (λ ns. Climb from (sort ns)) (sym (newer-kept from m ms b))
        (insert-Climb from m (pending from ms) (ground (arith, b))
          (All-pending (λ (n : Migration). n.version ≢ m.version) from ms here)
          (pending-Climb from ms rest))
  | inr b ↦
      subst (λ ns. Climb from (sort ns)) (sym (newer-dropped from m ms b))
        (pending-Climb from ms rest)
]

newer-insert :
    (v : ℕ) (m : Migration) (ms : List Migration)
    → newer v (insert m ms)
      ≡ (elim (ltb v m.version) [ true ↦ insert m (newer v ms) | false ↦ newer v ms ])
unfolding insert
newer-insert v m [] = ground arith
newer-insert v m (n ∷ ns) = ground (arith, newer-insert v m ns)

newer-newer : (a v : ℕ) (ms : List Migration) → a ≤ v → newer v (newer a ms) ≡ newer v ms
newer-newer a v [] h = refl
newer-newer a v (m ∷ ms) h = ground (arith, newer-newer a v ms h)

newer-sort : (v : ℕ) (ms : List Migration) → newer v (sort ms) ≡ sort (newer v ms)
unfolding sort
newer-sort v [] = refl
newer-sort v (m ∷ ms) =
    let ih = newer-sort v ms in let first = newer-insert v m (sort ms) in ground (arith, ih, first)

-- What is pending at a later version is what is left of what was pending before.
pending-later : (a v : ℕ) (ms : List Migration) → a ≤ v → pending v ms ≡ newer v (pending a ms)
unfolding pending
pending-later a v ms h = sym (newer-sort v (newer a ms) ∙ ap sort (newer-newer a v ms h))

low-reached :
    (low : ℕ) (done rest : List Migration) → Climb low (done ++ rest) → low ≤ reached low done
low-reached low [] rest c = omega arith
low-reached low (m ∷ ms) rest c =
    let ih = low-reached m.version ms rest c.1 in let h = c.0 in omega (arith, ih, h)

newer-Climb : (v low : ℕ) (rest : List Migration) → v ≤ low → Climb low rest → newer v rest ≡ rest
newer-Climb v low [] h c = refl
newer-Climb v low (m ∷ ms) h c =
    let ih = newer-Climb v m.version ms (omega (arith, h, c.0)) c.1 in ground (arith, ih, h, c.0)

newer-done :
    (low : ℕ) (done rest : List Migration)
    → Climb low (done ++ rest)
    → newer (reached low done) (done ++ rest) ≡ rest
newer-done low [] rest c = newer-Climb low low rest (omega arith) c
newer-done low (m ∷ ms) rest c =
    let ih = newer-done m.version ms rest c.1 in
    let h = low-reached m.version ms rest c.1 in ground (arith, ih, h)

-- After some of the pending migrations, those that are left are the pending ones.
pub pending-rest :
    (from : ℕ) (ms done rest : List Migration)
    → DistinctVersions ms
    → pending from ms ≡ done ++ rest
    → pending (reached from done) ms ≡ rest
pending-rest from ms done rest d e =
    let climb : Climb from (done ++ rest) = subst (Climb from) e (pending-Climb from ms d) in
    pending-later from (reached from done) ms (low-reached from done rest climb)
    ∙ ap (newer (reached from done)) e
    ∙ newer-done from done rest climb
