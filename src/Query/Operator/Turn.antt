-- ===== src/Query/Operator/Turn.antt =====
-- query/index.ts: overlapping calls of `getHealthyRpc` are answered in the order of their arrival.
use mathlib.Core.List.{append-nil, append_assoc}
use cosmad.Prelude.{
  ℕ, ◌≤◌, ◌≡◌, refl, sym, ap, ◌∙◌, String, true, false, Option, List, [], ◌∷◌, ◌++◌, map, arith,
  Bool-cases, inl, inr,
}
use cosmad.Query.Operator.{Endpoints, is_due}
use cosmad.Query.Operator.Flight.{
  Flight, Event, called, ended, resume, resume_all, step, steps, at_start, callers, InOrder, served,
}

abbrev names : Flight → List ℕ
names s = map (λ a. a.0) s.answered

names_append :
    (xs ys : List (ℕ × Option String))
    → map (λ a. a.0) (xs ++ ys) ≡ map (λ a. a.0) xs ++ map (λ a. a.0) ys
names_append [] ys = refl
names_append (x ∷ xs) ys = ap (◌∷◌ x.0) (names_append xs ys)

names-resume : (c : ℕ) (s : Flight) → names (resume c s) ≡ names s ++ c ∷ []
unfolding resume
names-resume c s = names_append s.answered _

resume-rest :
    (c : ℕ) (s : Flight)
    → ((resume c s).waiting ≡ s.waiting) × ((resume c s).in_flight ≡ s.in_flight)
unfolding resume
resume-rest c s = (refl, refl)

resume_all-names : (cs : List ℕ) (s : Flight) → names (resume_all cs s) ≡ names s ++ cs
unfolding resume_all
resume_all-names [] s = sym (append-nil (names s))
resume_all-names (c ∷ cs) s =
    resume_all-names cs (resume c s)
    ∙ ap (λ ns. ns ++ cs) (names-resume c s)
    ∙ append_assoc (names s) (c ∷ []) cs

resume_all-rest :
    (cs : List ℕ) (s : Flight)
    → ((resume_all cs s).waiting ≡ s.waiting) × ((resume_all cs s).in_flight ≡ s.in_flight)
unfolding resume_all resume
resume_all-rest [] s = (refl, refl)
resume_all-rest (c ∷ cs) s = resume_all-rest cs (resume c s)

served-resume : (c : ℕ) (s : Flight) → s.waiting ≡ [] → served (resume c s) ≡ served s ++ c ∷ []
served-resume c s h =
    ap (λ w. names (resume c s) ++ w) ((resume-rest c s).0 ∙ h)
    ∙ append-nil (names (resume c s))
    ∙ names-resume c s
    ∙ ap (λ ns. ns ++ c ∷ []) (sym (append-nil (names s)) ∙ ap (λ w. names s ++ w) (sym h))

served-resume_all :
    (cs : List ℕ) (s : Flight) → s.waiting ≡ [] → served (resume_all cs s) ≡ names s ++ cs
served-resume_all cs s h =
    ap (λ w. names (resume_all cs s) ++ w) ((resume_all-rest cs s).0 ∙ h)
    ∙ append-nil (names (resume_all cs s))
    ∙ resume_all-names cs s

is_due_later :
    (interval now t : ℕ) (e : Endpoints)
    → is_due interval now e ≡ true
    → now ≤ t
    → is_due interval t e ≡ true
is_due_later interval now t e d l = ground (arith, d, l)

module _ (interval : ℕ) where
  -- Calls wait only for a check in flight, and while it is, one is due at every later time.
  abbrev Sound : ℕ → Flight → Type 0
  Sound clock s =
      (s.in_flight ≡ false → s.waiting ≡ [])
      × (s.in_flight ≡ true → (t : ℕ) → clock ≤ t → is_due interval t s.endpoints ≡ true)

  abbrev at : Event → ℕ
  at (called now caller) = now
  at (ended now health) = now

  step-Sound :
      (clock : ℕ) (e : Event) (s : Flight)
      → Sound clock s
      → clock ≤ at e
      → Sound (at e) (step interval e s)
  unfolding step resume
  step-Sound clock (called now caller) s (free, busy) l =
      elim (Bool-cases (is_due interval now s.endpoints)) [
        | inl d ↦
            rw (d) (
              λ f. absurd (ground (arith, f)),
              λ _ t m. is_due_later interval now t s.endpoints d m,
            )
        | inr d ↦ rw (d) (free, λ b. absurd (ground (arith, busy b now l, d)))
      ]
  step-Sound clock (ended now health) s (free, busy) l = elim (Bool-cases s.in_flight) [
    | inl b ↦
        let e : Endpoints = record {
          health = health;
          index = s.endpoints.index;
          last_check = now;
        } in
        let (w, f) =
          resume_all-rest s.waiting (record s { endpoints = e; in_flight = false; waiting = [] }) in
        rw (b) (λ _. w, λ t. absurd (ground (arith, f, t)))
    | inr b ↦ rw (b) (λ _. free b, λ t. absurd (ground (arith, t)))
  ]

  step-served :
      (clock : ℕ) (e : Event) (s : Flight)
      → Sound clock s
      → clock ≤ at e
      → served (step interval e s) ≡ served s ++ callers (e ∷ [])
  unfolding step
  step-served clock (called now caller) s (free, busy) l =
      elim (Bool-cases (is_due interval now s.endpoints)) [
        | inl d ↦ rw (d) (sym (append_assoc (names s) s.waiting (caller ∷ [])))
        | inr d ↦ elim (Bool-cases s.in_flight) [
          | inl b ↦ absurd (ground (arith, busy b now l, d))
          | inr b ↦ rw (d) (served-resume caller s (free b))
        ]
      ]
  step-served clock (ended now health) s (free, busy) l = elim (Bool-cases s.in_flight) [
    | inl b ↦
        let e : Endpoints = record {
          health = health;
          index = s.endpoints.index;
          last_check = now;
        } in
        let s1 : Flight = record s { endpoints = e; in_flight = false; waiting = [] } in
        rw (b) (served-resume_all s.waiting s1 refl ∙ sym (append-nil (served s)))
    | inr b ↦ rw (b) (sym (append-nil (served s)))
  ]

  callers-cons : (e : Event) (es : List Event) → callers (e ∷ es) ≡ callers (e ∷ []) ++ callers es
  callers-cons (called now caller) es = refl
  callers-cons (ended now health) es = refl

  InOrder-cons :
      (clock : ℕ) (e : Event) (es : List Event)
      → InOrder clock (e ∷ es)
      → (clock ≤ at e) × InOrder (at e) es
  InOrder-cons clock (called now caller) es h = h
  InOrder-cons clock (ended now health) es h = h

  steps-served :
      (clock : ℕ) (es : List Event) (s : Flight)
      → Sound clock s
      → InOrder clock es
      → served (steps interval es s) ≡ served s ++ callers es
  unfolding steps
  steps-served clock [] s sound h = sym (append-nil (served s))
  steps-served clock (e ∷ es) s sound h =
      let (first, rest) = InOrder-cons clock e es h in
      steps-served (at e) es (step interval e s) (step-Sound clock e s sound first) rest
      ∙ ap (λ ns. ns ++ callers es) (step-served clock e s sound first)
      ∙ append_assoc (served s) (callers (e ∷ [])) (callers es)
      ∙ ap (λ ns. served s ++ ns) (sym (callers-cons e es))

-- Overlapping calls for an endpoint, with a clock that does not go back, are each answered once or
-- still waiting, in the order in which they were made, whatever the checks find and whenever they
-- end: no call overtakes one that waits for a check.
pub steps-callers :
    (interval clock : ℕ) (es : List Event) (e : Endpoints)
    → InOrder clock es
    → served (steps interval es (at_start e)) ≡ callers es
steps-callers interval clock es e h =
    steps-served interval clock es (at_start e) ((λ _. refl), λ t. absurd (ground (arith, t))) h
