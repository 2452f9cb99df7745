-- ===== src/Alert/Endpoints/Grace.antt =====
-- alert/index.ts: the grace period of `evaluateEndpoints` over a history of health checks.
use cosmad.Prelude.{
  ℕ, ◌+◌, ◌≤◌, String, Bool, true, false, ◌≡◌, refl, sym, subst, ◌∙◌, ◌⊎◌, inl, inr, Option, none,
  some, List, [], ◌∷◌, arith, leb, Bool-cases, Option-cases, or_else, if◌then◌else◌,
}
use cosmad.Tables.{Alert}
use cosmad.Dict.{Dict, pair_eq, get, get-set, get-delete, beq_refl}
use cosmad.Alert.Types.{EndpointCheck, AlertContext, AlertEvent, opened}
use cosmad.Alert.Endpoints.{
  Key, is_down, is_unchecked, endpoint_key, note_down, endpoint_events, check_endpoint,
}

-- One health check of the endpoint, with its time.
abbrev pub Checked : Type 0
Checked = ℕ × EndpointCheck

-- Newest first: at time t the endpoint was found down, and no check since has found it up.
abbrev pub DownFrom : ℕ → List Checked → Type 0
DownFrom t [] = ⊥
DownFrom t ((now, e) ∷ earlier) =
    ((is_down e ≡ true) × (now ≡ t))
    ⊎ (((is_down e ≡ true) ⊎ (is_unchecked e ≡ true)) × DownFrom t earlier)

-- All checks are of the endpoint with this key.
abbrev pub OfKey : Key → List Checked → Type 0
OfKey k [] = Unit
OfKey k ((now, e) ∷ earlier) = (endpoint_key e ≡ k) × OfKey k earlier

module _ (chain_id : String) (alert_after_ms : ℕ) (open_alerts : Dict Key Alert) where
  -- `endpointDownSince` after these checks, newest first, from an empty map.
  unfoldable pub remembered : List Checked → Dict Key ℕ
  remembered [] = []
  remembered ((now, e) ∷ earlier) =
      (check_endpoint chain_id now "" alert_after_ms open_alerts (remembered earlier) e).1

  noted_note :
      (b : Bool) (k : Key) (now : ℕ) (since : Dict Key ℕ)
      → get k (note_down b k now since) ≡ (if b then some (or_else (get k since) now) else none)
  unfolding note_down
  noted_note false k now since = ground (arith, get-delete k k since, beq_refl k)
  noted_note true k now since = elim (Option-cases (get k since)) [
    | inl e ↦ ground (arith, get-set k k now since, beq_refl k)
    | inr (t, e) ↦ ground (arith)
  ]

  noted :
      (now : ℕ) (e : EndpointCheck) (since : Dict Key ℕ)
      → let k = endpoint_key e in
        get k (check_endpoint chain_id now "" alert_after_ms open_alerts since e).1 ≡ (
          if is_unchecked e
          then get k since
          else if is_down e
          then some (or_else (get k since) now)
          else none)
  unfolding check_endpoint
  noted now e since = elim (Bool-cases (is_unchecked e)) [
    | inl u ↦ rw u
    | inr u ↦ rw u (noted_note (is_down e) (endpoint_key e) now since)
  ]

  -- What is remembered now was remembered before, or is from this check.
  noted_from :
      (u d : Bool) (g : Option ℕ) (now t : ℕ)
      → (if u then g else if d then some (or_else g now) else none) ≡ some t
      → ((d ≡ true) × (now ≡ t)) ⊎ (((d ≡ true) ⊎ (u ≡ true)) × (g ≡ some t))
  noted_from true d g now t h = inr (inr refl, h)
  noted_from false false g now t h = absurd cc
  noted_from false true none now t h = inl (refl, ground arith)
  noted_from false true (some s) now t h = inr (inl refl, h)

  remembered-DownFrom :
      (k : Key) (t : ℕ) (checks : List Checked)
      → OfKey k checks
      → get k (remembered checks) ≡ some t
      → DownFrom t checks
  unfolding remembered
  remembered-DownFrom k t [] own h = absurd (unfold get in cc)
  remembered-DownFrom k t ((now, e) ∷ earlier) own h =
      let found = noted now e (remembered earlier) in
      let at_k =
        subst
          (λ j.
            get j
              (check_endpoint chain_id now "" alert_after_ms open_alerts (remembered earlier) e).1
            ≡ (if is_unchecked e
                then get j (remembered earlier)
                else if is_down e
                then some (or_else (get j (remembered earlier)) now)
                else none))
          own.0 found in
      elim (noted_from (is_unchecked e) (is_down e) (get k (remembered earlier)) now t
        (sym at_k ∙ h)) [
          | inl here ↦ inl here
          | inr (why, before) ↦ inr (why, remembered-DownFrom k t earlier own.1 before)
        ]

  opens_only :
      (id : String) (now : ℕ) (e : EndpointCheck) (d : Bool) (o : Option Alert) (since : ℕ)
      → (a : Alert) (c : AlertContext)
      → endpoint_events chain_id now id alert_after_ms e d o since ≡ opened a c ∷ []
      → (d ≡ true) × (o ≡ none) × (since + alert_after_ms ≤ now)
  unfolding endpoint_events
  opens_only id now e true none since a c h = elim (Bool-cases (leb (since + alert_after_ms) now)) [
    | inl l ↦ (refl, refl, ground arith)
    | inr l ↦ absurd (ground arith)
  ]
  opens_only id now e true (some b) since a c h = absurd cc
  opens_only id now e false none since a c h = absurd cc
  opens_only id now e false (some b) since a c h = absurd cc

  checked_events :
      (id : String) (now : ℕ) (e : EndpointCheck) (rem : Dict Key ℕ) {es : List AlertEvent}
      → is_unchecked e ≡ false
      → (check_endpoint chain_id now id alert_after_ms open_alerts rem e).0 ≡ es
      → endpoint_events chain_id now id alert_after_ms e
          (is_down e)
          (get (endpoint_key e) open_alerts)
          (or_else (get (endpoint_key e) (note_down (is_down e) (endpoint_key e) now rem)) now)
        ≡ es
  unfolding check_endpoint
  checked_events id now e rem u h = rw u at h

  opened_when :
      (id : String) (now : ℕ) (e : EndpointCheck) (rem : Dict Key ℕ) (a : Alert) (c : AlertContext)
      → (check_endpoint chain_id now id alert_after_ms open_alerts rem e).0 ≡ opened a c ∷ []
      → (is_unchecked e ≡ false)
        × (is_down e ≡ true)
        × (get (endpoint_key e) open_alerts ≡ none)
        × (or_else (get (endpoint_key e) (note_down (is_down e) (endpoint_key e) now rem)) now
              + alert_after_ms
            ≤ now)
  opened_when id now e rem a c h = elim (Bool-cases (is_unchecked e)) [
    | inl u ↦ absurd (unfold check_endpoint in ground arith)
    | inr u ↦
        let (d, o, l) =
          opens_only id now e (is_down e) (get (endpoint_key e) open_alerts)
            (or_else (get (endpoint_key e) (note_down (is_down e) (endpoint_key e) now rem)) now) a
            c (checked_events id now e rem u h) in
        (u, d, o, l)
  ]

  -- An alert that is raised for an endpoint at the time `now` has behind it a check that found the
  -- endpoint down, at least the configured time ago, and no check since then, up to this one, that
  -- found it up; and none of its kind was open for it; where the evaluator remembers from its
  -- start the checks of this endpoint, in the order of time.
  pub check_endpoint-DownFrom :
      (id : String) (now : ℕ) (e : EndpointCheck) (checks : List Checked)
      → OfKey (endpoint_key e) checks
      → (a : Alert) (c : AlertContext)
      → (check_endpoint chain_id now id alert_after_ms open_alerts (remembered checks) e).0
        ≡ opened a c ∷ []
      → (is_down e ≡ true)
        × (get (endpoint_key e) open_alerts ≡ none)
        × ((t : ℕ) × DownFrom t ((now, e) ∷ checks) × (t + alert_after_ms ≤ now))
  check_endpoint-DownFrom id now e checks own a c h =
      let rem = remembered checks in
      let k = endpoint_key e in
      let (u, d, o, l) = opened_when id now e rem a c h in
      let t = or_else (get k rem) now in
      let kept : get k (remembered ((now, e) ∷ checks)) ≡ some t =
        unfold remembered in (noted now e rem ∙ ground arith) in
      let since = noted_note (is_down e) k now rem in
      (
        d,
        o,
        (t, remembered-DownFrom k t ((now, e) ∷ checks) (refl, own) kept, ground (arith, since)),
      )
