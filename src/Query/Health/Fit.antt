-- ===== src/Query/Health/Fit.antt =====
-- Which nodes the health checks of query/rpc/client.ts and query/api/client.ts find healthy.
use cosmad.Prelude.{
  ℕ, ◌≤◌, ◌≡◌, ◌⊎◌, inl, inr, refl, ap, sym, subst, String, Bool, true, not, ◌&&◌, ◌||◌, Option,
  none, some, List, [], ◌∷◌, ◌++◌, map, ltb, str_eq, eq_iff, eq_refl, if◌then◌else◌, is_some, arith,
  Bool-cases, Option-cases, max,
}
use cosmad.Outcome.{Response, ok, fail}
use cosmad.Dict.{get, set, has, get-set, string_eq, contains}
use cosmad.Query.Health.{RpcStatus, Scan, put_unhealthy, scan_one, wrong_network, scan}

or_true : (b : Bool) → (b || true) ≡ true
or_true b = ground arith

pub contains-append :
    (u y : String) (xs : List String) → contains u (xs ++ y ∷ []) ≡ (contains u xs || str_eq y u)
unfolding contains
contains-append u y [] = ground arith
contains-append u y (x ∷ xs) = ground (arith, contains-append u y xs)

module _ (number : String → ℕ) (chain_id : String) where
  -- The height of a node that answers, is on the chain and has caught up.
  unfoldable pub fit : Response RpcStatus → Option ℕ
  fit (fail error) = none
  fit (ok status) =
      if str_eq chain_id status.network && not status.catching_up
      then some (number status.latest_block_height)
      else none

  scan_one-misfit :
      (url : String) (a : Response RpcStatus) (s : Scan)
      → fit a ≡ none
      → (reason : String) × (scan_one number chain_id url a s
          ≡ record s { health = put_unhealthy url reason s.health })
  unfolding fit scan_one
  scan_one-misfit url (fail e) s h = (_, refl)
  scan_one-misfit url (ok status) s h = (
    if not (str_eq chain_id status.network)
        then wrong_network status.network chain_id
        else "node is catching up",
    ground arith,
  )

  scan_one-fit :
      (url : String) (a : Response RpcStatus) (s : Scan) (k : ℕ)
      → fit a ≡ some k
      → scan_one number chain_id url a s
        ≡ record s { responsive = set url k s.responsive; highest = max s.highest k }
  unfolding fit scan_one
  scan_one-fit url (fail e) s k h = absurd (ground arith)
  scan_one-fit url (ok status) s k h = ground arith

  module _ (ask : String → Response RpcStatus) where
    abbrev pub is_fit : String → Bool
    is_fit u = is_some (fit (ask u))

    unfoldable pub scan_urls : List String → Scan → Scan
    scan_urls us s = scan number chain_id (map (λ url. (url, ask url)) us) s

    pub scan_urls-misfit :
        (v : String) (us : List String) (s : Scan)
        → fit (ask v) ≡ none
        → (reason : String) × (scan_urls (v ∷ us) s
            ≡ scan_urls us (record s { health = put_unhealthy v reason s.health }))
    unfolding scan_urls scan
    scan_urls-misfit v us s h =
        let (reason, e) = scan_one-misfit v (ask v) s h in (reason, ap (scan_urls us) e)

    pub scan_urls-fit :
        (v : String) (us : List String) (s : Scan) (k : ℕ)
        → fit (ask v) ≡ some k
        → scan_urls (v ∷ us) s
          ≡ scan_urls us (record s { responsive = set v k s.responsive; highest = max s.highest k })
    unfolding scan_urls scan
    scan_urls-fit v us s k h = ap (scan_urls us) (scan_one-fit v (ask v) s k h)

    -- What the first loop turns away.
    abbrev pub MisfitsAre : Scan → Scan → List String → String → Type 0
    MisfitsAre t s us u =
        (contains u t.health.healthy ≡ contains u s.health.healthy)
        × (contains u t.health.unhealthy
            ≡ (contains u s.health.unhealthy || contains u us && not (is_fit u)))
        × (has u t.health.reasons ≡ (has u s.health.reasons || contains u us && not (is_fit u)))

    pub scan_urls-MisfitsAre :
        (u : String) (us : List String) (s : Scan) → MisfitsAre (scan_urls us s) s us u
    unfolding contains put_unhealthy scan_urls scan
    scan_urls-MisfitsAre u [] s = (refl, ground arith, ground arith)
    scan_urls-MisfitsAre u (v ∷ us) s = elim (Option-cases (fit (ask v))) [
      | inl h ↦
          let (reason, e) = scan_urls-misfit v us s h in
          let ih =
            scan_urls-MisfitsAre u us (record s { health = put_unhealthy v reason s.health }) in
          ground (
            arith,
            e,
            ih.0,
            ih.1,
            ih.2,
            contains-append u v s.health.unhealthy,
            get-set v u reason s.health.reasons,
            eq_iff v u,
          )
      | inr (k, h) ↦
          let e = scan_urls-fit v us s k h in
          let ih =
            scan_urls-MisfitsAre u us
              (record s { responsive = set v k s.responsive; highest = max s.highest k }) in
          ground (arith, e, ih.0, ih.1, ih.2, eq_iff v u)
    ]

    -- The heights of the others.
    pub scan_urls-responsive :
        (u : String) (us : List String) (s : Scan)
        → get u (scan_urls us s).responsive
          ≡ (if contains u us && is_fit u then fit (ask u) else get u s.responsive)
    unfolding contains scan_urls scan
    scan_urls-responsive u [] s = refl
    scan_urls-responsive u (v ∷ us) s = elim (Option-cases (fit (ask v))) [
      | inl h ↦
          let (reason, e) = scan_urls-misfit v us s h in
          let ih =
            scan_urls-responsive u us (record s { health = put_unhealthy v reason s.health }) in
          ground (arith, e, ih, eq_iff v u)
      | inr (k, h) ↦
          let e = scan_urls-fit v us s k h in
          let ih =
            scan_urls-responsive u us
              (record s { responsive = set v k s.responsive; highest = max s.highest k }) in
          ground (arith, e, ih, eq_iff v u, get-set v u k s.responsive)
    ]

    -- The highest of them: it bounds each, and is one of them or what the loop started from.
    abbrev pub Attained : ℕ → ℕ → List String → Type 0
    Attained top start us =
        (top ≡ start) ⊎ ((u : String) × (contains u us ≡ true) × (fit (ask u) ≡ some top))

    Attained-cons :
        (top start : ℕ) (v : String) (us : List String)
        → Attained top start us
        → Attained top start (v ∷ us)
    unfolding contains
    Attained-cons top start v us (inl e) = inl e
    Attained-cons top start v us (inr (u, c, f)) = inr (u, rw (c, or_true (str_eq v u)), f)

    Attained-fit :
        (top start j : ℕ) (v : String) (us : List String)
        → fit (ask v) ≡ some j
        → Attained top (max start j) us
        → Attained top start (v ∷ us)
    unfolding contains
    Attained-fit top start j v us h (inl e) = elim (Bool-cases (ltb start j)) [
      | inl b ↦ let t : top ≡ j = ground (arith, e, b) in inr (v, rw (eq_refl v), rw (h, t))
      | inr b ↦ inl (ground (arith, e, b))
    ]
    Attained-fit top start j v us h (inr (u, c, f)) = inr (u, rw (c, or_true (str_eq v u)), f)

    pub scan_urls-bound :
        (us : List String) (s : Scan)
        → (s.highest ≤ (scan_urls us s).highest)
          × ((u : String) (k : ℕ)
              → contains u us ≡ true
              → fit (ask u) ≡ some k
              → k ≤ (scan_urls us s).highest)
    unfolding contains scan_urls scan
    scan_urls-bound [] s = (omega arith, λ u k c f. absurd (ground arith))
    scan_urls-bound (v ∷ us) s = elim (Option-cases (fit (ask v))) [
      | inl h ↦
          let (reason, e) = scan_urls-misfit v us s h in
          let (low, high) =
            scan_urls-bound us (record s { health = put_unhealthy v reason s.health }) in
          (ground (arith, e, low), λ u k c f. ground (arith, e, high u k, eq_iff v u))
      | inr (j, h) ↦
          let e = scan_urls-fit v us s j h in
          let (low, high) =
            scan_urls-bound us
              (record s { responsive = set v j s.responsive; highest = max s.highest j }) in
          (ground (arith, e, low), λ u k c f. ground (arith, e, low, high u k, eq_iff v u))
    ]

    pub scan_urls-Attained :
        (us : List String) (s : Scan) → Attained (scan_urls us s).highest s.highest us
    unfolding contains scan_urls scan
    scan_urls-Attained [] s = inl refl
    scan_urls-Attained (v ∷ us) s = elim (Option-cases (fit (ask v))) [
      | inl h ↦
          let (reason, e) = scan_urls-misfit v us s h in
          let ih = scan_urls-Attained us (record s { health = put_unhealthy v reason s.health }) in
          Attained-cons (scan_urls (v ∷ us) s).highest s.highest v us
            (subst (λ t. Attained t.highest s.highest us) (sym e) ih)
      | inr (j, h) ↦
          let e = scan_urls-fit v us s j h in
          let ih =
            scan_urls-Attained us
              (record s { responsive = set v j s.responsive; highest = max s.highest j }) in
          Attained-fit (scan_urls (v ∷ us) s).highest s.highest j v us h
            (subst (λ t. Attained t.highest (max s.highest j) us) (sym e) ih)
    ]
