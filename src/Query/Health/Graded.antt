-- ===== src/Query/Health/Graded.antt =====
-- query/rpc/client.ts: which nodes `checkHealth` lists as healthy, which as unhealthy, and why.
use cosmad.Prelude.{
  ℕ, ◌+◌, ◌<◌, ◌≤◌, ◌≡◌, ◌↔◌, inl, inr, refl, sym, subst, String, ◌<>◌, Bool, true, false, not,
  ◌&&◌, ◌||◌, Option, none, some, List, [], ◌∷◌, All, ltb, eq_iff, arith, Bool-cases, Option-cases,
  max,
}
use cosmad.Outcome.{Response}
use cosmad.Platform.{Platform}
use cosmad.Dict.{Dict, get, set, has, get-set, All-set, string_eq, contains}
use cosmad.Query.Health.{
  RpcStatus, Health, Scan, scan, no_scan, put_healthy, put_unhealthy, grade, check_rpcs,
  max_height_difference,
}
use cosmad.Query.Health.Fit.{
  fit, scan_urls-misfit, scan_urls-fit, contains-append, scan_urls, scan_urls-MisfitsAre,
  scan_urls-responsive, scan_urls-bound, scan_urls-Attained, Attained,
}

-- What the second loop adds for one URL: entries of that URL are as high as `known` says.
abbrev AgreesWith : String → Option ℕ → Dict String ℕ → Type 0
AgreesWith u known = All (λ e. e.0 ≡ u → known ≡ some e.1)

abbrev near : ℕ → Option ℕ → Bool
near top none = false
near top (some k) = ltb top (k + max_height_difference)

module _ (p : Platform) (top : ℕ) (u : String) (known : Option ℕ) where
  -- The three parts of the result, for one URL, after the second loop.
  abbrev GradedAs : Health → Health → Dict String ℕ → Type 0
  GradedAs t h m =
      (contains u t.healthy ≡ (contains u h.healthy || has u m && near top known))
      × (contains u t.unhealthy ≡ (contains u h.unhealthy || has u m && not (near top known)))
      × (has u t.reasons ≡ (has u h.reasons || has u m && not (near top known)))

  grade-GradedAs :
      (m : Dict String ℕ) (h : Health) → AgreesWith u known m → GradedAs (grade p top m h) h m
  unfolding grade get put_healthy put_unhealthy
  grade-GradedAs [] h a = (ground arith, ground arith, ground arith)
  grade-GradedAs ((v, k) ∷ m) h a =
      let lagging =
        "lagging behind: at height "
        <> p.to_decimal k
        <> ", best known height "
        <> p.to_decimal top in
      elim (Bool-cases (ltb top (k + max_height_difference))) [
        | inl b ↦
            let ih = grade-GradedAs m (put_healthy v h) a.1 in
            ground (arith, ih.0, ih.1, ih.2, a.0, contains-append u v h.healthy, eq_iff v u)
        | inr b ↦
            let ih = grade-GradedAs m (put_unhealthy v lagging h) a.1 in
            ground (
              arith,
              ih.0,
              ih.1,
              ih.2,
              a.0,
              contains-append u v h.unhealthy,
              get-set v u lagging h.reasons,
              eq_iff v u,
            )
      ]

All-map {ℓ κ} :
    {A : Type ℓ} {P Q : A → Type κ} (f : (a : A) → P a → Q a) (xs : List A) → All P xs → All Q xs
All-map f [] a = tt
All-map f (x ∷ xs) a = (f x a.0, All-map f xs a.1)

module _ (number : String → ℕ) (chain_id : String) (ask : String → Response RpcStatus) where
  abbrev Recorded : String × ℕ → Type 0
  Recorded e = fit number chain_id (ask e.0) ≡ some e.1

  scan_urls-Recorded :
      (us : List String) (s : Scan)
      → All Recorded s.responsive
      → All Recorded (scan_urls number chain_id ask us s).responsive
  unfolding scan_urls scan
  scan_urls-Recorded [] s a = a
  scan_urls-Recorded (v ∷ us) s a = elim (Option-cases (fit number chain_id (ask v))) [
    | inl h ↦
        let (reason, e) = scan_urls-misfit number chain_id ask v us s h in
        subst (λ t. All Recorded t.responsive) (sym e)
          (scan_urls-Recorded us (record s { health = put_unhealthy v reason s.health }) a)
    | inr (k, h) ↦
        subst (λ t. All Recorded t.responsive) (sym (scan_urls-fit number chain_id ask v us s k h))
          (scan_urls-Recorded us
            (record s { responsive = set v k s.responsive; highest = max s.highest k })
            (All-set Recorded v k s.responsive h a))
  ]

  unfoldable best : List String → ℕ
  best urls = (scan_urls number chain_id ask urls no_scan).highest

  -- Each list and the reasons, for one URL, in terms of what its node answers.
  check_rpcs-sides :
      (p : Platform) (urls : List String) (u : String)
      → let t = check_rpcs number chain_id p ask urls in
        let is_near = near (best urls) (fit number chain_id (ask u)) in
        (contains u t.healthy ≡ (contains u urls && is_near))
        × (contains u t.unhealthy ≡ (contains u urls && not is_near))
        × (has u t.reasons ≡ (contains u urls && not is_near))
  unfolding check_rpcs best scan_urls contains get
  check_rpcs-sides p urls u =
      let s = scan_urls number chain_id ask urls no_scan in
      let recorded = scan_urls-Recorded urls no_scan tt in
      let agrees =
        All-map (λ e r same. subst (λ v. fit number chain_id (ask v) ≡ some e.1) same r)
          s.responsive recorded in
      let g =
        grade-GradedAs p s.highest u (fit number chain_id (ask u)) s.responsive s.health agrees in
      let m = scan_urls-MisfitsAre number chain_id ask u urls no_scan in
      let r = scan_urls-responsive number chain_id ask u urls no_scan in
      ground (arith, g.0, g.1, g.2, m.0, m.1, m.2, r)

  best-bound :
      (urls : List String) (v : String) (k : ℕ)
      → contains v urls ≡ true
      → fit number chain_id (ask v) ≡ some k
      → k ≤ best urls
  unfolding best
  best-bound urls v k = (scan_urls-bound number chain_id ask urls no_scan).1 v k

  best-Attained : (urls : List String) → Attained number chain_id ask (best urls) 0 urls
  unfolding best
  best-Attained urls = scan_urls-Attained number chain_id ask urls no_scan

  -- A configured node that is fit, with no configured fit node `max_height_difference` ahead of it.
  abbrev pub Serves : List String → String → Type 0
  Serves urls u =
      (contains u urls ≡ true)
      × (h : ℕ) × (fit number chain_id (ask u) ≡ some h)
      × ((v : String) (k : ℕ)
          → contains v urls ≡ true
          → fit number chain_id (ask v) ≡ some k
          → k < h + max_height_difference)

  near-best :
      (urls : List String) (h : ℕ)
      → ((v : String) (k : ℕ)
          → contains v urls ≡ true
          → fit number chain_id (ask v) ≡ some k
          → k < h + max_height_difference)
      → best urls < h + max_height_difference
  near-best urls h b = elim (best-Attained urls) [
    | inl z ↦ omega (arith, z)
    | inr (v, c, f) ↦ b v (best urls) c f
  ]

  -- The check lists an RPC node as healthy exactly if it is configured, it answers, is on the
  -- chain and has caught up, and no other such configured node is `max_height_difference` or more
  -- blocks ahead of it; whatever the nodes answer, also where a URL is configured twice.
  pub check_rpcs-Serves :
      (p : Platform) (urls : List String) (u : String)
      → (contains u (check_rpcs number chain_id p ask urls).healthy ≡ true) ↔ Serves urls u
  check_rpcs-Serves p urls u =
      let s = check_rpcs-sides p urls u in
      (
        λ c. elim (Option-cases (fit number chain_id (ask u))) [
          | inl f ↦ absurd (ground (arith, s.0, c, f))
          | inr (h, f) ↦ (
            ground (arith, s.0, c),
            h,
            f,
            λ v k cv fv. ground (arith, s.0, c, f, best-bound urls v k cv fv),
          )
        ],
        λ (c, h, f, b). ground (arith, s.0, c, f, near-best urls h b),
      )

  pub check_rpcs-partition :
      (p : Platform) (urls : List String) (u : String)
      → contains u urls ≡ true
      → let t = check_rpcs number chain_id p ask urls in
        (contains u t.unhealthy ≡ not (contains u t.healthy))
        × (has u t.reasons ≡ contains u t.unhealthy)
  check_rpcs-partition p urls u c =
      let s = check_rpcs-sides p urls u in ground (arith, s.0, s.1, s.2, c)

  pub check_rpcs-none-fit :
      (p : Platform) (urls : List String)
      → (check_rpcs number chain_id p ask urls).healthy ≡ []
      → (v : String) → contains v urls ≡ true
      → fit number chain_id (ask v) ≡ none
  check_rpcs-none-fit p urls e v c = elim (Option-cases (fit number chain_id (ask v))) [
    | inl f ↦ f
    | inr (k, f) ↦
        let bound = best-bound urls v k c f in
        let empty : (u : String)
            → contains u (check_rpcs number chain_id p ask urls).healthy ≡ false =
          λ u. rw (e) (unfold contains in refl) in
        elim (best-Attained urls) [
          | inl z ↦ absurd (ground (arith, empty v, (check_rpcs-sides p urls v).0, c, f, bound, z))
          | inr (w, cw, fw) ↦
              absurd (ground (arith, empty w, (check_rpcs-sides p urls w).0, cw, fw))
        ]
  ]
