-- ===== src/Worker/Commit/Memo.antt =====
-- The per-poll memory of `resolveActiveFallback` of dp/chain_worker.ts.
use cosmad.Prelude.{
  ℕ, String, Bool, true, false, ◌≡◌, refl, inl, inr, Option, none, some, List, [], ◌∷◌, arith,
  Bool-cases, map, All, or_else,
}
use cosmad.Outcome.{Response}
use cosmad.Worker.Types.{ValidatorData}
use cosmad.Worker.Commit.{
  ActiveFallbackCache, is_active, remember, resolve_active_fallback, same_bool,
}

-- The answers for a poll's ambiguous heights, in turn.
module _ (validator_at : ℕ → Response ValidatorData) where
  unfoldable pub resolve_all : List ℕ → ActiveFallbackCache → List Bool
  resolve_all [] cache = []
  resolve_all (h ∷ hs) cache =
      let (active, cache') = resolve_active_fallback validator_at h cache in
      active ∷ resolve_all hs cache'

  known_all :
      (hs : List ℕ) (b : Bool) (cur : Option Bool)
      → resolve_all hs (record { value = some b; currently_active = cur }) ≡ map (λ h. b) hs
  unfolding resolve_all resolve_active_fallback
  known_all [] b cur = refl
  known_all (h ∷ hs) b cur = rw (known_all hs b cur)

  -- With the lookup failing at the first ambiguous height, every ambiguous height of the poll
  -- takes the last known status, and active if there is none.
  pub resolve_all_down :
      (h : ℕ) (hs : List ℕ) (cur : Option Bool) (e : Option String)
      → validator_at h ≡ Response.fail e
      → resolve_all (h ∷ hs) (record { value = none; currently_active = cur })
        ≡ map (λ k. or_else cur true) (h ∷ hs)
  unfolding resolve_all resolve_active_fallback
  resolve_all_down h hs cur e down =
      rw (down, remember) (unfold remember in rw (known_all hs (or_else cur true) cur))

same_bool-eq : (a b : Bool) → same_bool a b ≡ true → b ≡ a
same_bool-eq true b e = e
same_bool-eq false true e = cc
same_bool-eq false false e = refl

module _ (data_at : ℕ → ValidatorData) (current : Bool) where
  -- From the first of the heights on at which the status is the current one, it stays so.
  abbrev pub Settles : List ℕ → Type 0
  Settles [] = Unit
  Settles (h ∷ hs) =
      (is_active (data_at h) ≡ current → All (λ k. is_active (data_at k) ≡ current) hs) × Settles hs

  constant_map :
      (hs : List ℕ)
      → All (λ k. is_active (data_at k) ≡ current) hs
      → map (λ h. current) hs ≡ map (λ h. is_active (data_at h)) hs
  constant_map [] h = refl
  constant_map (k ∷ hs) h = ground (arith, constant_map hs h.1, h.0)

  -- Where lookups succeed and the current status is known, remembering an answer does not change
  -- the answers of a poll: each height gets the status at that height, if from the first height on
  -- at which the status is the current one it stays so.
  pub resolve_all_exact :
      (hs : List ℕ)
      → Settles hs
      → resolve_all
          (λ h. Response.ok (data_at h))
          hs
          (record { value = none; currently_active = some current })
        ≡ map (λ h. is_active (data_at h)) hs
  unfolding resolve_all resolve_active_fallback remember
  resolve_all_exact [] s = refl
  resolve_all_exact (h ∷ hs) s = elim (Bool-cases (same_bool current (is_active (data_at h)))) [
    | inl e ↦
        let same = same_bool-eq current (is_active (data_at h)) e in
        rw (e, known_all (λ k. Response.ok (data_at k)) hs (is_active (data_at h)) (some current))
          (rw same (rw (constant_map hs (s.0 same))))
    | inr e ↦ rw e (rw (resolve_all_exact hs s.1))
  ]
