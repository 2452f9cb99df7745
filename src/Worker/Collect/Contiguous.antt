-- ===== src/Worker/Collect/Contiguous.antt =====
-- dp/chain_worker.ts: the heights of the blocks that the loop of `pollChain` takes.
use cosmad.Prelude.{
  ℕ, suc, ◌≤◌, ◌<◌, ◌+◌, String, true, false, ◌≡◌, refl, sym, subst, ◌∙◌, inl, inr, Option, List,
  [], ◌∷◌, ◌++◌, arith, Bool-cases, map, All, length, if◌then◌else◌, zero,
}
use cosmad.Outcome.{Response}
use cosmad.Platform.{Platform}
use cosmad.Tables.{Block}
use cosmad.Worker.Types.{ChainConfig, Commit, ValidatorData}
use cosmad.Worker.Commit.{ActiveFallbackCache, commit_to_block}
use cosmad.Worker.Commit.Consistent.{commit_to_block-total}
use cosmad.Worker.Collect.{is_tip, collect_blocks}

-- `n, n + 1, …`, k numbers.
abbrev pub count_up : ℕ → ℕ → List ℕ
count_up n zero = []
count_up n (suc k) = n ∷ count_up (suc n) k

abbrev pub heights : List Block → List ℕ
heights = map (λ b. b.height)

-- The nodes answer a request for height n, n + 1, … with the commit of that height, or fail.
abbrev pub Answers : ℕ → List (Response Commit) → Type 0
Answers n [] = Unit
Answers n (Response.ok c ∷ rs) = (c.height ≡ n) × Answers (suc n) rs
Answers n (Response.fail e ∷ rs) = Answers (suc n) rs

-- Every request was answered, and none by the tip that is still being voted on.
abbrev pub AllSettled : List (Response Commit) → Type 0
AllSettled [] = Unit
AllSettled (Response.ok c ∷ rs) = (is_tip c ≡ false) × AllSettled rs
AllSettled (Response.fail e ∷ rs) = ⊥

abbrev pub commit_heights : List (Response Commit) → List ℕ
commit_heights [] = []
commit_heights (Response.ok c ∷ rs) = c.height ∷ commit_heights rs
commit_heights (Response.fail e ∷ rs) = commit_heights rs

-- Strictly ascending heights, from n on and below m.
abbrev pub Climbs : ℕ → ℕ → List Block → Type 0
Climbs n m [] = Unit
Climbs n m (b ∷ bs) = (n ≤ b.height) × (b.height < m) × Climbs (suc b.height) m bs

contiguous_cons :
    (b : Block) (bs : List Block) (n : ℕ)
    → b.height ≡ n
    → heights bs ≡ count_up (suc n) (length bs)
    → heights (b ∷ bs) ≡ count_up n (length (b ∷ bs))
contiguous_cons b bs n h ih = ground arith

Climbs-down : (n m : ℕ) (bs : List Block) → Climbs (suc n) m bs → Climbs n m bs
Climbs-down n m [] h = tt
Climbs-down n m (b ∷ bs) h = (omega arith, h.1, h.2)

Climbs-cons :
    (b : Block) (n m : ℕ) (bs : List Block)
    → b.height ≡ n
    → n < m
    → Climbs (suc n) m bs
    → Climbs n m (b ∷ bs)
Climbs-cons b n m bs e lt h = (omega arith, omega arith, subst (λ k. Climbs (suc k) m bs) (sym e) h)

module _ (p : Platform) (validator_at : ℕ → Response ValidatorData) (chain : ChainConfig)
    (valcons_hex : Option String) (active_set_hex : Option (List String)) where
  abbrev collected : List (Response Commit) → ActiveFallbackCache → List Block
  collected = collect_blocks p validator_at chain valcons_hex active_set_hex

  -- What the loop does with one commit: nothing at the tip, and else one block.
  collect_one :
      (c : Commit) (cache : ActiveFallbackCache)
      → (b : Block) × (cache' : ActiveFallbackCache) × (b.height ≡ c.height)
        × (b.chain_id ≡ chain.chain_id)
        × ((rs : List (Response Commit))
            → collected (Response.ok c ∷ rs) cache
              ≡ (if is_tip c then [] else b ∷ collected rs cache'))
  unfolding collect_blocks
  collect_one c cache =
      let (b, e, h, i, k) =
        commit_to_block-total p validator_at chain valcons_hex active_set_hex c cache in
      (
        b,
        (commit_to_block p validator_at chain valcons_hex active_set_hex c cache).1,
        h,
        i,
        λ rs. rw (e, collect_blocks),
      )

  Climbs-if :
      (n m : ℕ) (e : Option String) (rs : List (Response Commit))
      → (cache : ActiveFallbackCache) → Climbs n m (collected rs cache)
      → Climbs n m (collected (Response.fail e ∷ rs) cache)
  unfolding collect_blocks
  Climbs-if n m e rs cache h = elim (Bool-cases chain.allow_block_gaps) [
    | inl g ↦ rw g h
    | inr g ↦ rw g tt
  ]

  own_if :
      (e : Option String) (rs : List (Response Commit)) (cache : ActiveFallbackCache)
      → All (λ (b : Block). b.chain_id ≡ chain.chain_id) (collected rs cache)
      → All (λ (b : Block). b.chain_id ≡ chain.chain_id) (collected (Response.fail e ∷ rs) cache)
  unfolding collect_blocks
  own_if e rs cache h = elim (Bool-cases chain.allow_block_gaps) [
    | inl g ↦ rw g h
    | inr g ↦ rw g tt
  ]

  failed_same :
      (e : Option String) (rs rs' : List (Response Commit)) (cache : ActiveFallbackCache)
      → collected rs cache ≡ collected rs' cache
      → collected (Response.fail e ∷ rs) cache ≡ collected (Response.fail e ∷ rs') cache
  unfolding collect_blocks
  failed_same e rs rs' cache h = rw h

  -- Without `allowBlockGaps` the blocks that a poll takes from the nodes' answers have the heights
  -- n, n + 1, and so on with none left out, for answers that are in step with the heights from n
  -- on.
  pub collect_blocks-contiguous :
      (n : ℕ) (rs : List (Response Commit)) (cache : ActiveFallbackCache)
      → chain.allow_block_gaps ≡ false
      → Answers n rs
      → heights (collected rs cache) ≡ count_up n (length (collected rs cache))
  collect_blocks-contiguous n [] cache g a = unfold collect_blocks in refl
  collect_blocks-contiguous n (Response.fail e ∷ rs) cache g a = unfold collect_blocks in rw g
  collect_blocks-contiguous n (Response.ok c ∷ rs) cache g a =
      let (b, cache', h, i, e) = collect_one c cache in
      let ih = collect_blocks-contiguous (suc n) rs cache' g a.1 in
      elim (Bool-cases (is_tip c)) [
        | inl t ↦ rw (e rs) (rw t)
        | inr t ↦ rw (e rs) (rw t (contiguous_cons b (collected rs cache') n (h ∙ a.0) ih))
      ]

  -- With or without `allowBlockGaps` the heights of the blocks climb strictly, from n on and below
  -- every m that is at least n plus the number of answers, for answers that are in step with the
  -- heights from n on.
  pub collect_blocks-Climbs :
      (n m : ℕ) (rs : List (Response Commit)) (cache : ActiveFallbackCache)
      → Answers n rs
      → n + length rs ≤ m
      → Climbs n m (collected rs cache)
  collect_blocks-Climbs n m [] cache a k = unfold collect_blocks in tt
  collect_blocks-Climbs n m (Response.fail e ∷ rs) cache a k = Climbs-if n m e rs cache (
      Climbs-down n m (collected rs cache)
        (collect_blocks-Climbs (suc n) m rs cache a (omega arith)))
  collect_blocks-Climbs n m (Response.ok c ∷ rs) cache a k =
      let (b, cache', h, i, e) = collect_one c cache in
      let ih = collect_blocks-Climbs (suc n) m rs cache' a.1 (omega arith) in
      elim (Bool-cases (is_tip c)) [
        | inl t ↦ rw (e rs) (rw t tt)
        | inr t ↦
            rw (e rs) (rw t (Climbs-cons b n m (collected rs cache') (h ∙ a.0) (omega arith) ih))
      ]

  -- A poll takes nothing from a commit that is not canonical, nor from any answer behind it, with
  -- or without `allowBlockGaps`: the blocks are those of the answers before it alone.
  pub collect_blocks-tip :
      (before after : List (Response Commit)) (c : Commit) (cache : ActiveFallbackCache)
      → is_tip c ≡ true
      → collected (before ++ Response.ok c ∷ after) cache ≡ collected before cache
  collect_blocks-tip [] after c cache t = unfold collect_blocks in rw t
  collect_blocks-tip (Response.fail e ∷ rs) after c cache t =
      failed_same e (rs ++ Response.ok c ∷ after) rs cache (collect_blocks-tip rs after c cache t)
  collect_blocks-tip (Response.ok d ∷ rs) after c cache t =
      let (b, cache', h, i, e) = collect_one d cache in
      rw (e (rs ++ Response.ok c ∷ after), e rs) (rw (collect_blocks-tip rs after c cache' t))

  -- Every block is one of the worker's own chain.
  pub collect_blocks-own :
      (rs : List (Response Commit)) (cache : ActiveFallbackCache)
      → All (λ (b : Block). b.chain_id ≡ chain.chain_id) (collected rs cache)
  collect_blocks-own [] cache = unfold collect_blocks in tt
  collect_blocks-own (Response.fail e ∷ rs) cache = own_if e rs cache (collect_blocks-own rs cache)
  collect_blocks-own (Response.ok c ∷ rs) cache =
      let (b, cache', h, i, e) = collect_one c cache in
      let ih = collect_blocks-own rs cache' in
      elim (Bool-cases (is_tip c)) [
        | inl t ↦ rw (e rs) (rw t tt)
        | inr t ↦ rw (e rs) (rw t (i, ih))
      ]

  -- Where every request of the range is answered, and none by a commit that is not canonical, the
  -- poll takes a block from each answer, in order and with the height of its commit: nothing is
  -- left for a later poll.
  pub collect_blocks_complete :
      (rs : List (Response Commit)) (cache : ActiveFallbackCache)
      → AllSettled rs
      → heights (collected rs cache) ≡ commit_heights rs
  collect_blocks_complete [] cache a = unfold collect_blocks in refl
  collect_blocks_complete (Response.fail e ∷ rs) cache a = absurd a
  collect_blocks_complete (Response.ok c ∷ rs) cache a =
      let (b, cache', h, i, e) = collect_one c cache in
      let ih = collect_blocks_complete rs cache' a.1 in rw (e rs) (rw a.0 (rw ih (rw h)))
