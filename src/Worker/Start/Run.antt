-- ===== src/Worker/Start/Run.antt =====
-- dp/chain_worker.ts: a worker from its start on, over the store: one poll at a time, and no gaps.
use cosmad.Prelude.{
  ℕ, Bool, true, false, ◌≡◌, ◌⊎◌, refl, sym, subst, List, [], ◌∷◌, ◌++◌, inl, inr, All, arith,
}
use cosmad.Platform.{Platform}
use cosmad.Database.Store.{Store}
use cosmad.Database.Scoped.{chain_scoped}
use cosmad.Database.Contiguous.{IsContiguous}
use cosmad.Alert.Types.{AlertEvent}
use cosmad.Worker.Types.{ChainConfig}
use cosmad.Worker.Collect.Contiguous.{Answers}
use cosmad.Worker.Cycle.{Cycle}
use cosmad.Worker.Poll.Contiguous.{do_poll-IsContiguous}
use cosmad.Worker.Start.{Started, Tick, fired, ended, Round, Loop, tick, ticks}

-- The nodes answer a request for a height with the commit of that height, or fail.
abbrev pub Faithful : Round → Type 0
Faithful r = (a z : ℕ) → Answers a (r.nodes.range_commits a z)

-- They do so in each poll.
abbrev pub AnswersAll : List Tick → Type 0
AnswersAll [] = Unit
AnswersAll (ended ∷ ts) = AnswersAll ts
AnswersAll (fired r ∷ ts) = Faithful r × AnswersAll ts

-- No poll runs and the flag is down, or one runs and it is up.
abbrev pub Alone : Bool → List Round → Type 0
Alone polling under_way =
    ((polling ≡ false) × (under_way ≡ []))
    ⊎ ((polling ≡ true) × ((r : Round) × (under_way ≡ r ∷ [])))

-- The same of a loop, with stored heights that are free of gaps.
abbrev Sound : ChainConfig → Loop Store → Type 0
Sound chain l =
    Alone l.polling l.under_way
    × All Faithful l.under_way
    × IsContiguous chain.chain_id l.cycle.store

module _ (p : Platform) (chain : ChainConfig) (s : Started)
    (gaps : chain.allow_block_gaps ≡ false) where
  abbrev ticked : Tick → Loop Store → Loop Store
  ticked = tick p (chain_scoped chain.chain_id) chain s

  fired-Sound :
      (r : Round) (l : Loop Store) → Faithful r → Sound chain l → Sound chain (ticked (fired r) l)
  unfolding tick
  fired-Sound r l answers (inl (b, none_runs), f, k) =
      let one : l.under_way ++ r ∷ [] ≡ r ∷ [] = rw none_runs refl in
      rw (b) (inr (refl, (r, one)), subst (All Faithful) (sym one) (answers, tt), k)
  fired-Sound r l answers (inr (b, one), f, k) = rw (b) (inr (refl, one), f, k)

  ended-Sound :
      (polling : Bool) (under_way : List Round) (cycle : Cycle Store) (sent : List AlertEvent)
      → Sound chain
          (record { polling = polling; under_way = under_way; cycle = cycle; sent = sent })
      → Sound chain (
          ticked ended
            (record { polling = polling; under_way = under_way; cycle = cycle; sent = sent }))
  unfolding tick
  ended-Sound polling [] cycle sent h = h
  ended-Sound polling (r ∷ rs) cycle sent (inl (b, e), f, k) = absurd (ground (arith, e))
  ended-Sound polling (r ∷ rs) cycle sent (inr (b, (q, e)), (answers, others), k) = (
    inl (refl, ground (arith, e)),
    others,
    do_poll-IsContiguous p chain r.nodes r.rpc_health r.api_health r.now r.ids r.endpoint_ids
        s.valcons_hex s.signing_window_size s.active_set_hex cycle gaps answers k,
  )

  ticks-Sound :
      (ts : List Tick) (l : Loop Store)
      → AnswersAll ts
      → Sound chain l
      → Sound chain (ticks p (chain_scoped chain.chain_id) chain s ts l)
  unfolding ticks
  ticks-Sound [] l a h = h
  ticks-Sound (ended ∷ ts) l a h =
      ticks-Sound ts (ticked ended l) a (ended-Sound l.polling l.under_way l.cycle l.sent h)
  ticks-Sound (fired r ∷ ts) l (here, rest) h =
      ticks-Sound ts (ticked (fired r) l) rest (fired-Sound r l here h)

  -- However often and whenever the timer of a chain's worker fires, and polls come to their end,
  -- from a worker at rest: at most one poll runs at a time, which is when the flag `polling` is
  -- up; and the heights of the chain's stored blocks stay free of gaps if they were consecutive at
  -- the start, whatever the world gives to each poll, without `allowBlockGaps` and with nodes that
  -- answer a request for a height with the commit of that height, or fail.
  pub ticks-Alone :
      (ts : List Tick) (cycle : Cycle Store)
      → AnswersAll ts
      → IsContiguous chain.chain_id cycle.store
      → let l =
          ticks p
            (chain_scoped chain.chain_id)
            chain
            s
            ts
            (record { polling = false; under_way = []; cycle = cycle; sent = [] }) in
        Alone l.polling l.under_way × IsContiguous chain.chain_id l.cycle.store
  ticks-Alone ts cycle a k =
      let (alone, f, kept) =
        ticks-Sound ts (record { polling = false; under_way = []; cycle = cycle; sent = [] }) a
          (inl (refl, refl), tt, k) in
      (alone, kept)
