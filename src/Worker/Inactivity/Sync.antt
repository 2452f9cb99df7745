-- ===== src/Worker/Inactivity/Sync.antt =====
-- dp/chain_worker.ts: `recordInactivity` over the store, and the periods that go on.
use cosmad.Prelude.{
  ℕ, ◌≤◌, String, true, false, ◌≡◌, refl, ap, ◌⊎◌, inl, inr, Option, none, some, List, [], ◌∷◌,
  ◌++◌, arith, Bool-cases, length, if◌then◌else◌, not, keep, eq_refl,
}
use cosmad.Tables.{ValidatorInactivity}
use cosmad.Alert.Types.{ValidatorStatus}
use cosmad.Database.Store.{
  Store, is_open, starts_at, end_rows, latest_open, insert_inactivity, end_inactivity,
}
use cosmad.Database.Scoped.{chain_scoped}
use cosmad.Worker.Types.{ChainConfig}
use cosmad.Worker.Inactivity.{record_inactivity, same_reason, new_period}

-- The periods of a chain that go on.
abbrev pub open_rows : String → List ValidatorInactivity → List ValidatorInactivity
open_rows c = keep (is_open c)

abbrev listed : Option ValidatorInactivity → List ValidatorInactivity
listed none = []
listed (some o) = o ∷ []

-- The read finds the one open row.
latest_open-none :
    (c : String) (l : List ValidatorInactivity) (best : Option ValidatorInactivity)
    → open_rows c l ≡ []
    → latest_open c l best ≡ best
unfolding latest_open
latest_open-none c [] best h = refl
latest_open-none c (i ∷ l) best h = ground (arith, latest_open-none c l best)

latest_open-listed :
    (c : String) (l : List ValidatorInactivity)
    → length (open_rows c l) ≤ 1
    → open_rows c l ≡ listed (latest_open c l none)
unfolding latest_open
latest_open-listed c [] h = refl
latest_open-listed c (i ∷ l) h = elim (Bool-cases (is_open c i)) [
  | inl e ↦
      let empty : open_rows c l ≡ [] = ground arith in
      ground (arith, latest_open-none c l (some i) empty)
  | inr e ↦ ground (arith, latest_open-listed c l (ground arith))
]

open_rows-end_none :
    (c : String) (h eh et : ℕ) (l : List ValidatorInactivity)
    → open_rows c l ≡ []
    → open_rows c (end_rows c h eh et l) ≡ []
unfolding end_rows
open_rows-end_none c h eh et [] e = refl
open_rows-end_none c h eh et (i ∷ l) e = ground (arith, open_rows-end_none c h eh et l)

-- Ending the row that starts at a height leaves the open rows of other heights.
open_rows-end :
    (c : String) (o : ValidatorInactivity) (eh et : ℕ) (l : List ValidatorInactivity)
    → open_rows c l ≡ o ∷ []
    → open_rows c (end_rows c o.height eh et l) ≡ []
unfolding end_rows
open_rows-end c o eh et [] h = cc
open_rows-end c o eh et (i ∷ l) h = elim (Bool-cases (is_open c i)) [
  | inl e ↦
      let empty : open_rows c l ≡ [] = ground arith in
      let same : i ≡ o = ground arith in
      let height = ap (λ (x : ValidatorInactivity). x.height) same in
      ground (arith, open_rows-end_none c o.height eh et l empty)
  | inr e ↦
      let rest : open_rows c l ≡ o ∷ [] = ground arith in
      ground (arith, open_rows-end c o eh et l rest)
]

open_rows-replace :
    (c : String) (p : ValidatorInactivity) (l : List ValidatorInactivity)
    → open_rows c l ≡ []
    → is_open c p ≡ true
    → open_rows c (keep (λ j. not (starts_at p.chain_id p.height j)) l ++ p ∷ []) ≡ p ∷ []
open_rows-replace c p [] e o = ground arith
open_rows-replace c p (i ∷ l) e o = ground (arith, open_rows-replace c p l)

module _ (chain : ChainConfig) where
  abbrev after : ValidatorStatus → Option ValidatorInactivity → Store → List ValidatorInactivity
  after status ongoing s =
      (record_inactivity (chain_scoped chain.chain_id) chain status ongoing s).inactivity

  new_period-open :
      (status : ValidatorStatus) → is_open chain.chain_id (new_period chain status) ≡ true
  unfolding new_period
  new_period-open status = ground (arith, eq_refl chain.chain_id)

  new_period-reason :
      (status : ValidatorStatus) → same_reason (some (new_period chain status)) status ≡ true
  unfolding new_period same_reason
  new_period-reason status = ground arith

  -- The open rows afterwards, by what was ongoing.
  open_rows-record :
      (status : ValidatorStatus) (ongoing : Option ValidatorInactivity) (s : Store)
      → open_rows chain.chain_id s.inactivity ≡ listed ongoing
      → open_rows chain.chain_id (after status ongoing s) ≡ (
          if status.active
          then []
          else if same_reason ongoing status
          then listed ongoing
          else new_period chain status ∷ [])
  unfolding record_inactivity insert_inactivity end_inactivity
  open_rows-record status none s h = ground (
    arith,
    open_rows-replace chain.chain_id (new_period chain status) s.inactivity h
        (new_period-open status),
  )
  open_rows-record status (some o) s h =
      let ended = open_rows-end chain.chain_id o status.height status.time s.inactivity h in
      ground (
        arith,
        ended,
        open_rows-replace chain.chain_id (new_period chain status)
            (end_rows chain.chain_id o.height status.height status.time s.inactivity) ended
            (new_period-open status),
      )

  same_reason-none : (status : ValidatorStatus) → same_reason none status ≡ false
  unfolding same_reason
  same_reason-none status = refl

  in_step :
      (status : ValidatorStatus) (o : Option ValidatorInactivity) {rows : List ValidatorInactivity}
      → rows ≡ (
          if status.active
          then []
          else if same_reason o status
          then listed o
          else new_period chain status ∷ [])
      → status.active ≡ false
      → (q : ValidatorInactivity) × (rows ≡ q ∷ []) × (same_reason (some q) status ≡ true)
  in_step status none e a =
      (new_period chain status, ground (arith, same_reason-none status), new_period-reason status)
  in_step status (some q) e a = elim (Bool-cases (same_reason (some q) status)) [
    | inl t ↦ (q, ground arith, t)
    | inr f ↦ (new_period chain status, ground arith, new_period-reason status)
  ]

  reason_same :
      (q : ValidatorInactivity) (status : ValidatorStatus)
      → same_reason (some q) status ≡ true
      → (q.jailed ≡ status.jailed) × (q.permanent ≡ status.permanent)
  unfolding same_reason
  reason_same q status t = ground arith

  -- From a store with at most one ongoing period of the chain, recording a status leaves no
  -- ongoing period if the validator is active, and otherwise exactly one, which says of jailed and
  -- of permanent what the status says.
  pub record_inactivity-sync :
      (status : ValidatorStatus) (s : Store)
      → length (open_rows chain.chain_id s.inactivity) ≤ 1
      → let rows =
          open_rows chain.chain_id
            (after status (latest_open chain.chain_id s.inactivity none) s) in
        ((status.active ≡ true) × (rows ≡ []))
        ⊎ ((status.active ≡ false)
            × ((o : ValidatorInactivity) × (rows ≡ o ∷ [])
                × (o.jailed ≡ status.jailed)
                × (o.permanent ≡ status.permanent)))
  record_inactivity-sync status s one =
      let o = latest_open chain.chain_id s.inactivity none in
      let e = open_rows-record status o s (latest_open-listed chain.chain_id s.inactivity one) in
      elim (Bool-cases status.active) [
        | inl a ↦ inl (a, rw e (rw a))
        | inr a ↦
            let (q, is_q, t) = in_step status o e a in
            let (jailed, permanent) = reason_same q status t in
            inr (a, (q, is_q, jailed, permanent))
      ]
