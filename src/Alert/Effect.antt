-- ===== src/Alert/Effect.antt =====
-- What the events of alert/index.ts do to the set of open alerts, once dp/chain_worker.ts has
-- applied them: an abstract view, in which a closed alert leaves the set.
pub mod Picked
use cosmad.Prelude.{
  ℕ, zero, suc, ◌+◌, ◌≤◌, ◌≡◌, ◌≢◌, refl, ap, String, Bool, true, false, ◌⊎◌, inl, inr, List, [],
  ◌∷◌, ◌++◌, arith, str_eq, eq_iff, if◌then◌else◌, All, Bool-cases, Option, none, some, map,
}
use cosmad.Tables.{Alert}
use cosmad.Dict.{string_eq, get, InEntries, get-of_entries-some, get-of_entries-none}
use cosmad.Alert.Types.{AlertEvent, opened, closed, repeated}

pub remove : String → List Alert → List Alert
remove id [] = []
remove id (a ∷ l) = let rest = remove id l in if str_eq a.alert_id id then rest else a ∷ rest

unfoldable pub settle : List AlertEvent → List Alert → List Alert
settle [] l = l
settle (opened a c ∷ es) l = settle es (l ++ a ∷ [])
settle (closed a t c ∷ es) l = settle es (remove a.alert_id l)
settle (repeated a c ∷ es) l = settle es l

-- How many open alerts there are of one type.
unfoldable pub count : String → List Alert → ℕ
count t [] = 0
count t (a ∷ l) = if str_eq a.alert_type t then suc (count t l) else count t l

abbrev pub DistinctIds : List Alert → Type 0
DistinctIds [] = Unit
DistinctIds (a ∷ l) = All (λ (b : Alert). b.alert_id ≢ a.alert_id) l × DistinctIds l

-- In `l` the alert's identifier and its type pick out the same alerts.
abbrev pub PickedOut : Alert → List Alert → Type 0
PickedOut a = All λ (b : Alert).
    (b.alert_id ≡ a.alert_id → b.alert_type ≡ a.alert_type)
    × (b.alert_type ≡ a.alert_type → b.alert_id ≡ a.alert_id)

pub count-append : (t : String) (l m : List Alert) → count t (l ++ m) ≡ count t l + count t m
unfolding count
count-append t [] m = omega arith
count-append t (a ∷ l) m = ground (arith, count-append t l m)

pub count-remove :
    (t : String) (a : Alert) (l : List Alert)
    → PickedOut a l
    → count t (remove a.alert_id l) ≡ (if str_eq a.alert_type t then 0 else count t l)
unfolding count remove
count-remove t a [] h = ground arith
count-remove t a (b ∷ l) h = ground (
  arith,
  count-remove t a l h.1,
  eq_iff a.alert_type t,
  eq_iff b.alert_type t,
  eq_iff b.alert_id a.alert_id,
)

pub All-remove {κ} :
    (P : Alert → Type κ) (id : String) (l : List Alert) → All P l → All P (remove id l)
unfolding remove
All-remove P id [] h = h
All-remove P id (b ∷ l) h = elim (Bool-cases (str_eq b.alert_id id)) [
  | inl e ↦ rw e (All-remove P id l h.1)
  | inr e ↦ rw e (h.0, All-remove P id l h.1)
]
