-- ===== src/Query/Valset.antt =====
-- query/index.ts: `getValset`, which reads the validator set page by page.
use cosmad.Prelude.{
  ℕ, zero, suc, ◌≡◌, ◌≢◌, refl, String, Option, none, some, List, ◌++◌, str_eq, eq_iff, or_else,
  arith, ◌∙◌, if◌then◌else◌,
}
use cosmad.Outcome.{Response, ok, fail}

pub record ValSet : Type 0 where
  pub validators : List String
  pub next_key : Option String  -- pagination.nextKey

-- `validatorSet` after one page: the first page itself, or its validators with this page's added.
abbrev pub add_page : Option ValSet → ValSet → ValSet
add_page none page = page
add_page (some set) page = record set { validators = set.validators ++ page.validators }

-- `fetch key` is the retried request for one page. The loop has no bound: `none` is a loop that has
-- not returned after so many rounds.
module _ (fetch : String → Response ValSet) where
  unfoldable pub valset_loop : ℕ → String → Option ValSet → Option (Response ValSet)
  valset_loop zero key acc = none
  valset_loop (suc fuel) key acc = elim (fetch key) [
    | fail e ↦ some (fail e)
    | ok page ↦
        let set = add_page acc page in
        let next = or_else set.next_key "" in
        let rest = valset_loop fuel next (some set) in
        if str_eq next "" then some (ok set) else rest
  ]

  unfoldable pub get_valset : ℕ → Option (Response ValSet)
  get_valset fuel = valset_loop fuel "" none

  asks_again :
      (fuel : ℕ) (k : String) (set page : ValSet)
      → set.next_key ≡ some k
      → k ≢ ""
      → fetch k ≡ ok page
      → valset_loop (suc fuel) k (some set)
        ≡ valset_loop fuel k (some (record set { validators = set.validators ++ page.validators }))
  unfolding valset_loop
  asks_again fuel k set page e ne f = ground (arith, eq_iff k "")

  stuck :
      (fuel : ℕ) (k : String) (set page : ValSet)
      → set.next_key ≡ some k
      → k ≢ ""
      → fetch k ≡ ok page
      → valset_loop fuel k (some set) ≡ none
  stuck zero k set page e ne f = unfold valset_loop in refl
  stuck (suc fuel) k set page e ne f =
      asks_again fuel k set page e ne f
      ∙ stuck fuel k (record set { validators = set.validators ++ page.validators }) page e ne f

  asks_first :
      (fuel : ℕ) (k : String) (first : ValSet)
      → fetch "" ≡ ok first
      → first.next_key ≡ some k
      → k ≢ ""
      → valset_loop (suc fuel) "" none ≡ valset_loop fuel k (some first)
  unfolding valset_loop
  asks_first fuel k first a e ne = ground (arith, eq_iff k "")

  -- When the first page of the validator set names a further page, by a key that is not the empty
  -- string, and the node answers the request for that page, the loop never returns: after no
  -- number of rounds is there a result, whatever the further page says.
  pub get_valset-never_returns :
      (fuel : ℕ) (k : String) (first page : ValSet)
      → fetch "" ≡ ok first
      → first.next_key ≡ some k
      → k ≢ ""
      → fetch k ≡ ok page
      → get_valset fuel ≡ none
  unfolding get_valset
  get_valset-never_returns zero k first page a e ne f = unfold valset_loop in refl
  get_valset-never_returns (suc fuel) k first page a e ne f =
      asks_first fuel k first a e ne ∙ stuck fuel k first page e ne f

  -- A first page that is the last is the whole result, after one round.
  pub get_valset-one_page :
      (fuel : ℕ) (first : ValSet)
      → fetch "" ≡ ok first
      → or_else first.next_key "" ≡ ""
      → get_valset (suc fuel) ≡ some (ok first)
  unfolding get_valset valset_loop
  get_valset-one_page fuel first a e = ground (arith, eq_iff (or_else first.next_key "") "")
