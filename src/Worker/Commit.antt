-- ===== src/Worker/Commit.antt =====
-- dp/chain_worker.ts: `resolveActiveFallback` and `commitToBlock`.
pub mod Consistent
pub mod Memo
use cosmad.Prelude.{
  ℕ, zero, suc, String, Bool, true, false, not, ◌&&◌, ◌||◌, Option, none, some, List, [], ◌∷◌, ◌==◌,
  str_eq, if◌then◌else◌, or_else, find_first,
}
use cosmad.Prelude.Int.{ℤ, pos, negsuc}
use cosmad.Outcome.{Result, Response}
use cosmad.Platform.{Platform}
use cosmad.Tables.{Block, Blob, text, new_block}
use cosmad.Dict.{string_eq, contains}
use cosmad.Worker.Types.{
  ChainConfig, chain_type, signer_address, Vote, Votes, signatures, precommits, no_votes, Commit,
  ValidatorData,
}

-- `ActiveFallbackCache`
pub record ActiveFallbackCache : Type 0 where
  pub value : Option Bool
  pub currently_active : Option Bool

-- `!jailed && status === "BOND_STATUS_BONDED"`
unfoldable pub is_active : ValidatorData → Bool
is_active v = not v.jailed && str_eq v.status "BOND_STATUS_BONDED"

abbrev pub same_bool : Bool → Bool → Bool
same_bool true b = b
same_bool false b = not b

-- `cache.currentlyActive === undefined || cache.currentlyActive === active`
abbrev pub settled : Option Bool → Bool → Bool
settled none active = true
settled (some current) active = same_bool current active

-- The branches on the answer of `getValidatorData` at the commit's height.
unfoldable pub remember : ActiveFallbackCache → Response ValidatorData → Bool × ActiveFallbackCache
unfolding is_active
remember cache (Response.fail e) =
    let assumed = or_else cache.currently_active true in
    (assumed, record cache { value = some assumed })
remember cache (Response.ok v) =
    let active = is_active v in
    if settled cache.currently_active active
    then (active, record cache { value = some active })
    else (active, cache)

-- `validator_at` is `getValidatorData` of the operator's address at a height.
module _ (validator_at : ℕ → Response ValidatorData) where
  unfoldable pub resolve_active_fallback : ℕ → ActiveFallbackCache → Bool × ActiveFallbackCache
  unfolding remember
  resolve_active_fallback height cache = elim cache.value [
    | some known ↦ (known, cache)
    | none ↦ remember cache (validator_at height)
  ]

-- `votes.find((v) => v != null && v.validatorAddress === address)`
abbrev pub votes_for : Option String → Option Vote → Bool
votes_for address none = false
votes_for none (some v) = false
votes_for (some a) (some v) = str_eq v.validator_address a

unfoldable pub find_vote : Option String → List (Option Vote) → Option Vote
find_vote address votes = elim (find_first (votes_for address) votes) [ none ↦ none | some v ↦ v ]

-- The three results of reading the votes: `signed`, `signature` and `precommitted`.
pub record Reading : Type 0 where
  pub signed : ℤ
  pub signature : Option String
  pub precommitted : Option Bool

-- A vote that was found: flag 2 is a commit, 3 a nil vote.
unfoldable pub read_vote : Vote → Reading
read_vote v =
    let is_signed = v.block_flag == 2 || v.block_flag == 3 in
    record {
      signed = pos (if is_signed then 1 else 0);
      signature = if is_signed then v.signature else none;
      precommitted = some (v.block_flag == 2);
    }

abbrev pub unsigned : ℤ → Reading
unsigned n = record { signed = n; signature = none; precommitted = none }

-- `activeSetHex?.has(valconsHex ?? "")`
unfoldable pub in_active_set : Option (List String) → Option String → Bool
in_active_set none valcons_hex = false
in_active_set (some hexes) valcons_hex = contains (or_else valcons_hex "") hexes

module _ (p : Platform) (validator_at : ℕ → Response ValidatorData) (chain : ChainConfig)
    (valcons_hex : Option String) (active_set_hex : Option (List String)) where
  -- No entry among the signatures.
  unfoldable pub read_absence : ℕ → ActiveFallbackCache → Reading × ActiveFallbackCache
  unfolding in_active_set
  read_absence height cache =
      let (active, cache') = resolve_active_fallback validator_at height cache in
      if in_active_set active_set_hex valcons_hex
      then (unsigned (pos 0), cache)
      else (unsigned (if active then pos 0 else negsuc 0), cache')

  unfoldable pub read_votes : ℕ → Votes → ActiveFallbackCache → Reading × ActiveFallbackCache
  unfolding find_vote read_vote
  read_votes height (signatures vs) cache = elim (find_vote valcons_hex vs) [
    | some v ↦ (read_vote v, cache)
    | none ↦ read_absence height cache
  ]
  read_votes height (precommits vs) cache = elim (find_vote (some (signer_address chain)) vs) [
    | some v ↦ (read_vote v, cache)
    | none ↦ (unsigned (pos 0), cache)
  ]
  read_votes height no_votes cache = (unsigned (pos 0), cache)

  -- `commitToBlock`
  unfoldable pub commit_to_block : Commit → ActiveFallbackCache → Result Block × ActiveFallbackCache
  commit_to_block c cache =
      let (reading, cache') = read_votes c.height c.votes cache in
      (
        new_block p (record {
          chain_id = chain.chain_id;
          height = c.height;
          hash = text c.hash;
          time = p.of_iso c.time;
          signed = reading.signed;
          signature = elim reading.signature [ none ↦ none | some t ↦ some (text t) ];
          precommitted = reading.precommitted;
          chain_type = chain_type chain;
        }),
        cache',
      )
