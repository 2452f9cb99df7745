-- ===== src/Worker/Collect.antt =====
-- dp/chain_worker.ts: the loop of `pollChain` that turns fetched commits into blocks.
pub mod Contiguous
use cosmad.Prelude.{ℕ, String, Bool, true, false, Option, none, some, List, [], ◌∷◌, if◌then◌else◌}
use cosmad.Outcome.{Result, Response}
use cosmad.Platform.{Platform}
use cosmad.Tables.{Block}
use cosmad.Worker.Types.{ChainConfig, Commit, ValidatorData}
use cosmad.Worker.Commit.{ActiveFallbackCache, commit_to_block}

-- `result.canonical === false`
abbrev pub is_tip : Commit → Bool
is_tip c = elim c.canonical [ some false ↦ true | _ ↦ false ]

module _ (p : Platform) (validator_at : ℕ → Response ValidatorData) (chain : ChainConfig)
    (valcons_hex : Option String) (active_set_hex : Option (List String)) where
  -- The blocks to ingest; `continue` goes on with the rest, `break` ends the list.
  unfoldable pub collect_blocks : List (Response Commit) → ActiveFallbackCache → List Block
  collect_blocks [] cache = []
  collect_blocks (Response.fail e ∷ rest) cache =
      let skipped = collect_blocks rest cache in if chain.allow_block_gaps then skipped else []
  collect_blocks (Response.ok c ∷ rest) cache =
      let (r, cache') = commit_to_block p validator_at chain valcons_hex active_set_hex c cache in
      let more = collect_blocks rest cache' in
      if is_tip c then [] else elim r [
        | Result.ok b ↦ b ∷ more
        | Result.err e ↦ if chain.allow_block_gaps then more else []
      ]
