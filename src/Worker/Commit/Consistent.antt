-- ===== src/Worker/Commit/Consistent.antt =====
-- dp/chain_worker.ts: what the blocks of `commitToBlock` look like.
use cosmad.Prelude.{
  ℕ, String, Bool, true, false, ◌≡◌, ◌≢◌, refl, ◌⊎◌, inl, inr, Option, none, some, List, arith,
  Option-cases, Option,
}
use cosmad.Prelude.Int.{ℤ, pos, negsuc}
use cosmad.Outcome.{Result, Response}
use cosmad.Platform.{Platform}
use cosmad.Tables.{Block, BlockOptions, text, new_block, built, signature_fn}
use cosmad.Worker.Types.{
  ChainConfig, Vote, Votes, signatures, precommits, no_votes, Commit, ValidatorData, signer_address,
  chain_type,
}
use cosmad.Worker.Commit.{
  ActiveFallbackCache, find_vote, read_vote, read_absence, read_votes, commit_to_block,
}

-- The tri-state value with what goes along with it.
pub record IsConsistent (signed : ℤ) (has_signature : Bool) (precommitted : Option Bool)
    : Type 0 where
  pub tri_state : (signed ≡ negsuc 0) ⊎ ((signed ≡ pos 0) ⊎ (signed ≡ pos 1))
  pub signature_of_signed : has_signature ≡ true → signed ≡ pos 1
  pub precommit_signs : precommitted ≡ some true → signed ≡ pos 1
  pub vote_is_active : precommitted ≢ none → signed ≢ negsuc 0

abbrev pub has {ℓ} : {A : Type ℓ} → Option A → Bool
has none = false
has (some a) = true

read_vote-IsConsistent :
    (v : Vote)
    → IsConsistent (read_vote v).signed (has (read_vote v).signature) (read_vote v).precommitted
unfolding read_vote
read_vote-IsConsistent v = ground arith

new_block_ok :
    (p : Platform) (o : BlockOptions)
    → (o.signed ≡ negsuc 0) ⊎ ((o.signed ≡ pos 0) ⊎ (o.signed ≡ pos 1))
    → new_block p o ≡ Result.ok (built p o o.signed)
unfolding new_block
new_block_ok p o (inl e) = rw e
new_block_ok p o (inr (inl e)) = rw e
new_block_ok p o (inr (inr e)) = rw e

fits_signature :
    (p : Platform) (n : ℤ) (signature : Option String) (precommitted : Option Bool)
    → IsConsistent n (has signature) precommitted
    → IsConsistent n
        (has (signature_fn p (elim signature [ none ↦ none | some t ↦ some (text t) ])))
        precommitted
unfolding signature_fn
fits_signature p n none precommitted h = h
fits_signature p n (some t) precommitted h = h

unsigned-IsConsistent : IsConsistent (pos 0) false none
unsigned-IsConsistent = ground arith

module _ (p : Platform) (validator_at : ℕ → Response ValidatorData) (chain : ChainConfig)
    (valcons_hex : Option String) (active_set_hex : Option (List String)) where
  read_absence-IsConsistent :
      (height : ℕ) (cache : ActiveFallbackCache)
      → let r = (read_absence p validator_at chain valcons_hex active_set_hex height cache).0 in
        IsConsistent r.signed (has r.signature) r.precommitted
  unfolding read_absence
  read_absence-IsConsistent height cache = ground arith

  read_votes-IsConsistent :
      (height : ℕ) (votes : Votes) (cache : ActiveFallbackCache)
      → let r = (read_votes p validator_at chain valcons_hex active_set_hex height votes cache).0 in
        IsConsistent r.signed (has r.signature) r.precommitted
  unfolding read_votes
  read_votes-IsConsistent height (signatures vs) cache =
      elim (Option-cases (find_vote valcons_hex vs)) [
        | inl e ↦ rw (e, read_votes) (read_absence-IsConsistent height cache)
        | inr (v, e) ↦ rw (e, read_votes) (read_vote-IsConsistent v)
      ]
  read_votes-IsConsistent height (precommits vs) cache =
      elim (Option-cases (find_vote (some (signer_address chain)) vs)) [
        | inl e ↦ rw (e, read_votes) (unsigned-IsConsistent)
        | inr (v, e) ↦ rw (e, read_votes) (read_vote-IsConsistent v)
      ]
  read_votes-IsConsistent height no_votes cache = unsigned-IsConsistent

  -- Every commit becomes a block, whatever the votes, the cache and the nodes answer: the
  -- constructor's check of `signed` never throws. The block has the commit's height and the
  -- chain's identifier; a signature or a precommit goes with `signed` 1 alone, and a vote of
  -- either kind rules out -1.
  pub commit_to_block-total :
      (c : Commit) (cache : ActiveFallbackCache)
      → (b : Block) × ((commit_to_block p validator_at chain valcons_hex active_set_hex c cache).0
          ≡ Result.ok b)
        × (b.height ≡ c.height)
        × (b.chain_id ≡ chain.chain_id)
        × IsConsistent b.signed (has b.signature) b.precommitted
  unfolding commit_to_block
  commit_to_block-total c cache =
      let r =
        (read_votes p validator_at chain valcons_hex active_set_hex c.height c.votes cache).0 in
      let o : BlockOptions = record {
        chain_id = chain.chain_id;
        height = c.height;
        hash = text c.hash;
        time = p.of_iso c.time;
        signed = r.signed;
        signature = elim r.signature [ none ↦ none | some t ↦ some (text t) ];
        precommitted = r.precommitted;
        chain_type = chain_type chain;
      } in
      let fits = read_votes-IsConsistent c.height c.votes cache in
      (
        built p o r.signed,
        new_block_ok p o fits.tri_state,
        unfold built in refl,
        unfold built in refl,
        unfold built in fits_signature p r.signed r.signature r.precommitted fits,
      )
