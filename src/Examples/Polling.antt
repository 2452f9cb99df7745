-- ===== src/Examples/Polling.antt =====
-- A poll of the example's chain, and the theorems on polling at it.
use cosmad.Prelude.{
  ◌⊎◌, ℕ, true, false, ◌≡◌, refl, none, some, [], ◌∷◌, ltb, arith, map, length, if◌then◌else◌,
}
use cosmad.Outcome.{Response, Result}
use cosmad.Database.Contiguous.{IsContiguous}
use cosmad.Database.Scoped.{chain_scoped}
use cosmad.Worker.Cycle.{do_poll}
use cosmad.Worker.Collect.{collect_blocks}
use cosmad.Worker.Collect.Contiguous.{
  heights, count_up, collect_blocks-contiguous, Climbs, collect_blocks-Climbs, collect_blocks-tip,
  collect_blocks_complete,
}
use cosmad.Tables.{Block, ValidatorInactivity}
use cosmad.Alert.Types.{ValidatorStatus}
use cosmad.Database.Store.{latest_open}
use cosmad.Worker.Types.{ValidatorData}
use cosmad.Worker.Commit.{ActiveFallbackCache, is_active, commit_to_block}
use cosmad.Worker.Commit.Memo.{resolve_all, resolve_all_exact, resolve_all_down}
use cosmad.Worker.Inactivity.{record_inactivity}
use cosmad.Worker.Inactivity.Sync.{open_rows, record_inactivity-sync}
use cosmad.Worker.Commit.Consistent.{commit_to_block-total, IsConsistent, has}
use cosmad.Worker.Poll.Contiguous.{do_poll-IsContiguous}
use cosmad.Examples.World.{plain, hub, hub_nodes, at_rest, held, bonded, jailed, commit_at, tip_at}

do_poll-IsContiguous_example :
    IsContiguous "hub-1"
      (do_poll plain
        (chain_scoped "hub-1")
        hub
        hub_nodes
        none
        none
        100000
        (λ n. "n")
        (λ n. "e")
        (some "AB")
        100
        none
        at_rest).1.store
do_poll-IsContiguous_example =
    do_poll-IsContiguous plain hub hub_nodes none none 100000 (λ n. "n") (λ n. "e") (some "AB") 100
      none at_rest refl (λ a z. (refl, (refl, tt))) (4, 2, refl)

abbrev fresh_cache : ActiveFallbackCache
fresh_cache = record { value = none; currently_active = some true }

collect_blocks-contiguous_example :
    let blocks =
      collect_blocks plain
        (λ h. Response.ok bonded)
        hub
        (some "AB")
        none
        (Response.ok (commit_at 6) ∷ Response.fail none ∷ Response.ok (commit_at 8) ∷ [])
        fresh_cache in
    heights blocks ≡ count_up 6 (length blocks)
collect_blocks-contiguous_example =
    collect_blocks-contiguous plain (λ h. Response.ok bonded) hub (some "AB") none 6
      (Response.ok (commit_at 6) ∷ Response.fail none ∷ Response.ok (commit_at 8) ∷ []) fresh_cache
      refl (refl, (refl, tt))

collect_blocks-Climbs_example : Climbs 6 9 (
    collect_blocks plain
      (λ h. Response.ok bonded)
      (record hub { allow_block_gaps = true })
      (some "AB")
      none
      (Response.ok (commit_at 6) ∷ Response.fail none ∷ Response.ok (commit_at 8) ∷ [])
      fresh_cache)
collect_blocks-Climbs_example =
    collect_blocks-Climbs plain (λ h. Response.ok bonded) (record hub { allow_block_gaps = true })
      (some "AB") none 6 9
      (Response.ok (commit_at 6) ∷ Response.fail none ∷ Response.ok (commit_at 8) ∷ []) fresh_cache
      (refl, (refl, tt)) (omega arith)

collect_blocks-tip_example :
    collect_blocks plain
      (λ h. Response.ok bonded)
      hub
      (some "AB")
      none
      (Response.ok (commit_at 6) ∷ Response.ok (tip_at 7) ∷ Response.ok (commit_at 8) ∷ [])
      fresh_cache
    ≡ collect_blocks plain
        (λ h. Response.ok bonded)
        hub
        (some "AB")
        none
        (Response.ok (commit_at 6) ∷ [])
        fresh_cache
collect_blocks-tip_example =
    collect_blocks-tip plain (λ h. Response.ok bonded) hub (some "AB") none
      (Response.ok (commit_at 6) ∷ []) (Response.ok (commit_at 8) ∷ []) (tip_at 7) fresh_cache refl

collect_blocks_complete_example :
    heights (
      collect_blocks plain
        (λ h. Response.ok bonded)
        hub
        (some "AB")
        none
        (Response.ok (commit_at 6) ∷ Response.ok (commit_at 7) ∷ [])
        fresh_cache)
    ≡ 6 ∷ 7 ∷ []
collect_blocks_complete_example =
    collect_blocks_complete plain (λ h. Response.ok bonded) hub (some "AB") none
      (Response.ok (commit_at 6) ∷ Response.ok (commit_at 7) ∷ []) fresh_cache (refl, (refl, tt))

commit_to_block-total_example :
    (b : Block) × ((commit_to_block plain
        (λ h. Response.ok bonded)
        hub
        (some "AB")
        none
        (commit_at 6)
        fresh_cache).0
      ≡ Result.ok b)
    × (b.height ≡ 6)
    × (b.chain_id ≡ "hub-1")
    × IsConsistent b.signed (has b.signature) b.precommitted
commit_to_block-total_example =
    commit_to_block-total plain (λ h. Response.ok bonded) hub (some "AB") none (commit_at 6)
      fresh_cache

-- Jailed from height 7 on: the lookups of the poll go up to height 7, then the answer is kept.
abbrev jailed_from_seven : ℕ → ValidatorData
jailed_from_seven h = if ltb h 7 then bonded else jailed

resolve_all_exact_example :
    resolve_all
      (λ h. Response.ok (jailed_from_seven h))
      (6 ∷ 7 ∷ 8 ∷ [])
      (record { value = none; currently_active = some false })
    ≡ map (λ h. is_active (jailed_from_seven h)) (6 ∷ 7 ∷ 8 ∷ [])
unfolding is_active
resolve_all_exact_example =
    resolve_all_exact jailed_from_seven false (6 ∷ 7 ∷ 8 ∷ [])
      ((λ e. absurd (cc (e))), ((λ e. (refl, tt)), ((λ e. tt), tt)))

resolve_all_down_example :
    resolve_all
      (λ h. Response.fail none)
      (6 ∷ 7 ∷ [])
      (record { value = none; currently_active = some false })
    ≡ false ∷ false ∷ []
resolve_all_down_example =
    resolve_all_down (λ h. Response.fail none) 6 (7 ∷ []) (some false) none refl

abbrev released : ValidatorStatus
released = record {
  height = 9;
  time = 0;
  active = false;
  jailed = false;
  permanent = false;
  bond_status = "BOND_STATUS_UNBONDED";
  jailed_until = none;
}

-- The validator left jail but not the inactive set: the ongoing period is ended, another begins.
record_inactivity-sync_example :
    let rows =
      open_rows "hub-1"
        (record_inactivity
          (chain_scoped "hub-1")
          hub
          released
          (latest_open "hub-1" held.inactivity none)
          held).inactivity in
    ((false ≡ true) × (rows ≡ []))
    ⊎ ((false ≡ false)
        × ((o : ValidatorInactivity) × (rows ≡ o ∷ [])
            × (o.jailed ≡ false)
            × (o.permanent ≡ false)))
record_inactivity-sync_example = record_inactivity-sync hub released held (omega arith)
