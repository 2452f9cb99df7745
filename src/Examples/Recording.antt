-- ===== src/Examples/Recording.antt =====
-- The theorems on rows, on the overview and on a worker's run, at small inputs.
use cosmad.Prelude.{or_else, ◌≡◌, refl, String, true, false, none, some, List, [], ◌∷◌, map}
use cosmad.Outcome.{Result}
use cosmad.Tables.{Block, Alert}
use cosmad.Dict.{Dict}
use cosmad.Database.Contiguous.{IsContiguous}
use cosmad.Database.Scoped.{chain_scoped}
use cosmad.Database.Mappers.{block_to_row, row_to_block}
use cosmad.Database.Mappers.Back.{row_to_block-block_to_row}
use cosmad.Api.Types.{DailyBlockStats}
use cosmad.Database.Stats.{get_daily_signed_stats, get_daily_signed_stats_all_chains}
use cosmad.Database.Stats.Agree.{get_daily_signed_stats_all_chains-agrees}
use cosmad.Dict.{get, string_eq}
use cosmad.Api.Overview.{ShownChain, overview}
use cosmad.Api.Overview.Combined.{sum, overview-sum}
use cosmad.Worker.Start.{Started, Round, fired, ended, ticks}
use cosmad.Worker.Start.Run.{Alone, ticks-Alone}
use cosmad.Examples.World.{plain, hub, hub_nodes, block_at, at_rest, held}

row_to_block-block_to_row_example :
    row_to_block plain (block_to_row (block_at 5)) (block_at 5).chain_type ≡ Result.ok (block_at 5)
unfolding cosmad.Tables.num_check
row_to_block-block_to_row_example = row_to_block-block_to_row plain (block_at 5) refl

abbrev shown_hub : ShownChain
shown_hub = record { chain = hub; pretty_name = "Hub"; chain_logo = none; poll_interval_ms = none }

abbrev days_of_hub : List DailyBlockStats
days_of_hub =
    record { date = "2026-01-02"; total = 10; missed = 1 }
    ∷ record { date = "2026-01-01"; total = 7; missed = 0 }
    ∷ []

abbrev other_chain : ShownChain
other_chain = record shown_hub { chain = record hub { chain_id = "hub-2" } }

abbrev per_chain : Dict String (List DailyBlockStats)
per_chain =
    ("hub-1", days_of_hub)
    ∷ ("hub-2", record { date = "2026-01-02"; total = 4; missed = 4 } ∷ [])
    ∷ []

overview-sum_example :
    let shown =
      overview plain
        (λ a b. true)
        9000
        (shown_hub ∷ other_chain ∷ [])
        (some (Result.ok []))
        (some (Result.ok per_chain))
        30 in
    (shown.combined_total_blocks ≡ sum (map (λ c. c.total_blocks) shown.chains))
    × (shown.combined_missed_blocks ≡ sum (map (λ c. c.missed_blocks) shown.chains))
overview-sum_example =
    overview-sum plain (λ a b. true) 9000 (shown_hub ∷ other_chain ∷ []) (some (Result.ok []))
      (some (Result.ok per_chain)) 30

abbrev round : Round
round = record {
  now = 100000;
  ids = λ n. "n";
  endpoint_ids = λ n. "e";
  nodes = hub_nodes;
  rpc_health = none;
  api_health = none;
}

abbrev started : Started
started = record { valcons_hex = some "AB"; signing_window_size = 100; active_set_hex = none }

-- The timer fires while a poll runs.
ticks-Alone_example :
    let l =
      ticks plain
        (chain_scoped "hub-1")
        hub
        started
        (fired round ∷ fired round ∷ ended ∷ fired round ∷ [])
        (record { polling = false; under_way = []; cycle = at_rest; sent = [] }) in
    Alone l.polling l.under_way × IsContiguous "hub-1" l.cycle.store
ticks-Alone_example =
    ticks-Alone plain hub started refl (fired round ∷ fired round ∷ ended ∷ fired round ∷ [])
      at_rest
      (
        (λ a z. (refl, (refl, tt))),
        ((λ a z. (refl, (refl, tt))), ((λ a z. (refl, (refl, tt))), tt)),
      )
      (4, 2, refl)

get_daily_signed_stats_all_chains-agrees_example :
    (m : Dict String (List DailyBlockStats)) × (get_daily_signed_stats_all_chains
        (λ day. "1970-01-01")
        100000
        30
        held
      ≡ Result.ok m)
    × ((c : String)
        → get_daily_signed_stats (λ day. "1970-01-01") c 100000 30 held
          ≡ Result.ok (or_else (get c m) []))
get_daily_signed_stats_all_chains-agrees_example =
    get_daily_signed_stats_all_chains-agrees (λ day. "1970-01-01") 100000 30 held
