-- ===== src/Examples/Serving.antt =====
-- The theorems on the engine's wire format, its server and its clients, at the example's store.
use cosmad.Prelude.{ℕ, String, ◌≡◌, refl, none, some, List, [], ◌∷◌, All}
use cosmad.Outcome.{ok}
use cosmad.Tables.{ChainType, bft, tm2, num_check}
use cosmad.Dict.{Dict, string_eq, get}
use cosmad.Database.Store
use cosmad.Database.Rwdb.{Rwdb, scoped, scoped_reads}
use cosmad.Database.Whole.{store_db, store_db-ReadsKeep}
use cosmad.Engine.Protocol.{Body, Value, Message, hello, request, reader, writer}
use cosmad.Engine.Protocol.Wire.{IsWireable}
use cosmad.Engine.Server.{serve, handle_line, dispatch, handle}
use cosmad.Engine.Server.Gate.{IsMeek, serve-reader}
use cosmad.Engine.Client.{engine_client, engine_reads, ask}
use cosmad.Engine.Client.Same.{
  engine_client-blocks, engine_client-get_block_by_range, engine_client-others,
}
use cosmad.Examples.World.{held, block_at, ended_at, alert_of}
use cosmad.Examples.Codecs.{lawful_codecs, lawful_codecs-IsLawful}

abbrev day_text : ℕ → String
day_text d = "1970-01-01"

abbrev store : Rwdb Store.Store
store = store_db 100000 day_text

abbrev chains : Dict String ChainType
chains = ("gno-1", tm2) ∷ ("hub-1", bft) ∷ []

chains-hub : get "hub-1" chains ≡ some bft
unfolding get
chains-hub = refl

block_at-IsWireable : (h : ℕ) → IsWireable bft (block_at h)
unfolding num_check
block_at-IsWireable h = record { of_type = refl; in_range = refl }

-- A request before the handshake, a query, and an alert that is to be closed.
abbrev readers_lines : List Message
readers_lines =
    request 1 (Body.latest_block_height "hub-1")
    ∷ hello (some reader)
    ∷ request 2 (Body.latest_block_height "hub-1")
    ∷ request 3 (Body.close_alert "hub-1" "a1" "o")
    ∷ []

readers_lines-IsMeek : All IsMeek readers_lines
readers_lines-IsMeek = (tt, (refl, (tt, (tt, tt))))

serve-reader_example : (serve lawful_codecs store chains readers_lines none held).2 ≡ held
serve-reader_example =
    serve-reader lawful_codecs store chains (store_db-ReadsKeep 100000 day_text) readers_lines held
      readers_lines-IsMeek

-- A role that is neither may write.
abbrev others_lines : List Message
others_lines = hello (some "admin") ∷ request 3 (Body.close_alert "hub-1" "a1" "o") ∷ []

neither_writes :
    (serve lawful_codecs store chains others_lines none held).0
    ≡ record { id = 3; body = ok Value.nothing } ∷ []
unfolding serve handle_line dispatch handle get Store.close_alert
neither_writes = refl

engine_client-blocks_example :
    ((engine_client lawful_codecs
          (ask lawful_codecs store chains writer 7)
          "hub-1"
          bft).append_blocks
        (block_at 6 ∷ block_at 7 ∷ [])
        held
      ≡ (scoped store "hub-1" bft).append_blocks (block_at 6 ∷ block_at 7 ∷ []) held)
    × ((engine_client lawful_codecs
            (ask lawful_codecs store chains writer 7)
            "hub-1"
            bft).insert_blocks
          (block_at 6 ∷ block_at 7 ∷ [])
          held
        ≡ (scoped store "hub-1" bft).insert_blocks (block_at 6 ∷ block_at 7 ∷ []) held)
engine_client-blocks_example =
    engine_client-blocks lawful_codecs lawful_codecs-IsLawful store chains "hub-1" bft chains-hub 7
      (block_at 6 ∷ block_at 7 ∷ []) held (block_at-IsWireable 6, (block_at-IsWireable 7, tt))

engine_client-get_block_by_range_example :
    (engine_client lawful_codecs
        (ask lawful_codecs store chains writer 7)
        "hub-1"
        bft).get_block_by_range
      4 5 held
    ≡ (scoped store "hub-1" bft).get_block_by_range 4 5 held
unfolding Store.get_block_by_range Store.sort_by_height Store.insert_by_height
engine_client-get_block_by_range_example =
    engine_client-get_block_by_range lawful_codecs lawful_codecs-IsLawful store chains "hub-1" bft
      chains-hub 7 4 5 held (block_at-IsWireable 4, (block_at-IsWireable 5, tt))

engine_client-others_example :
    let remote =
      engine_client lawful_codecs (ask lawful_codecs store chains writer 7) "hub-1" bft in
    let local = scoped store "hub-1" bft in
    let remote_reads =
      engine_reads lawful_codecs (ask lawful_codecs store chains writer 7) "hub-1" bft in
    let local_reads = scoped_reads store "hub-1" bft in
    (remote.latest_block_height held ≡ local.latest_block_height held)
    × (remote.get_block_stats 4 5 held ≡ local.get_block_stats 4 5 held)
    × (remote.get_alert "a1" held ≡ local.get_alert "a1" held)
    × (remote.get_unclosed_alerts 4 5 held ≡ local.get_unclosed_alerts 4 5 held)
    × (remote.insert_alert (alert_of "a2" "inactive") held
        ≡ local.insert_alert (alert_of "a2" "inactive") held)
    × (remote.close_alert "a1" 4 held ≡ local.close_alert "a1" 4 held)
    × (remote.touch_alert_notified "a1" 4 5 held ≡ local.touch_alert_notified "a1" 4 5 held)
    × (remote.get_open_inactivity held ≡ local.get_open_inactivity held)
    × (remote.insert_inactivity (ended_at none) held ≡ local.insert_inactivity (ended_at none) held)
    × (remote.end_inactivity 4 5 9 held ≡ local.end_inactivity 4 5 9 held)
    × (remote_reads.get_inactivity_history 5 held ≡ local_reads.get_inactivity_history 5 held)
    × (remote_reads.get_chain_signed_percentage 5 held
        ≡ local_reads.get_chain_signed_percentage 5 held)
    × (remote_reads.get_daily_signed_stats 5 held ≡ local_reads.get_daily_signed_stats 5 held)
engine_client-others_example =
    engine_client-others lawful_codecs lawful_codecs-IsLawful store chains "hub-1" bft chains-hub 7
      (alert_of "a2" "inactive") (ended_at none) "a1" 4 5 9 held
