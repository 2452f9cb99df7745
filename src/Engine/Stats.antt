-- ===== src/Engine/Stats.antt =====
-- engine/protocol.ts, engine/server.ts and engine/client.ts: the statistics to their wire shapes and
-- back.
use cosmad.Prelude.{◌≡◌, refl}
use cosmad.Api.Types.{DailyBlockStats}
use cosmad.Database.Mappers.{ChainSignatureStats}
use cosmad.Engine.Protocol.{WireChainSignatureStats, WireDay}

unfoldable pub chain_signature_stats_to_wire : ChainSignatureStats → WireChainSignatureStats
chain_signature_stats_to_wire stats = record {
  chain_id = stats.chain_id;
  percentage_signed = stats.percentage_signed;
  percentage_missed = stats.percentage_missed;
}

unfoldable pub wire_to_chain_signature_stats : WireChainSignatureStats → ChainSignatureStats
wire_to_chain_signature_stats w = record {
  chain_id = w.chain_id;
  percentage_signed = w.percentage_signed;
  percentage_missed = w.percentage_missed;
}

-- What the handler sends for a day, and what the client makes of it.
unfoldable pub day_to_wire : DailyBlockStats → WireDay
day_to_wire d = record { date = d.date; total = d.total; missed = d.missed }

unfoldable pub wire_to_day : WireDay → DailyBlockStats
wire_to_day w = record { date = w.date; total = w.total; missed = w.missed }

pub stats_back :
    (stats : ChainSignatureStats)
    → wire_to_chain_signature_stats (chain_signature_stats_to_wire stats) ≡ stats
unfolding wire_to_chain_signature_stats chain_signature_stats_to_wire
stats_back stats = refl

pub day_back : (d : DailyBlockStats) → wire_to_day (day_to_wire d) ≡ d
unfolding wire_to_day day_to_wire
day_back d = refl
