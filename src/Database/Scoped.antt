-- ===== src/Database/Scoped.antt =====
-- pkgs/database/duckdb/scoped.ts: `ChainScopedDb`, the store for one chain as an `IWriteDb`.
use cosmad.Prelude.{String}
use cosmad.Database.{WriteDb}
use cosmad.Database.Store
use cosmad.Database.Store.{Store}

abbrev pub chain_scoped : String → WriteDb Store
chain_scoped chain_id = record {
  latest_block_height = Store.latest_block_height chain_id;
  get_block_by_range = Store.get_block_by_range chain_id;
  get_block_stats = Store.get_block_stats chain_id;
  append_blocks = Store.insert_blocks;
  insert_blocks = Store.insert_blocks;
  get_alert = Store.get_alert;
  get_unclosed_alerts = Store.get_unclosed_alerts chain_id;
  insert_alert = Store.insert_alert;
  close_alert = Store.close_alert;
  touch_alert_notified = Store.touch_alert_notified;
  get_open_inactivity = Store.get_open_inactivity chain_id;
  insert_inactivity = Store.insert_inactivity;
  end_inactivity = Store.end_inactivity chain_id;
}
