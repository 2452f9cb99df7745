-- ===== src/Lib.antt =====
-- The ingestion and alerting core of cosmad, a monitor of blockchain validators. A chain worker
-- (src/dp/chain_worker.ts) polls the nodes of one chain through a query operator
-- (src/query/index.ts), turns each commit into a row that says whether the validator signed,
-- stores the rows through the ingest layer (src/ingest/index.ts), and has the alert evaluator
-- (src/alert/index.ts) compare the stored window with the alerts that are open. The database
-- belongs to one engine process (src/engine/), which serves it over a Unix socket. The other files
-- name their sources by the path below src/.
--
-- Outcome, Platform, Tables: the result shapes of src/pkgs/models/result.ts and
-- src/query/response.ts; the codecs of Node as parameters, with their documented round trips as
-- the record IsLawful; the rows of src/pkgs/database/tables.ts with their constructors, a throw
-- being an error value.
--
-- Database: WriteDb and ReadDb together are `IWriteDb` of src/pkgs/database/interfaces.ts, less
-- `close`: ReadDb has the queries that no worker makes. Each operation takes the state and returns
-- its result and the next state. Rwdb is `RWDB`, and `scoped` and `scoped_reads` its view for one
-- chain (src/pkgs/database/duckdb/scoped.ts). Store and Whole say what the SQL statements of
-- src/pkgs/database/duckdb/queries/ mean over lists of rows; failures of DuckDB itself are not
-- among them, except for a key that is taken. Migrate is `initSchema` and `migrate` of
-- src/pkgs/database/duckdb/rw_db.ts over a connection that is a parameter, Mappers is
-- src/pkgs/database/duckdb/mappers.ts, and Stats the statistics of
-- src/pkgs/database/duckdb/queries/blocks.ts, where the order of the chains in the combined result
-- is left out.
--
-- Worker: Commit is `commitToBlock` with the memory of one poll, Collect the loop over the fetched
-- commits, Inactivity `resolveValidatorStatus` and `recordInactivity`, Poll `pollChain`, Cycle
-- `doPoll`, and Start `runChainWorker`: its lookups at the start, its timer and the guard against
-- overlapping polls; the work of a poll is entered where it ends. The answers of the nodes during
-- one poll are a record of functions of the height; that a node may answer the same question in
-- two ways within one poll is left out. Alert: Checks, Status and Endpoints are the checks of
-- src/alert/index.ts, Effect what their events do to the open alerts, and Notifiers is
-- src/alert/notifiers/, the network being a function of the attempt and the request. Api: Types is
-- src/api/types.ts, Overview the handler of src/api/routes/overview.ts, and Watcher is
-- src/api/watcher.ts, where each poll is given what the databases answer to it. Runner is
-- src/runner.ts, its handlers as one step on an event, and Runner.Reap what it does about the
-- engine of an earlier run; Config is src/config/config.ts and src/config/config_loader.ts. Ingest
-- is src/ingest/index.ts.
--
-- Query: Retry is `withRetry`, Range `getRangeCommits`, Valset `getValset`; Health is
-- `checkHealth` of src/query/rpc/client.ts and src/query/api/client.ts, the answers of the nodes
-- to one check being a function of the URL, Operator the state of `QueryOperator` with its health
-- checks and its choice of an endpoint, Operator.Requests the queries to one node, and
-- Operator.Flight its overlapping calls. Socket is src/engine/socket.ts over character codes, with
-- the decoder of a chunk as a parameter. Engine: Protocol is src/engine/protocol.ts, Server the
-- handlers and the role gate of src/engine/server.ts, Stats the wire shapes of the statistics,
-- Client `EngineClient` (engine_client and engine_reads) and Connection the request numbers of
-- `EngineConnection` of src/engine/client.ts.
--
-- Numbers and time: heights and times are natural numbers, times in milliseconds; a JavaScript
-- number with decimals is an exact fraction, the thresholds in seconds and blocks are natural
-- numbers, so rounding of doubles is outside of the model. One evaluation reads the clock once,
-- and generated identifiers are a function of the check that takes them. A difference of times in
-- a test is moved across the inequality, so that it cannot stop at 0.
--
-- Fuel: the loop of Socket takes the length of its text plus one, since each round takes a newline
-- off it; Range takes one round for each height, since a chunk holds at least one. The loop of
-- Valset has no bound of its own, so its fuel is a parameter and a missing result is a loop that
-- still runs.
--
-- Not modelled: the requests to the engine over all chains, the generated statements and the
-- connection pool of the database, HTTP clients and schema checks, the environment and
-- config/app_config.ts, the other routes of the HTTP API and the frontend. Logging is left out
-- everywhere. A connection of the engine is served one line at a time, though the code does not
-- wait for a line before it starts the next; JSON text is represented by the value that it stands
-- for.
pub mod Prelude
pub mod Outcome
pub mod Platform
pub mod Tables
pub mod Socket
pub mod Dict
pub mod Alert
pub mod Api
pub mod Runner
pub mod Config
pub mod Database
pub mod Ingest
pub mod Worker
pub mod Query
pub mod Engine
mod Examples
