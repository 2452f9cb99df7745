-- ===== src/Runner.antt =====
-- runner.ts: the supervisor of the three processes, as it answers to what happens to them, and how
-- it deals with an engine that an earlier run left behind.
use cosmad.Prelude.{
  ℕ, zero, suc, ◌+◌, String, Bool, true, false, not, ◌&&◌, ◌||◌, Option, none, some, List, [], ◌∷◌,
  ◌++◌, ltb, ◌==◌, is_some, if◌then◌else◌, str_eq,
}
pub mod Ready
pub mod Orderly
pub mod Reap

-- How far `main` has come: it waits for one of the processes, or all are ready.
pub data Phase : Type 0 where
  starting_engine starting_ingestion starting_api running : Phase

-- How the supervisor itself ended: by `process.exit`, or by a signal that it does not handle yet.
pub data Exit : Type 0 where
  exited_with : ℕ → Exit
  killed : Exit

-- `children` are the processes that were forked, and `terminated` those that were sent SIGTERM.
-- `listening` is whether the process that is waited for has not sent its first message yet.
pub record Runner : Type 0 where
  pub phase : Phase
  pub children : List String
  pub terminated : List String
  pub listening : Bool
  pub pid_file : Bool
  pub exit : Option Exit

-- A first message that says ready or something else, the end of the time to wait, the exit of a
-- process (its code is missing when a signal ended it), and SIGINT or SIGTERM.
pub data Event : Type 0 where
  message : (name : String) (is_ready : Bool) → Event
  timed_out : (name : String) → Event
  exited : (name : String) (code : Option ℕ) (signal : Option String) → Event
  interrupted : Event

-- The first part of `main`: the engine is forked and its number written down.
abbrev pub at_start : Runner
at_start = record {
  phase = starting_engine;
  children = "engine" ∷ [];
  terminated = [];
  listening = true;
  pid_file = true;
  exit = none;
}

-- `killAll`
unfoldable pub kill_all : ℕ → Runner → Runner
kill_all code r = record r { terminated = r.children; exit = some (exited_with code) }

-- `code !== 0 || signal != null`
abbrev pub is_unexpected : Option ℕ → Option String → Bool
is_unexpected none signal = true
is_unexpected (some code) signal = not (code == 0) || is_some signal

abbrev pub awaited : Phase → String
awaited starting_engine = "engine"
awaited starting_ingestion = "ingestion"
awaited starting_api = "api"
awaited running = ""

abbrev pub is_running : Phase → Bool
is_running running = true
is_running starting_engine = false
is_running starting_ingestion = false
is_running starting_api = false

-- `spawn`, and the wait for the new process.
unfoldable pub spawn : String → Phase → Runner → Runner
spawn name phase r = record r {
  phase = phase;
  children = r.children ++ name ∷ [];
  listening = true;
}

module _ (api_enabled : Bool) where
  -- What `main` does once the process that it waits for is ready.
  unfoldable pub proceed : Phase → Runner → Runner
  unfolding spawn
  proceed starting_engine r = spawn "ingestion" starting_ingestion r
  proceed starting_ingestion r =
      if api_enabled then spawn "api" starting_api r else record r { phase = running }
  proceed starting_api r = record r { phase = running }
  proceed running r = r

  -- The handlers, while the supervisor runs.
  unfoldable pub handle : Event → Runner → Runner
  unfolding proceed kill_all
  handle (message name is_ready) r =
      if str_eq name (awaited r.phase) && r.listening
      then if is_ready then proceed r.phase r else record r { listening = false }
      else r
  handle (timed_out name) r =
      if str_eq name (awaited r.phase) && not (is_running r.phase) then kill_all 1 r else r
  handle (exited name code signal) r =
      if is_unexpected code signal
      then kill_all 1 r
      else if str_eq name "engine"
      then record r { pid_file = false }
      else r
  handle interrupted r =
      if is_running r.phase then kill_all 0 r else record r { exit = some killed }

  unfoldable pub step : Event → Runner → Runner
  unfolding handle
  step e r = if is_some r.exit then r else handle e r

  unfoldable pub run : List Event → Runner → Runner
  unfolding step
  run [] r = r
  run (e ∷ es) r = run es (step e r)
