-- ===== src/Config.antt =====
-- config/config.ts and config/config_loader.ts: loading the configuration. What a file holds after
-- TOML and the schemas is a parameter. `chain_id` is filled in by config/app_config.ts and not read
-- here; what the loader passes on unread (`cors`, `csrf` and the notifiers) is the parameter R.
pub mod Usable
pub mod Ready
use cosmad.Prelude.{
  String, ◌<>◌, Bool, true, false, not, ◌&&◌, ◌||◌, Option, none, some, List, [], ◌∷◌, map, str_eq,
  if◌then◌else◌, or_else, keep,
}
use cosmad.Outcome.{Result, ok, err}
use cosmad.Dict.{Dict, set, contains, of_entries, string_eq}
use cosmad.Worker.Types.{ChainConfig, Endpoint, Identity, bft_identity, tm2_identity}
use cosmad.Worker.Cycle.{without_slash}

-- A file: reading it or TOML throws, the schema refuses it, or it holds a value.
pub data File (A : Type 0) : Type 0 where
  unreadable refused : String → File A
  valid : A → File A

-- How a loader ends: it returns, it throws, or it has ended the process.
pub data Load (A : Type 0) : Type 0 where
  returned : Result A → Load A
  thrown : String → Load A
  exited : Load A

pub record GlobalConfig (R : Type 0) : Type 0 where
  pub serve_api : Bool
  pub serve_dashboard : Bool
  pub chain_configs : Option (Dict String ChainConfig)
  pub passed_on : R

pub record ConfigLoaderData (R : Type 0) : Type 0 where
  pub api_enabled : Bool
  pub dashboard_enabled : Bool
  pub chain_configs : Dict String ChainConfig
  pub passed_on : R

abbrev pub is_empty : {A : Type 0} → List A → Bool
is_empty [] = true
is_empty (x ∷ xs) = false

abbrev pub strip : Endpoint → Endpoint
strip e = record e { url = without_slash e.url }

abbrev pub strip_urls : ChainConfig → ChainConfig
strip_urls c = record c {
  rpc_urls = map strip c.rpc_urls;
  api_urls = elim c.api_urls [ none ↦ none | some urls ↦ some (map strip urls) ];
}

-- The configuration as it stands after the checks, or the error. A missing address is empty.
unfoldable pub validate_chain_config : String → ChainConfig → Result ChainConfig
unfolding without_slash
validate_chain_config chain_id c =
    if is_empty c.rpc_urls
    then err ("Chain config is missing rpcUrls: " <> chain_id)
    else elim c.identity [
      | bft_identity valoper valcons ↦
          if str_eq valcons ""
          then err ("Chain config is missing valconsAddress: " <> chain_id)
          else if is_empty (or_else c.api_urls [])
          then err ("Chain config is missing apiUrls (required for bft chains): " <> chain_id)
          else ok (strip_urls c)
      | tm2_identity operator signing ↦
          if str_eq signing ""
          then err ("Chain config is missing signingAddress: " <> chain_id)
          else ok (strip_urls c)
    ]

-- The loop of `validateGlobalConfig` over the chains.
unfoldable pub validate_all : Dict String ChainConfig → Result (Dict String ChainConfig)
unfolding validate_chain_config
validate_all [] = ok []
validate_all ((chain_id, c) ∷ rest) = elim (validate_chain_config chain_id c) [
  | err e ↦ err e
  | ok v ↦ elim (validate_all rest) [ err e ↦ err e | ok vs ↦ ok ((chain_id, v) ∷ vs) ]
]

-- `f.endsWith(suffix)`
unfoldable pub ends_with : String → String → Bool
ends_with suffix String.[] = str_eq suffix ""
ends_with suffix (String.◌∷◌ c s) = str_eq suffix (String.◌∷◌ c s) || ends_with suffix s

module _ {R : Type 0} where
  unfoldable pub validate_global_config : GlobalConfig R → Result (GlobalConfig R)
  unfolding validate_all
  validate_global_config g =
      if g.serve_dashboard && not g.serve_api
      then err "For dashboard to work, serveApi must be enabled"
      else elim g.chain_configs [
        | none ↦ ok g
        | some chains ↦ elim (validate_all chains) [
          | err e ↦ err e
          | ok vs ↦ ok (record g { chain_configs = some vs })
        ]
      ]

  unfoldable pub load_global_config :
      (path : String) → File (GlobalConfig R) → Load (GlobalConfig R)
  unfolding ends_with validate_global_config
  load_global_config path file =
      if ends_with ".toml" path
      then elim file [
        | unreadable e ↦ thrown e
        | refused problems ↦ returned (err ("Invalid global config: " <> problems))
        | valid g ↦ returned (validate_global_config g)
      ]
      else exited

-- The loop of `loadChainConfigs`, with `chainIdSet` and `configs`; `basename` is Node's, for the
-- suffix ".toml".
unfoldable pub load_files :
    (basename : String → String) (chain_id_set : List String) (configs : Dict String ChainConfig)
    → List (String × File ChainConfig)
    → Load (Dict String ChainConfig)
unfolding contains set validate_chain_config
load_files basename seen configs [] = returned (ok configs)
load_files basename seen configs ((name, file) ∷ files) =
    let chain_id = basename name in
    if contains chain_id seen
    then returned (err ("Duplicate chain config: " <> chain_id))
    else elim file [
      | unreadable e ↦ thrown e
      | refused problems ↦ returned (err ("Invalid chain config: " <> problems))
      | valid c ↦ elim (validate_chain_config chain_id c) [
        | err e ↦ returned (err e)
        | ok v ↦ load_files basename (chain_id ∷ seen) (set chain_id v configs) files
      ]
    ]

-- A directory that cannot be read throws. Without files the loop returns the empty map at once.
unfoldable pub load_chain_configs :
    (basename : String → String)
    → Result (List (String × File ChainConfig))
    → Load (Dict String ChainConfig)
unfolding ends_with load_files
load_chain_configs basename (err e) = thrown e
load_chain_configs basename (ok files) =
    load_files basename [] [] (keep (λ f. ends_with ".toml" f.0) files)

unfoldable pub combine_chain_configs :
    Option (Dict String ChainConfig) → Dict String ChainConfig → Dict String ChainConfig
unfolding of_entries
combine_chain_configs own files = of_entries (of_entries [] (or_else own [])) files

module _ {R : Type 0} where
  -- The branches on the two results.
  unfoldable pub combined :
      Result (GlobalConfig R) → Result (Dict String ChainConfig) → Load (ConfigLoaderData R)
  unfolding combine_chain_configs
  combined (err e) files = thrown e
  combined (ok g) (err e) = thrown e
  combined (ok g) (ok files) = returned (
      ok (record {
        api_enabled = g.serve_api;
        dashboard_enabled = g.serve_dashboard;
        chain_configs = combine_chain_configs g.chain_configs files;
        passed_on = g.passed_on;
      }))

  -- The constructor of `ConfigLoader`.
  unfoldable pub config_loader :
      Load (GlobalConfig R) → Load (Dict String ChainConfig) → Load (ConfigLoaderData R)
  unfolding combined
  config_loader exited chains = exited
  config_loader (thrown e) chains = thrown e
  config_loader (returned g) exited = exited
  config_loader (returned g) (thrown e) = thrown e
  config_loader (returned g) (returned files) = combined g files
