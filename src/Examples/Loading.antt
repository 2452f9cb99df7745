-- ===== src/Examples/Loading.antt =====
-- The theorem on the loader of the configuration, at a directory with one chain that replaces the
-- one of the main file.
use cosmad.Prelude.{
  ◌≡◌, ◌&&◌, refl, String, Bool, true, false, not, some, List, [], ◌∷◌, str_eq, if◌then◌else◌,
}
use cosmad.Outcome.{Result, ok, err}
use cosmad.Worker.Types.{ChainConfig, Endpoint}
use cosmad.Config.{
  File, valid, refused, returned, GlobalConfig, ConfigLoaderData, load_global_config,
  load_chain_configs, config_loader, validate_chain_config,
}
use cosmad.Config.Usable.{AllUsable}
use cosmad.Config.Ready.{config_loader-AllUsable}
use cosmad.Examples.World.{hub}

abbrev node : Endpoint
node = record { url = "http://a"; alert_if_down = true }

abbrev with_api : ChainConfig
with_api = record hub { api_urls = some (node ∷ []) }

-- As the file has it, with a slash.
abbrev written : ChainConfig
written = record hub {
  rpc_urls = record { url = "http://a/"; alert_if_down = true } ∷ [];
  api_urls = some (node ∷ []);
}

abbrev main_file : File (GlobalConfig Bool)
main_file = valid (record {
  serve_api = true;
  serve_dashboard = true;
  chain_configs = some (("hub-1", with_api) ∷ []);
  passed_on = false;
})

abbrev name_of : String → String
name_of file = if str_eq file "hub-1.toml" then "hub-1" else file

abbrev directory : Result (List (String × File ChainConfig))
directory = ok (("README", refused "") ∷ ("hub-1.toml", valid written) ∷ [])

abbrev loaded : ConfigLoaderData Bool
loaded = record {
  api_enabled = true;
  dashboard_enabled = true;
  chain_configs = ("hub-1", with_api) ∷ [];
  passed_on = false;
}

loads :
    config_loader
      (load_global_config "config.toml" main_file)
      (load_chain_configs name_of directory)
    ≡ returned (ok loaded)
unfolding config_loader load_global_config load_chain_configs
loads = refl

no_api :
    validate_chain_config "hub-1" hub
    ≡ err "Chain config is missing apiUrls (required for bft chains): hub-1"
unfolding validate_chain_config
no_api = refl

config_loader-AllUsable_example :
    AllUsable loaded.chain_configs × ((loaded.dashboard_enabled && not loaded.api_enabled) ≡ false)
config_loader-AllUsable_example =
    config_loader-AllUsable "config.toml" main_file name_of directory loaded loads
