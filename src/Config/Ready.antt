-- ===== src/Config/Ready.antt =====
-- The checks of the global configuration, and what a loader that starts has.
use cosmad.Prelude.{
  ◌≡◌, refl, sym, String, false, not, ◌&&◌, Option, none, some, List, [], Bool-cases, inl, inr,
  or_else, ◌<>◌, subst,
}
use cosmad.Outcome.{Result, ok, err}
use cosmad.Dict.{Dict, of_entries, string_eq}
use cosmad.Worker.Types.{ChainConfig}
use cosmad.Config.{
  File, unreadable, refused, valid, Load, returned, thrown, exited, GlobalConfig, ConfigLoaderData,
  validate_all, validate_global_config, load_global_config, load_chain_configs, config_loader,
  ends_with,
}
use cosmad.Config.Usable.{
  AllUsable, Holds, Yields, validate_all-AllUsable, load_chain_configs-AllUsable,
  of_entries-AllUsable,
}

module _ {R : Type 0} where
  abbrev Checked : GlobalConfig R → Type 0
  Checked g =
      AllUsable (or_else g.chain_configs []) × ((g.serve_dashboard && not g.serve_api) ≡ false)

  validate_global_config-Checked : (g : GlobalConfig R) → Holds Checked (validate_global_config g)
  unfolding validate_global_config
  validate_global_config-Checked g = elim (Bool-cases (g.serve_dashboard && not g.serve_api)) [
    | inl b ↦ rw (b) tt
    | inr b ↦ rw (b) (chains b g.chain_configs refl)
  ]
    where
      kept :
          (b : (g.serve_dashboard && not g.serve_api) ≡ false)
          (r : Result (Dict String ChainConfig))
          → Holds AllUsable r
          → Holds Checked
              (elim r [ err e ↦ err e | ok vs ↦ ok (record g { chain_configs = some vs }) ])
      kept b (err e) h = tt
      kept b (ok vs) h = (h, b)

      chains :
          (b : (g.serve_dashboard && not g.serve_api) ≡ false)
          (o : Option (Dict String ChainConfig))
          → g.chain_configs ≡ o
          → Holds Checked (elim o [
            | none ↦ ok g
            | some es ↦ elim (validate_all es) [
              | err e ↦ err e
              | ok vs ↦ ok (record g { chain_configs = some vs })
            ]
          ])
      chains b none e = (subst (λ o. AllUsable (or_else o [])) (sym e) tt, b)
      chains b (some es) e = kept b (validate_all es) (validate_all-AllUsable es)

  load_global_config-Checked :
      (path : String) (file : File (GlobalConfig R)) → Yields Checked (load_global_config path file)
  unfolding load_global_config
  load_global_config-Checked path file = elim (Bool-cases (ends_with ".toml" path)) [
    | inr b ↦ rw (b) tt
    | inl b ↦ rw (b) (read_file file)
  ]
    where
      read_file :
          (f : File (GlobalConfig R))
          → Yields Checked (elim f [
            | unreadable e ↦ thrown e
            | refused problems ↦ returned (err ("Invalid global config: " <> problems))
            | valid g ↦ returned (validate_global_config g)
          ])
      read_file (unreadable e) = tt
      read_file (refused problems) = tt
      read_file (valid g) = validate_global_config-Checked g

  abbrev Ready : ConfigLoaderData R → Type 0
  Ready d = AllUsable d.chain_configs × ((d.dashboard_enabled && not d.api_enabled) ≡ false)

  config_loader-Ready :
      (g : Load (GlobalConfig R)) (chains : Load (Dict String ChainConfig))
      → Yields Checked g
      → Yields AllUsable chains
      → Yields Ready (config_loader g chains)
  unfolding config_loader
  config_loader-Ready exited chains own files = tt
  config_loader-Ready (thrown e) chains own files = tt
  config_loader-Ready (returned g) exited own files = tt
  config_loader-Ready (returned g) (thrown e) own files = tt
  config_loader-Ready (returned (err e)) (returned cs) own files = tt
  config_loader-Ready (returned (ok g)) (returned (err e)) own files = tt
  config_loader-Ready (returned (ok g)) (returned (ok cs)) (all, shown) files = (
    of_entries-AllUsable (of_entries [] (or_else g.chain_configs [])) cs
        (of_entries-AllUsable [] (or_else g.chain_configs []) tt all) files,
    shown,
  )

-- Where the loader returns a configuration: each of its chains has an RPC URL, and a chain of the
-- kind bft has a consensus address and an API URL, one of the kind tm2 a signing address, whether
-- it comes from the main file or from the directory; and the dashboard is enabled only with the
-- API.
pub config_loader-AllUsable :
    {R : Type 0} (path : String) (file : File (GlobalConfig R)) (basename : String → String)
    (dir : Result (List (String × File ChainConfig))) (d : ConfigLoaderData R)
    → config_loader (load_global_config path file) (load_chain_configs basename dir)
      ≡ returned (ok d)
    → AllUsable d.chain_configs × ((d.dashboard_enabled && not d.api_enabled) ≡ false)
config_loader-AllUsable path file basename dir d e = subst (Yields Ready) e (
    config_loader-Ready (load_global_config path file) (load_chain_configs basename dir)
      (load_global_config-Checked path file) (load_chain_configs-AllUsable basename dir))
