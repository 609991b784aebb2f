-- ===== src/Config/Load.antt =====
-- `ProxyConfig::load` and `load_from_path` of src/config.rs. What is read from a file and how
-- `serde_yaml` reads it are arguments.
pub mod Loaded
pub mod Secretless
use docker_proxy.Common.{Bool, true, false, if◌then◌else◌, Option, none, some, or_else, Str, codes}
use docker_proxy.Externals.{Externals}
use docker_proxy.Config.{ProxyConfig, default_config}
use docker_proxy.Config.Check.{
  ConfigError, unreadable, unparsable, Outcome, ok, err, ◌>>◌, validate, compile_regexes,
}
use docker_proxy.Config.Sort.{sort_rules_by_priority}
use docker_proxy.Config.Env.{Environment, resolve_env_vars, apply_env_overrides}

-- `fs::read_to_string` and `serde_yaml::from_str`.
pub record Files : Type 0 where
  pub read_to_string : Str → Option Str
  pub from_str : Str → Option ProxyConfig

abbrev pub accept : ProxyConfig → Option ConfigError → Outcome ProxyConfig
accept config none = ok config
accept config (some e) = err e

abbrev pub result_of {ℓ} : {A : Type ℓ} → Option A → ConfigError → Outcome A
result_of none e = err e
result_of (some a) e = ok a

module _ (x : Externals) (env : Environment) (files : Files) where
  -- The five steps that both functions end with.
  unfoldable pub finish : ProxyConfig → Outcome ProxyConfig
  finish config = resolve_env_vars env config >> λ expanded.
      compile_regexes x (apply_env_overrides env expanded) >> λ compiled.
      accept compiled (validate compiled) >> λ valid. ok (sort_rules_by_priority valid)

  unfoldable pub read_config : Str → Outcome ProxyConfig
  read_config path = result_of (files.read_to_string path) unreadable >> λ content.
      result_of (files.from_str content) unparsable

  unfoldable pub load_from_path : Str → Outcome ProxyConfig
  unfolding finish read_config
  load_from_path path = read_config path >> finish

  abbrev pub config_path : Option Str
  config_path =
      or_else (env.var (codes "DOCKER_PROXY_CONFIG"))
        (if env.exists (codes "config.yaml") then some (codes "config.yaml") else none)

  unfoldable pub load : Outcome ProxyConfig
  unfolding finish read_config
  load = elim config_path [
    | none ↦ finish default_config
    | some path ↦ if env.exists path then read_config path >> finish else finish default_config
  ]
