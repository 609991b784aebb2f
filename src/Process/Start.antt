-- ===== src/Process/Start.antt =====
-- `main` of src/main.rs from the arguments to the state that the requests share, with
-- `load_config_from_default_path` and `resolve_socket_path`. The logger and the audit file are
-- arguments: whether they start and open.
pub mod Loaded
pub mod Precedence
use docker_proxy.Common.{
  ℕ, Bool, true, false, if◌then◌else◌, Option, none, some, ◌>>=◌, or_else, unwrap_or, List, [], ◌∷◌,
  Str, codes, str_eq, is_empty, find,
}
use docker_proxy.Externals.{Externals}
use docker_proxy.Config.{ProxyConfig, MetricsConfig}
use docker_proxy.Config.Check.{Outcome, ok, err, ◌>>◌}
use docker_proxy.Config.Env.{Environment}
use docker_proxy.Config.Load.{Files, load, load_from_path, config_path}
use docker_proxy.Metrics.{new_metrics}
use docker_proxy.Audit.{AuditSink, disabled}
use docker_proxy.Audit.Writer.{spawn}
use docker_proxy.Proxy.{ProxyState}
use docker_proxy.Process.Arguments.{Command, runs, shows_help, refused, parse_args}
use docker_proxy.Process.Report.{render_effective_rules}

-- `env::set_var`.
abbrev pub with_var : Str → Str → Environment → Environment
with_var name value env = record env {
  var = λ asked. if str_eq asked name then some value else env.var asked;
}

-- The path of `--config` stands for that of the environment.
abbrev pub explicit : Option Str → Environment → Environment
explicit none env = env
explicit (some path) env = with_var (codes "DOCKER_PROXY_CONFIG") path env

module _ (x : Externals) (env : Environment) (files : Files) where
  -- The configuration, and the file it was read from, if any.
  unfoldable pub load_config_from_default_path : Outcome (ProxyConfig × Option Str)
  unfolding load load_from_path
  load_config_from_default_path = elim (config_path x env files) [
    | some path ↦ load_from_path x env files path >> λ config. ok (config, some path)
    | none ↦ load x env files >> λ config. ok (config, none)
  ]

-- The list of a build for Linux; the list of a build for macOS is left out.
abbrev pub socket_candidates : List Str
socket_candidates = codes "/var/run/docker.sock" ∷ codes "/run/docker.sock" ∷ []

abbrev pub if_exists : Environment → Str → Option Str
if_exists env path = if env.exists path then some path else none

-- The socket of the configuration, of the environment, or of the list, the first that exists.
unfoldable pub resolve_socket_path : Environment → Option Str → Option Str
resolve_socket_path env config_socket = or_else (config_socket >>= if_exists env) (
    or_else (env.var (codes "DOCKER_SOCKET") >>= if_exists env) (find env.exists socket_candidates))

abbrev pub enabled_path : MetricsConfig → Option Str
enabled_path m =
    if unwrap_or m.enabled false then some (unwrap_or m.path (codes "/metrics")) else none

abbrev pub metrics_path_of : ProxyConfig → Option Str
metrics_path_of config = config.global >>= λ g. g.metrics >>= enabled_path

abbrev pub audit_of : (Str → Bool) → ProxyConfig → AuditSink
audit_of opens config = elim (config.global >>= λ g. g.audit_log) [
  | none ↦ disabled
  | some path ↦ if is_empty path then disabled else (spawn (opens path) []).sink
]

-- How `main` ends, or the state with which it goes on, with the socket and the file that a reload
-- reads.
pub data Started : Type 0 where
  helped : Started
  exits : ℕ → Started
  reported : Str → Started
  log_failed : Started
  serving : ProxyState → Str → Option Str → Started

unfoldable pub new_state : Environment → (Str → Bool) → ProxyConfig → ProxyState
unfolding spawn
new_state env opens config = record {
  env_secret = unwrap_or (env.var (codes "DOCKER_PROXY_SECRET")) [];
  config = config;
  rate_limiter = [];
  auth = record { auth_limiter = []; metrics = new_metrics };
  audit = audit_of opens config;
  metrics_path = metrics_path_of config;
}

module _ (x : Externals) (files : Files) (log_starts : Str → Option Str → Bool)
    (opens : Str → Bool) where
  abbrev pub log_format_of : ProxyConfig → Str
  log_format_of config = unwrap_or (config.global >>= λ g. g.log_format) (codes "text")

  unfoldable pub start_with : Environment → ProxyConfig → Option Str → Started
  unfolding resolve_socket_path new_state
  start_with env config loaded_from =
      if log_starts (log_format_of config) (config.global >>= λ g. g.log_level)
      then (elim (resolve_socket_path env (config.global >>= λ g. g.socket)) [
        | none ↦ exits 1
        | some socket ↦ serving (new_state env opens config) socket loaded_from
      ])
      else log_failed

  unfoldable pub run_command : Environment → Bool → Started
  unfolding load_config_from_default_path start_with
  run_command env check = elim (load_config_from_default_path x env files) [
    | err e ↦ exits 2
    | ok (config, loaded_from) ↦
        if check
        then reported (render_effective_rules config)
        else start_with env config loaded_from
  ]

  unfoldable pub start : Environment → List Str → Started
  unfolding parse_args run_command
  start env args = elim (parse_args false false none args) [
    | shows_help ↦ helped
    | refused ↦ exits 2
    | runs check path ↦ run_command (explicit path env) check
  ]
