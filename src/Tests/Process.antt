-- ===== src/Tests/Process.antt =====
-- The start of the process, its server, and its certificates.
use docker_proxy.Common.{
  ℕ, zero, suc, Option, if◌then◌else◌, parse_unsigned, ◌*◌, ◌≤◌, ◌≡◌, ◌≢◌, refl, true, false, ◌⊎◌,
  none, some, [], ◌∷◌, Str, codes, arith, str_eq, find, All, to_string,
}
use docker_proxy.Config.{TlsConfig, MtlsConfig, ProxyConfig, default_global, default_config}
use docker_proxy.Config.Check.{validate, compile_regexes}
use docker_proxy.Config.Sort.{sort_rules_by_priority}
use docker_proxy.Config.Env.{Environment, literal, resolve_env_vars, apply_env_overrides}
use docker_proxy.Process.Start.Precedence.{finish_precedence}
use docker_proxy.Config.Load.{finish, Files, load}
use docker_proxy.Tls.{CertIdentity, resolve_mtls_role, candidates}
use docker_proxy.Tls.Roles.{IsMapped, Uncovered, entries_of, resolve_mtls_role_cases}
use docker_proxy.Config.Check as Check
use docker_proxy.Tls.Server.{
  TlsLibrary, ServerConfig, verified, ok, collect, load_certs, load_private_key, add_roots,
  client_auth_of, build_server_config,
}
use docker_proxy.Tls.Server.Sound.{Asks, build_server_config_sound}
use docker_proxy.Proxy.{ProxyState}
use docker_proxy.Process.Start.{
  start, serving, new_state, run_command, load_config_from_default_path, start_with,
  resolve_socket_path,
}
use docker_proxy.Process.Arguments.{parse_args}
use docker_proxy.Process.Start.Loaded.{IsFresh, start_serving}
use docker_proxy.Config.Load.Loaded.{IsLoaded}
use docker_proxy.Process.Start.{socket_candidates}
use docker_proxy.Process.Listener.{port_of, Listener, created, create_listener}
use docker_proxy.Process.Server.{
  Semaphores, Server, new_server, listen, accept_connection, end_task, max_concurrent_conns, Step,
  Reach,
}
use docker_proxy.Process.Server.Permits.{Counts, is_full}
use docker_proxy.Process.Server.Safe.{Reach-IsFresh, connections_le}
use docker_proxy.Tests.{plain}

abbrev socket : Str
socket = codes "/var/run/docker.sock"

-- The socket exists and no file of the configuration does.
abbrev env : Environment
env = record {
  pieces = λ s. literal s ∷ [];
  var = λ name. none;
  exists = λ path. str_eq path socket;
}

abbrev files : Files
files = record { read_to_string = λ path. none; from_str = λ text. none }

abbrev proxy : ProxyState
proxy = new_state env (λ path. false) default_config

starts : start plain files (λ format level. true) (λ path. false) env [] ≡ serving proxy socket none
unfolding start parse_args run_command load_config_from_default_path load resolve_env_vars
    compile_regexes apply_env_overrides validate sort_rules_by_priority start_with
    resolve_socket_path str_eq find
starts = refl

start_serving_example :
    IsLoaded proxy.config
    × (proxy.rate_limiter ≡ [])
    × (proxy.auth.auth_limiter ≡ [])
    × (env.exists socket ≡ true)
start_serving_example =
    start_serving plain files (λ format level. true) (λ path. false) env [] proxy socket none starts

-- The text of a file is the list of its lines, and each is a certificate.
abbrev lib : TlsLibrary
lib = record {
  read_file = λ path. some path;
  pem_certs = λ text. some text ∷ [];
  pem_private_key = λ text. some (some text);
  root_is_valid = λ cert. true;
  verifier_builds = λ roots require. true;
  single_cert_fits = λ certs key. true;
  from_der = λ der. none;
}

abbrev tls : TlsConfig
tls = record {
  cert = codes "/cert.pem";
  key = codes "/key.pem";
  client_ca = some (codes "/ca.pem");
  require_client_cert = some true;
}

abbrev built : ServerConfig
built = record {
  client_auth = verified (codes "/ca.pem" ∷ []) true;
  certs = codes "/cert.pem" ∷ [];
  key = codes "/key.pem";
}

builds : build_server_config lib tls ≡ ok built
unfolding build_server_config load_certs load_private_key client_auth_of add_roots collect
builds = refl

build_server_config_sound_example :
    (load_certs lib tls.cert ≡ ok built.certs)
    × (built.certs ≢ [])
    × (load_private_key lib tls.key ≡ ok built.key)
    × Asks lib tls built.client_auth
build_server_config_sound_example = build_server_config_sound lib tls built builds

abbrev identity : CertIdentity
identity = record { common_name = some (codes "alice"); sans = codes "ci.example.org" ∷ [] }

abbrev roles : MtlsConfig
roles = record {
  cert_role_map = some (record { cn = codes "*.example.org"; role = codes "ci" } ∷ []);
  default_role = some (codes "guest");
}

resolve_mtls_role_cases_example :
    ((role : Str) × IsMapped (entries_of roles) (candidates identity) role
      × (resolve_mtls_role identity (some roles) ≡ some role))
    ⊎ (All (Uncovered (entries_of roles)) (candidates identity)
        × (resolve_mtls_role identity (some roles) ≡ roles.default_role))
resolve_mtls_role_cases_example = resolve_mtls_role_cases identity roles

abbrev listener : Listener
listener = record { address = codes "127.0.0.1:2376"; tls = none }

binds : create_listener lib (λ address. true) env default_config ≡ created listener
unfolding create_listener to_string
binds = refl

-- A semaphore that is the number of its permits.
abbrev take_one : ℕ → Option ℕ
take_one zero = none
take_one (suc n) = some n

abbrev sem : Semaphores ℕ
sem = record { new = λ n. n; try_acquire = take_one; release = λ n. suc n }

take_one-takes : (s t : ℕ) → take_one s ≡ some t → s ≡ suc t
take_one-takes zero t e = cc e
take_one-takes (suc n) t e = cc e

take_one-fails : (s : ℕ) → take_one s ≡ none → s ≡ 0
take_one-fails zero e = refl
take_one-fails (suc n) e = cc e

counts : Counts sem (λ n. n)
counts = record {
  new_has = λ n. refl;
  takes = take_one-takes;
  fails = take_one-fails;
  goes_back = λ n. refl;
}

abbrev server : Server ℕ
server = new_server proxy none

-- Two connections, of which one ends.
abbrev running : Server ℕ
running = record server {
  listening =
      some (end_task sem (accept_connection sem (accept_connection sem (listen sem listener))));
}

reaches : Reach plain lib sem server running
unfolding new_state accept_connection
reaches =
    Reach.next
      (Reach.next
        (Reach.next (Reach.next Reach.here (Step.binds env (λ address. true) listener refl binds))
          (Step.accepts _ refl))
        (Step.accepts _ refl))
      (Step.ends _ refl (omega arith))

Reach-IsFresh_example : IsFresh running.proxy
Reach-IsFresh_example =
    Reach-IsFresh plain lib sem files (λ format level. true) (λ path. false) env [] proxy socket
      none starts reaches

connections_le_example :
    (1 ≤ max_concurrent_conns)
    × ((is_full sem running.listening ≡ false) ⊎ (1 ≡ max_concurrent_conns))
    × (1 ≤ max_concurrent_conns * 1)
unfolding accept_connection end_task
connections_le_example =
    connections_le plain lib sem files (λ format level. true) (λ path. false) env [] proxy socket
      none starts reaches (λ n. n) counts

abbrev set_env : Environment
set_env = record env {
  var = λ name. if str_eq name (codes "DOCKER_PROXY_PORT") then some (codes "2400") else none;
}

abbrev in_file : ProxyConfig
in_file = record default_config { global = some (record default_global { port = some 2375 }) }

abbrev loaded : ProxyConfig
loaded = record default_config { global = some (record default_global { port = some 2400 }) }

finishes : finish plain set_env files in_file ≡ Check.ok loaded
unfolding finish resolve_env_vars compile_regexes apply_env_overrides validate
    sort_rules_by_priority str_eq parse_unsigned
finishes = refl

finish_precedence_example :
    (port_of set_env loaded ≡ 2400)
    × (resolve_socket_path set_env none ≡ find env.exists socket_candidates)
unfolding str_eq parse_unsigned
finish_precedence_example = finish_precedence plain set_env files in_file loaded finishes
