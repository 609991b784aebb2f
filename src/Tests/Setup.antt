-- ===== src/Tests/Setup.antt =====
-- The setup dialogue with answers that are given.
use docker_proxy.Common.{
  ◌≤◌, ◌≡◌, refl, true, false, none, some, List, [], ◌∷◌, codes, arith, starts_with,
  eq_ignore_ascii_case, get,
}
use docker_proxy.Config.{ProxyConfig}
use docker_proxy.AuthLimiter.{is_blocked}
use docker_proxy.Auth.{AuthState, authenticate, denied}
use docker_proxy.Metrics.{new_metrics}
use docker_proxy.Rules.Conditions.{EvaluationContext}
use docker_proxy.Rules.Decision.{deny, decision, evaluate_request_detailed}
use docker_proxy.Audit.{disabled}
use docker_proxy.Config.Check.{ok, validate, compile_regexes}
use docker_proxy.Config.Sort.{sort_rules_by_priority}
use docker_proxy.Config.Env.{Environment, literal, resolve_env_vars, apply_env_overrides}
use docker_proxy.Config.Load.{Files, finish}
use docker_proxy.Proxy.{ProxyState, Arrival, HttpRequest, read}
use docker_proxy.Proxy.Exchange.{Daemon, connected, replied}
use docker_proxy.Proxy.Handle.{Rendering, handle}
use docker_proxy.Setup.{
  Answer, done, ask, ask_text, ask_number, ask_choice, ask_choices, ask_confirm, pure, ◌>>=◌,
  repeat,
}
use docker_proxy.Setup.Templates.{templates, block_exec, block_build, build_readonly}
use docker_proxy.Setup.Dialogue.{
  ask_templates, add_templates, add_template, bearer, setup, global_config, ask_auth, ask_rules,
}
use docker_proxy.Setup.Written.{IsWritten, setup_ends}
use docker_proxy.Setup.Refused.{setup-none_refuses}
use docker_proxy.Setup.Readonly.{build_readonly_lem, mutations_forbidden}
use docker_proxy.Tests.{plain}

-- A secret, and two templates.
abbrev answers : List Answer
answers =
    Answer.number 2375
    ∷ Answer.text (codes "/run/docker.sock")
    ∷ Answer.choice 1
    ∷ Answer.text (codes "s3cret")
    ∷ Answer.confirm true
    ∷ Answer.choices (0 ∷ 3 ∷ [])
    ∷ Answer.confirm false
    ∷ []

abbrev chosen : ProxyConfig
chosen = record {
  global = some (global_config 2375 (codes "/run/docker.sock"));
  auth = some (bearer (some (codes "s3cret")) none);
  rules =
      some (
        block_exec ∷ block_build ∷ build_readonly (codes "readonly-images") (codes "/images") ∷ []);
}

-- The dialogue gives that configuration and has read all answers.
setup_ends_example : (0 ≤ 7) × IsWritten chosen
unfolding setup ask_auth ask_rules ask_templates add_templates add_template templates ask_text
    ask_number ask_choice ask_choices ask_confirm ask ◌>>=◌ pure repeat
setup_ends_example = setup_ends 9 answers (omega arith)

abbrev written : ProxyConfig
written = record { global = some (global_config 2376 []); auth = none; rules = none }

no_auth :
    setup 2 (Answer.number 2376 ∷ Answer.text [] ∷ Answer.choice 0 ∷ Answer.confirm false ∷ [])
    ≡ done written []
unfolding setup ask_auth ask_rules ask_text ask_number ask_choice ask_confirm ask ◌>>=◌ pure
no_auth = refl

abbrev fresh : AuthState
fresh = record { auth_limiter = []; metrics = new_metrics }

-- No variable is set.
abbrev env : Environment
env = record { pieces = λ s. literal s ∷ []; var = λ name. none; exists = λ path. false }

abbrev files : Files
files = record { read_to_string = λ path. none; from_str = λ text. none }

loads : finish plain env files written ≡ ok written
unfolding finish resolve_env_vars compile_regexes apply_env_overrides validate
    sort_rules_by_priority
loads = refl

abbrev rendering : Rendering
rendering = record { is_update_path = λ path. false; json_error = λ body. [] }

abbrev daemon : Daemon
daemon = record {
  connect = connected;
  handshake = true;
  request_builds = λ r. true;
  response_builds = λ r. true;
  send_request = λ r. replied (record { status = 200; headers = []; body = read (codes "ok") });
  elapsed_ms = 3;
}

abbrev arrival : Arrival
arrival = record { peer = codes "10.0.0.7"; cert = none; at_auth = 5; at_rules = 6 }

abbrev request : HttpRequest
request = record {
  method = codes "GET";
  path = codes "/info";
  query = none;
  headers = [];
  body = read [];
}

abbrev state : ProxyState
state = record {
  env_secret = [];
  config = written;
  rate_limiter = [];
  auth = fresh;
  audit = disabled;
  metrics_path = none;
}

setup-none_refuses_example :
    (written.auth ≡ none)
    × (authenticate plain 5 written [] [] (codes "10.0.0.7") none fresh
        ≡ (denied 401 (codes "Authentication is not configured"), fresh))
    × ((handle plain rendering daemon arrival request state).forwarded ≡ none)
unfolding is_blocked get
setup-none_refuses_example =
    setup-none_refuses 2 2376 [] (Answer.confirm false ∷ []) written [] no_auth plain env files
      written refl loads rendering daemon arrival request state refl refl

abbrev ctx : EvaluationContext
ctx = record {
  path = codes "/volumes/create";
  method = codes "POST";
  headers = [];
  client_ip = codes "10.0.0.7";
  body_json = none;
  user_role = none;
}

build_readonly_lem_example :
    evaluate_request_detailed plain 5 ctx
      (build_readonly (codes "volumes") (codes "/volumes") ∷ [])
      []
    ≡ (
      decision
          (build_readonly (codes "volumes") (codes "/volumes"))
          "deny"
          (deny 403 (mutations_forbidden (codes "/volumes")))
          false,
      [],
    )
unfolding starts_with eq_ignore_ascii_case
build_readonly_lem_example =
    build_readonly_lem plain 5 ctx (codes "volumes") (codes "/volumes") [] []
