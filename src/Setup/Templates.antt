-- ===== src/Setup/Templates.antt =====
-- The rules that src/setup.rs offers as templates, in the order of its list.
use Prim.Native.String.{String}
use docker_proxy.Common.{
  true, Option, none, some, List, [], ◌∷◌, ◌++◌, Str, codes, trim_start_matches, ◌==◌,
}
use docker_proxy.Yaml.{Yaml, Sequence}
use docker_proxy.Config.{
  ConditionNode, leaf, any_of, nil, cons, ResponseFilterEntry, Rule, default_rule,
}

abbrev pub condition : String → String → Option Yaml → ConditionNode
condition field operator value =
    leaf record {
      field = codes field;
      operator = codes operator;
      value = value;
      compiled_regex = none;
    }

abbrev pub literal : String → Option Yaml
literal value = some (Yaml.string (codes value))

abbrev pub deny_rule : Str → Str → List ConditionNode → Str → Rule
deny_rule name description conditions message = record default_rule {
  name = name;
  description = some description;
  action = codes "deny";
  conditions = conditions;
  message = some message;
  status = some 403;
}

unfoldable pub build_simple_deny : Str → Str → Str → Str → Str → Str → Rule
build_simple_deny name description field operator value message =
    deny_rule name description
      (leaf record {
        field = field;
        operator = operator;
        value = some (Yaml.string value);
        compiled_regex = none;
      }
        ∷ [])
      message

unfoldable pub build_readonly : Str → Str → Rule
build_readonly name prefix =
    let resource = trim_start_matches (λ c. c == b'/') prefix in
    deny_rule name (codes "Only GET is allowed on " ++ resource)
      (leaf record {
        field = codes "path";
        operator = codes "starts_with";
        value = some (Yaml.string prefix);
        compiled_regex = none;
      }
        ∷ condition "method" "not_equals" (literal "GET")
        ∷ [])
      (resource ++ codes " mutations are forbidden")

unfoldable pub block_exec : Rule
block_exec =
    deny_rule (codes "block-exec-operations") (codes "Prevent creating or starting exec sessions")
      (any_of (
          cons (condition "path" "matches" (literal "^/containers/[^/]+/exec$"))
            (cons (condition "path" "matches" (literal "^/exec/[^/]+/start$")) nil))
        ∷ [])
      (codes "Exec operations are not permitted")

unfoldable pub block_build : Rule
unfolding build_simple_deny
block_build =
    build_simple_deny (codes "block-docker-build") (codes "Prevent image builds via the API")
      (codes "path") (codes "starts_with") (codes "/build")
      (codes "Image building is not permitted via this proxy")

unfoldable pub block_secrets : Rule
unfolding build_simple_deny
block_secrets =
    build_simple_deny (codes "block-secrets") (codes "Block access to secrets") (codes "path")
      (codes "starts_with") (codes "/secrets") (codes "Secrets are not accessible")

unfoldable pub block_configs : Rule
unfolding build_simple_deny
block_configs =
    build_simple_deny (codes "block-configs") (codes "Block access to configs") (codes "path")
      (codes "starts_with") (codes "/configs") (codes "Configs are not accessible")

abbrev on_create : ConditionNode
on_create = condition "path" "equals" (literal "/containers/create")

unfoldable pub block_privileged : Rule
block_privileged =
    deny_rule (codes "block-privileged-containers")
      (codes "Prevent creating containers with --privileged")
      (on_create ∷ condition "body.HostConfig.Privileged" "equals" (some (Yaml.bool true)) ∷ [])
      (codes "Privileged containers are not allowed")

unfoldable pub block_bind_mounts : Rule
block_bind_mounts =
    deny_rule (codes "block-bind-mounts") (codes "Prevent containers from bind mounting")
      (on_create
        ∷ any_of (
            cons (condition "body.HostConfig.Binds" "exists" none) (
              cons
                (condition "body.HostConfig.Mounts" "matches" (literal "\"Type\"\\s*:\\s*\"bind\""))
                nil))
        ∷ [])
      (codes "Bind mounts are not allowed")

unfoldable pub block_host_network : Rule
block_host_network =
    deny_rule (codes "block-host-network") (codes "Prevent containers from using host networking")
      (on_create ∷ condition "body.HostConfig.NetworkMode" "equals" (literal "host") ∷ [])
      (codes "Host network mode is not allowed")

abbrev admin_rule : String → String → ConditionNode → String → Rule
admin_rule name description node message = record default_rule {
  name = codes name;
  description = some (codes description);
  action = codes "require_role";
  conditions = node ∷ [];
  role = some (codes "admin");
  message = some (codes message);
  status = some 403;
}

unfoldable pub admin_lifecycle : Rule
admin_lifecycle =
    admin_rule "admin-only-container-lifecycle" "Only admins can start/stop/restart/kill containers"
      (condition "path" "matches"
        (literal "^/containers/[^/]+/(start|stop|restart|kill|pause|unpause|rename|update)$"))
      "Admin role required for container lifecycle operations"

unfoldable pub admin_create : Rule
admin_create =
    admin_rule "admin-only-create" "Only admins can create containers" on_create
      "Admin role required to create containers"

unfoldable pub admin_delete : Rule
admin_delete =
    admin_rule "admin-only-delete" "Only admins can delete resources"
      (condition "method" "equals" (literal "DELETE")) "Admin role required for delete operations"

abbrev private_networks : Sequence
private_networks = Sequence.cons (Yaml.string (codes "10.0.0.0/8")) (
    Sequence.cons (Yaml.string (codes "172.16.0.0/12")) (
      Sequence.cons (Yaml.string (codes "192.168.0.0/16"))
        (Sequence.cons (Yaml.string (codes "127.0.0.0/8")) Sequence.nil)))

unfoldable pub internal_only : Rule
internal_only =
    deny_rule (codes "internal-network-only")
      (codes "Restrict access to private network ranges and localhost")
      (condition "client_ip" "not_in" (some (Yaml.sequence private_networks)) ∷ [])
      (codes "Access restricted to internal network")

abbrev redaction : String → ResponseFilterEntry
redaction field = record { field = codes field; action = codes "redact"; replacement = none }

unfoldable pub redact_environment : Rule
redact_environment = record default_rule {
  name = codes "redact-container-environment";
  description = some (codes "Redact environment variables and commands from container inspect");
  action = codes "response_filter";
  conditions = condition "path" "matches" (literal "^/containers/[^/]+/json$") ∷ [];
  response_filter = some (redaction "Config.Env" ∷ redaction "Config.Cmd" ∷ []);
}

unfoldable pub rate_limit_all : Rule
rate_limit_all = record default_rule {
  name = codes "rate-limit-all";
  description = some (codes "Limit requests to 50 per 30 seconds, 30s penalty on exceed");
  action = codes "rate_limit";
  conditions = condition "path" "matches" (literal "^/") ∷ [];
  rate_limit = some (record { requests = 50; period = 30; penalty = 30 });
  message = some (codes "Rate limit exceeded. You are blocked for 30 seconds.");
  status = some 429;
}

-- The rules of each template but the custom one, which stands behind them in the list.
unfoldable pub templates : List (List Rule)
unfolding build_simple_deny build_readonly block_exec block_build block_secrets block_configs
    block_privileged block_bind_mounts block_host_network admin_lifecycle admin_create admin_delete
    internal_only redact_environment rate_limit_all
templates =
    (block_exec ∷ block_build ∷ [])
    ∷ (build_readonly (codes "readonly-volumes") (codes "/volumes") ∷ [])
    ∷ (build_readonly (codes "readonly-networks") (codes "/networks") ∷ [])
    ∷ (build_readonly (codes "readonly-images") (codes "/images") ∷ [])
    ∷ (block_secrets ∷ block_configs ∷ [])
    ∷ (block_privileged ∷ [])
    ∷ (block_bind_mounts ∷ [])
    ∷ (block_host_network ∷ [])
    ∷ (admin_lifecycle ∷ [])
    ∷ (admin_create ∷ [])
    ∷ (admin_delete ∷ [])
    ∷ (internal_only ∷ [])
    ∷ (redact_environment ∷ [])
    ∷ (rate_limit_all ∷ [])
    ∷ []
