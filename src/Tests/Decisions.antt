-- ===== src/Tests/Decisions.antt =====
-- Rules, the configuration and its order.
use docker_proxy.Common.{
  ℕ, ◌≡◌, ◌↔◌, refl, true, false, not, ◌&&◌, none, some, is_some, [], ◌∷◌, Str, codes, str_eq, all,
  keep_if, HashMap,
}
use docker_proxy.Json.{null}
use docker_proxy.Yaml.{Yaml, yaml_value_to_string}
use docker_proxy.Config.{ProxyConfig, Rule, Condition, leaf, default_rule, default_config}
use docker_proxy.Config.Check.{validate}
use docker_proxy.Config.Check.Exactly.{IsAcceptable, validate_iff}
use docker_proxy.Config.Sort.{sort_rules}
use docker_proxy.Config.Sort.Order.{IsSorted, at_priority, sort_rules_lem}
use docker_proxy.Config.Env.{Environment, literal}
use docker_proxy.Config.Load.{Files}
use docker_proxy.Rules.Conditions.{
  evaluate_condition, EvaluationContext, match_header_condition, match_body_condition,
}
use docker_proxy.Rules.Conditions.Duality.{
  with_operator, body_value, match_header_condition-negated, match_body_condition-negated,
}
use docker_proxy.Rules.Nodes.{applies, evaluate_node}
use docker_proxy.Rules.Decision.{allow, decision, evaluate_request_detailed, denial}
use docker_proxy.Rules.Decision.Order.{allow_overrides, evaluate_request_detailed-keep_if}
use docker_proxy.Tests.{plain}

abbrev on_path : Condition
on_path = record {
  field = codes "path";
  operator = codes "equals";
  value = some (Yaml.string (codes "/info"));
  compiled_regex = none;
}

abbrev rule : Str → Str → Rule
rule name action = record default_rule {
  name = name;
  action = action;
  conditions = leaf on_path ∷ [];
}

abbrev deny_info : Rule
deny_info = rule (codes "no-info") (codes "deny")

abbrev allow_info : Rule
allow_info = rule (codes "info") (codes "allow")

abbrev admins_only : Rule
admins_only = rule (codes "admins") (codes "require_role")

abbrev ctx : EvaluationContext
ctx = record {
  path = codes "/info";
  method = codes "GET";
  headers = [];
  client_ip = codes "10.0.0.7";
  body_json = none;
  user_role = some (codes "admin");
}

denied_info :
    evaluate_request_detailed plain 5 ctx (deny_info ∷ []) []
    ≡ (denial deny_info "deny" 403 (codes "Forbidden by rule"), [])
unfolding evaluate_request_detailed all evaluate_node evaluate_condition str_eq yaml_value_to_string
denied_info = refl

allow_overrides_example :
    evaluate_request_detailed plain 5 ctx (default_rule ∷ allow_info ∷ deny_info ∷ []) []
    ≡ (decision allow_info "allow" allow false, [])
unfolding applies all evaluate_node evaluate_condition str_eq yaml_value_to_string
allow_overrides_example =
    allow_overrides plain 5 ctx (default_rule ∷ []) allow_info (deny_info ∷ []) [] (refl, tt) refl
      refl

evaluate_request_detailed-keep_if_example :
    evaluate_request_detailed plain 5 ctx
      (keep_if (applies plain ctx) (default_rule ∷ deny_info ∷ []))
      []
    ≡ evaluate_request_detailed plain 5 ctx (default_rule ∷ deny_info ∷ []) []
evaluate_request_detailed-keep_if_example =
    evaluate_request_detailed-keep_if plain 5 ctx (default_rule ∷ deny_info ∷ []) []

sort_rules_lem_example :
    IsSorted (sort_rules (deny_info ∷ record allow_info { priority = some 7 } ∷ []))
    × ((n : ℕ)
        → at_priority n (sort_rules (deny_info ∷ record allow_info { priority = some 7 } ∷ []))
          ≡ at_priority n (deny_info ∷ record allow_info { priority = some 7 } ∷ []))
sort_rules_lem_example = sort_rules_lem (deny_info ∷ record allow_info { priority = some 7 } ∷ [])

abbrev bare : Environment
bare = record { pieces = λ s. literal s ∷ []; var = λ _. none; exists = λ _. true }

abbrev written : ProxyConfig
written = record default_config { rules = some (deny_info ∷ allow_info ∷ []) }

abbrev files : Files
files = record { read_to_string = λ _. some []; from_str = λ _. some written }

abbrev headers : HashMap Str
headers = (codes "x-team", codes "ops") ∷ []

match_header_condition-negated_example :
    match_header_condition plain (with_operator on_path "not_matches") headers (codes "x-team")
    ≡ false
match_header_condition-negated_example =
    (match_header_condition-negated plain on_path headers (codes "x-team")).4

match_body_condition-negated_example :
    match_body_condition plain (with_operator on_path "not_in") (some null) (codes "a") ≡ (
      is_some (body_value plain (some null) (codes "a"))
      && not (match_body_condition plain (with_operator on_path "in") (some null) (codes "a")))
match_body_condition-negated_example =
    (match_body_condition-negated plain on_path (some null) (codes "a")).3

abbrev one_rule : ProxyConfig
one_rule = record default_config { rules = some (deny_info ∷ []) }

validate_iff_example : (validate one_rule ≡ none) ↔ IsAcceptable one_rule
validate_iff_example = validate_iff one_rule
