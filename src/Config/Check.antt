-- ===== src/Config/Check.antt =====
-- `validate`, `is_auth_configured` and the compilation of regular expressions of src/config.rs. An
-- error is its kind, without the text that names the rule.
pub mod Accepted
pub mod Exactly
use docker_proxy.Common.{
  Bool, true, false, not, ◌&&◌, ◌||◌, if◌then◌else◌, Option, none, some, ◌>>=◌, is_none,
  is_some_and, unwrap_or, List, [], ◌∷◌, Str, codes, str_eq, is_empty, starts_with,
}
use docker_proxy.Yaml.{yaml_value_to_string}
use docker_proxy.Externals.{Externals}
use docker_proxy.Config.{
  ProxyConfig, AuthConfig, GlobalConfig, MetricsConfig, Rule, Condition, ConditionNode, leaf,
  all_of, any_of, Nodes, nil, cons,
}

-- The errors of `validate`, in the order of the source.
pub data ConfigError : Type 0 where
  invalid_auth_type : Str → ConfigError
  rule_name_empty : ConfigError
  no_action : ConfigError
  no_conditions : ConfigError
  no_role : ConfigError
  no_rate_limit : ConfigError
  no_response_filter : ConfigError
  metrics_path_empty : ConfigError
  metrics_path_versioned : ConfigError
  invalid_regex : Str → ConfigError
  missing_variables : List Str → ConfigError
  unreadable : ConfigError
  unparsable : ConfigError

-- `Result<(), String>`: the first error, if any.
infixl 4 ◌and_then◌
abbrev pub ◌and_then◌ : Option ConfigError → Option ConfigError → Option ConfigError
none and_then o = o
(some e) and_then o = some e

unfoldable pub check_auth_type : AuthConfig → Option ConfigError
check_auth_type auth = auth.auth_type >>= λ t.
    if str_eq t (codes "none") || (str_eq t (codes "bearer") || str_eq t (codes "mtls"))
    then none
    else some (invalid_auth_type t)

unfoldable pub check_rule : Rule → Option ConfigError
check_rule rule =
    if is_empty rule.name
    then some rule_name_empty
    else if is_empty rule.action
    then some no_action
    else if is_empty rule.conditions
    then some no_conditions
    else if str_eq rule.action (codes "require_role") && is_none rule.role
    then some no_role
    else if str_eq rule.action (codes "rate_limit") && is_none rule.rate_limit
    then some no_rate_limit
    else if str_eq rule.action (codes "response_filter") && is_none rule.response_filter
    then some no_response_filter
    else none

unfoldable pub check_rules : List Rule → Option ConfigError
unfolding check_rule
check_rules [] = none
check_rules (rule ∷ rules) = check_rule rule and_then check_rules rules

unfoldable pub check_metrics : MetricsConfig → Option ConfigError
check_metrics metrics =
    let path = unwrap_or metrics.path (codes "/metrics") in
    if not (unwrap_or metrics.enabled false)
    then none
    else if str_eq path (codes "/") || is_empty path
    then some metrics_path_empty
    else if starts_with path (codes "/v")
    then some metrics_path_versioned
    else none

unfoldable pub validate : ProxyConfig → Option ConfigError
unfolding check_auth_type check_rules check_metrics
validate config =
    (config.auth >>= check_auth_type)
    and_then check_rules (unwrap_or config.rules [])
    and_then (config.global >>= λ g. g.metrics >>= check_metrics)

unfoldable pub is_auth_configured : ProxyConfig → Bool
is_auth_configured config = elim config.auth [
  | none ↦ false
  | some a ↦
      is_some_and a.auth_type (λ t. str_eq t (codes "none"))
      || (is_some_and a.auth_type (λ t. str_eq t (codes "mtls"))
          || (is_some_and a.tokens (λ t. not (is_empty t))
              || is_some_and a.secret (λ s. not (is_empty s))))
]

-- A result, or the error.
pub data Outcome {ℓ} (A : Type ℓ) : Type ℓ where
  ok : A → Outcome A
  err : ConfigError → Outcome A

infixl 5 ◌>>◌
abbrev pub ◌>>◌ {ℓ κ} : {A : Type ℓ} {B : Type κ} → Outcome A → (A → Outcome B) → Outcome B
ok a >> k = k a
err e >> k = err e

module _ (x : Externals) where
  abbrev pub compile_pattern : Condition → Str → Outcome Condition
  compile_pattern c s =
      if x.regex_new s
      then ok (record c { compiled_regex = some s })
      else err (invalid_regex c.field)

  unfoldable pub compile_regex_in_condition : Condition → Outcome Condition
  compile_regex_in_condition c =
      if str_eq c.operator (codes "matches") || str_eq c.operator (codes "not_matches")
      then (elim (c.value >>= yaml_value_to_string) [ none ↦ ok c | some s ↦ compile_pattern c s ])
      else ok c

  unfoldable mutual
    pub compile_regexes_in_node : ConditionNode → Outcome ConditionNode
    compile_regexes_in_node (leaf c) = compile_regex_in_condition c >> λ d. ok (leaf d)
    compile_regexes_in_node (all_of ns) = compile_regexes_in_nodes ns >> λ ms. ok (all_of ms)
    compile_regexes_in_node (any_of ns) = compile_regexes_in_nodes ns >> λ ms. ok (any_of ms)

    pub compile_regexes_in_nodes : Nodes → Outcome Nodes
    compile_regexes_in_nodes nil = ok nil
    compile_regexes_in_nodes (cons n ns) =
        compile_regexes_in_node n >> λ m. compile_regexes_in_nodes ns >> λ ms. ok (cons m ms)

  unfoldable pub compile_list : List ConditionNode → Outcome (List ConditionNode)
  unfolding compile_regexes_in_node
  compile_list [] = ok []
  compile_list (n ∷ ns) = compile_regexes_in_node n >> λ m. compile_list ns >> λ ms. ok (m ∷ ms)

  unfoldable pub compile_rules : List Rule → Outcome (List Rule)
  unfolding compile_list
  compile_rules [] = ok []
  compile_rules (r ∷ rules) = compile_list r.conditions >> λ conditions.
      compile_rules rules >> λ rest. ok (record r { conditions = conditions } ∷ rest)

  unfoldable pub compile_regexes : ProxyConfig → Outcome ProxyConfig
  unfolding compile_rules
  compile_regexes config = elim config.rules [
    | none ↦ ok config
    | some rules ↦ compile_rules rules >> λ rest. ok (record config { rules = some rest })
  ]
