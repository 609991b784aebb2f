-- ===== src/Config/Check/Accepted.antt =====
-- Which configurations `validate` of src/config.rs accepts.
use docker_proxy.Common.{
  filled, ◌≡◌, refl, ◌≢◌, false, ◌&&◌, Option, none, some, List, [], ◌∷◌, arith, Str, codes, str_eq,
  str_eq_iff, is_empty, All, is_none, guard_none, unwrap_or,
}
use docker_proxy.Config.{ProxyConfig, Rule}
use docker_proxy.Config.Check.{
  ConfigError, rule_name_empty, no_action, no_conditions, no_role, no_rate_limit,
  no_response_filter, ◌and_then◌, check_rule, check_rules, validate,
}

-- A rule with a name, an action and conditions, and with what its action needs.
pub record IsComplete (rule : Rule) : Type 0 where
  pub named : rule.name ≢ []
  pub acts : rule.action ≢ []
  pub conditional : rule.conditions ≢ []
  pub role : rule.action ≡ codes "require_role" → rule.role ≢ none
  pub limit : rule.action ≡ codes "rate_limit" → rule.rate_limit ≢ none
  pub filter : rule.action ≡ codes "response_filter" → rule.response_filter ≢ none

needs {ℓ} :
    {A : Type ℓ} (a b : Str) (o : Option A) → (str_eq a b && is_none o) ≡ false → a ≡ b → o ≢ none
needs a b o h same gone = ground (arith, h, gone, (str_eq_iff a b).1 same)

check_rule_sound : (rule : Rule) → check_rule rule ≡ none → IsComplete rule
unfolding check_rule
check_rule_sound rule e =
    let (named, e1) = guard_none (is_empty rule.name) rule_name_empty _ e in
    let (acts, e2) = guard_none (is_empty rule.action) no_action _ e1 in
    let (conditional, e3) = guard_none (is_empty rule.conditions) no_conditions _ e2 in
    let (role, e4) =
      guard_none (str_eq rule.action (codes "require_role") && is_none rule.role) no_role _ e3 in
    let (limit, e5) =
      guard_none (str_eq rule.action (codes "rate_limit") && is_none rule.rate_limit) no_rate_limit
        _ e4 in
    let (filter, _) =
      guard_none (str_eq rule.action (codes "response_filter") && is_none rule.response_filter)
        no_response_filter _ e5 in
    record {
      named = filled rule.name named;
      acts = filled rule.action acts;
      conditional = filled rule.conditions conditional;
      role = needs rule.action (codes "require_role") rule.role role;
      limit = needs rule.action (codes "rate_limit") rule.rate_limit limit;
      filter = needs rule.action (codes "response_filter") rule.response_filter filter;
    }

pub both_none : (o q : Option ConfigError) → (o and_then q) ≡ none → (o ≡ none) × (q ≡ none)
both_none none q e = (refl, e)
both_none (some a) q e = ground arith

pub check_rules_sound : (rules : List Rule) → check_rules rules ≡ none → All IsComplete rules
unfolding check_rules
check_rules_sound [] e = tt
check_rules_sound (rule ∷ rules) e =
    let (h, hs) = both_none (check_rule rule) (check_rules rules) e in
    (check_rule_sound rule h, check_rules_sound rules hs)

pub validate-IsComplete :
    (config : ProxyConfig) → validate config ≡ none → All IsComplete (unwrap_or config.rules [])
unfolding validate
validate-IsComplete config e =
    check_rules_sound (unwrap_or config.rules []) ((both_none _ _ (both_none _ _ e).0).1)
