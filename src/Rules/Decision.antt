-- ===== src/Rules/Decision.antt =====
-- The decision on a request: `evaluate_request_detailed` of src/rules.rs. One rule either lets the
-- loop go on, with the rate limiter as it left it, or decides.
pub mod Denials
pub mod Order
pub mod Kept
use Prim.Native.String.{String}
use docker_proxy.Common.{
  ℕ, Bool, true, false, not, ◌&&◌, if◌then◌else◌, Option, none, some, List, [], ◌∷◌, ◌++◌, Str,
  codes, str_eq, unwrap_or, is_empty, all,
}
use docker_proxy.Externals.{Externals}
use docker_proxy.Config.{Rule, RateLimitConfig}
use docker_proxy.RateLimiter.{RateLimiter, check}
use docker_proxy.Rules.Conditions.{EvaluationContext}
use docker_proxy.Rules.Nodes.{evaluate_node}

pub data RuleResult : Type 0 where
  allow : RuleResult
  deny : ℕ → Str → RuleResult

pub record RuleDecision : Type 0 where
  pub result : RuleResult
  pub rule_name : Option Str
  pub action : Option Str
  pub dry_run : Bool

-- `RuleDecision::allow`.
abbrev pub default_decision : RuleDecision
default_decision = record { result = allow; rule_name = none; action = none; dry_run = false }

pub data Step : Type 0 where
  go_on : RateLimiter → Step
  decide : RuleDecision → RateLimiter → Step

abbrev pub is_dry : Rule → Bool
is_dry r = unwrap_or r.dry_run false

abbrev pub decision : Rule → String → RuleResult → Bool → RuleDecision
decision r action result dry = record {
  result = result;
  rule_name = some r.name;
  action = some (codes action);
  dry_run = dry;
}

abbrev pub deny_with : Rule → ℕ → Str → RuleResult
deny_with r status message = deny (unwrap_or r.status status) (unwrap_or r.message message)

-- A denial, which a dry run only reports.
abbrev pub denial : Rule → String → ℕ → Str → RuleDecision
denial r action status message =
    if is_dry r
    then decision r action allow true
    else decision r action (deny_with r status message) false

abbrev pub required_role : Rule → Str
required_role r = unwrap_or r.role (codes "admin")

abbrev pub user_role : EvaluationContext → Str
user_role ctx = unwrap_or ctx.user_role []

abbrev pub lacks_role : Rule → EvaluationContext → Bool
lacks_role r ctx =
    not (str_eq (user_role ctx) (codes "admin")) && not (str_eq (user_role ctx) (required_role r))

abbrev pub role_message : Rule → Str
role_message r = codes "Role '" ++ (required_role r ++ codes "' required")

abbrev pub bucket_key : Rule → EvaluationContext → Str
bucket_key r ctx = r.name ++ (codes ":" ++ ctx.client_ip)

module _ (x : Externals) (now : ℕ) (ctx : EvaluationContext) where
  unfoldable pub limit : Rule → RateLimitConfig → RateLimiter → Step
  limit r c buckets =
      let checked = check x now (bucket_key r ctx) c.requests c.period c.penalty buckets in
      if checked.0
      then go_on checked.1
      else decide (denial r "rate_limit" 429 (codes "Rate limit exceeded")) checked.1

  -- The `match` on the action of a rule that applies.
  unfoldable pub act : Rule → RateLimiter → Step
  unfolding limit
  act r buckets =
      if str_eq r.action (codes "deny")
      then decide (denial r "deny" 403 (codes "Forbidden by rule")) buckets
      else if str_eq r.action (codes "allow")
      then decide (decision r "allow" allow false) buckets
      else if str_eq r.action (codes "require_role")
      then (if lacks_role r ctx
          then decide (denial r "require_role" 403 (role_message r)) buckets
          else go_on buckets)
      else if str_eq r.action (codes "response_filter")
      then go_on buckets
      else if str_eq r.action (codes "rate_limit")
      then (if is_dry r
          then go_on buckets
          else (elim r.rate_limit [ none ↦ go_on buckets | some c ↦ limit r c buckets ]))
      else go_on buckets

  unfoldable pub rule_step : Rule → RateLimiter → Step
  unfolding act
  rule_step r buckets =
      if is_empty r.conditions
      then go_on buckets
      else if not (all (evaluate_node x ctx) r.conditions)
      then go_on buckets
      else act r buckets

  unfoldable pub evaluate_request_detailed : List Rule → RateLimiter → RuleDecision × RateLimiter
  unfolding rule_step
  evaluate_request_detailed [] buckets = (default_decision, buckets)
  evaluate_request_detailed (r ∷ rules) buckets = elim (rule_step r buckets) [
    | go_on after ↦ evaluate_request_detailed rules after
    | decide d after ↦ (d, after)
  ]

  -- The rest of the loop behind one rule.
  unfoldable pub continue_with : List Rule → Step → RuleDecision × RateLimiter
  continue_with rules s = elim s [
    | go_on after ↦ evaluate_request_detailed rules after
    | decide d after ↦ (d, after)
  ]

  unfoldable pub evaluate_request : List Rule → RateLimiter → RuleResult × RateLimiter
  unfolding evaluate_request_detailed
  evaluate_request rules buckets =
      let decided = evaluate_request_detailed rules buckets in (decided.0.result, decided.1)
