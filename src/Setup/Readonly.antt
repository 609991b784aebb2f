-- ===== src/Setup/Readonly.antt =====
-- What the read-only templates of src/setup.rs do in the rules of src/rules.rs.
use docker_proxy.Common.{
  ℕ, ◌≡◌, refl, ap, ◌∙◌, Bool, false, not, ◌&&◌, inl, inr, Bool-cases, if◌then◌else◌, List, ◌∷◌,
  ◌++◌, Str, codes, arith, str_eq, starts_with, eq_ignore_ascii_case, all, trim_start_matches, ◌==◌,
}
use docker_proxy.Yaml.{yaml_value_to_string}
use docker_proxy.Externals.{Externals}
use docker_proxy.Config.{Rule}
use docker_proxy.RateLimiter.{RateLimiter}
use docker_proxy.Rules.Conditions.{EvaluationContext, evaluate_condition}
use docker_proxy.Rules.Nodes.{applies, evaluate_node}
use docker_proxy.Rules.Decision.{
  RuleDecision, decide, decision, deny, evaluate_request_detailed, act, continue_with,
}
use docker_proxy.Rules.Decision.Denials.{rule_step-applies}
use docker_proxy.Rules.Decision.Order.{evaluate_first, evaluate_skips}
use docker_proxy.Setup.Templates.{build_readonly}

abbrev pub mutations_forbidden : Str → Str
mutations_forbidden prefix =
    trim_start_matches (λ c. c == b'/') prefix ++ codes " mutations are forbidden"

-- A path of the resource, and a method that is not GET.
abbrev pub mutates : EvaluationContext → Str → Bool
mutates ctx prefix =
    starts_with ctx.path prefix && not (eq_ignore_ascii_case ctx.method (codes "GET"))

module _ (x : Externals) (now : ℕ) (ctx : EvaluationContext) (name prefix : Str) where
  build_readonly-applies : applies x ctx (build_readonly name prefix) ≡ mutates ctx prefix
  unfolding applies all evaluate_node evaluate_condition str_eq yaml_value_to_string build_readonly
      starts_with
  build_readonly-applies = ground arith

  abbrev verdict : RuleDecision
  verdict =
      decision (build_readonly name prefix) "deny" (deny 403 (mutations_forbidden prefix)) false

  act_readonly :
      (buckets : RateLimiter)
      → act x now ctx (build_readonly name prefix) buckets ≡ decide verdict buckets
  unfolding act build_readonly str_eq
  act_readonly buckets = refl

  -- A read-only rule denies a request that mutates its resource, with the status 403, and leaves
  -- every other request to the rules behind it.
  pub build_readonly_lem :
      (rules : List Rule) (buckets : RateLimiter)
      → evaluate_request_detailed x now ctx (build_readonly name prefix ∷ rules) buckets ≡ (
          if mutates ctx prefix
          then (
            decision
                (build_readonly name prefix)
                "deny"
                (deny 403 (mutations_forbidden prefix))
                false,
            buckets,
          )
          else evaluate_request_detailed x now ctx rules buckets)
  unfolding continue_with
  build_readonly_lem rules buckets = elim (Bool-cases (mutates ctx prefix)) [
    | inl yes_mutates ↦ rw yes_mutates (
        evaluate_first x now ctx (build_readonly name prefix) rules buckets
        ∙ ap (continue_with x now ctx rules) (
            rule_step-applies x now ctx (build_readonly name prefix) buckets
              (build_readonly-applies ∙ yes_mutates)
            ∙ act_readonly buckets))
    | inr reads ↦ rw reads (
        evaluate_skips x now ctx (build_readonly name prefix) rules buckets
          (build_readonly-applies ∙ reads))
  ]
