-- ===== src/Rules/Decision/Kept.antt =====
-- The rate limiter of src/rules.rs under a decision: its table stays within its bounds.
use docker_proxy.Common.{
  ℕ, Bool, true, false, inl, inr, Bool-cases, if◌then◌else◌, Option, none, some, List, [], ◌∷◌,
  str_eq, codes,
}
use docker_proxy.Externals.{Externals}
use docker_proxy.Config.{Rule, RateLimitConfig}
use docker_proxy.RateLimiter.{RateLimiter, check}
use docker_proxy.RateLimiter.Bounds.{IsValid, check-IsValid}
use docker_proxy.Rules.Conditions.{EvaluationContext}
use docker_proxy.Rules.Nodes.{applies}
use docker_proxy.Rules.Decision.{
  Step, go_on, decide, bucket_key, is_dry, lacks_role, limit, act, rule_step,
  evaluate_request_detailed, continue_with,
}
use docker_proxy.Rules.Decision.Denials.{rule_step_skips, rule_step-applies}

abbrev limiter_of : Step → RateLimiter
limiter_of (go_on buckets) = buckets
limiter_of (decide d buckets) = buckets

module _ (x : Externals) (now : ℕ) (ctx : EvaluationContext) where
  limit-IsValid :
      (r : Rule) (c : RateLimitConfig) (buckets : RateLimiter)
      → IsValid buckets
      → IsValid (limiter_of (limit x now ctx r c buckets))
  unfolding limit
  limit-IsValid r c buckets v =
      let kept = check-IsValid x now (bucket_key r ctx) c.requests c.period c.penalty buckets v in
      elim (Bool-cases (check x now (bucket_key r ctx) c.requests c.period c.penalty buckets).0) [
        | inl granted ↦ rw granted kept.0
        | inr refused ↦ rw refused kept.0
      ]

  limited-IsValid :
      (r : Rule) (o : Option RateLimitConfig) (buckets : RateLimiter)
      → IsValid buckets
      → IsValid
          (limiter_of (elim o [ none ↦ go_on buckets | some c ↦ limit x now ctx r c buckets ]))
  limited-IsValid r none buckets v = v
  limited-IsValid r (some c) buckets v = limit-IsValid r c buckets v

  if-IsValid :
      (b : Bool) (s t : Step)
      → IsValid (limiter_of s)
      → IsValid (limiter_of t)
      → IsValid (limiter_of (if b then s else t))
  if-IsValid true s t h k = h
  if-IsValid false s t h k = k

  act-IsValid :
      (r : Rule) (buckets : RateLimiter)
      → IsValid buckets
      → IsValid (limiter_of (act x now ctx r buckets))
  unfolding act
  act-IsValid r buckets v = if-IsValid (str_eq r.action (codes "deny")) _ _ v (
      if-IsValid (str_eq r.action (codes "allow")) _ _ v (
        if-IsValid (str_eq r.action (codes "require_role")) _ _
          (if-IsValid (lacks_role r ctx) _ _ v v)
          (if-IsValid (str_eq r.action (codes "response_filter")) _ _ v (
            if-IsValid (str_eq r.action (codes "rate_limit")) _ _
              (if-IsValid (is_dry r) _ _ v (limited-IsValid r r.rate_limit buckets v)) v))))

  rule_step-IsValid :
      (r : Rule) (buckets : RateLimiter)
      → IsValid buckets
      → IsValid (limiter_of (rule_step x now ctx r buckets))
  rule_step-IsValid r buckets v = elim (Bool-cases (applies x ctx r)) [
    | inl h ↦ rw (rule_step-applies x now ctx r buckets h) (act-IsValid r buckets v)
    | inr h ↦ rw (rule_step_skips x now ctx r buckets h) v
  ]

  continued-IsValid :
      (rules : List Rule) (s : Step)
      → IsValid (limiter_of s)
      → ((after : RateLimiter)
          → IsValid after
          → IsValid (evaluate_request_detailed x now ctx rules after).1)
      → IsValid (continue_with x now ctx rules s).1
  unfolding continue_with
  continued-IsValid rules (go_on after) v rest = rest after v
  continued-IsValid rules (decide d after) v rest = v

  pub evaluate_request_detailed-IsValid :
      (rules : List Rule) (buckets : RateLimiter)
      → IsValid buckets
      → IsValid (evaluate_request_detailed x now ctx rules buckets).1
  unfolding evaluate_request_detailed continue_with
  evaluate_request_detailed-IsValid [] buckets v = v
  evaluate_request_detailed-IsValid (r ∷ rules) buckets v =
      continued-IsValid rules (rule_step x now ctx r buckets) (rule_step-IsValid r buckets v)
        (λ after w. evaluate_request_detailed-IsValid rules after w)
