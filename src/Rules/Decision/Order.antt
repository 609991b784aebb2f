-- ===== src/Rules/Decision/Order.antt =====
-- How the order of rules decides a request (src/rules.rs): which rules are read, and which do not
-- matter.
use docker_proxy.Common.{
  ℕ, ◌≡◌, ◌≢◌, sym, ap, ◌∙◌, refl, true, false, none, List, [], ◌∷◌, ◌++◌, codes, All, inl, inr,
  Bool-cases, keep_if, str_eq,
}
use docker_proxy.Externals.{Externals}
use docker_proxy.Config.{Rule}
use docker_proxy.RateLimiter.{RateLimiter}
use docker_proxy.Rules.Conditions.{EvaluationContext}
use docker_proxy.Rules.Nodes.{applies}
use docker_proxy.Rules.Decision.{
  RuleDecision, default_decision, Step, go_on, decide, act, rule_step, evaluate_request_detailed,
  continue_with, decision, allow,
}
use docker_proxy.Rules.Decision.Denials.{rule_step_skips, rule_step-applies}

module _ (x : Externals) (now : ℕ) (ctx : EvaluationContext) where
  abbrev pub evaluate : List Rule → RateLimiter → RuleDecision × RateLimiter
  evaluate = evaluate_request_detailed x now ctx

  pub evaluate_first :
      (r : Rule) (rules : List Rule) (buckets : RateLimiter)
      → evaluate (r ∷ rules) buckets ≡ continue_with x now ctx rules (rule_step x now ctx r buckets)
  unfolding evaluate_request_detailed continue_with
  evaluate_first r rules buckets = refl

  evaluate_none : (buckets : RateLimiter) → evaluate [] buckets ≡ (default_decision, buckets)
  unfolding evaluate_request_detailed
  evaluate_none buckets = refl

  pub evaluate_skips :
      (r : Rule) (rules : List Rule) (buckets : RateLimiter)
      → applies x ctx r ≡ false
      → evaluate (r ∷ rules) buckets ≡ evaluate rules buckets
  unfolding continue_with
  evaluate_skips r rules buckets h =
      evaluate_first r rules buckets
      ∙ ap (continue_with x now ctx rules) (rule_step_skips x now ctx r buckets h)

  continue_with_same :
      (rules rules' : List Rule) (s : Step)
      → ((buckets : RateLimiter) → evaluate rules buckets ≡ evaluate rules' buckets)
      → continue_with x now ctx rules s ≡ continue_with x now ctx rules' s
  unfolding continue_with
  continue_with_same rules rules' (go_on after) same = same after
  continue_with_same rules rules' (decide d after) same = refl

  evaluate-cons_same :
      (r : Rule) (rules rules' : List Rule) (buckets : RateLimiter)
      → ((b : RateLimiter) → evaluate rules b ≡ evaluate rules' b)
      → evaluate (r ∷ rules) buckets ≡ evaluate (r ∷ rules') buckets
  evaluate-cons_same r rules rules' buckets same =
      evaluate_first r rules buckets
      ∙ (continue_with_same rules rules' _ same ∙ sym (evaluate_first r rules' buckets))

  -- A rule of which some condition fails, or which has none, has no effect: the decision and the
  -- rate limiter are those of the list without such rules.
  pub evaluate_request_detailed-keep_if :
      (rules : List Rule) (buckets : RateLimiter)
      → evaluate_request_detailed x now ctx (keep_if (applies x ctx) rules) buckets
        ≡ evaluate_request_detailed x now ctx rules buckets
  unfolding keep_if
  evaluate_request_detailed-keep_if [] buckets = refl
  evaluate_request_detailed-keep_if (r ∷ rules) buckets = elim (Bool-cases (applies x ctx r)) [
    | inl h ↦ rw h (
        evaluate-cons_same r (keep_if (applies x ctx) rules) rules buckets
          (λ b. evaluate_request_detailed-keep_if rules b))
    | inr h ↦
        rw (h, evaluate_skips r rules buckets h) (evaluate_request_detailed-keep_if rules buckets)
  ]

  continue_with-append :
      (rules : List Rule) (more : List Rule) (s : Step) (d : RuleDecision) (after : RateLimiter)
      → ((buckets : RateLimiter)
          → evaluate rules buckets ≡ (d, after)
          → d.rule_name ≢ none
          → evaluate (rules ++ more) buckets ≡ (d, after))
      → continue_with x now ctx rules s ≡ (d, after)
      → d.rule_name ≢ none
      → continue_with x now ctx (rules ++ more) s ≡ (d, after)
  unfolding continue_with
  continue_with-append rules more (go_on b) d after ih e named = ih b e named
  continue_with-append rules more (decide d' b) d after ih e named = e

  -- Once a rule has decided, the rules behind it do not matter.
  pub evaluate_request_detailed-append :
      (rules more : List Rule) (buckets : RateLimiter) (d : RuleDecision) (after : RateLimiter)
      → evaluate_request_detailed x now ctx rules buckets ≡ (d, after)
      → d.rule_name ≢ none
      → evaluate_request_detailed x now ctx (rules ++ more) buckets ≡ (d, after)
  evaluate_request_detailed-append [] more buckets d after e named = absurd (
      named (
        sym (
          ap (λ (p : RuleDecision × RateLimiter). p.0.rule_name)
            (sym (evaluate_none buckets) ∙ e))))
  evaluate_request_detailed-append (r ∷ rules) more buckets d after e named =
      evaluate_first r (rules ++ more) buckets
      ∙ continue_with-append rules more _ d after
          (λ b. evaluate_request_detailed-append rules more b d after)
          (sym (evaluate_first r rules buckets) ∙ e) named

  act_allow :
      (r : Rule) (buckets : RateLimiter)
      → r.action ≡ codes "allow"
      → act x now ctx r buckets ≡ decide (decision r "allow" allow false) buckets
  unfolding act str_eq
  act_allow r buckets e = rw e

  -- An `allow` rule that applies, behind rules that do not, allows the request whatever rules stand
  -- behind it, and leaves the rate limiter as it is.
  pub allow_overrides :
      (before : List Rule) (r : Rule) (behind : List Rule) (buckets : RateLimiter)
      → All (λ q. applies x ctx q ≡ false) before
      → applies x ctx r ≡ true
      → r.action ≡ codes "allow"
      → evaluate_request_detailed x now ctx (before ++ r ∷ behind) buckets
        ≡ (decision r "allow" allow false, buckets)
  unfolding continue_with
  allow_overrides [] r behind buckets _ h e =
      evaluate_first r behind buckets
      ∙ ap (continue_with x now ctx behind)
          (rule_step-applies x now ctx r buckets h ∙ act_allow r buckets e)
  allow_overrides (q ∷ before) r behind buckets (skip, skips) h e =
      evaluate_skips q (before ++ r ∷ behind) buckets skip
      ∙ allow_overrides before r behind buckets skips h e
