-- ===== src/Rules/Decision/Denials.antt =====
-- Which rule a decision of src/rules.rs comes from, and why it denies.
use Prim.Native.String.{String}
use mathlib.Core.List.{Memᴰ}
use docker_proxy.Common.{
  ℕ, ◌≡◌, ◌≢◌, refl, sym, ap, ◌⊎◌, inl, inr, true, false, Option, none, some, List, [], ◌∷◌, arith,
  Str, codes, str_eq, str_eq_iff, str_eq_refl, ne_of_str_eq, ◌∙◌, unwrap_or, Bool-cases, is_empty,
  all,
}
use docker_proxy.Externals.{Externals}
use docker_proxy.Config.{Rule, RateLimitConfig}
use docker_proxy.RateLimiter.{RateLimiter, check}
use docker_proxy.Rules.Conditions.{EvaluationContext}
use docker_proxy.Rules.Nodes.{applies, evaluate_node}
use docker_proxy.Rules.Decision.{
  allow, deny, RuleDecision, default_decision, Step, go_on, decide, is_dry, lacks_role,
  role_message, bucket_key, limit, act, rule_step, evaluate_request_detailed, denial, continue_with,
}

module _ (x : Externals) (now : ℕ) (ctx : EvaluationContext) where
  -- Why a rule that applies forbids a request, with the status and the message that it has unless
  -- the rule sets its own.
  pub data Forbids (r : Rule) (status : ℕ) (message : Str) : Type 0 where
    by_deny :
        r.action ≡ codes "deny"
        → status ≡ 403
        → message ≡ codes "Forbidden by rule"
        → Forbids r status message
    by_role :
        r.action ≡ codes "require_role"
        → lacks_role r ctx ≡ true
        → status ≡ 403
        → message ≡ role_message r
        → Forbids r status message
    by_limit :
        (c : RateLimitConfig) (buckets : RateLimiter)
        → r.action ≡ codes "rate_limit"
        → r.rate_limit ≡ some c
        → (check x now (bucket_key r ctx) c.requests c.period c.penalty buckets).0 ≡ false
        → status ≡ 429
        → message ≡ codes "Rate limit exceeded"
        → Forbids r status message

  -- The three ways in which a rule decides.
  pub data Verdict (r : Rule) (d : RuleDecision) : Type 0 where
    allows : r.action ≡ codes "allow" → d.result ≡ allow → d.dry_run ≡ false → Verdict r d
    reports :
        (status : ℕ) (message : Str)
        → Forbids r status message
        → is_dry r ≡ true
        → d.result ≡ allow
        → d.dry_run ≡ true
        → Verdict r d
    denies :
        (status : ℕ) (message : Str)
        → Forbids r status message
        → is_dry r ≡ false
        → d.result ≡ deny (unwrap_or r.status status) (unwrap_or r.message message)
        → d.dry_run ≡ false
        → Verdict r d

  pub record IsDecidedBy (d : RuleDecision) (r : Rule) : Type 0 where
    pub applicable : applies x ctx r ≡ true
    pub name : d.rule_name ≡ some r.name
    pub action : d.action ≡ some r.action
    pub verdict : Verdict r d

  denial-Verdict :
      (r : Rule) (name : String) (status : ℕ) (message : Str)
      → Forbids r status message
      → Verdict r (denial r name status message)
  denial-Verdict r name status message f = elim (Bool-cases (is_dry r)) [
    | inl dry ↦ reports status message f dry (rw dry) (rw dry)
    | inr wet ↦ denies status message f wet (rw wet) (rw wet)
  ]

  -- What holds of the decision that one step makes, if it makes one.
  abbrev StepHas : (RuleDecision → Type 0) → Step → Type 0
  StepHas P (go_on buckets) = Unit
  StepHas P (decide d buckets) = P d

  abbrev IsSound : Rule → RuleDecision → Type 0
  IsSound r d = (d.rule_name ≡ some r.name) × (d.action ≡ some r.action) × Verdict r d

  denial-IsSound :
      (r : Rule) (name : String) (status : ℕ) (message : Str)
      → r.action ≡ codes name
      → Forbids r status message
      → IsSound r (denial r name status message)
  denial-IsSound r name status message a f = (
    elim (Bool-cases (is_dry r)) [ inl dry ↦ rw dry | inr wet ↦ rw wet ],
    elim (Bool-cases (is_dry r)) [ inl dry ↦ rw (dry, a) | inr wet ↦ rw (wet, a) ],
    denial-Verdict r name status message f,
  )

  limit-IsSound :
      (r : Rule) (c : RateLimitConfig) (buckets : RateLimiter)
      → r.action ≡ codes "rate_limit"
      → r.rate_limit ≡ some c
      → StepHas (IsSound r) (limit x now ctx r c buckets)
  unfolding limit
  limit-IsSound r c buckets a known =
      elim (Bool-cases (check x now (bucket_key r ctx) c.requests c.period c.penalty buckets).0) [
        | inl granted ↦ rw granted tt
        | inr refused ↦
            rw refused
              (denial-IsSound r "rate_limit" 429 _ a (by_limit c buckets a known refused refl refl))
      ]

  -- The configuration of a `rate_limit` rule, if it has one.
  limited-IsSound :
      (r : Rule) (o : Option RateLimitConfig) (buckets : RateLimiter)
      → r.action ≡ codes "rate_limit"
      → r.rate_limit ≡ o
      → StepHas (IsSound r) (elim o [ none ↦ go_on buckets | some c ↦ limit x now ctx r c buckets ])
  limited-IsSound r none buckets a known = tt
  limited-IsSound r (some c) buckets a known = limit-IsSound r c buckets a known

  act-IsSound : (r : Rule) (buckets : RateLimiter) → StepHas (IsSound r) (act x now ctx r buckets)
  unfolding act
  act-IsSound r buckets = elim (Bool-cases (str_eq r.action (codes "deny"))) [
    | inl is_deny ↦
        let a = (str_eq_iff r.action (codes "deny")).0 is_deny in
        rw is_deny (denial-IsSound r "deny" 403 _ a (by_deny a refl refl))
    | inr no_deny ↦ elim (Bool-cases (str_eq r.action (codes "allow"))) [
      | inl is_allow ↦
          let a = (str_eq_iff r.action (codes "allow")).0 is_allow in
          rw (no_deny, is_allow) (refl, sym (ap some a), allows a refl refl)
      | inr no_allow ↦ elim (Bool-cases (str_eq r.action (codes "require_role"))) [
        | inl is_role ↦ elim (Bool-cases (lacks_role r ctx)) [
          | inl lacks ↦
              let a = (str_eq_iff r.action (codes "require_role")).0 is_role in
              rw (no_deny, no_allow, is_role, lacks)
                (denial-IsSound r "require_role" 403 _ a (by_role a lacks refl refl))
          | inr has ↦ rw (no_deny, no_allow, is_role, has) tt
        ]
        | inr no_role ↦ elim (Bool-cases (str_eq r.action (codes "response_filter"))) [
          | inl is_filter ↦ rw (no_deny, no_allow, no_role, is_filter) tt
          | inr no_filter ↦ elim (Bool-cases (str_eq r.action (codes "rate_limit"))) [
            | inl is_limit ↦ elim (Bool-cases (is_dry r)) [
              | inl dry ↦ rw (no_deny, no_allow, no_role, no_filter, is_limit, dry) tt
              | inr wet ↦
                  rw (no_deny, no_allow, no_role, no_filter, is_limit, wet)
                    (limited-IsSound r r.rate_limit buckets
                      ((str_eq_iff r.action (codes "rate_limit")).0 is_limit) refl)
            ]
            | inr other ↦ rw (no_deny, no_allow, no_role, no_filter, other) tt
          ]
        ]
      ]
    ]
  ]

  pub rule_step-applies :
      (r : Rule) (buckets : RateLimiter)
      → applies x ctx r ≡ true
      → rule_step x now ctx r buckets ≡ act x now ctx r buckets
  unfolding rule_step applies
  rule_step-applies r buckets h = elim (Bool-cases (is_empty r.conditions)) [
    | inl empty ↦ ground (arith, empty)
    | inr given ↦ elim (Bool-cases (all (evaluate_node x ctx) r.conditions)) [
      | inl hold ↦ rw (given, hold)
      | inr fail ↦ ground (arith, fail)
    ]
  ]

  pub rule_step_skips :
      (r : Rule) (buckets : RateLimiter)
      → applies x ctx r ≡ false
      → rule_step x now ctx r buckets ≡ go_on buckets
  unfolding rule_step applies
  rule_step_skips r buckets h = elim (Bool-cases (is_empty r.conditions)) [
    | inl empty ↦ rw empty
    | inr given ↦ elim (Bool-cases (all (evaluate_node x ctx) r.conditions)) [
      | inl hold ↦ ground (arith, given, hold)
      | inr fail ↦ rw (given, fail)
    ]
  ]

  decided_step :
      (r : Rule) (s : Step)
      → applies x ctx r ≡ true
      → StepHas (IsSound r) s
      → StepHas (λ d. IsDecidedBy d r) s
  decided_step r (go_on buckets) h sound = tt
  decided_step r (decide d buckets) h (name, action, verdict) = record {
    applicable = h;
    name = name;
    action = action;
    verdict = verdict;
  }

  rule_step-IsDecidedBy :
      (r : Rule) (buckets : RateLimiter)
      → StepHas (λ d. IsDecidedBy d r) (rule_step x now ctx r buckets)
  rule_step-IsDecidedBy r buckets = elim (Bool-cases (applies x ctx r)) [
    | inl h ↦ rw (rule_step-applies r buckets h) (decided_step r _ h (act-IsSound r buckets))
    | inr h ↦ rw (rule_step_skips r buckets h) tt
  ]

  abbrev pub IsExplained : List Rule → RuleDecision → Type 0
  IsExplained rules d = (d ≡ default_decision) ⊎ ((r : Rule) × Memᴰ r rules × IsDecidedBy d r)

  IsExplained-cons :
      (r : Rule) (rules : List Rule) (d : RuleDecision)
      → IsExplained rules d
      → IsExplained (r ∷ rules) d
  IsExplained-cons r rules d (inl e) = inl e
  IsExplained-cons r rules d (inr (q, m, h)) = inr (q, Memᴰ.tail m, h)

  loop_sound :
      (r : Rule) (rules : List Rule) (s : Step)
      → StepHas (λ d. IsDecidedBy d r) s
      → ((after : RateLimiter)
          → IsExplained rules (evaluate_request_detailed x now ctx rules after).0)
      → IsExplained (r ∷ rules) (continue_with x now ctx rules s).0
  unfolding continue_with
  loop_sound r rules (go_on after) h rest = IsExplained-cons r rules _ (rest after)
  loop_sound r rules (decide d after) h rest = inr (r, Memᴰ.head refl, h)

  pub evaluate_request_detailed_sound :
      (rules : List Rule) (buckets : RateLimiter)
      → IsExplained rules (evaluate_request_detailed x now ctx rules buckets).0
  unfolding evaluate_request_detailed continue_with
  evaluate_request_detailed_sound [] buckets = inl refl
  evaluate_request_detailed_sound (r ∷ rules) buckets =
      loop_sound r rules _ (rule_step-IsDecidedBy r buckets)
        (λ after. evaluate_request_detailed_sound rules after)

  admin_not_forbidden :
      (r : Rule) (status : ℕ) (message : Str)
      → ctx.user_role ≡ some (codes "admin")
      → r.action ≡ codes "require_role"
      → ¬ Forbids r status message
  unfolding str_eq
  admin_not_forbidden r status message admin role (by_deny a _ _) =
      ne_of_str_eq (codes "require_role") (codes "deny") refl (sym role ∙ a)
  admin_not_forbidden r status message admin role (by_role a lacks _ _) =
      let same : str_eq (unwrap_or ctx.user_role []) (codes "admin") ≡ true =
        rw admin (str_eq_refl (codes "admin")) in
      ground (arith, same)
  admin_not_forbidden r status message admin role (by_limit c buckets a _ _ _ _) =
      ne_of_str_eq (codes "require_role") (codes "rate_limit") refl (sym role ∙ a)

  admin_not_decided :
      (r : Rule) (d : RuleDecision)
      → ctx.user_role ≡ some (codes "admin")
      → r.action ≡ codes "require_role"
      → ¬ Verdict r d
  unfolding str_eq
  admin_not_decided r d admin role (allows a _ _) =
      ne_of_str_eq (codes "require_role") (codes "allow") refl (sym role ∙ a)
  admin_not_decided r d admin role (reports status message f _ _ _) =
      admin_not_forbidden r status message admin role f
  admin_not_decided r d admin role (denies status message f _ _ _) =
      admin_not_forbidden r status message admin role f

  -- For a user with the role `admin` no `require_role` rule decides, whatever role it asks for.
  pub admin_passes_require_role :
      (rules : List Rule) (buckets : RateLimiter)
      → ctx.user_role ≡ some (codes "admin")
      → (evaluate_request_detailed x now ctx rules buckets).0.action ≢ some (codes "require_role")
  admin_passes_require_role rules buckets admin e =
      elim (evaluate_request_detailed_sound rules buckets) [
        | inl default ↦ cc (ap (λ (d : RuleDecision). d.action) default)
        | inr (r, m, h) ↦ admin_not_decided r _ admin (cc) h.verdict
      ]
