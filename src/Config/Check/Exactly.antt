-- ===== src/Config/Check/Exactly.antt =====
-- What `validate` of src/config.rs accepts, exactly.
use docker_proxy.Common.{
  filled, not_empty, ◌≡◌, refl, ◌≢◌, ◌↔◌, Bool, true, false, ◌&&◌, ◌||◌, Bool-cases, Option-cases,
  Option, none, some, ◌>>=◌, ◌⊎◌, inl, inr, List, [], ◌∷◌, arith, Str, codes, str_eq, str_eq_iff,
  ne_of_str_eq, guard_none, is_empty, All, is_none, unwrap_or, starts_with,
}
use docker_proxy.Config.{ProxyConfig, GlobalConfig, AuthConfig, MetricsConfig, Rule}
use docker_proxy.Config.Check.{
  metrics_path_empty, metrics_path_versioned, check_auth_type, check_rule, check_rules,
  check_metrics, validate,
}
use docker_proxy.Config.Check.Accepted.{IsComplete, check_rules_sound, both_none}

given {ℓ} :
    {A : Type ℓ} (a b : Str) (o : Option A) → (a ≡ b → o ≢ none) → (str_eq a b && is_none o) ≡ false
given a b (some v) h = ground arith
given a b none h = elim (Bool-cases (str_eq a b)) [
  | inl same ↦ absurd (h ((str_eq_iff a b).0 same) refl)
  | inr other ↦ rw other refl
]

check_rule_complete : (rule : Rule) → IsComplete rule → check_rule rule ≡ none
unfolding check_rule
check_rule_complete rule h =
    rw
      (
        not_empty rule.name h.named,
        not_empty rule.action h.acts,
        not_empty rule.conditions h.conditional,
        given rule.action (codes "require_role") rule.role h.role,
        given rule.action (codes "rate_limit") rule.rate_limit h.limit,
        given rule.action (codes "response_filter") rule.response_filter h.filter,
      )
      refl

check_rules_complete : (rules : List Rule) → All IsComplete rules → check_rules rules ≡ none
unfolding check_rules
check_rules_complete [] h = refl
check_rules_complete (rule ∷ rules) (h, hs) =
    rw (check_rule_complete rule h, check_rules_complete rules hs) refl

-- A type of authentication, if one is given.
abbrev pub IsKnownType : Str → Type 0
IsKnownType t = (t ≡ codes "none") ⊎ ((t ≡ codes "bearer") ⊎ (t ≡ codes "mtls"))

IsKnownType-check :
    (auth : AuthConfig) (t : Str)
    → check_auth_type auth ≡ none
    → auth.auth_type ≡ some t
    → IsKnownType t
unfolding check_auth_type
IsKnownType-check auth t e set = elim (Bool-cases (str_eq t (codes "none"))) [
  | inl open_to_all ↦ inl ((str_eq_iff _ _).0 open_to_all)
  | inr not_none ↦ elim (Bool-cases (str_eq t (codes "bearer"))) [
    | inl bearer ↦ inr (inl ((str_eq_iff _ _).0 bearer))
    | inr not_bearer ↦ elim (Bool-cases (str_eq t (codes "mtls"))) [
      | inl mtls ↦ inr (inr ((str_eq_iff _ _).0 mtls))
      | inr not_mtls ↦
          ground (arith, rw (set, not_none, not_bearer, not_mtls, check_auth_type) at e)
    ]
  ]
]

check-IsKnownType :
    (auth : AuthConfig)
    → ((t : Str) → auth.auth_type ≡ some t → IsKnownType t)
    → check_auth_type auth ≡ none
unfolding check_auth_type str_eq
check-IsKnownType auth h = elim (Option-cases auth.auth_type) [
  | inl unset ↦ rw unset refl
  | inr (t, set) ↦ elim (h t set) [
    | inl e ↦ rw (set, e) refl
    | inr (inl e) ↦ rw (set, e) refl
    | inr (inr e) ↦ rw (set, e) refl
  ]
]

-- The path of the metrics, if they are served: not the root, and none that looks like a version.
abbrev pub HasPath : MetricsConfig → Type 0
HasPath m =
    let path = unwrap_or m.path (codes "/metrics") in
    m.enabled ≡ some true
    → (path ≢ codes "/") × (path ≢ []) × (starts_with path (codes "/v") ≡ false)

HasPath-check : (m : MetricsConfig) → check_metrics m ≡ none → HasPath m
unfolding check_metrics
HasPath-check m e enabled =
    let path = unwrap_or m.path (codes "/metrics") in
    let (good, e1) =
      guard_none (str_eq path (codes "/") || is_empty path) metrics_path_empty _
        (rw (enabled, check_metrics) at e) in
    let (plain, _) = guard_none (starts_with path (codes "/v")) metrics_path_versioned _ e1 in
    (
      ne_of_str_eq path (codes "/") (ground (arith, good)),
      filled path (ground (arith, good)),
      plain,
    )

enabled_of : (o : Option Bool) → unwrap_or o false ≡ true → o ≡ some true
enabled_of none h = ground arith
enabled_of (some b) h = ground (arith, h)

other_text : (s t : Str) → s ≢ t → str_eq s t ≡ false
other_text s t h = elim (Bool-cases (str_eq s t)) [
  | inl same ↦ absurd (h ((str_eq_iff s t).0 same))
  | inr other ↦ other
]

check-HasPath : (m : MetricsConfig) → HasPath m → check_metrics m ≡ none
unfolding check_metrics
check-HasPath m h =
    let path = unwrap_or m.path (codes "/metrics") in
    elim (Bool-cases (unwrap_or m.enabled false)) [
      | inr off ↦ rw off refl
      | inl on ↦
          let (not_root, not_blank, plain) = h (enabled_of m.enabled on) in
          rw (on, other_text path (codes "/") not_root, not_empty path not_blank, plain) refl
    ]

-- The auth type is known, every rule is complete, and metrics that are served have a path.
pub record IsAcceptable (config : ProxyConfig) : Type 0 where
  pub known :
      (auth : AuthConfig) (t : Str)
      → config.auth ≡ some auth
      → auth.auth_type ≡ some t
      → IsKnownType t
  pub complete : All IsComplete (unwrap_or config.rules [])
  pub served :
      (global : GlobalConfig) (m : MetricsConfig)
      → config.global ≡ some global
      → global.metrics ≡ some m
      → HasPath m

validate-IsAcceptable : (config : ProxyConfig) → validate config ≡ none → IsAcceptable config
unfolding validate
validate-IsAcceptable config e =
    let (first, metrics) = both_none _ (config.global >>= λ g. g.metrics >>= check_metrics) e in
    let (auth, rules) =
      both_none (config.auth >>= check_auth_type) (check_rules (unwrap_or config.rules [])) first in
    record {
      known = λ a t some_auth set. IsKnownType-check a t (rw some_auth at auth) set;
      complete = check_rules_sound (unwrap_or config.rules []) rules;
      served = λ g m some_global some_metrics.
          HasPath-check m (rw (some_global, some_metrics) at metrics);
    }

auth_accepted :
    (o : Option AuthConfig)
    → ((auth : AuthConfig) (t : Str) → o ≡ some auth → auth.auth_type ≡ some t → IsKnownType t)
    → (o >>= check_auth_type) ≡ none
auth_accepted none h = refl
auth_accepted (some auth) h = check-IsKnownType auth (λ t set. h auth t refl set)

metrics_accepted :
    (o : Option GlobalConfig)
    → ((global : GlobalConfig) (m : MetricsConfig)
        → o ≡ some global
        → global.metrics ≡ some m
        → HasPath m)
    → (o >>= λ g. g.metrics >>= check_metrics) ≡ none
metrics_accepted none h = refl
metrics_accepted (some g) h = elim (Option-cases g.metrics) [
  | inl unset ↦ rw unset refl
  | inr (m, set) ↦ rw set (check-HasPath m (h g m refl set))
]

-- `validate` accepts exactly the configurations whose auth type, if there is one, is `none`, `bearer`
-- or `mtls`, whose rules each have a name, an action, conditions and what the action needs, and
-- whose metrics, if they are enabled, have a path that is neither empty nor `/` and does not start
-- with `/v`.
pub validate_iff : (config : ProxyConfig) → (validate config ≡ none) ↔ IsAcceptable config
unfolding validate
validate_iff config = (
  validate-IsAcceptable config,
  λ h.
      rw
        (
          auth_accepted config.auth h.known,
          check_rules_complete (unwrap_or config.rules []) h.complete,
        )
        (metrics_accepted config.global h.served),
)
