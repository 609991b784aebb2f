-- ===== src/Proxy/Handle/Kept.antt =====
-- What `handle` of src/main.rs keeps of the state of the proxy, request by request: the
-- configuration, and the bounds of the two limiters.
use docker_proxy.Common.{
  ℕ, ◌≡◌, refl, ◌∙◌, Bool, true, false, inl, inr, Bool-cases, Option-cases, if◌then◌else◌, Option,
  none, some, is_some_and, is_empty, List, Str,
}
use docker_proxy.Externals.{Externals}
use docker_proxy.Json.{Json}
use docker_proxy.Config.{ProxyConfig, Rule, ResponseFilterEntry}
use docker_proxy.RateLimiter
use docker_proxy.AuthLimiter
use docker_proxy.Rules.Conditions.{EvaluationContext}
use docker_proxy.Rules.Decision.{RuleDecision, evaluate_request_detailed}
use docker_proxy.Rules.Decision.Kept.{evaluate_request_detailed-IsValid}
use docker_proxy.Metrics.{Metrics, fetch_add}
use docker_proxy.Proxy.{
  add_requests, add_allowed, add_denied, add_too_large, add_bad_request, add_request_timeout,
  add_upgrade, ProxyState, Arrival, HttpRequest, UpstreamRequest, with_metrics, answer,
  make_response_string,
}
use docker_proxy.Auth.{authenticate}
use docker_proxy.Auth.Kept.{authenticate-IsValid, authenticate-requests_total}
use docker_proxy.Audit.{AuditEvent, is_enabled}
use docker_proxy.Path.{canonicalize_path}
use docker_proxy.Upgrade.{is_upgrade_request}
use docker_proxy.Proxy.Exchange.{Daemon, exchange}
use docker_proxy.Proxy.Upgrades.{handle_upgrade}
use docker_proxy.Proxy.Decisions.{Caller, report_dry_run, report_denial, audited}
use docker_proxy.Proxy.Handle.{
  Rendering, Admitted, handle, handle_path, handle_admitted, handle_upgrade_request, handle_body,
  handle_decision, rules_of, context_of, requires_json_body, json_message, is_metrics_request,
  is_bad_query,
}
use docker_proxy.Proxy.Handle.Frames.{
  exchange-SameBut, handle_upgrade-SameBut, report_dry_run-SameBut, report_denial-SameBut, IsKept,
  SameBut-IsKept,
}
use docker_proxy.Proxy.Cases.{BodyRead-cases, AuthOutcome-cases, RuleResult-cases}

module _ (config : ProxyConfig) (counted : ℕ) where
  abbrev Kept : ProxyState → Type 0
  Kept s = IsKept config counted s

  exchange-Kept :
      (x : Externals) (d : Daemon) (filters : List ResponseFilterEntry) (req : UpstreamRequest)
      (s : ProxyState)
      → Kept s
      → Kept (exchange x d filters req s).state
  exchange-Kept x d filters req s k =
      SameBut-IsKept config counted s (exchange x d filters req s).state
        (exchange-SameBut x d filters req s) k

  handle_upgrade-Kept :
      (d : Daemon) (req : UpstreamRequest) (s : ProxyState)
      → Kept s
      → Kept (handle_upgrade d req s).state
  handle_upgrade-Kept d req s k =
      SameBut-IsKept config counted s (handle_upgrade d req s).state
        (handle_upgrade-SameBut d req s) k

  report_dry_run-Kept :
      (c : Caller) (decided : RuleDecision) (s : ProxyState)
      → Kept s
      → Kept (report_dry_run c decided s)
  report_dry_run-Kept c decided s k =
      SameBut-IsKept config counted s (report_dry_run c decided s)
        (report_dry_run-SameBut c decided s) k

  report_denial-Kept :
      (limited : Bool) (c : Caller) (decided : RuleDecision) (status : ℕ) (message : Str)
      (s : ProxyState)
      → Kept s
      → Kept (report_denial limited c decided status message s)
  report_denial-Kept limited c decided status message s k =
      SameBut-IsKept config counted s (report_denial limited c decided status message s)
        (report_denial-SameBut limited c decided status message s) k

  -- A counter of another name.
  counter-Kept :
      (f : Metrics → Metrics) (s : ProxyState)
      → (f s.auth.metrics).requests_total ≡ s.auth.metrics.requests_total
      → Kept s
      → Kept (with_metrics f s)
  counter-Kept f s same k =
      SameBut-IsKept config counted s (with_metrics f s) (refl, refl, refl, same) k

  -- The state behind the rules.
  decided-Kept :
      (x : Externals) (now : ℕ) (ctx : EvaluationContext) (rules : List Rule) (c : Caller)
      (s : ProxyState)
      → Kept s
      → Kept (
          report_dry_run c (evaluate_request_detailed x now ctx rules s.rate_limiter).0 (record s {
            rate_limiter = (evaluate_request_detailed x now ctx rules s.rate_limiter).1;
          }))
  decided-Kept x now ctx rules c s k =
      report_dry_run-Kept c (evaluate_request_detailed x now ctx rules s.rate_limiter).0
        (record s { rate_limiter = (evaluate_request_detailed x now ctx rules s.rate_limiter).1 })
        (record {
          same_config = k.same_config;
          rates = evaluate_request_detailed-IsValid x now ctx rules s.rate_limiter k.rates;
          failures = k.failures;
          requests = k.requests;
        })

  module _ (x : Externals) (p : Rendering) (d : Daemon) (at : Arrival) (req : HttpRequest) where
    handle_decision-Kept :
        (a : Admitted) (body : Str) (body_json : Option Json) (s : ProxyState)
        → Kept s
        → Kept (handle_decision x p d at req a body body_json s).state
    unfolding handle_decision
    handle_decision-Kept a body body_json s k =
        let ctx = context_of x p d at req a body_json in
        let decided =
          evaluate_request_detailed x at.at_rules ctx (rules_of s.config) s.rate_limiter in
        let known = decided-Kept x at.at_rules ctx (rules_of s.config) a.caller s k in
        elim (RuleResult-cases decided.0.result) [
          | inl let_in ↦ rw (let_in, handle_decision) (exchange-Kept x d _ _ _ known)
          | inr (status, message, refused) ↦
              rw (refused, handle_decision)
                (report_denial-Kept true a.caller decided.0 status message _ known)
        ]

    handle_upgrade_request-Kept :
        (a : Admitted) (s : ProxyState)
        → Kept s
        → Kept (handle_upgrade_request x p d at req a s).state
    unfolding handle_upgrade_request add_upgrade add_allowed
    handle_upgrade_request-Kept a s k =
        let ctx = context_of x p d at req a none in
        let rules = rules_of s.config in
        let decided = evaluate_request_detailed x at.at_rules ctx rules s.rate_limiter in
        let known =
          decided-Kept x at.at_rules ctx rules a.caller (with_metrics add_upgrade s)
            (counter-Kept add_upgrade s refl k) in
        elim (RuleResult-cases decided.0.result) [
          | inl let_in ↦
              rw (let_in, handle_upgrade_request)
                (handle_upgrade-Kept d _ _ (counter-Kept add_allowed _ refl known))
          | inr (status, message, refused) ↦
              rw (refused, handle_upgrade_request)
                (report_denial-Kept false a.caller decided.0 status message _ known)
        ]

    no_json-Kept :
        (a : Admitted) (body : Str) (s : ProxyState)
        → Kept s
        → Kept
            (if requires_json_body p a.caller.path
              then answer
                  (make_response_string 400 (json_message (p.json_error body)))
                  (with_metrics add_bad_request s)
              else handle_decision x p d at req a body none s).state
    unfolding add_bad_request
    no_json-Kept a body s k = elim (Bool-cases (requires_json_body p a.caller.path)) [
      | inl needed ↦ rw needed (counter-Kept add_bad_request s refl k)
      | inr free ↦ rw free (handle_decision-Kept a body none s k)
    ]

    handle_body-Kept :
        (a : Admitted) (s : ProxyState) → Kept s → Kept (handle_body x p d at req a s).state
    unfolding handle_body add_too_large add_bad_request add_request_timeout
    handle_body-Kept a s k = elim (BodyRead-cases req.body) [
      | inr (inl large) ↦ rw (large, handle_body) (counter-Kept add_too_large s refl k)
      | inr (inr (inl broken)) ↦ rw (broken, handle_body) (counter-Kept add_bad_request s refl k)
      | inr (inr (inr late)) ↦ rw (late, handle_body) (counter-Kept add_request_timeout s refl k)
      | inl (body, whole) ↦ elim (Bool-cases (is_empty body)) [
        | inl empty ↦ rw (whole, empty, handle_body) (handle_decision-Kept a body none s k)
        | inr filled ↦ elim (Option-cases (x.from_slice body)) [
          | inl no_json ↦ rw (whole, filled, no_json, handle_body) (no_json-Kept a body s k)
          | inr (v, json) ↦
              rw (whole, filled, json, handle_body) (handle_decision-Kept a body (some v) s k)
        ]
      ]
    ]

    handle_admitted-Kept :
        (uri : Str) (c : Caller) (s : ProxyState)
        → Kept s
        → Kept (handle_admitted x p d at req uri c s).state
    unfolding handle_admitted
    handle_admitted-Kept uri c s k = elim (Bool-cases (is_metrics_request x p d at req c.path s)) [
      | inl scraped ↦ rw scraped k
      | inr other ↦ elim (Bool-cases (is_upgrade_request x req.headers)) [
        | inl upgrade ↦ rw (other, upgrade) (handle_upgrade_request-Kept _ s k)
        | inr plain ↦ rw (other, plain) (handle_body-Kept _ s k)
      ]
    ]

    audited-Kept : (ev : AuditEvent) (s : ProxyState) → Kept s → Kept (audited ev s)
    audited-Kept ev s k = elim (Bool-cases (is_enabled s.audit)) [
      | inl enabled ↦ rw enabled (record {
        same_config = k.same_config;
        rates = k.rates;
        failures = k.failures;
        requests = k.requests;
      })
      | inr silent ↦ rw silent k
    ]

    handle_path-Kept :
        (path : Str) (s : ProxyState) → Kept s → Kept (handle_path x p d at req path s).state
    unfolding handle_path add_denied
    handle_path-Kept path s k =
        let answered =
          authenticate x at.at_auth s.config s.env_secret req.headers at.peer at.cert s.auth in
        let known : Kept (record s { auth = answered.1 }) = record {
          same_config = k.same_config;
          rates = k.rates;
          failures =
              authenticate-IsValid x at.at_auth s.config s.env_secret req.headers at.peer at.cert
                s.auth k.failures;
          requests =
              authenticate-requests_total x at.at_auth s.config s.env_secret req.headers at.peer
                at.cert s.auth
              ∙ k.requests;
        } in
        elim (AuthOutcome-cases answered.0) [
          | inr (status, message, refused) ↦
              rw (refused, handle_path) (audited-Kept _ _ (counter-Kept add_denied _ refl known))
          | inl (role, identity, admitted) ↦
              rw (admitted, handle_path) (handle_admitted-Kept _ _ _ known)
        ]

module _ (x : Externals) (p : Rendering) (d : Daemon) (at : Arrival) (req : HttpRequest) where
  abbrev next_count : ProxyState → ℕ
  next_count s = fetch_add s.auth.metrics.requests_total 1

  counted-IsKept :
      (s : ProxyState)
      → RateLimiter.Bounds.IsValid s.rate_limiter
      → AuthLimiter.Bounds.IsValid s.auth.auth_limiter
      → IsKept s.config (next_count s) (with_metrics add_requests s)
  unfolding add_requests
  counted-IsKept s rates failures = record {
    same_config = refl;
    rates = rates;
    failures = failures;
    requests = refl;
  }

  -- Every request, whatever becomes of it, is counted once and leaves the configuration as it is, and
  -- the tables of the two limiters within their bounds, if they were.
  pub handle-IsKept :
      (s : ProxyState)
      → RateLimiter.Bounds.IsValid s.rate_limiter
      → AuthLimiter.Bounds.IsValid s.auth.auth_limiter
      → IsKept s.config (fetch_add s.auth.metrics.requests_total 1) (handle x p d at req s).state
  unfolding handle add_bad_request
  handle-IsKept s rates failures =
      let known = counted-IsKept s rates failures in
      let counted = with_metrics add_requests s in
      elim (Option-cases (canonicalize_path req.path)) [
        | inl malformed ↦
            rw (malformed, handle)
              (counter-Kept s.config (next_count s) add_bad_request counted refl known)
        | inr (path, canonical) ↦ elim (Bool-cases (is_some_and req.query is_bad_query)) [
          | inl bad ↦
              rw (canonical, bad, handle)
                (counter-Kept s.config (next_count s) add_bad_request counted refl known)
          | inr good ↦
              rw (canonical, good, handle)
                (handle_path-Kept s.config (next_count s) x p d at req path counted known)
        ]
      ]
