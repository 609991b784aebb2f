-- ===== src/Proxy/Handle/Endings.antt =====
-- How a request ends in `handle` of src/main.rs, with what is counted and recorded of it.
use docker_proxy.Common.{
  ℕ, ◌≡◌, refl, ap, ◌∙◌, Bool, true, false, inl, inr, Bool-cases, Option-cases, Option, none, some,
  is_some_and, is_empty, if◌then◌else◌, Str,
}
use docker_proxy.Externals.{Externals}
use docker_proxy.Json.{Json}
use docker_proxy.Metrics.{fetch_add}
use docker_proxy.Audit.{new_event}
use docker_proxy.Path.{canonicalize_path}
use docker_proxy.Upgrade.{is_upgrade_request}
use docker_proxy.Auth.{authenticate}
use docker_proxy.Auth.Kept.{authenticate-requests_denied}
use docker_proxy.Rules.Decision.{evaluate_request_detailed, RuleDecision}
use docker_proxy.Proxy.{
  ProxyState, Arrival, HttpRequest, with_metrics, answer, make_response_string, add_requests,
  add_denied, add_allowed, add_upgrade, add_too_large, add_bad_request, add_request_timeout,
}
use docker_proxy.Proxy.Exchange.{Daemon}
use docker_proxy.Proxy.Decisions.{
  Caller, auth_denied_event, deny_event, denial_response, report_dry_run, report_denial,
  status_code,
}
use docker_proxy.Proxy.Handle.{
  Rendering, Admitted, context_of, handle, handle_path, handle_admitted, handle_body,
  handle_decision, handle_upgrade_request, rules_of, caller_of, is_bad_query, is_metrics_request,
  requires_json_body, json_message,
}
use docker_proxy.Proxy.Cases.{BodyRead-cases, AuthOutcome-cases, RuleResult-cases}
use docker_proxy.Proxy.Handle.Records.{
  denials, IsNoted, audit-audited, denials-audited, exchange-IsUnrecorded,
  handle_upgrade-IsUnrecorded, denials-report_dry_run, report_dry_run-IsNoted,
  denials-report_denial, audit-report_denial,
}
use docker_proxy.Proxy.Handle.Ends.{Ends, IsCaller, Ends-Continues}

module _ (x : Externals) (p : Rendering) (d : Daemon) (at : Arrival) (req : HttpRequest) where
  refused_by_rule :
      (limited : Bool) (a : Admitted) (body_json : Option Json) (status : ℕ) (message : Str)
      (s t : ProxyState)
      → IsCaller x p d at req a.caller
      → IsNoted a.caller s.audit t.audit
      → denials t ≡ denials s
      → (decided : RuleDecision)
      → Ends x p d at req s (
          answer
            (denial_response status message)
            (report_denial limited a.caller decided status message t))
  unfolding denial_response make_response_string deny_event new_event
  refused_by_rule limited a body_json status message s t own noted same decided =
      Ends.refused a.caller t.audit (deny_event a.caller (status_code status) message decided) own
        noted (refl, refl, refl) (inr refl) refl refl refl
        (denials-report_denial limited a.caller decided status message t
          ∙ ap (λ k. fetch_add k 1) same)
        (audit-report_denial limited a.caller decided status message t)

  module _ (a : Admitted) (own : IsCaller x p d at req a.caller) where
    handle_decision-Ends :
        (body : Str) (body_json : Option Json) (s : ProxyState)
        → Ends x p d at req s (handle_decision x p d at req a body body_json s)
    unfolding handle_decision
    handle_decision-Ends body body_json s =
        let decided =
          evaluate_request_detailed x at.at_rules (context_of x p d at req a body_json)
            (rules_of s.config) s.rate_limiter in
        let reported = report_dry_run a.caller decided.0 (record s { rate_limiter = decided.1 }) in
        let noted =
          report_dry_run-IsNoted a.caller decided.0 (record s { rate_limiter = decided.1 }) in
        let same =
          denials-report_dry_run a.caller decided.0 (record s { rate_limiter = decided.1 }) in
        elim (RuleResult-cases decided.0.result) [
          | inl let_in ↦
              let (n, k) = exchange-IsUnrecorded x d _ _ reported in
              rw (let_in, handle_decision)
                (Ends.let_through a body_json own let_in (n ∙ same) (rw k noted))
          | inr (status, message, denied) ↦
              rw (denied, handle_decision)
                (refused_by_rule true a body_json status message s reported own noted same
                  decided.0)
        ]

    handle_upgrade_request-Ends :
        (s : ProxyState) → Ends x p d at req s (handle_upgrade_request x p d at req a s)
    unfolding handle_upgrade_request add_upgrade add_allowed
    handle_upgrade_request-Ends s =
        let decided =
          evaluate_request_detailed x at.at_rules (context_of x p d at req a none)
            (rules_of s.config) s.rate_limiter in
        let t = record (with_metrics add_upgrade s) { rate_limiter = decided.1 } in
        let reported = report_dry_run a.caller decided.0 t in
        let noted = report_dry_run-IsNoted a.caller decided.0 t in
        let same = denials-report_dry_run a.caller decided.0 t in
        elim (RuleResult-cases decided.0.result) [
          | inl let_in ↦
              let (n, k) = handle_upgrade-IsUnrecorded d _ (with_metrics add_allowed reported) in
              rw (let_in, handle_upgrade_request)
                (Ends.let_through a none own let_in (n ∙ same) (rw k noted))
          | inr (status, message, denied) ↦
              rw (denied, handle_upgrade_request)
                (refused_by_rule false a none status message s reported own noted same decided.0)
        ]

    no_json-Ends :
        (body : Str) (s : ProxyState)
        → Ends x p d at req s (
            if requires_json_body p a.caller.path
            then answer
                (make_response_string 400 (json_message (p.json_error body)))
                (with_metrics add_bad_request s)
            else handle_decision x p d at req a body none s)
    unfolding add_bad_request make_response_string
    no_json-Ends body s = elim (Bool-cases (requires_json_body p a.caller.path)) [
      | inl needed ↦ rw needed (Ends.unfit (inl refl) refl (refl, refl))
      | inr free ↦ rw free (handle_decision-Ends body none s)
    ]

    handle_body-Ends : (s : ProxyState) → Ends x p d at req s (handle_body x p d at req a s)
    unfolding handle_body add_too_large add_bad_request add_request_timeout make_response_string
    handle_body-Ends s = elim (BodyRead-cases req.body) [
      | inr (inl large) ↦ rw (large, handle_body) (Ends.unfit (inr (inr refl)) refl (refl, refl))
      | inr (inr (inl broken)) ↦ rw (broken, handle_body) (Ends.unfit (inl refl) refl (refl, refl))
      | inr (inr (inr late)) ↦
          rw (late, handle_body) (Ends.unfit (inr (inl refl)) refl (refl, refl))
      | inl (body, whole) ↦ elim (Bool-cases (is_empty body)) [
        | inl empty ↦ simp (whole, empty, handle_body) (handle_decision-Ends body none s)
        | inr filled ↦ elim (Option-cases (x.from_slice body)) [
          | inl no_json ↦ simp (whole, filled, no_json, handle_body) (no_json-Ends body s)
          | inr (v, json) ↦
              simp (whole, filled, json, handle_body) (handle_decision-Ends body (some v) s)
        ]
      ]
    ]

  handle_admitted-Ends :
      (uri : Str) (c : Caller) (s : ProxyState)
      → IsCaller x p d at req c
      → Ends x p d at req s (handle_admitted x p d at req uri c s)
  unfolding handle_admitted
  handle_admitted-Ends uri c s own = elim (Bool-cases (is_metrics_request x p d at req c.path s)) [
    | inl metrics ↦ rw metrics (Ends.scraped c.path own.2 metrics refl refl (refl, refl))
    | inr other ↦ elim (Bool-cases (is_upgrade_request x req.headers)) [
      | inl upgrade ↦ rw (other, upgrade) (handle_upgrade_request-Ends _ own s)
      | inr plain ↦ rw (other, plain) (handle_body-Ends _ own s)
    ]
  ]

  handle_path-Ends :
      (path : Str) (s : ProxyState)
      → canonicalize_path req.path ≡ some path
      → Ends x p d at req s (handle_path x p d at req path s)
  unfolding handle_path add_denied auth_denied_event new_event make_response_string
  handle_path-Ends path s canonical =
      let answered =
        authenticate x at.at_auth s.config s.env_secret req.headers at.peer at.cert s.auth in
      let same =
        authenticate-requests_denied x at.at_auth s.config s.env_secret req.headers at.peer at.cert
          s.auth in
      elim (AuthOutcome-cases answered.0) [
        | inr (status, message, denied) ↦
            rw (denied, handle_path)
              (Ends.refused (caller_of x p d at req path none none) s.audit
                (auth_denied_event (caller_of x p d at req path none none) status message)
                (refl, refl, canonical) (inl refl) (refl, refl, refl) (inl refl) refl refl refl
                (denials-audited _ _ ∙ ap (λ k. fetch_add k 1) same) (audit-audited _ _))
        | inl (role, identity, admitted) ↦
            rw (admitted, handle_path)
              (Ends-Continues x p d at req s (record s { auth = answered.1 }) _
                (refl, refl, refl, same, refl) (handle_admitted-Ends _ _ _ (refl, refl, canonical)))
      ]

  -- A request ends in one of four ways. It is not fit, with the status 400, 408 or 413, or it asks
  -- for the metrics and gets them: then nothing is sent to the daemon, counted as denied or
  -- recorded. It is refused: then nothing is sent to the daemon, one denial is counted, and the last
  -- event that is sent names the caller and the request, with the status and the text of the
  -- response. Or the rules let it through: then no denial is counted. Apart from that event none is
  -- sent but one of a dry run.
  pub handle-Ends : (s : ProxyState) → Ends x p d at req s (handle x p d at req s)
  unfolding handle add_bad_request add_requests make_response_string
  handle-Ends s = elim (Option-cases (canonicalize_path req.path)) [
    | inl malformed ↦ rw (malformed, handle) (Ends.unfit (inl refl) refl (refl, refl))
    | inr (path, canonical) ↦ elim (Bool-cases (is_some_and req.query is_bad_query)) [
      | inl bad ↦ rw (canonical, bad, handle) (Ends.unfit (inl refl) refl (refl, refl))
      | inr good ↦
          rw (canonical, good, handle)
            (Ends-Continues x p d at req s (with_metrics add_requests s) _
              (refl, refl, refl, refl, refl)
              (handle_path-Ends path (with_metrics add_requests s) canonical))
    ]
  ]
