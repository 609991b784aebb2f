-- ===== src/Proxy/Handle/Records.antt =====
-- What the last steps of `handle` of src/main.rs record of a request: denials, and events of the audit.
use docker_proxy.Common.{
  ℕ, ◌≡◌, refl, sym, ap, ◌∙◌, Bool, false, ◌⊎◌, inl, inr, Bool-cases, Option-cases, List, arith,
  Str, codes,
}
use docker_proxy.Externals.{Externals}
use docker_proxy.Config.{ResponseFilterEntry}
use docker_proxy.Rules.Decision.{RuleDecision}
use docker_proxy.Metrics.{fetch_add, observe_upstream_latency_ms, record_rule_deny}
use docker_proxy.Audit.{
  AuditEvent, AuditSink, disabled, open_sink, closed, send, is_enabled, new_event,
}
use docker_proxy.Proxy.{
  ProxyState, UpstreamRequest, add_allowed, add_denied, add_dry_run, add_rate_limited,
  add_upstream_error, add_upstream_timeout,
}
use docker_proxy.Proxy.Exchange.{Daemon, exchange}
use docker_proxy.Proxy.Upgrades.{handle_upgrade}
use docker_proxy.Proxy.Decisions.{
  Caller, audited, dry_run_event, deny_event, report_dry_run, report_denial, status_code,
}

abbrev pub denials : ProxyState → ℕ
denials s = s.auth.metrics.requests_denied

-- No denial is counted and no event is sent.
abbrev pub IsUnrecorded : ProxyState → ProxyState → Type 0
IsUnrecorded s t = (denials t ≡ denials s) × (t.audit ≡ s.audit)

-- The event names the caller and what it asks for.
abbrev pub IsAbout : Caller → AuditEvent → Type 0
IsAbout c ev = (ev.peer_ip ≡ c.peer) × (ev.method ≡ c.method) × (ev.path ≡ c.path)

-- No event is sent but one of a dry run.
abbrev pub IsNoted : Caller → AuditSink → AuditSink → Type 0
IsNoted c sink after =
    (after ≡ sink)
    ⊎ ((ev : AuditEvent) × IsAbout c ev × (ev.event ≡ codes "dry_run") × (after ≡ send ev sink))

send_disabled : (ev : AuditEvent) (sink : AuditSink) → is_enabled sink ≡ false → send ev sink ≡ sink
unfolding is_enabled send
send_disabled ev disabled e = refl
send_disabled ev (open_sink events) e = ground (arith, e)
send_disabled ev closed e = refl

pub audit-audited : (ev : AuditEvent) (s : ProxyState) → (audited ev s).audit ≡ send ev s.audit
audit-audited ev s = elim (Bool-cases (is_enabled s.audit)) [
  | inl enabled ↦ rw enabled refl
  | inr silent ↦ rw silent (sym (send_disabled ev s.audit silent))
]

pub denials-audited : (ev : AuditEvent) (s : ProxyState) → denials (audited ev s) ≡ denials s
denials-audited ev s = ground arith

pub exchange-IsUnrecorded :
    (x : Externals) (d : Daemon) (filters : List ResponseFilterEntry) (req : UpstreamRequest)
    (s : ProxyState)
    → IsUnrecorded s (exchange x d filters req s).state
unfolding exchange add_allowed observe_upstream_latency_ms add_upstream_error add_upstream_timeout
exchange-IsUnrecorded x d filters req s = ground arith

pub handle_upgrade-IsUnrecorded :
    (d : Daemon) (req : UpstreamRequest) (s : ProxyState)
    → IsUnrecorded s (handle_upgrade d req s).state
unfolding handle_upgrade add_upstream_error add_upstream_timeout
handle_upgrade-IsUnrecorded d req s = ground arith

pub denials-report_dry_run :
    (c : Caller) (decided : RuleDecision) (s : ProxyState)
    → denials (report_dry_run c decided s) ≡ denials s
unfolding report_dry_run add_dry_run record_rule_deny
denials-report_dry_run c decided s = ground arith

pub report_dry_run-IsNoted :
    (c : Caller) (decided : RuleDecision) (s : ProxyState)
    → IsNoted c s.audit (report_dry_run c decided s).audit
unfolding report_dry_run dry_run_event new_event
report_dry_run-IsNoted c decided s = elim (Option-cases decided.rule_name) [
  | inl unnamed ↦ rw (unnamed, report_dry_run) (inl refl)
  | inr (rule, named) ↦ elim (Bool-cases decided.dry_run) [
    | inr enforced ↦ rw (named, enforced, report_dry_run) (inl refl)
    | inl dry ↦
        rw (named, dry, report_dry_run)
          (inr (dry_run_event c rule decided, (refl, refl, refl), refl, audit-audited _ _))
  ]
]

pub denials-report_denial :
    (limited : Bool) (c : Caller) (decided : RuleDecision) (status : ℕ) (message : Str)
    (s : ProxyState)
    → denials (report_denial limited c decided status message s) ≡ fetch_add (denials s) 1
unfolding report_denial add_denied add_rate_limited record_rule_deny
denials-report_denial limited c decided status message s = ground arith

pub audit-report_denial :
    (limited : Bool) (c : Caller) (decided : RuleDecision) (status : ℕ) (message : Str)
    (s : ProxyState)
    → (report_denial limited c decided status message s).audit
      ≡ send (deny_event c (status_code status) message decided) s.audit
unfolding report_denial
audit-report_denial limited c decided status message s =
    audit-audited _ _ ∙ ap (send (deny_event c (status_code status) message decided)) (ground arith)
