-- ===== src/Proxy/Decisions.antt =====
-- What `handle` of src/main.rs counts and records of a decision of the rules, with and without an
-- upgrade.
use Prim.Native.String.{String}
use docker_proxy.Common.{
  ℕ, Bool, true, false, ◌&&◌, if◌then◌else◌, Option, none, some, is_some_and, Str, codes, str_eq,
  leb,
}
use docker_proxy.Metrics.{record_rule_deny}
use docker_proxy.Audit.{AuditEvent, new_event, send, is_enabled}
use docker_proxy.Rules.Decision.{RuleDecision}
use docker_proxy.Proxy.{
  ProxyState, HttpResponse, make_response_string, with_metrics, add_denied, add_dry_run,
  add_rate_limited,
}

-- What stands in every audit event of a request.
pub record Caller : Type 0 where
  pub peer : Str
  pub method : Str
  pub path : Str
  pub user_agent : Str
  pub user_role : Option Str
  pub identity : Option Str

abbrev pub audited : AuditEvent → ProxyState → ProxyState
audited ev s = if is_enabled s.audit then record s { audit = send ev s.audit } else s

abbrev pub event_of : String → Caller → AuditEvent
event_of event c = new_event event c.peer c.method c.path c.user_agent

unfoldable pub auth_denied_event : Caller → ℕ → Str → AuditEvent
auth_denied_event c status message = record (event_of "auth_denied" c) {
  status = status;
  message = some message;
}

unfoldable pub dry_run_event : Caller → Str → RuleDecision → AuditEvent
dry_run_event c rule decided = record (event_of "dry_run" c) {
  user_role = c.user_role;
  identity = c.identity;
  rule_name = some rule;
  rule_action = decided.action;
  dry_run = true;
}

unfoldable pub deny_event : Caller → ℕ → Str → RuleDecision → AuditEvent
deny_event c status message decided = record (event_of "deny" c) {
  user_role = c.user_role;
  identity = c.identity;
  rule_name = decided.rule_name;
  rule_action = decided.action;
  status = status;
  message = some message;
}

-- A decision of a dry run with the name of its rule.
unfoldable pub report_dry_run : Caller → RuleDecision → ProxyState → ProxyState
report_dry_run c decided s = elim decided.rule_name [
  | none ↦ s
  | some rule ↦
      if decided.dry_run
      then audited (dry_run_event c rule decided)
          (with_metrics (λ m. record_rule_deny rule true (add_dry_run m)) s)
      else s
]

-- `StatusCode::from_u16(status).unwrap_or(StatusCode::FORBIDDEN)`.
abbrev pub status_code : ℕ → ℕ
status_code status = if leb 100 status && leb status 999 then status else 403

abbrev pub count_rule : RuleDecision → ProxyState → ProxyState
count_rule decided s = elim decided.rule_name [
  | none ↦ s
  | some rule ↦ with_metrics (record_rule_deny rule false) s
]

abbrev pub is_rate_limit : RuleDecision → Bool
is_rate_limit decided = is_some_and decided.action (λ a. str_eq a (codes "rate_limit"))

-- A denial: `limited` says whether the branch counts denials of the rate limiter, which the branch
-- of the upgrades does not.
unfoldable pub report_denial : Bool → Caller → RuleDecision → ℕ → Str → ProxyState → ProxyState
report_denial limited c decided status message s =
    let counted = with_metrics add_denied s in
    let rated =
      if limited && is_rate_limit decided then with_metrics add_rate_limited counted else counted in
    audited (deny_event c (status_code status) message decided) (count_rule decided rated)

unfoldable pub denial_response : ℕ → Str → HttpResponse
denial_response status message = make_response_string (status_code status) message
