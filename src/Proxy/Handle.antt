-- ===== src/Proxy/Handle.antt =====
-- `handle` of src/main.rs from the request to the response. The log lines are left out.
pub mod Forwarded
pub mod Frames
pub mod Kept
pub mod Records
pub mod Ends
pub mod Endings
use docker_proxy.Common.{
  ℕ, Bool, true, false, not, ◌&&◌, ◌||◌, if◌then◌else◌, Option, none, some, ◌>>=◌, is_some_and,
  unwrap_or, List, [], ◌∷◌, ◌++◌, Str, codes, str_eq, is_empty, any, length, ltb,
}
use docker_proxy.Externals.{Externals}
use docker_proxy.Json.{Json}
use docker_proxy.Config.{ProxyConfig, Rule}
use docker_proxy.Headers.{HeaderMap, text_of}
use docker_proxy.Path.{canonicalize_path, is_control, max_path_len}
use docker_proxy.ClientIp.{compute_client_ip, parse_trusted_proxies}
use docker_proxy.Upgrade.{is_upgrade_request}
use docker_proxy.Auth.{AuthOutcome, AuthState, allowed, denied, authenticate}
use docker_proxy.Rules.Conditions.{EvaluationContext}
use docker_proxy.Rules.Decision.{RuleResult, RuleDecision, evaluate_request_detailed}
use docker_proxy.Rules.Filters.{collect_response_filters}
use docker_proxy.Metrics.Render.{render_prometheus}
use docker_proxy.Proxy.{
  ProxyState, Arrival, HttpRequest, HttpResponse, UpstreamRequest, Handled, BodyRead, read,
  too_large, failed, timed_out, make_response, make_response_string, with_metrics, answer,
  add_requests, add_allowed, add_denied, add_too_large, add_bad_request, add_request_timeout,
  add_upgrade,
}
use docker_proxy.Proxy.Headers.{collect_headers, forward_headers}
use docker_proxy.Proxy.Exchange.{Daemon, exchange}
use docker_proxy.Proxy.Upgrades.{handle_upgrade, upgrade_request}
use docker_proxy.Proxy.Decisions.{
  Caller, audited, auth_denied_event, report_dry_run, report_denial, denial_response,
}

-- The test of `requires_json_body` that is a regular expression, and the printed error of serde.
pub record Rendering : Type 0 where
  pub is_update_path : Str → Bool
  -- The text of the error where `from_slice` gives nothing.
  pub json_error : Str → Str

abbrev pub is_bad_query : Str → Bool
is_bad_query q = ltb max_path_len (length q) || any is_control q

-- `canonical_path_and_query`.
unfoldable pub path_and_query : Str → Option Str → Str
path_and_query path none = path
path_and_query path (some q) = path ++ (codes "?" ++ q)

unfoldable pub requires_json_body : Rendering → Str → Bool
requires_json_body p path = str_eq path (codes "/containers/create") || p.is_update_path path

abbrev pub json_message : Str → Str
json_message e = codes "Request body must be valid JSON for this endpoint: " ++ e

abbrev pub rules_of : ProxyConfig → List Rule
rules_of config = unwrap_or config.rules []

-- What `handle` has found out when the caller is let in.
pub record Admitted : Type 0 where
  pub caller : Caller
  pub uri : Str
  pub client_ip : Str

module _ (x : Externals) (p : Rendering) (d : Daemon) (at : Arrival) (req : HttpRequest) where
  abbrev pub context_of : Admitted → Option Json → EvaluationContext
  context_of a body_json = record {
    path = a.caller.path;
    method = req.method;
    headers = collect_headers x req.headers [];
    client_ip = a.client_ip;
    body_json = body_json;
    user_role = a.caller.user_role;
  }

  -- `upgrade_requested`: the rules see no body.
  unfoldable pub handle_upgrade_request : Admitted → ProxyState → Handled
  handle_upgrade_request a s =
      let counted = with_metrics add_upgrade s in
      let decided =
        evaluate_request_detailed x at.at_rules (context_of a none) (rules_of s.config)
          s.rate_limiter in
      let reported =
        report_dry_run a.caller decided.0 (record counted { rate_limiter = decided.1 }) in
      elim decided.0.result [
        | RuleResult.deny status message ↦
            answer (denial_response status message)
              (report_denial false a.caller decided.0 status message reported)
        | RuleResult.allow ↦
            handle_upgrade d
              (upgrade_request req.method a.uri (forward_headers req.headers)
                (text_of x (codes "upgrade") req.headers))
              (with_metrics add_allowed reported)
      ]

  abbrev pub proxied_request : Admitted → Str → UpstreamRequest
  proxied_request a body = record {
    method = req.method;
    uri = a.uri;
    headers =
        (codes "host", codes "docker.proxy")
        ∷ (codes "connection", codes "close")
        ∷ forward_headers req.headers;
    body = body;
  }

  -- The decision on a request whose body is read.
  unfoldable pub handle_decision : Admitted → Str → Option Json → ProxyState → Handled
  handle_decision a body body_json s =
      let ctx = context_of a body_json in
      let decided =
        evaluate_request_detailed x at.at_rules ctx (rules_of s.config) s.rate_limiter in
      let reported = report_dry_run a.caller decided.0 (record s { rate_limiter = decided.1 }) in
      elim decided.0.result [
        | RuleResult.deny status message ↦
            answer (denial_response status message)
              (report_denial true a.caller decided.0 status message reported)
        | RuleResult.allow ↦
            exchange x d (collect_response_filters x (rules_of s.config) ctx)
              (proxied_request a body) reported
      ]

  unfoldable pub handle_body : Admitted → ProxyState → Handled
  unfolding handle_decision
  handle_body a s = elim req.body [
    | too_large ↦ answer (make_response 413 "Request body too large") (with_metrics add_too_large s)
    | failed ↦ answer (make_response 400 "Request body invalid") (with_metrics add_bad_request s)
    | timed_out ↦
        answer (make_response 408 "Request body read timeout") (with_metrics add_request_timeout s)
    | read body ↦
        if is_empty body then handle_decision a body none s else (elim (x.from_slice body) [
          | some v ↦ handle_decision a body (some v) s
          | none ↦
              if requires_json_body p a.caller.path
              then answer (make_response_string 400 (json_message (p.json_error body)))
                  (with_metrics add_bad_request s)
              else handle_decision a body none s
        ])
  ]

  abbrev pub trusted_of : ProxyConfig → List Str
  trusted_of config =
      unwrap_or (config.global >>= λ g. g.trusted_proxies >>= λ v. some (parse_trusted_proxies x v))
        []

  abbrev pub is_metrics_request : Str → ProxyState → Bool
  is_metrics_request path s =
      is_some_and s.metrics_path (λ mp. str_eq path mp) && str_eq req.method (codes "GET")

  -- The caller is let in with this role.
  unfoldable pub handle_admitted : Str → Caller → ProxyState → Handled
  unfolding handle_upgrade_request handle_body
  handle_admitted uri caller s =
      let a : Admitted = record {
        caller = caller;
        uri = uri;
        client_ip = compute_client_ip x at.peer req.headers (trusted_of s.config);
      } in
      if is_metrics_request caller.path s
      then answer
          (record {
            status = 200;
            headers = (codes "content-type", codes "text/plain; version=0.0.4; charset=utf-8") ∷ [];
            body = render_prometheus s.auth.metrics;
          })
          s
      else if is_upgrade_request x req.headers
      then handle_upgrade_request a s
      else handle_body a s

  abbrev pub caller_of : Str → Option Str → Option Str → Caller
  caller_of path role identity = record {
    peer = at.peer;
    method = req.method;
    path = path;
    user_agent = unwrap_or (text_of x (codes "user-agent") req.headers) (codes "-");
    user_role = role;
    identity = identity;
  }

  unfoldable pub handle_path : Str → ProxyState → Handled
  unfolding handle_admitted
  handle_path path s =
      let authenticated =
        authenticate x at.at_auth s.config s.env_secret req.headers at.peer at.cert s.auth in
      let known = record s { auth = authenticated.1 } in
      elim authenticated.0 [
        | denied status message ↦ answer (make_response_string status message) (
            audited (auth_denied_event (caller_of path none none) status message)
              (with_metrics add_denied known))
        | allowed role identity ↦
            handle_admitted (path_and_query path req.query) (caller_of path role identity) known
      ]

  unfoldable pub handle : ProxyState → Handled
  unfolding handle_path
  handle s =
      let counted = with_metrics add_requests s in
      elim (canonicalize_path req.path) [
        | none ↦
            answer (make_response 400 "Malformed request path")
              (with_metrics add_bad_request counted)
        | some path ↦
            if is_some_and req.query is_bad_query
            then answer (make_response 400 "Malformed query string")
                (with_metrics add_bad_request counted)
            else handle_path path counted
      ]
