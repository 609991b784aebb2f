-- ===== src/Proxy/Handle/Ends.antt =====
-- The four ways in which a request ends in `handle` of src/main.rs.
use docker_proxy.Common.{◌≡◌, ap, ◌∙◌, true, ◌⊎◌, Option, none, some, Str, codes}
use docker_proxy.Externals.{Externals}
use docker_proxy.Json.{Json}
use docker_proxy.Metrics.{fetch_add}
use docker_proxy.Audit.{AuditEvent, AuditSink, send}
use docker_proxy.Path.{canonicalize_path}
use docker_proxy.Rules.Decision.{allow, evaluate_request_detailed}
use docker_proxy.Config.{ProxyConfig}
use docker_proxy.RateLimiter.{RateLimiter}
use docker_proxy.Proxy.{ProxyState, Arrival, HttpRequest, Handled}
use docker_proxy.Proxy.Exchange.{Daemon}
use docker_proxy.Proxy.Decisions.{Caller}
use docker_proxy.Proxy.Handle.{Rendering, Admitted, context_of, rules_of, is_metrics_request}
use docker_proxy.Proxy.Handle.Records.{denials, IsUnrecorded, IsAbout, IsNoted}

module _ (x : Externals) (p : Rendering) (d : Daemon) (at : Arrival) (req : HttpRequest) where
  -- The caller is the one of the request, and its path is the accepted one.
  abbrev pub IsCaller : Caller → Type 0
  IsCaller c =
      (c.peer ≡ at.peer) × (c.method ≡ req.method) × (canonicalize_path req.path ≡ some c.path)

  -- The rules allow the request with this body to look at.
  abbrev pub AllowedBy : Admitted → Option Json → ProxyConfig → RateLimiter → Type 0
  AllowedBy a body_json config buckets =
      (evaluate_request_detailed x at.at_rules (context_of x p d at req a body_json)
        (rules_of config) buckets).0.result
      ≡ allow

  -- The ends of a request in the state `s`:
  -- it is not fit, or its body is not;
  -- the caller gets the metrics;
  -- the caller or the request is refused, and the last event says so;
  -- the rules let it through to the daemon.
  pub data Ends (s : ProxyState) (h : Handled) : Type 0 where
    unfit :
        (h.response.status ≡ 400) ⊎ ((h.response.status ≡ 408) ⊎ (h.response.status ≡ 413))
        → h.forwarded ≡ none
        → IsUnrecorded s h.state
        → Ends s h
    scraped :
        (path : Str)
        → canonicalize_path req.path ≡ some path
        → is_metrics_request x p d at req path s ≡ true
        → h.response.status ≡ 200
        → h.forwarded ≡ none
        → IsUnrecorded s h.state
        → Ends s h
    refused :
        (c : Caller) (before : AuditSink) (ev : AuditEvent)
        → IsCaller c
        → IsNoted c s.audit before
        → IsAbout c ev
        → (ev.event ≡ codes "auth_denied") ⊎ (ev.event ≡ codes "deny")
        → ev.status ≡ h.response.status
        → ev.message ≡ some h.response.body
        → h.forwarded ≡ none
        → denials h.state ≡ fetch_add (denials s) 1
        → h.state.audit ≡ send ev before
        → Ends s h
    let_through :
        (a : Admitted) (body_json : Option Json)
        → IsCaller a.caller
        → AllowedBy a body_json s.config s.rate_limiter
        → denials h.state ≡ denials s
        → IsNoted a.caller s.audit h.state.audit
        → Ends s h

  -- What the way of a request to its end depends on is the same.
  abbrev pub Continues : ProxyState → ProxyState → Type 0
  Continues s t =
      (t.config ≡ s.config)
      × (t.rate_limiter ≡ s.rate_limiter)
      × (t.metrics_path ≡ s.metrics_path)
      × (denials t ≡ denials s)
      × (t.audit ≡ s.audit)

  pub Ends-Continues : (s t : ProxyState) (h : Handled) → Continues s t → Ends t h → Ends s h
  Ends-Continues s t h (c, r, m, n, a) (Ends.unfit status none_sent (n2, a2)) =
      Ends.unfit status none_sent (n2 ∙ n, a2 ∙ a)
  Ends-Continues s t h (c, r, m, n, a)
        (Ends.scraped path canonical metrics status none_sent (n2, a2)) =
      Ends.scraped path canonical (rw m at metrics) status none_sent (n2 ∙ n, a2 ∙ a)
  Ends-Continues s t h (c, r, m, n, a)
        (Ends.refused caller before ev own noted about event status message none_sent counted
          sent) =
      Ends.refused caller before ev own (rw a at noted) about event status message none_sent
        (counted ∙ ap (λ k. fetch_add k 1) n) sent
  Ends-Continues s t h (c, r, m, n, a)
        (Ends.let_through admitted body_json own allowed same noted) =
      Ends.let_through admitted body_json own (rw (c, r) at allowed) (same ∙ n) (rw a at noted)
