-- ===== src/Proxy/Handle/Forwarded.antt =====
-- What the daemon gets from `handle` of src/main.rs, and when.
use docker_proxy.Common.{
  ◌≡◌, ◌⊎◌, inl, inr, true, false, Option, none, some, arith, Str, codes, Bool-cases, Option-cases,
  is_some_and, is_empty, [], ◌∷◌, All, if◌then◌else◌,
}
use docker_proxy.Externals.{Externals}
use docker_proxy.Json.{Json}
use docker_proxy.Headers.{text_of, get_all}
use docker_proxy.Path.{canonicalize_path}
use docker_proxy.ClientIp.{compute_client_ip}
use docker_proxy.Upgrade.{is_upgrade_request}
use docker_proxy.Auth.{AuthOutcome, allowed, authenticate}
use docker_proxy.Rules.Decision.{allow, evaluate_request_detailed}
use docker_proxy.Proxy.{
  ProxyState, Arrival, HttpRequest, UpstreamRequest, read, with_metrics, add_requests,
}
use docker_proxy.Proxy.Headers.{forward_headers}
use docker_proxy.Proxy.Headers.Dropped.{withheld, values_of, sent_headers_lem}
use docker_proxy.Proxy.Exchange.Sent.{exchange-Sends, handle_upgrade-Sends}
use docker_proxy.Proxy.Cases.{BodyRead-cases, AuthOutcome-cases, RuleResult-cases}
use docker_proxy.Proxy.Exchange.{Daemon}
use docker_proxy.Proxy.Upgrades.{upgrade_request}
use docker_proxy.Proxy.Decisions.{Caller}
use docker_proxy.Proxy.Handle.{
  Rendering, Admitted, context_of, handle, handle_path, handle_admitted, handle_body,
  handle_decision, handle_upgrade_request, proxied_request, path_and_query, rules_of, caller_of,
  trusted_of, is_bad_query, is_metrics_request, requires_json_body,
}

module _ (x : Externals) (p : Rendering) (d : Daemon) (at : Arrival) (req : HttpRequest) where
  -- The rules allow the request, with this body to look at.
  abbrev pub IsAllowed : Admitted → Option Json → ProxyState → Type 0
  IsAllowed a body_json s =
      (evaluate_request_detailed x at.at_rules (context_of x p d at req a body_json)
        (rules_of s.config) s.rate_limiter).0.result
      ≡ allow

  abbrev pub seen_body : Str → Option Json
  seen_body body = if is_empty body then none else x.from_slice body

  abbrev pub upgrade_of : Admitted → UpstreamRequest
  upgrade_of a =
      upgrade_request req.method a.uri (forward_headers req.headers)
        (text_of x (codes "upgrade") req.headers)

  -- The request that is sent for what the rules allowed: an upgrade, for which the rules saw no
  -- body, or the request with its whole body.
  abbrev pub IsSentFor : Admitted → ProxyState → UpstreamRequest → Type 0
  IsSentFor a s sent =
      ((is_upgrade_request x req.headers ≡ true) × IsAllowed a none s × (sent ≡ upgrade_of a))
      ⊎ ((body : Str) × (req.body ≡ read body)
          × IsAllowed a (seen_body body) s
          × (sent ≡ proxied_request x p d at req a body))

  none_sent : (sent : UpstreamRequest) → none ≡ some sent → ⊥
  none_sent sent e = ground arith

  only :
      (o : Option UpstreamRequest) (r sent : UpstreamRequest)
      → (o ≡ none) ⊎ (o ≡ some r)
      → o ≡ some sent
      → sent ≡ r
  only o r sent (inl e) f = ground arith
  only o r sent (inr e) f = ground arith

  decision_sends :
      (a : Admitted) (body : Str) (body_json : Option Json) (s : ProxyState)
      (sent : UpstreamRequest)
      → (handle_decision x p d at req a body body_json s).forwarded ≡ some sent
      → IsAllowed a body_json s × (sent ≡ proxied_request x p d at req a body)
  unfolding handle_decision
  decision_sends a body body_json s sent e =
      let ctx = context_of x p d at req a body_json in
      let decided =
        evaluate_request_detailed x at.at_rules ctx (rules_of s.config) s.rate_limiter in
      elim (RuleResult-cases decided.0.result) [
        | inr (status, message, refusal) ↦ ground (arith, refusal)
        | inl permitted ↦ (
          permitted,
          only _ _ sent (exchange-Sends x d _ _ _) (rw (permitted, handle_decision) at e),
        )
      ]

  upgrade_sends :
      (a : Admitted) (s : ProxyState) (sent : UpstreamRequest)
      → (handle_upgrade_request x p d at req a s).forwarded ≡ some sent
      → IsAllowed a none s × (sent ≡ upgrade_of a)
  unfolding handle_upgrade_request
  upgrade_sends a s sent e =
      let ctx = context_of x p d at req a none in
      let decided =
        evaluate_request_detailed x at.at_rules ctx (rules_of s.config) s.rate_limiter in
      elim (RuleResult-cases decided.0.result) [
        | inr (status, message, refusal) ↦ ground (arith, refusal)
        | inl permitted ↦ (
          permitted,
          only _ _ sent (handle_upgrade-Sends x d _ _)
              (rw (permitted, handle_upgrade_request) at e),
        )
      ]

  read_sends :
      (a : Admitted) (body : Str) (s : ProxyState) (sent : UpstreamRequest)
      → req.body ≡ read body
      → (handle_body x p d at req a s).forwarded ≡ some sent
      → IsAllowed a (seen_body body) s × (sent ≡ proxied_request x p d at req a body)
  unfolding handle_body
  read_sends a body s sent b e = elim (Bool-cases (is_empty body)) [
    | inl empty ↦ rw empty (decision_sends a body none s sent (rw (b, empty, handle_body) at e))
    | inr full ↦ elim (Option-cases (x.from_slice body)) [
      | inr (v, found) ↦
          rw (full, found)
            (decision_sends a body (some v) s sent (rw (b, full, found, handle_body) at e))
      | inl bad ↦ elim (Bool-cases (requires_json_body p a.caller.path)) [
        | inl strict ↦ absurd (none_sent sent (rw (b, full, bad, strict, handle_body) at e))
        | inr lax ↦
            rw (full, bad)
              (decision_sends a body none s sent (rw (b, full, bad, lax, handle_body) at e))
      ]
    ]
  ]

  body_sends :
      (a : Admitted) (s : ProxyState) (sent : UpstreamRequest)
      → (handle_body x p d at req a s).forwarded ≡ some sent
      → (body : Str) × (req.body ≡ read body)
        × IsAllowed a (seen_body body) s
        × (sent ≡ proxied_request x p d at req a body)
  unfolding handle_body
  body_sends a s sent e = elim (BodyRead-cases req.body) [
    | inl (body, b) ↦ let (ok, same) = read_sends a body s sent b e in (body, b, ok, same)
    | inr (inl b) ↦ absurd (none_sent sent (rw (b, handle_body) at e))
    | inr (inr (inl b)) ↦ absurd (none_sent sent (rw (b, handle_body) at e))
    | inr (inr (inr b)) ↦ absurd (none_sent sent (rw (b, handle_body) at e))
  ]

  -- The caller, the path and the address that the decision is about.
  abbrev pub admitted_of : Str → Caller → ProxyState → Admitted
  admitted_of uri caller s = record {
    caller = caller;
    uri = uri;
    client_ip = compute_client_ip x at.peer req.headers (trusted_of x p d at req s.config);
  }

  admitted_sends :
      (uri : Str) (caller : Caller) (s : ProxyState) (sent : UpstreamRequest)
      → (handle_admitted x p d at req uri caller s).forwarded ≡ some sent
      → IsSentFor (admitted_of uri caller s) s sent
  unfolding handle_admitted
  admitted_sends uri caller s sent e =
      elim (Bool-cases (is_metrics_request x p d at req caller.path s)) [
        | inl metrics ↦ absurd (none_sent sent (rw (metrics, handle_admitted) at e))
        | inr other ↦ elim (Bool-cases (is_upgrade_request x req.headers)) [
          | inl up ↦
              let (ok, same) = upgrade_sends _ s sent (rw (other, up, handle_admitted) at e) in
              inl (up, ok, same)
          | inr plain ↦ inr (body_sends _ s sent (rw (other, plain, handle_admitted) at e))
        ]
      ]

  -- The outcome of `authenticate` when `handle` has counted the request.
  abbrev pub outcome_of : ProxyState → AuthOutcome
  outcome_of s =
      (authenticate x at.at_auth s.config s.env_secret req.headers at.peer at.cert
        (with_metrics add_requests s).auth).0

  -- Why a request is sent to the daemon: its path is accepted, its query is no bad one, the caller
  -- is let in, and the rules allow what is sent.
  abbrev pub IsPassed : ProxyState → UpstreamRequest → Type 0
  IsPassed s sent =
      (path : Str) × (role : Option Str) × (identity : Option Str) × (canonicalize_path req.path
        ≡ some path)
      × (is_some_and req.query is_bad_query ≡ false)
      × (outcome_of s ≡ allowed role identity)
      × IsSentFor
          (admitted_of (path_and_query path req.query) (caller_of x p d at req path role identity)
            s)
          s sent

  path_sends :
      (path : Str) (s : ProxyState) (sent : UpstreamRequest)
      → (handle_path x p d at req path (with_metrics add_requests s)).forwarded ≡ some sent
      → (role : Option Str) × (identity : Option Str) × (outcome_of s ≡ allowed role identity)
        × IsSentFor
            (admitted_of
              (path_and_query path req.query)
              (caller_of x p d at req path role identity)
              s)
            s
            sent
  unfolding handle_path
  path_sends path s sent e = elim (AuthOutcome-cases (outcome_of s)) [
    | inl (role, identity, ok) ↦
        (role, identity, ok, admitted_sends _ _ _ sent (rw (ok, handle_path) at e))
    | inr (status, message, refusal) ↦ absurd (none_sent sent (rw (refusal, handle_path) at e))
  ]

  -- `handle` sends a request to the daemon only if the path of the caller's request is accepted, its
  -- query is no bad one, `authenticate` lets the caller in, and the rules allow the request with the
  -- accepted path, the caller's role and address and, unless it asks for an upgrade, the JSON of its
  -- body. What is sent then is the request with the accepted path, the query and the forwarded
  -- headers: with the whole body, or for an upgrade with none.
  pub handle_forwards :
      (s : ProxyState) (sent : UpstreamRequest)
      → (handle x p d at req s).forwarded ≡ some sent
      → IsPassed s sent
  unfolding handle
  handle_forwards s sent e = elim (Option-cases (canonicalize_path req.path)) [
    | inl bad ↦ absurd (none_sent sent (rw (bad, handle) at e))
    | inr (path, ok) ↦ elim (Bool-cases (is_some_and req.query is_bad_query)) [
      | inl bad ↦ absurd (none_sent sent (rw (ok, bad, handle) at e))
      | inr fine ↦
          let (role, identity, known, sends) =
            path_sends path s sent (rw (ok, fine, handle) at e) in
          (path, role, identity, ok, fine, known, sends)
    ]
  ]

  -- A request that `handle` sends has no header of a withheld name, whatever the caller sends under
  -- it: no `authorization`, none that tells a client or a proxy, and none of a single hop. Its only
  -- `host` is that of the proxy. Its only `connection` is the proxy's, `close` with no `upgrade`, or
  -- `upgrade` with the caller's `upgrade` alone, where that is text, for a request that asks for one.
  pub handle_drops :
      (s : ProxyState) (sent : UpstreamRequest)
      → (handle x p d at req s).forwarded ≡ some sent
      → All (λ name. get_all name sent.headers ≡ []) withheld
        × (get_all (codes "host") sent.headers ≡ codes "docker.proxy" ∷ [])
        × (((get_all (codes "connection") sent.headers ≡ codes "close" ∷ [])
              × (get_all (codes "upgrade") sent.headers ≡ []))
            ⊎ ((is_upgrade_request x req.headers ≡ true)
                × (get_all (codes "connection") sent.headers ≡ codes "upgrade" ∷ [])
                × (get_all (codes "upgrade") sent.headers
                    ≡ values_of (text_of x (codes "upgrade") req.headers))))
  unfolding upgrade_request
  handle_drops s sent e =
      let (path, role, identity, _, _, _, sends) = handle_forwards s sent e in
      elim sends [
        | inl (up, _, same) ↦
            let u = text_of x (codes "upgrade") req.headers in
            let (gone, host, connection, upgrade) =
              sent_headers_lem (codes "upgrade") u req.headers in
            rw same (gone, host, inr (up, connection, upgrade))
        | inr (body, _, _, same) ↦
            let (gone, host, connection, upgrade) =
              sent_headers_lem (codes "close") none req.headers in
            rw same (gone, host, inl (connection, upgrade))
      ]
