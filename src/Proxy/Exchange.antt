-- ===== src/Proxy/Exchange.antt =====
-- The exchange with the daemon in `handle` of src/main.rs, behind the decision of the rules. What the
-- daemon and the connection do are values.
pub mod Sent
use docker_proxy.Common.{
  ℕ, Bool, not, ◌&&◌, if◌then◌else◌, some, unwrap_or, List, Str, codes, is_empty, contains,
}
use docker_proxy.Externals.{Externals}
use docker_proxy.Config.{ResponseFilterEntry}
use docker_proxy.Headers.{HeaderMap, text_of}
use docker_proxy.Metrics.{observe_upstream_latency_ms}
use docker_proxy.Rules.Filters.{apply_response_filters}
use docker_proxy.Proxy.{
  ProxyState, HttpResponse, UpstreamRequest, Handled, BodyRead, read, timed_out, make_response,
  with_metrics, answer, add_allowed, add_upstream_error, add_upstream_timeout,
}
use docker_proxy.Proxy.Headers.{response_headers}

pub data Connection : Type 0 where
  connected : Connection
  refused : Connection
  stalled : Connection

pub record UpstreamResponse : Type 0 where
  pub status : ℕ
  pub headers : HeaderMap
  pub body : BodyRead

pub data Reply : Type 0 where
  replied : UpstreamResponse → Reply
  send_failed : Reply
  send_stalled : Reply

-- `connect_upstream`, the handshake, the two builders of crate hyper, `send_request` and the clock.
pub record Daemon : Type 0 where
  pub connect : Connection
  pub handshake : Bool
  pub request_builds : UpstreamRequest → Bool
  pub response_builds : HttpResponse → Bool
  pub send_request : UpstreamRequest → Reply
  pub elapsed_ms : ℕ

module _ (x : Externals) (d : Daemon) (filters : List ResponseFilterEntry)
    (req : UpstreamRequest) where
  -- After the request was sent.
  abbrev pub sent : HttpResponse → ProxyState → Handled
  sent response s = record { response = response; state = s; forwarded = some req }

  unfoldable pub respond : UpstreamResponse → Str → ProxyState → Handled
  respond res response_bytes s =
      let content_type =
        unwrap_or (text_of x (codes "content-type") res.headers)
          (codes "application/octet-stream") in
      let final_bytes =
        if not (is_empty filters) && contains content_type (codes "application/json")
        then apply_response_filters x filters response_bytes
        else response_bytes in
      let counted =
        with_metrics (λ m. add_allowed (observe_upstream_latency_ms d.elapsed_ms m)) s in
      let response : HttpResponse = record {
        status = res.status;
        headers = response_headers res.headers content_type;
        body = final_bytes;
      } in
      if d.response_builds response
      then sent response counted
      else sent (make_response 502 "failed to build response") counted

  unfoldable pub read_response : UpstreamResponse → ProxyState → Handled
  unfolding respond
  read_response res s = elim res.body [
    | read response_bytes ↦ respond res response_bytes s
    | timed_out ↦
        sent (make_response 504 "docker response timeout") (with_metrics add_upstream_timeout s)
    | _ ↦
        sent (make_response 502 "failed to read docker response")
          (with_metrics add_upstream_error s)
  ]

  unfoldable pub exchange : ProxyState → Handled
  unfolding read_response
  exchange s = elim d.connect [
    | refused ↦
        answer (make_response 502 "docker socket unavailable") (with_metrics add_upstream_error s)
    | stalled ↦
        answer (make_response 504 "docker socket connect timeout")
          (with_metrics add_upstream_timeout s)
    | connected ↦
        if not d.handshake
        then answer (make_response 502 "docker handshake failed")
            (with_metrics add_upstream_error s)
        else if not (d.request_builds req)
        then answer (make_response 502 "failed to build upstream request") s
        else (elim (d.send_request req) [
          | send_failed ↦
              sent (make_response 502 "docker request failed") (with_metrics add_upstream_error s)
          | send_stalled ↦
              sent (make_response 504 "docker upstream timeout")
                (with_metrics add_upstream_timeout s)
          | replied res ↦ read_response res s
        ])
  ]
