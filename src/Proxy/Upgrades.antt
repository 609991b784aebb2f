-- ===== src/Proxy/Upgrades.antt =====
-- `handle_upgrade` of src/main.rs, behind the decision of the rules, and what the task that it leaves
-- behind counts. The copying of bytes between the two sides is not modelled.
use docker_proxy.Common.{not, if◌then◌else◌, Option, none, some, [], ◌∷◌, ◌++◌, Str, codes, ◌==◌}
use docker_proxy.Headers.{HeaderMap}
use docker_proxy.Metrics.{Metrics}
use docker_proxy.Proxy.{
  ProxyState, HttpResponse, UpstreamRequest, Handled, BodyRead, read, make_response, with_metrics,
  answer, add_upstream_error, add_upstream_timeout,
}
use docker_proxy.Proxy.Headers.{return_headers, switched_headers}
use docker_proxy.Proxy.Exchange.{
  Daemon, connected, refused, stalled, UpstreamResponse, replied, send_failed, send_stalled,
}

abbrev pub upgrade_header : Option Str → HeaderMap
upgrade_header none = []
upgrade_header (some u) = (codes "upgrade", u) ∷ []

-- The request that asks the daemon for the other protocol; its body is empty.
unfoldable pub upgrade_request : Str → Str → HeaderMap → Option Str → UpstreamRequest
upgrade_request method uri forwarded upgrade_value = record {
  method = method;
  uri = uri;
  headers =
      (codes "host", codes "docker.proxy")
      ∷ (codes "connection", codes "upgrade")
      ∷ (upgrade_header upgrade_value ++ forwarded);
  body = [];
}

abbrev pub read_or_empty : BodyRead → Str
read_or_empty (read s) = s
read_or_empty _ = []

module _ (d : Daemon) where
  abbrev pub built : HttpResponse → HttpResponse → HttpResponse
  built response otherwise = if d.response_builds response then response else otherwise

  -- The status 101 is a switch of protocols; any other is passed on with its body.
  unfoldable pub upgrade_response : UpstreamResponse → HttpResponse
  upgrade_response res =
      if res.status == 101
      then built (record { status = 101; headers = switched_headers res.headers; body = [] })
          (make_response 502 "upgrade response build failed")
      else built
          (record {
            status = res.status;
            headers = return_headers res.headers;
            body = read_or_empty res.body;
          })
          (make_response 502 "upgrade rejected")

  unfoldable pub handle_upgrade : UpstreamRequest → ProxyState → Handled
  unfolding upgrade_response
  handle_upgrade req s =
      let sent : HttpResponse → ProxyState → Handled =
        λ response t. record { response = response; state = t; forwarded = some req } in
      elim d.connect [
        | refused ↦
            answer (make_response 502 "docker socket unavailable")
              (with_metrics add_upstream_error s)
        | stalled ↦
            answer (make_response 504 "docker socket connect timeout")
              (with_metrics add_upstream_timeout s)
        | connected ↦
            if not d.handshake
            then answer (make_response 502 "docker handshake failed")
                (with_metrics add_upstream_error s)
            else if not (d.request_builds req)
            then answer (make_response 502 "failed to build upstream request") s
            else (elim (d.send_request req) [
              | send_failed ↦
                  sent (make_response 502 "docker request failed")
                    (with_metrics add_upstream_error s)
              | send_stalled ↦
                  sent (make_response 504 "docker upstream timeout")
                    (with_metrics add_upstream_timeout s)
              | replied res ↦ sent (upgrade_response res) s
            ])
      ]

-- How `hyper::upgrade::on` ends on one side.
pub data Upgraded : Type 0 where
  upgraded : Upgraded
  upgrade_failed : Upgraded
  upgrade_stalled : Upgraded

-- What the task counts: the daemon's side is looked at when the client's side is there.
unfoldable pub resolve_upgrades : Upgraded → Upgraded → Metrics → Metrics
resolve_upgrades upgrade_failed docker m = add_upstream_error m
resolve_upgrades upgrade_stalled docker m = add_upstream_timeout m
resolve_upgrades upgraded upgraded m = m
resolve_upgrades upgraded upgrade_failed m = add_upstream_error m
resolve_upgrades upgraded upgrade_stalled m = add_upstream_timeout m
