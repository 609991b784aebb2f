-- ===== src/Proxy.antt =====
-- What a request, a response and the state of the proxy are in `handle` of src/main.rs, and the parts
-- of `handle` and `handle_upgrade` that stand in modules of their own: the headers, the exchange
-- with the daemon, the decision and the whole.
pub mod Cases
pub mod Headers
pub mod Exchange
pub mod Upgrades
pub mod Tunnel
pub mod Log
pub mod Decisions
pub mod Handle
use Prim.Native.String.{String}
use docker_proxy.Common.{ℕ, Bool, true, false, Option, none, some, List, [], ◌∷◌, Str, codes}
use docker_proxy.Config.{ProxyConfig}
use docker_proxy.RateLimiter.{RateLimiter}
use docker_proxy.Metrics.{Metrics, fetch_add}
use docker_proxy.Audit.{AuditSink}
use docker_proxy.Auth.{AuthState}
use docker_proxy.Headers.{HeaderMap}
use docker_proxy.Tls.{CertIdentity}

-- `auth` holds the auth limiter and the metrics; the configuration is the one `current_config` gives.
pub record ProxyState : Type 0 where
  pub env_secret : Str
  pub config : ProxyConfig
  pub rate_limiter : RateLimiter
  pub auth : AuthState
  pub audit : AuditSink
  pub metrics_path : Option Str

-- How the body of a request or a response comes in: `timeout(.., Limited::new(..).collect())`.
pub data BodyRead : Type 0 where
  read : Str → BodyRead
  too_large : BodyRead
  failed : BodyRead
  timed_out : BodyRead

pub record HttpRequest : Type 0 where
  pub method : Str
  pub path : Str
  pub query : Option Str
  pub headers : HeaderMap
  pub body : BodyRead

-- Who sends the request, and the times of its authentication and of its decision.
pub record Arrival : Type 0 where
  pub peer : Str
  pub cert : Option CertIdentity
  pub at_auth : ℕ
  pub at_rules : ℕ

pub record HttpResponse : Type 0 where
  pub status : ℕ
  pub headers : HeaderMap
  pub body : Str

-- `make_response` and `make_response_string`.
unfoldable pub make_response_string : ℕ → Str → HttpResponse
make_response_string status body = record {
  status = status;
  headers = (codes "content-type", codes "text/plain; charset=utf-8") ∷ [];
  body = body;
}

abbrev pub make_response : ℕ → String → HttpResponse
make_response status body = make_response_string status (codes body)

-- The request to the daemon.
pub record UpstreamRequest : Type 0 where
  pub method : Str
  pub uri : Str
  pub headers : HeaderMap
  pub body : Str

-- The response that the caller gets, the state after it, and the request that the daemon got, if any.
pub record Handled : Type 0 where
  pub response : HttpResponse
  pub state : ProxyState
  pub forwarded : Option UpstreamRequest

abbrev pub with_metrics : (Metrics → Metrics) → ProxyState → ProxyState
with_metrics f s = record s { auth = record s.auth { metrics = f s.auth.metrics } }

-- The response of the proxy itself, with nothing sent to the daemon.
abbrev pub answer : HttpResponse → ProxyState → Handled
answer response s = record { response = response; state = s; forwarded = none }

unfoldable pub add_requests : Metrics → Metrics
add_requests m = record m { requests_total = fetch_add m.requests_total 1 }

unfoldable pub add_allowed : Metrics → Metrics
add_allowed m = record m { requests_allowed = fetch_add m.requests_allowed 1 }

unfoldable pub add_denied : Metrics → Metrics
add_denied m = record m { requests_denied = fetch_add m.requests_denied 1 }

unfoldable pub add_dry_run : Metrics → Metrics
add_dry_run m = record m { requests_dry_run = fetch_add m.requests_dry_run 1 }

unfoldable pub add_rate_limited : Metrics → Metrics
add_rate_limited m = record m { rate_limited_total = fetch_add m.rate_limited_total 1 }

unfoldable pub add_upstream_error : Metrics → Metrics
add_upstream_error m = record m { upstream_errors_total = fetch_add m.upstream_errors_total 1 }

unfoldable pub add_upstream_timeout : Metrics → Metrics
add_upstream_timeout m = record m {
  upstream_timeouts_total = fetch_add m.upstream_timeouts_total 1;
}

unfoldable pub add_too_large : Metrics → Metrics
add_too_large m = record m { body_too_large_total = fetch_add m.body_too_large_total 1 }

unfoldable pub add_bad_request : Metrics → Metrics
add_bad_request m = record m { bad_request_total = fetch_add m.bad_request_total 1 }

unfoldable pub add_request_timeout : Metrics → Metrics
add_request_timeout m = record m { request_timeouts_total = fetch_add m.request_timeouts_total 1 }

unfoldable pub add_upgrade : Metrics → Metrics
add_upgrade m = record m { upgrade_total = fetch_add m.upgrade_total 1 }
