-- ===== src/Proxy/Handle/Frames.antt =====
-- What the last steps of `handle` of src/main.rs leave of the state of the proxy.
use docker_proxy.Common.{ℕ, ◌≡◌, ◌∙◌, Bool, List, arith, Str}
use docker_proxy.Externals.{Externals}
use docker_proxy.Config.{ProxyConfig, ResponseFilterEntry}
use docker_proxy.RateLimiter
use docker_proxy.AuthLimiter
use docker_proxy.Rules.Decision.{RuleDecision}
use docker_proxy.Metrics.{observe_upstream_latency_ms, record_rule_deny}
use docker_proxy.Proxy.{
  add_allowed, add_denied, add_dry_run, add_rate_limited, add_upstream_error, add_upstream_timeout,
  ProxyState, UpstreamRequest,
}
use docker_proxy.Proxy.Exchange.{Daemon, exchange}
use docker_proxy.Proxy.Upgrades.{handle_upgrade}
use docker_proxy.Proxy.Decisions.{Caller, report_dry_run, report_denial}

-- Only other metrics and the audit events differ.
abbrev pub SameBut : ProxyState → ProxyState → Type 0
SameBut s t =
    (t.config ≡ s.config)
    × (t.rate_limiter ≡ s.rate_limiter)
    × (t.auth.auth_limiter ≡ s.auth.auth_limiter)
    × (t.auth.metrics.requests_total ≡ s.auth.metrics.requests_total)

pub exchange-SameBut :
    (x : Externals) (d : Daemon) (filters : List ResponseFilterEntry) (req : UpstreamRequest)
    (s : ProxyState)
    → SameBut s (exchange x d filters req s).state
unfolding exchange add_allowed observe_upstream_latency_ms add_upstream_error add_upstream_timeout
exchange-SameBut x d filters req s = ground arith

pub handle_upgrade-SameBut :
    (d : Daemon) (req : UpstreamRequest) (s : ProxyState) → SameBut s (handle_upgrade d req s).state
unfolding handle_upgrade add_upstream_error add_upstream_timeout
handle_upgrade-SameBut d req s = ground arith

pub report_dry_run-SameBut :
    (c : Caller) (decided : RuleDecision) (s : ProxyState) → SameBut s (report_dry_run c decided s)
unfolding report_dry_run add_dry_run record_rule_deny
report_dry_run-SameBut c decided s = ground arith

pub report_denial-SameBut :
    (limited : Bool) (c : Caller) (decided : RuleDecision) (status : ℕ) (message : Str)
    (s : ProxyState)
    → SameBut s (report_denial limited c decided status message s)
unfolding report_denial add_denied add_rate_limited record_rule_deny
report_denial-SameBut limited c decided status message s = ground arith

-- The configuration is `config`, both tables are within their bounds, and that many requests are
-- counted.
pub record IsKept (config : ProxyConfig) (counted : ℕ) (s : ProxyState) : Type 0 where
  pub same_config : s.config ≡ config
  pub rates : RateLimiter.Bounds.IsValid s.rate_limiter
  pub failures : AuthLimiter.Bounds.IsValid s.auth.auth_limiter
  pub requests : s.auth.metrics.requests_total ≡ counted

pub SameBut-IsKept :
    (config : ProxyConfig) (counted : ℕ) (s t : ProxyState)
    → SameBut s t
    → IsKept config counted s
    → IsKept config counted t
SameBut-IsKept config counted s t (c, r, a, n) k = record {
  same_config = c ∙ k.same_config;
  rates = rw r k.rates;
  failures = rw a k.failures;
  requests = n ∙ k.requests;
}
