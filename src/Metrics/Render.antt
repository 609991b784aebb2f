-- ===== src/Metrics/Render.antt =====
-- `render_prometheus` and `escape_label` of src/metrics.rs. Every text that is pushed ends in a line
-- break, so the output is a list of lines. A hash map is gone through in the order of its entries.
pub mod Labels
pub mod Lines
pub mod Samples
use Prim.Native.String.{String}
use docker_proxy.Common.{
  ℕ, Bool, true, false, if◌then◌else◌, List, [], ◌∷◌, ◌++◌, Str, codes, ◌==◌, HashMap, to_string,
}
use docker_proxy.Metrics.{
  Metrics, RuleCounters, LatencyHistogram, latency_buckets_ms, cumulative_from,
}

unfoldable pub escape_label : Str → Str
escape_label [] = []
escape_label (c ∷ s) =
    let rest = escape_label s in
    if c == b'\\'
    then codes "\\\\" ++ rest
    else if c == b'"'
    then codes "\\\"" ++ rest
    else if c == b'\n'
    then codes "\\n" ++ rest
    else c ∷ rest

-- One line of the arrays that the two loops go through.
pub record Counter : Type 0 where
  pub name : Str
  pub help : Str
  pub value : ℕ

abbrev counter : String → String → ℕ → Counter
counter name help value = record { name = codes name; help = codes help; value = value }

abbrev pub outcome_counters : Metrics → List Counter
outcome_counters m =
    counter "docker_proxy_requests_allowed_total" "Requests with outcome 'allowed'"
      m.requests_allowed
    ∷ counter "docker_proxy_requests_denied_total" "Requests with outcome 'denied'"
        m.requests_denied
    ∷ counter "docker_proxy_requests_dry_run_total" "Requests with outcome 'dry_run'"
        m.requests_dry_run
    ∷ []

abbrev pub event_counters : Metrics → List Counter
event_counters m =
    counter "docker_proxy_auth_failures_total" "Failed auth attempts" m.auth_failures_total
    ∷ counter "docker_proxy_auth_lockouts_total" "IP auth lockouts triggered" m.auth_lockouts_total
    ∷ counter "docker_proxy_rate_limited_total" "Requests blocked by rate limit"
        m.rate_limited_total
    ∷ counter "docker_proxy_upstream_errors_total" "Upstream docker errors" m.upstream_errors_total
    ∷ counter "docker_proxy_upstream_timeouts_total" "Upstream docker timeouts"
        m.upstream_timeouts_total
    ∷ counter "docker_proxy_body_too_large_total" "Requests rejected for body size"
        m.body_too_large_total
    ∷ counter "docker_proxy_bad_request_total" "Requests rejected as malformed" m.bad_request_total
    ∷ counter "docker_proxy_request_timeouts_total" "Client request read timeouts"
        m.request_timeouts_total
    ∷ counter "docker_proxy_upgrade_total" "HTTP upgrade (exec/attach) requests proxied"
        m.upgrade_total
    ∷ []

abbrev pub requests_counter : Metrics → Counter
requests_counter m =
    counter "docker_proxy_requests_total" "Total HTTP requests received" m.requests_total

abbrev pub sample_line : Str → ℕ → Str
sample_line series value = series ++ (codes " " ++ to_string value)

unfoldable pub counter_lines : List Counter → List Str
counter_lines [] = []
counter_lines (c ∷ cs) =
    (codes "# HELP " ++ (c.name ++ (codes " " ++ c.help)))
    ∷ (codes "# TYPE " ++ (c.name ++ codes " counter"))
    ∷ sample_line c.name c.value
    ∷ counter_lines cs

-- `docker_proxy_rule_decisions_total{rule="..",mode=".."}`.
unfoldable pub rule_series : Str → String → Str
unfolding escape_label
rule_series rule mode =
    codes "docker_proxy_rule_decisions_total{rule=\""
    ++ (escape_label rule ++ (codes "\",mode=\"" ++ (codes mode ++ codes "\"}")))

unfoldable pub rule_lines : HashMap RuleCounters → List Str
unfolding rule_series
rule_lines [] = []
rule_lines ((rule, c) ∷ by_rule) =
    sample_line (rule_series rule "enforced") c.denied
    ∷ sample_line (rule_series rule "dry_run") c.dry_run
    ∷ rule_lines by_rule

abbrev pub bucket_series : Str → Str
bucket_series bound =
    codes "docker_proxy_upstream_latency_ms_bucket{le=\"" ++ (bound ++ codes "\"}")

-- The bounds and the running totals; the total behind the last bound is that of `+Inf`.
unfoldable pub bucket_lines : List ℕ → List ℕ → List Str
bucket_lines bounds [] = []
bucket_lines [] (total ∷ totals) = sample_line (bucket_series (codes "+Inf")) total ∷ []
bucket_lines (bound ∷ bounds) (total ∷ totals) =
    sample_line (bucket_series (to_string bound)) total ∷ bucket_lines bounds totals

unfoldable pub latency_lines : LatencyHistogram → List Str
unfolding bucket_lines cumulative_from
latency_lines h =
    codes "# HELP docker_proxy_upstream_latency_ms Latency to docker upstream in milliseconds"
    ∷ codes "# TYPE docker_proxy_upstream_latency_ms histogram"
    ∷ (bucket_lines latency_buckets_ms (cumulative_from 0 h.buckets)
        ++ sample_line (codes "docker_proxy_upstream_latency_ms_sum") h.sum_ms
          ∷ sample_line (codes "docker_proxy_upstream_latency_ms_count") h.count
          ∷ [])

unfoldable pub rule_section : HashMap RuleCounters → List Str
unfolding rule_lines
rule_section by_rule =
    codes "# HELP docker_proxy_rule_decisions_total Decisions per rule"
    ∷ codes "# TYPE docker_proxy_rule_decisions_total counter"
    ∷ rule_lines by_rule

unfoldable pub render_lines : Metrics → List Str
unfolding counter_lines rule_section latency_lines
render_lines m =
    counter_lines (requests_counter m ∷ outcome_counters m)
    ++ (counter_lines (event_counters m) ++ (rule_section m.by_rule ++ latency_lines m.latency))

unfoldable pub end_lines : List Str → Str
end_lines [] = []
end_lines (line ∷ lines) = line ++ b'\n' ∷ end_lines lines

unfoldable pub render_prometheus : Metrics → Str
unfolding render_lines end_lines
render_prometheus m = end_lines (render_lines m)
