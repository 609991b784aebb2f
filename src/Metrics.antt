-- ===== src/Metrics.antt =====
-- `Metrics` of src/metrics.rs: its counters, the counters of each rule and the latency histogram.
-- An `AtomicU64` is a number below 2 ^ 64, and `fetch_add` wraps around.
pub mod Latency
pub mod Render
use docker_proxy.Common.{
  ℕ, zero, suc, ◌+◌, ◌-◌, ◌%◌, Bool, true, false, if◌then◌else◌, List, [], ◌∷◌, ◌++◌, Str, HashMap,
  get, insert, unwrap_or, leb, min, u64_mod,
}

abbrev pub latency_buckets_ms : List ℕ
latency_buckets_ms = 5 ∷ 10 ∷ 25 ∷ 50 ∷ 100 ∷ 250 ∷ 500 ∷ 1000 ∷ 2500 ∷ 5000 ∷ 10000 ∷ []

pub record RuleCounters : Type 0 where
  pub denied : ℕ
  pub dry_run : ℕ

pub record LatencyHistogram : Type 0 where
  pub buckets : List ℕ
  pub sum_ms : ℕ
  pub count : ℕ

pub record Metrics : Type 0 where
  pub requests_total : ℕ
  pub requests_allowed : ℕ
  pub requests_denied : ℕ
  pub requests_dry_run : ℕ
  pub auth_failures_total : ℕ
  pub auth_lockouts_total : ℕ
  pub rate_limited_total : ℕ
  pub upstream_errors_total : ℕ
  pub upstream_timeouts_total : ℕ
  pub body_too_large_total : ℕ
  pub bad_request_total : ℕ
  pub request_timeouts_total : ℕ
  pub upgrade_total : ℕ
  pub by_rule : HashMap RuleCounters
  pub latency : LatencyHistogram

abbrev pub new_histogram : LatencyHistogram
new_histogram = record {
  buckets = 0 ∷ 0 ∷ 0 ∷ 0 ∷ 0 ∷ 0 ∷ 0 ∷ 0 ∷ 0 ∷ 0 ∷ 0 ∷ 0 ∷ [];
  sum_ms = 0;
  count = 0;
}

abbrev pub new_metrics : Metrics
new_metrics = record {
  requests_total = 0;
  requests_allowed = 0;
  requests_denied = 0;
  requests_dry_run = 0;
  auth_failures_total = 0;
  auth_lockouts_total = 0;
  rate_limited_total = 0;
  upstream_errors_total = 0;
  upstream_timeouts_total = 0;
  body_too_large_total = 0;
  bad_request_total = 0;
  request_timeouts_total = 0;
  upgrade_total = 0;
  by_rule = [];
  latency = new_histogram;
}

abbrev pub fetch_add : ℕ → ℕ → ℕ
fetch_add counter n = (counter + n) % u64_mod

-- `u64::saturating_add`.
abbrev pub saturating_add : ℕ → ℕ → ℕ
saturating_add a b = min (a + b) (u64_mod - 1)

-- The index that the loop of `observe` ends with: the first bound that holds the value, and else
-- the index behind the last bound.
unfoldable pub placed_idx : ℕ → List ℕ → ℕ
placed_idx ms [] = 0
placed_idx ms (bound ∷ bounds) =
    let rest = suc (placed_idx ms bounds) in if leb ms bound then 0 else rest

unfoldable pub add_at : ℕ → List ℕ → List ℕ
add_at i [] = []
add_at zero (b ∷ bs) = fetch_add b 1 ∷ bs
add_at (suc i) (b ∷ bs) = b ∷ add_at i bs

unfoldable pub observe : ℕ → LatencyHistogram → LatencyHistogram
unfolding placed_idx add_at
observe ms h = record {
  buckets = add_at (placed_idx ms latency_buckets_ms) h.buckets;
  sum_ms = fetch_add h.sum_ms ms;
  count = fetch_add h.count 1;
}

unfoldable pub observe_upstream_latency_ms : ℕ → Metrics → Metrics
observe_upstream_latency_ms ms m = record m { latency = observe ms m.latency }

abbrev pub default_counters : RuleCounters
default_counters = record { denied = 0; dry_run = 0 }

abbrev pub count_decision : Bool → RuleCounters → RuleCounters
count_decision true e = record e { dry_run = saturating_add e.dry_run 1 }
count_decision false e = record e { denied = saturating_add e.denied 1 }

unfoldable pub record_rule_deny : Str → Bool → Metrics → Metrics
record_rule_deny rule_name dry m =
    let e = unwrap_or (get rule_name m.by_rule) default_counters in
    record m { by_rule = insert rule_name (count_decision dry e) m.by_rule }

-- The running totals that `render_prometheus` prints for the buckets, the last of them for `+Inf`.
unfoldable pub cumulative_from : ℕ → List ℕ → List ℕ
cumulative_from total [] = []
cumulative_from total (b ∷ bs) =
    saturating_add total b ∷ cumulative_from (saturating_add total b) bs
