-- ===== src/Metrics/Render/Samples.antt =====
-- The samples that stand in the output of `render_prometheus` of src/metrics.rs, read back line by
-- line.
use Prim.Native.String.{String}
use mathlib.Core.List.{append_assoc}
use docker_proxy.Common.{
  ℕ, ◌<◌, ◌≡◌, refl, sym, ap, ◌∙◌, false, inl, inr, Bool-cases, Option-cases, Option, none, some,
  ◌>>=◌, or_else, List, [], ◌∷◌, ◌++◌, Str, codes, arith, All, HashMap, get, str_eq, str_eq_iff,
  ne_of_str_eq, some-injective, split, find_map, strip_prefix, strip_prefix-append,
  strip_prefix_sound, parse_unsigned, to_string, parse_unsigned-to_string, u64_mod, drop,
}
use docker_proxy.Metrics.{Metrics, RuleCounters}
use docker_proxy.Metrics.Render.{
  escape_label, sample_line, rule_series, rule_lines, render_lines, latency_lines,
  render_prometheus,
}
use docker_proxy.Metrics.Render.Labels.{read_label, read_label-escape_label}
use docker_proxy.Metrics.Render.Lines.{split-render_prometheus}

-- The value of a line of that series.
abbrev pub line_value : Str → Str → Option ℕ
line_value series line =
    strip_prefix series line >>= λ r. strip_prefix (codes " ") r >>= parse_unsigned u64_mod

-- The value of the first line of that series.
unfoldable pub read_sample : Str → Str → Option ℕ
unfolding split find_map strip_prefix
read_sample series text = find_map (line_value series) (split b'\n' text)

first_value :
    (v : ℕ) (rest : Option ℕ)
    → v < u64_mod
    → or_else (parse_unsigned u64_mod (to_string v)) rest ≡ some v
first_value v rest h = rw (parse_unsigned-to_string u64_mod v h)

-- The names of the README for the counters without labels, and of the two that it leaves out (bad
-- requests and request timeouts), each with the field that it stands for.
abbrev pub promised : Metrics → List (Str × ℕ)
promised m =
    (codes "docker_proxy_requests_total", m.requests_total)
    ∷ (codes "docker_proxy_requests_allowed_total", m.requests_allowed)
    ∷ (codes "docker_proxy_requests_denied_total", m.requests_denied)
    ∷ (codes "docker_proxy_requests_dry_run_total", m.requests_dry_run)
    ∷ (codes "docker_proxy_auth_failures_total", m.auth_failures_total)
    ∷ (codes "docker_proxy_auth_lockouts_total", m.auth_lockouts_total)
    ∷ (codes "docker_proxy_rate_limited_total", m.rate_limited_total)
    ∷ (codes "docker_proxy_upstream_errors_total", m.upstream_errors_total)
    ∷ (codes "docker_proxy_upstream_timeouts_total", m.upstream_timeouts_total)
    ∷ (codes "docker_proxy_body_too_large_total", m.body_too_large_total)
    ∷ (codes "docker_proxy_bad_request_total", m.bad_request_total)
    ∷ (codes "docker_proxy_request_timeouts_total", m.request_timeouts_total)
    ∷ (codes "docker_proxy_upgrade_total", m.upgrade_total)
    ∷ []

-- If the counters without labels are below 2^64, each of them is read back from the output under its
-- own name, whatever the rules are called: the requests, those that were allowed, denied and allowed
-- by a dry run, and those of logins, limits, errors, time-outs and upgrades.
pub read_sample-render_prometheus :
    (m : Metrics)
    → All (λ (_, v). v < u64_mod) (promised m)
    → All (λ (name, v). read_sample name (render_prometheus m) ≡ some v) (promised m)
unfolding read_sample render_lines
read_sample-render_prometheus m (a, (b, (c, (d, (e, (f, (g, (h, (i, (j, (k, (l, (n, _))))))))))))) =
    rw (split-render_prometheus m) (
      first_value _ _ a,
      (
        first_value _ _ b,
        (
          first_value _ _ c,
          (
            first_value _ _ d,
            (
              first_value _ _ e,
              (
                first_value _ _ f,
                (
                  first_value _ _ g,
                  (
                    first_value _ _ h,
                    (
                      first_value _ _ i,
                      (
                        first_value _ _ j,
                        (first_value _ _ k, (first_value _ _ l, (first_value _ _ n, tt))),
                      ),
                    ),
                  ),
                ),
              ),
            ),
          ),
        ),
      ),
    )

-- The label of a line of the rules, and what follows it.
abbrev label_of : Str → Option (Str × Str)
label_of line = read_label false (drop 40 line)

label_of-rule_series :
    (rule : Str) (mode : String) (t : Str)
    → label_of (rule_series rule mode ++ t)
      ≡ some (rule, (codes ",mode=\"" ++ (codes mode ++ codes "\"}")) ++ t)
unfolding rule_series
label_of-rule_series rule mode t =
    ap (read_label false) (append_assoc (escape_label rule) _ t)
    ∙ read_label-escape_label rule ((codes ",mode=\"" ++ (codes mode ++ codes "\"}")) ++ t)

-- A line of the rules stands in one series only.
same_series :
    (rule other : Str) (mode way : String) (v : ℕ) (t : Str)
    → strip_prefix (rule_series rule mode) (sample_line (rule_series other way) v) ≡ some t
    → (other ≡ rule)
      × ((codes ",mode=\"" ++ (codes way ++ codes "\"}")) ++ (codes " " ++ to_string v)
          ≡ (codes ",mode=\"" ++ (codes mode ++ codes "\"}")) ++ t)
same_series rule other mode way v t e =
    let whole =
      strip_prefix_sound (rule_series rule mode) (sample_line (rule_series other way) v) t e in
    let pairs =
      sym (label_of-rule_series other way (codes " " ++ to_string v))
      ∙ (ap label_of whole ∙ label_of-rule_series rule mode t) in
    (cc pairs, cc pairs)

sample_value :
    (series : Str) (v : ℕ) → v < u64_mod → line_value series (sample_line series v) ≡ some v
unfolding strip_prefix
sample_value series v h =
    rw (strip_prefix-append series (codes " " ++ to_string v))
      (parse_unsigned-to_string u64_mod v h)

other_rule :
    (rule other : Str) (mode way : String) (v : ℕ)
    → str_eq other rule ≡ false
    → line_value (rule_series rule mode) (sample_line (rule_series other way) v) ≡ none
other_rule rule other mode way v differ =
    elim (Option-cases
      (strip_prefix (rule_series rule mode) (sample_line (rule_series other way) v))) [
        | inl missing ↦ rw missing
        | inr (t, found) ↦
            absurd (ne_of_str_eq other rule differ (same_series rule other mode way v t found).0)
      ]

other_mode :
    (rule other : Str) (v : ℕ)
    → line_value (rule_series rule "dry_run") (sample_line (rule_series other "enforced") v) ≡ none
unfolding strip_prefix
other_mode rule other v =
    elim (Option-cases
      (strip_prefix (rule_series rule "dry_run") (sample_line (rule_series other "enforced") v))) [
        | inl missing ↦ rw missing
        | inr (t, found) ↦ cc (same_series rule other "dry_run" "enforced" v t found).1
      ]

-- The values of a rule among the lines of all of them.
rule_values :
    (by_rule : HashMap RuleCounters) (more : List Str) (rule : Str) (c : RuleCounters)
    → get rule by_rule ≡ some c
    → c.denied < u64_mod
    → c.dry_run < u64_mod
    → (find_map (line_value (rule_series rule "enforced")) (rule_lines by_rule ++ more)
        ≡ some c.denied)
      × (find_map (line_value (rule_series rule "dry_run")) (rule_lines by_rule ++ more)
          ≡ some c.dry_run)
unfolding get find_map rule_lines
rule_values [] more rule c e denied dry_run = ground (arith, e)
rule_values ((other, d) ∷ by_rule) more rule c e denied dry_run =
    elim (Bool-cases (str_eq other rule)) [
      | inl same ↦
          let at = (str_eq_iff other rule).0 same in
          let found = some-injective d c (rw (same, get) at e) in
          rw (at, found)
            (
              rw (sample_value (rule_series rule "enforced") c.denied denied) refl,
              rw
                  (
                    other_mode rule rule c.denied,
                    sample_value (rule_series rule "dry_run") c.dry_run dry_run,
                  )
                  refl,
            )
      | inr differ ↦
          rw
            (
              other_rule rule other "enforced" "enforced" d.denied differ,
              other_rule rule other "enforced" "dry_run" d.dry_run differ,
              other_rule rule other "dry_run" "enforced" d.denied differ,
              other_rule rule other "dry_run" "dry_run" d.dry_run differ,
            )
            (rule_values by_rule more rule c (rw (differ, get) at e) denied dry_run)
    ]

-- No line in front of those of the rules is in a series of theirs.
past_counters :
    (m : Metrics) (rule : Str) (mode : String)
    → find_map (line_value (rule_series rule mode)) (render_lines m ++ [] ∷ [])
      ≡ find_map
          (line_value (rule_series rule mode))
          (rule_lines m.by_rule ++ (latency_lines m.latency ++ [] ∷ []))
unfolding render_lines rule_series find_map strip_prefix
past_counters m rule mode =
    ap (find_map (line_value (rule_series rule mode)))
      (append_assoc (rule_lines m.by_rule) (latency_lines m.latency) ([] ∷ []))

-- The two counters of a rule below 2^64 are read back from the output in the series of the rule,
-- whatever characters its name and those of the other rules hold.
pub read_sample-rule_series :
    (m : Metrics) (rule : Str) (c : RuleCounters)
    → get rule m.by_rule ≡ some c
    → c.denied < u64_mod
    → c.dry_run < u64_mod
    → (read_sample (rule_series rule "enforced") (render_prometheus m) ≡ some c.denied)
      × (read_sample (rule_series rule "dry_run") (render_prometheus m) ≡ some c.dry_run)
unfolding read_sample
read_sample-rule_series m rule c e denied dry_run = rw (split-render_prometheus m) (
    rw (past_counters m rule "enforced", past_counters m rule "dry_run")
      (rule_values m.by_rule (latency_lines m.latency ++ [] ∷ []) rule c e denied dry_run))
