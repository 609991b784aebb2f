-- ===== src/Metrics/Render/Lines.antt =====
-- The lines of the output of `render_prometheus` of src/metrics.rs.
use Prim.Native.String.{String}
use docker_proxy.Common.{
  ℕ, ◌≡◌, refl, ap, ◌∙◌, Bool, false, inl, inr, Bool-cases, List, [], ◌∷◌, ◌++◌, Str, codes, arith,
  ◌==◌, IsFree, IsFree-append, All, All-append, HashMap, split, split_at_sep, to_string,
  to_string-IsFree, any, ◌||◌,
}
use docker_proxy.Metrics.{
  Metrics, RuleCounters, LatencyHistogram, cumulative_from, latency_buckets_ms,
}
use docker_proxy.Metrics.Render.{
  Counter, requests_counter, outcome_counters, event_counters, escape_label, sample_line,
  counter_lines, rule_series, rule_lines, bucket_lines, latency_lines, rule_section, render_lines,
  end_lines, render_prometheus, bucket_series,
}
use docker_proxy.Metrics.Render.Labels.{escape_label-IsFree}

abbrev AreLines : List Str → Type 0
AreLines lines = All (IsFree b'\n') lines

split-end_lines :
    (lines : List Str) → AreLines lines → split b'\n' (end_lines lines) ≡ lines ++ [] ∷ []
unfolding end_lines split
split-end_lines [] h = refl
split-end_lines (line ∷ lines) (h, hs) =
    split_at_sep b'\n' line (end_lines lines) h ∙ ap (λ ls. line ∷ ls) (split-end_lines lines hs)

sample_line-IsFree :
    (series : Str) (v : ℕ) → IsFree b'\n' series → IsFree b'\n' (sample_line series v)
sample_line-IsFree series v h =
    IsFree-append b'\n' series _ h ((λ e. omega arith), to_string-IsFree b'\n' v (omega arith))

-- No character of a literal is a line break: a test that computes.
literal-IsFree : (s : Str) → any (λ c. c == b'\n') s ≡ false → IsFree b'\n' s
unfolding any
literal-IsFree [] h = tt
literal-IsFree (c ∷ s) h = elim (Bool-cases (c == b'\n')) [
  | inl at ↦ ground (arith, at, h)
  | inr off ↦ ((λ e. ground (arith, off)), literal-IsFree s (rw (off, any) at h))
]

IsFree-before :
    (s t : Str) → any (λ c. c == b'\n') s ≡ false → IsFree b'\n' t → IsFree b'\n' (s ++ t)
IsFree-before s t h k = IsFree-append b'\n' s t (literal-IsFree s h) k

counter_lines-AreLines :
    (cs : List Counter)
    → All (λ c. IsFree b'\n' c.name × IsFree b'\n' c.help) cs
    → AreLines (counter_lines cs)
unfolding counter_lines any
counter_lines-AreLines [] h = tt
counter_lines-AreLines (c ∷ cs) ((name, help), h) = (
  IsFree-before (codes "# HELP ") _ refl
      (IsFree-append b'\n' c.name _ name (IsFree-before (codes " ") _ refl help)),
  (
    IsFree-before (codes "# TYPE ") _ refl
        (IsFree-append b'\n' c.name _ name (literal-IsFree (codes " counter") refl)),
    (sample_line-IsFree c.name c.value name, counter_lines-AreLines cs h),
  ),
)

rule_series-IsFree :
    (rule : Str) (mode : String)
    → any (λ c. c == b'\n') (codes mode) ≡ false
    → IsFree b'\n' (rule_series rule mode)
unfolding any rule_series
rule_series-IsFree rule mode h =
    IsFree-before (codes "docker_proxy_rule_decisions_total{rule=\"") _ refl (
      IsFree-append b'\n' (escape_label rule) _ (escape_label-IsFree rule) (
        IsFree-before (codes "\",mode=\"") _ refl
          (IsFree-before (codes mode) _ h (literal-IsFree (codes "\"}") refl))))

rule_lines-AreLines : (by_rule : HashMap RuleCounters) → AreLines (rule_lines by_rule)
unfolding rule_lines any
rule_lines-AreLines [] = tt
rule_lines-AreLines ((rule, c) ∷ by_rule) = (
  sample_line-IsFree (rule_series rule "enforced") c.denied
      (rule_series-IsFree rule "enforced" refl),
  (
    sample_line-IsFree (rule_series rule "dry_run") c.dry_run
        (rule_series-IsFree rule "dry_run" refl),
    rule_lines-AreLines by_rule,
  ),
)

bucket_series-IsFree : (bound : Str) → IsFree b'\n' bound → IsFree b'\n' (bucket_series bound)
unfolding any
bucket_series-IsFree bound h =
    IsFree-before (codes "docker_proxy_upstream_latency_ms_bucket{le=\"") _ refl
      (IsFree-append b'\n' bound _ h (literal-IsFree (codes "\"}") refl))

bucket_lines-AreLines : (bounds totals : List ℕ) → AreLines (bucket_lines bounds totals)
unfolding bucket_lines any
bucket_lines-AreLines [] [] = tt
bucket_lines-AreLines (bound ∷ bounds) [] = tt
bucket_lines-AreLines [] (total ∷ totals) = (
  sample_line-IsFree (bucket_series (codes "+Inf")) total
      (bucket_series-IsFree (codes "+Inf") (literal-IsFree (codes "+Inf") refl)),
  tt,
)
bucket_lines-AreLines (bound ∷ bounds) (total ∷ totals) = (
  sample_line-IsFree (bucket_series (to_string bound)) total
      (bucket_series-IsFree (to_string bound) (to_string-IsFree b'\n' bound (omega arith))),
  bucket_lines-AreLines bounds totals,
)

latency_lines-AreLines : (h : LatencyHistogram) → AreLines (latency_lines h)
unfolding latency_lines any
latency_lines-AreLines h = (
  literal-IsFree
      (codes "# HELP docker_proxy_upstream_latency_ms Latency to docker upstream in milliseconds")
      refl,
  (
    literal-IsFree (codes "# TYPE docker_proxy_upstream_latency_ms histogram") refl,
    All-append (IsFree b'\n') (bucket_lines latency_buckets_ms (cumulative_from 0 h.buckets)) _
        (bucket_lines-AreLines latency_buckets_ms (cumulative_from 0 h.buckets))
        (
          sample_line-IsFree (codes "docker_proxy_upstream_latency_ms_sum") h.sum_ms
              (literal-IsFree (codes "docker_proxy_upstream_latency_ms_sum") refl),
          (
            sample_line-IsFree (codes "docker_proxy_upstream_latency_ms_count") h.count
                (literal-IsFree (codes "docker_proxy_upstream_latency_ms_count") refl),
            tt,
          ),
        ),
  ),
)

abbrev breaks : Str → Bool
breaks s = any (λ c. c == b'\n') s

named-IsFree :
    (cs : List Counter)
    → any (λ c. breaks c.name || breaks c.help) cs ≡ false
    → All (λ c. IsFree b'\n' c.name × IsFree b'\n' c.help) cs
unfolding any
named-IsFree [] h = tt
named-IsFree (c ∷ cs) h = (
  (literal-IsFree c.name (ground (arith, h)), literal-IsFree c.help (ground (arith, h))),
  named-IsFree cs (ground (arith, h)),
)

rule_section-AreLines : (by_rule : HashMap RuleCounters) → AreLines (rule_section by_rule)
unfolding rule_section any
rule_section-AreLines by_rule = (
  literal-IsFree (codes "# HELP docker_proxy_rule_decisions_total Decisions per rule") refl,
  (
    literal-IsFree (codes "# TYPE docker_proxy_rule_decisions_total counter") refl,
    rule_lines-AreLines by_rule,
  ),
)

render_lines-AreLines : (m : Metrics) → AreLines (render_lines m)
unfolding render_lines any
render_lines-AreLines m =
    All-append (IsFree b'\n') (counter_lines (requests_counter m ∷ outcome_counters m))
      (counter_lines (event_counters m) ++ (rule_section m.by_rule ++ latency_lines m.latency))
      (counter_lines-AreLines (requests_counter m ∷ outcome_counters m)
        (named-IsFree (requests_counter m ∷ outcome_counters m) refl))
      (All-append (IsFree b'\n') (counter_lines (event_counters m))
        (rule_section m.by_rule ++ latency_lines m.latency)
        (counter_lines-AreLines (event_counters m) (named-IsFree (event_counters m) refl))
        (All-append (IsFree b'\n') (rule_section m.by_rule) (latency_lines m.latency)
          (rule_section-AreLines m.by_rule) (latency_lines-AreLines m.latency)))

-- The lines of the output are those that were pushed: no name of a rule adds one.
pub split-render_prometheus :
    (m : Metrics) → split b'\n' (render_prometheus m) ≡ render_lines m ++ [] ∷ []
unfolding render_prometheus
split-render_prometheus m = split-end_lines (render_lines m) (render_lines-AreLines m)
