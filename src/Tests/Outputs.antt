-- ===== src/Tests/Outputs.antt =====
-- What the program writes: the metrics, the audit file, the log, and the bytes of an upgrade.
use docker_proxy.Common.{
  inl, inr, false, ◌≡◌, ◌≤◌, refl, true, Option, some, List, [], ◌∷◌, ◌++◌, Str, codes, arith,
  length, All, get, str_eq,
}
use docker_proxy.Metrics.{Metrics, RuleCounters, new_metrics}
use docker_proxy.Metrics.Render.{rule_series, render_prometheus}
use docker_proxy.Metrics.Render.Samples.{
  read_sample, promised, read_sample-render_prometheus, read_sample-rule_series,
}
use docker_proxy.Audit.{AuditEvent, new_event}
use docker_proxy.Audit.Writer.{Turn, sends, takes, whole, run, spawn}
use docker_proxy.Audit.Writer.Complete.{contents, lines_of, sent, contents-run}
use docker_proxy.Proxy.Log.{IsHarmless, sanitize_for_log, sanitize_for_log-IsHarmless}
use docker_proxy.Proxy.Tunnel.{read_failed, bytes, stopped, chunks_of, run_tunnel, run_tunnel_lem}

abbrev quoted : Str
quoted = codes "no \"exec\"\n"

abbrev counters : RuleCounters
counters = record { denied = 3; dry_run = 1 }

abbrev metrics : Metrics
metrics = record new_metrics { requests_total = 17; by_rule = (quoted, counters) ∷ [] }

read_sample-render_prometheus_example :
    All (λ (name, v). read_sample name (render_prometheus metrics) ≡ some v) (promised metrics)
read_sample-render_prometheus_example = read_sample-render_prometheus metrics (
  omega arith,
  (
    omega arith,
    (
      omega arith,
      (
        omega arith,
        (
          omega arith,
          (
            omega arith,
            (
              omega arith,
              (
                omega arith,
                (omega arith, (omega arith, (omega arith, (omega arith, (omega arith, tt))))),
              ),
            ),
          ),
        ),
      ),
    ),
  ),
)

read_sample-rule_series_example :
    (read_sample (rule_series quoted "enforced") (render_prometheus metrics) ≡ some 3)
    × (read_sample (rule_series quoted "dry_run") (render_prometheus metrics) ≡ some 1)
unfolding get str_eq
read_sample-rule_series_example =
    read_sample-rule_series metrics quoted counters refl (omega arith) (omega arith)

abbrev event : AuditEvent
event = new_event "deny" (codes "10.0.0.7") (codes "GET") (codes "/info") (codes "-")

abbrev to_json : AuditEvent → Option Str
to_json ev = some ev.path

abbrev turns : List Turn
turns = sends event ∷ takes whole ∷ sends event ∷ []

contents-run_example :
    contents to_json (run to_json turns (spawn true (codes "{}\n")))
    ≡ codes "{}\n" ++ lines_of to_json (sent turns)
contents-run_example = contents-run to_json turns (codes "{}\n") (refl, tt) (omega arith)

sanitize_for_log-IsHarmless_example :
    All IsHarmless (sanitize_for_log quoted) × (length (sanitize_for_log quoted) ≤ 256)
sanitize_for_log-IsHarmless_example = sanitize_for_log-IsHarmless quoted

run_tunnel_lem_example :
    run_tunnel
      (chunks_of (codes "ls" ∷ codes "\n" ∷ [])
        ++ record { reads = read_failed; writes = true } ∷ [])
      (chunks_of (codes "bin" ∷ []) ++ record { reads = bytes (codes "sbin"); writes = false } ∷ [])
    ≡ record { to_daemon = stopped (codes "ls\n"); to_client = stopped (codes "bin") }
run_tunnel_lem_example =
    run_tunnel_lem (codes "ls" ∷ codes "\n" ∷ []) (codes "bin" ∷ [])
      (record { reads = read_failed; writes = true })
      (record { reads = bytes (codes "sbin"); writes = false }) [] [] (refl, (refl, tt)) (refl, tt)
      (inr (inl refl)) (inr (inr (inr refl)))
