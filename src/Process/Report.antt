-- ===== src/Process/Report.antt =====
-- `render_effective_rules` of src/main.rs, which `--check-config` prints.
use docker_proxy.Common.{
  ℕ, ◌+◌, Bool, false, if◌then◌else◌, Option, none, some, unwrap_or, List, [], ◌∷◌, ◌++◌, Str,
  codes, to_string, length,
}
use docker_proxy.Yaml.{bool_to_string}
use docker_proxy.Config.{
  ProxyConfig, GlobalConfig, TlsConfig, MetricsConfig, AuthConfig, TokenEntry, Rule,
}

-- What is printed of a value that may be missing.
abbrev pub if_some {ℓ} : {A : Type ℓ} → Option A → (A → Str) → Str
if_some none f = []
if_some (some a) f = f a

abbrev pub ended : Str → Str
ended line = line ++ b'\n' ∷ []

unfoldable pub render_tls : TlsConfig → Str
render_tls t = ended (
    codes "tls: cert="
    ++ (t.cert
        ++ (codes ", key="
            ++ (t.key ++ (codes ", client_ca=" ++ unwrap_or t.client_ca (codes "(none)"))))))

unfoldable pub render_metrics : MetricsConfig → Str
render_metrics m = ended (
    codes "metrics: enabled="
    ++ (bool_to_string (unwrap_or m.enabled false)
        ++ (codes ", path=" ++ unwrap_or m.path (codes "/metrics"))))

unfoldable pub render_global : GlobalConfig → Str
unfolding render_tls render_metrics
render_global g =
    ended (codes "port: " ++ to_string (unwrap_or g.port 2376))
    ++ (if_some g.socket (λ s. ended (codes "socket: " ++ s))
        ++ (if_some g.log_format (λ f. ended (codes "log_format: " ++ f))
            ++ (if_some g.tls render_tls ++ if_some g.metrics render_metrics)))

abbrev token_count : List TokenEntry → Str
token_count tokens =
    ended (codes "auth.tokens: " ++ (to_string (length tokens) ++ codes " configured"))

unfoldable pub render_auth : AuthConfig → Str
render_auth a =
    ended (codes "auth.type: " ++ unwrap_or a.auth_type (codes "(unset)"))
    ++ if_some a.tokens token_count

abbrev pub dry_run_mark : Option Bool → Str
dry_run_mark dry = if unwrap_or dry false then codes ", dry_run" else []

unfoldable pub render_rule : ℕ → Rule → Str
render_rule i r = ended (
    codes "  "
    ++ (to_string (i + 1)
        ++ (codes ". "
            ++ (r.name
                ++ (codes " [priority="
                    ++ (to_string (unwrap_or r.priority 0)
                        ++ (codes ", action="
                            ++ (r.action ++ (dry_run_mark r.dry_run ++ codes "]")))))))))

unfoldable pub render_rules : ℕ → List Rule → Str
unfolding render_rule
render_rules i [] = []
render_rules i (r ∷ rules) = render_rule i r ++ render_rules (i + 1) rules

abbrev rules_or_note : Option (List Rule) → Str
rules_or_note none = ended (codes "  (no rules configured)")
rules_or_note (some rules) = render_rules 0 rules

unfoldable pub render_effective_rules : ProxyConfig → Str
unfolding render_global render_auth render_rules
render_effective_rules config =
    codes "# Effective configuration\n\n"
    ++ (if_some config.global render_global
        ++ (if_some config.auth render_auth
            ++ (codes "\nrules (after priority sort):\n" ++ rules_or_note config.rules)))
