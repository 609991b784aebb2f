-- ===== src/Config/Load/Secretless.antt =====
-- What src/config.rs loads where neither the file nor the environment says how to authenticate.
use docker_proxy.Common.{◌≡◌, ◌∙◌, inl, inr, Option-cases, none, arith, codes}
use docker_proxy.Externals.{Externals}
use docker_proxy.Config.{ProxyConfig}
use docker_proxy.Config.Check.{ok, compile_regexes, compile_rules, validate}
use docker_proxy.Config.Sort.{sort_rules_by_priority}
use docker_proxy.Config.Env.{
  Environment, override_port, override_socket, override_secret, apply_env_overrides,
  resolve_env_vars, for_some, for_each, expand_rule,
}
use docker_proxy.Config.Load.{Files, finish, accept}
use docker_proxy.Config.Load.Loaded.{then_ok, accept_ok}

auth-resolve_env_vars :
    (env : Environment) (config expanded : ProxyConfig)
    → config.auth ≡ none
    → resolve_env_vars env config ≡ ok expanded
    → expanded.auth ≡ none
unfolding resolve_env_vars for_some
auth-resolve_env_vars env config expanded unset e =
    let (rules, _, e1) =
      then_ok (for_some env (for_each env (expand_rule env)) config.rules) _ expanded
        (rw (unset, resolve_env_vars) at e) in
    ground (arith, e1)

-- Without a secret in the environment the overrides leave the section as it is.
auth-apply_env_overrides :
    (env : Environment) (config : ProxyConfig)
    → env.var (codes "DOCKER_PROXY_SECRET") ≡ none
    → (apply_env_overrides env config).auth ≡ config.auth
unfolding apply_env_overrides override_port override_socket override_secret
auth-apply_env_overrides env config no_secret = ground (arith, no_secret)

auth-compile_regexes :
    (x : Externals) (config compiled : ProxyConfig)
    → compile_regexes x config ≡ ok compiled
    → compiled.auth ≡ config.auth
unfolding compile_regexes
auth-compile_regexes x config compiled e = elim (Option-cases config.rules) [
  | inl no_rules ↦ ground (arith, rw (no_rules, compile_regexes) at e)
  | inr (rules, some_rules) ↦
      let (rest, _, e1) =
        then_ok (compile_rules x rules) _ compiled (rw (some_rules, compile_regexes) at e) in
      ground (arith, e1)
]

auth-sort_rules_by_priority :
    (config : ProxyConfig) → (sort_rules_by_priority config).auth ≡ config.auth
unfolding sort_rules_by_priority
auth-sort_rules_by_priority config = ground arith

-- A configuration without `auth` has none after it is loaded, if the environment has no secret.
pub auth-finish :
    (x : Externals) (env : Environment) (files : Files) (config loaded : ProxyConfig)
    → config.auth ≡ none
    → env.var (codes "DOCKER_PROXY_SECRET") ≡ none
    → finish x env files config ≡ ok loaded
    → loaded.auth ≡ none
unfolding finish
auth-finish x env files config loaded unset no_secret e =
    let (expanded, e0, e1) = then_ok (resolve_env_vars env config) _ loaded e in
    let (compiled, compiles, e2) =
      then_ok (compile_regexes x (apply_env_overrides env expanded)) _ loaded e1 in
    let (valid, e3, e4) = then_ok (accept compiled (validate compiled)) _ loaded e2 in
    let (_, same) = accept_ok compiled valid (validate compiled) e3 in
    let last : sort_rules_by_priority compiled ≡ loaded = ground (arith, e4, same) in
    rw (← last) (
      auth-sort_rules_by_priority compiled
      ∙ (auth-compile_regexes x (apply_env_overrides env expanded) compiled compiles
          ∙ (auth-apply_env_overrides env expanded no_secret
              ∙ auth-resolve_env_vars env config expanded unset e0)))
