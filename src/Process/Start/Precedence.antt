-- ===== src/Process/Start/Precedence.antt =====
-- Where the port and the socket of src/main.rs come from, when the configuration of src/config.rs and
-- the environment both name them.
use docker_proxy.Common.{
  ℕ, ◌≡◌, ◌∙◌, inl, inr, Option-cases, Option, ◌>>=◌, or_else, unwrap_or, find, arith, Str, codes,
  parse_unsigned, u16_mod,
}
use docker_proxy.Config.{ProxyConfig}
use docker_proxy.Config.Env.{
  Environment, override_port, override_socket, override_secret, apply_env_overrides,
  resolve_env_vars, for_some, for_each, expand_auth, expand_rule,
}
use docker_proxy.Externals.{Externals}
use docker_proxy.Config.Check.{ok, compile_regexes, compile_rules, validate}
use docker_proxy.Config.Sort.{sort_rules_by_priority}
use docker_proxy.Config.Load.{Files, finish, accept}
use docker_proxy.Config.Load.Loaded.{then_ok, accept_ok}
use docker_proxy.Process.Listener.{port_of}
use docker_proxy.Process.Start.{resolve_socket_path, if_exists, socket_candidates}

module _ (env : Environment) where
  -- The port of the environment, if it is a number of 16 bits.
  abbrev pub env_port : Option ℕ
  env_port = env.var (codes "DOCKER_PROXY_PORT") >>= parse_unsigned u16_mod

  abbrev pub env_socket : Option Str
  env_socket = env.var (codes "DOCKER_SOCKET") >>= if_exists env

  port_of-apply_env_overrides :
      (config : ProxyConfig)
      → port_of env (apply_env_overrides env config)
        ≡ unwrap_or (or_else env_port (config.global >>= λ g. g.port)) 2376
  unfolding apply_env_overrides override_port override_socket override_secret
  port_of-apply_env_overrides config = ground arith

  socket_of-apply_env_overrides :
      (config : ProxyConfig)
      → resolve_socket_path env ((apply_env_overrides env config).global >>= λ g. g.socket)
        ≡ or_else env_socket (
            or_else
              (config.global >>= λ g. g.socket >>= if_exists env)
              (find env.exists socket_candidates))
  unfolding resolve_socket_path apply_env_overrides override_port override_socket override_secret
  socket_of-apply_env_overrides config = ground arith

global-resolve_env_vars :
    (env : Environment) (config expanded : ProxyConfig)
    → resolve_env_vars env config ≡ ok expanded
    → expanded.global ≡ config.global
unfolding resolve_env_vars
global-resolve_env_vars env config expanded e =
    let (auth, _, e1) = then_ok (for_some env (expand_auth env) config.auth) _ expanded e in
    let (rules, _, e2) =
      then_ok (for_some env (for_each env (expand_rule env)) config.rules) _ expanded e1 in
    ground (arith, e2)

global-compile_regexes :
    (x : Externals) (config compiled : ProxyConfig)
    → compile_regexes x config ≡ ok compiled
    → compiled.global ≡ config.global
unfolding compile_regexes
global-compile_regexes x config compiled e = elim (Option-cases config.rules) [
  | inl no_rules ↦ ground (arith, rw (no_rules, compile_regexes) at e)
  | inr (rules, some_rules) ↦
      let (rest, _, e1) =
        then_ok (compile_rules x rules) _ compiled (rw (some_rules, compile_regexes) at e) in
      ground (arith, e1)
]

global-sort_rules_by_priority :
    (config : ProxyConfig) → (sort_rules_by_priority config).global ≡ config.global
unfolding sort_rules_by_priority
global-sort_rules_by_priority config = ground arith

module _ (x : Externals) (env : Environment) (files : Files) where
  global-finish :
      (start config : ProxyConfig)
      → finish x env files start ≡ ok config
      → (expanded : ProxyConfig) × (expanded.global ≡ start.global)
        × (config.global ≡ (apply_env_overrides env expanded).global)
  unfolding finish
  global-finish start config e =
      let (expanded, e0, e1) = then_ok (resolve_env_vars env start) _ config e in
      let (compiled, compiles, e2) =
        then_ok (compile_regexes x (apply_env_overrides env expanded)) _ config e1 in
      let (valid, e3, e4) = then_ok (accept compiled (validate compiled)) _ config e2 in
      let (_, same) = accept_ok compiled valid (validate compiled) e3 in
      let last : sort_rules_by_priority compiled ≡ config = ground (arith, e4, same) in
      (
        expanded,
        global-resolve_env_vars env start expanded e0,
        rw (← last) (
            global-sort_rules_by_priority compiled
            ∙ global-compile_regexes x (apply_env_overrides env expanded) compiled compiles),
      )

  -- In a configuration that is loaded the environment stands before the file: the port is that of
  -- DOCKER_PROXY_PORT, if it is a number of 16 bits, else that of the file, else 2376; the socket is
  -- the first that exists of DOCKER_SOCKET, that of the file and those of the list.
  pub finish_precedence :
      (start config : ProxyConfig)
      → finish x env files start ≡ ok config
      → (port_of env config
          ≡ unwrap_or (or_else (env_port env) (start.global >>= λ g. g.port)) 2376)
        × (resolve_socket_path env (config.global >>= λ g. g.socket)
            ≡ or_else (env_socket env) (
                or_else
                  (start.global >>= λ g. g.socket >>= if_exists env)
                  (find env.exists socket_candidates)))
  finish_precedence start config e =
      let (expanded, written, overridden) = global-finish start config e in
      rw (overridden, ← written)
        (port_of-apply_env_overrides env expanded, socket_of-apply_env_overrides env expanded)
