-- ===== src/Process/Start/Loaded.antt =====
-- With which state `main` of src/main.rs goes on.
use docker_proxy.Common.{
  ◌≡◌, refl, sym, ap, ◌∙◌, Bool, true, false, inl, inr, Bool-cases, Option-cases, if◌then◌else◌,
  Option, none, some, ◌>>=◌, or_else, List, [], ◌∷◌, arith, Str, codes, find, bind_some, ◌⊎◌,
  some-injective,
}
use docker_proxy.Externals.{Externals}
use docker_proxy.Config.{ProxyConfig}
use docker_proxy.Config.Check.{Outcome, ok, err}
use docker_proxy.Config.Env.{Environment}
use docker_proxy.Config.Load.{Files, load, load_from_path, config_path}
use docker_proxy.Config.Load.Loaded.{IsLoaded, load-IsLoaded, load_from_path-IsLoaded, then_ok}
use docker_proxy.RateLimiter
use docker_proxy.AuthLimiter
use docker_proxy.Proxy.{ProxyState}
use docker_proxy.Process.Arguments.{Command, runs, shows_help, refused, parse_args}
use docker_proxy.Process.Report.{render_effective_rules}
use docker_proxy.Process.Start.{
  helped, exits, reported, log_failed, serving, explicit, load_config_from_default_path,
  resolve_socket_path, socket_candidates, if_exists, new_state, start_with, run_command, start,
  log_format_of,
}

load_config-IsLoaded :
    (x : Externals) (env : Environment) (files : Files) (config : ProxyConfig) (from : Option Str)
    → load_config_from_default_path x env files ≡ ok (config, from)
    → IsLoaded config
unfolding load_config_from_default_path
load_config-IsLoaded x env files config from e = elim (Option-cases (config_path x env files)) [
  | inl unset ↦
      let (c, loaded, same) =
        then_ok (load x env files) _ (config, from)
          (rw (unset, load_config_from_default_path) at e) in
      let first : c ≡ config = cc same in rw (← first) (load-IsLoaded x env files c loaded)
  | inr (path, set) ↦
      let (c, loaded, same) =
        then_ok (load_from_path x env files path) _ (config, from)
          (rw (set, load_config_from_default_path) at e) in
      let first : c ≡ config = cc same in
      rw (← first) (load_from_path-IsLoaded x env files path c loaded)
]

find_exists :
    (p : Str → Bool) (paths : List Str) (path : Str) → find p paths ≡ some path → p path ≡ true
unfolding find
find_exists p [] path e = ground (arith, e)
find_exists p (q ∷ paths) path e = elim (Bool-cases (p q)) [
  | inl there ↦ rw (← some-injective q path (rw (there, find) at e)) there
  | inr gone ↦ find_exists p paths path (rw (gone, find) at e)
]

if_exists-some :
    (env : Environment) (path socket : Str)
    → if_exists env path ≡ some socket
    → env.exists socket ≡ true
if_exists-some env path socket e = elim (Bool-cases (env.exists path)) [
  | inl there ↦ rw (← some-injective path socket (rw there at e)) there
  | inr gone ↦ ground (arith, e, gone)
]

either {ℓ} :
    {A : Type ℓ} (o q : Option A) (a : A) → or_else o q ≡ some a → (o ≡ some a) ⊎ (q ≡ some a)
either none q a e = inr e
either (some b) q a e = inl e

resolve_socket_path_exists :
    (env : Environment) (config_socket : Option Str) (socket : Str)
    → resolve_socket_path env config_socket ≡ some socket
    → env.exists socket ≡ true
unfolding resolve_socket_path
resolve_socket_path_exists env config_socket socket e = elim (either _ _ socket e) [
  | inl configured ↦
      let (path, _, there) = bind_some config_socket (if_exists env) socket configured in
      if_exists-some env path socket there
  | inr other ↦ elim (either _ _ socket other) [
    | inl variable ↦
        let (path, _, there) =
          bind_some (env.var (codes "DOCKER_SOCKET")) (if_exists env) socket variable in
        if_exists-some env path socket there
    | inr listed ↦ find_exists env.exists socket_candidates socket listed
  ]
]

explicit_exists : (path : Option Str) (env : Environment) → (explicit path env).exists ≡ env.exists
explicit_exists none env = refl
explicit_exists (some path) env = refl

-- A state with which requests can be served: a configuration that was loaded, and tables of both
-- limiters within their bounds.
pub record IsFresh (s : ProxyState) : Type 0 where
  pub loaded : IsLoaded s.config
  pub rates : RateLimiter.Bounds.IsValid s.rate_limiter
  pub failures : AuthLimiter.Bounds.IsValid s.auth.auth_limiter

found_serving :
    (o : Option Str) (t : ProxyState) (from : Option Str) (s : ProxyState) (socket : Str)
    (loaded_from : Option Str)
    → (elim o [ none ↦ exits 1 | some found ↦ serving t found from ]) ≡ serving s socket loaded_from
    → (s ≡ t) × (o ≡ some socket)
found_serving none t from s socket loaded_from e = cc e
found_serving (some found) t from s socket loaded_from e = (cc e, cc e)

not_serving :
    (s : ProxyState) (socket : Str) (loaded_from : Option Str)
    → ¬ (log_failed ≡ serving s socket loaded_from)
not_serving s socket loaded_from e = cc e

module _ (x : Externals) (files : Files) (log_starts : Str → Option Str → Bool)
    (opens : Str → Bool) where
  start_with_serving :
      (env : Environment) (config : ProxyConfig) (from : Option Str) (s : ProxyState) (socket : Str)
      (loaded_from : Option Str)
      → start_with x files log_starts opens env config from ≡ serving s socket loaded_from
      → (s ≡ new_state env opens config) × (env.exists socket ≡ true)
  unfolding start_with
  start_with_serving env config from s socket loaded_from e =
      elim (Bool-cases (
        log_starts (log_format_of x files log_starts opens config)
          (config.global >>= λ g. g.log_level))) [
            | inl logs ↦
                let (same, found) =
                  found_serving (resolve_socket_path env (config.global >>= λ g. g.socket))
                    (new_state env opens config) from s socket loaded_from
                    (rw (logs, start_with) at e) in
                (same, resolve_socket_path_exists env _ socket found)
            | inr silent ↦ absurd (not_serving s socket loaded_from (rw (silent, start_with) at e))
          ]

  command_serving :
      (env : Environment) (c : Command) (s : ProxyState) (socket : Str) (loaded_from : Option Str)
      → (elim c [
        | shows_help ↦ helped
        | refused ↦ exits 2
        | runs check path ↦ run_command x files log_starts opens (explicit path env) check
      ])
        ≡ serving s socket loaded_from
      → (check : Bool) × (path : Option Str) × (run_command x files log_starts opens
            (explicit path env)
            check
          ≡ serving s socket loaded_from)
  command_serving env shows_help s socket loaded_from e = cc e
  command_serving env refused s socket loaded_from e = cc e
  command_serving env (runs check path) s socket loaded_from e = (check, path, e)

  outcome_serving :
      (env : Environment) (check : Bool) (o : Outcome (ProxyConfig × Option Str)) (s : ProxyState)
      (socket : Str) (loaded_from : Option Str)
      → (elim o [
        | err e ↦ exits 2
        | ok (config, from) ↦
            if check
            then reported (render_effective_rules config)
            else start_with x files log_starts opens env config from
      ])
        ≡ serving s socket loaded_from
      → (config : ProxyConfig) × (from : Option Str) × (o ≡ ok (config, from))
        × (start_with x files log_starts opens env config from ≡ serving s socket loaded_from)
  outcome_serving env check (err c) s socket loaded_from e = cc e
  outcome_serving env true (ok (config, from)) s socket loaded_from e = cc e
  outcome_serving env false (ok (config, from)) s socket loaded_from e = (config, from, refl, e)

  -- The process goes on to serve requests only with a configuration that `validate` accepts, its rules
  -- sorted by priority, with the tables of both limiters empty, and with a socket that exists.
  pub start_serving :
      (env : Environment) (args : List Str) (s : ProxyState) (socket : Str)
      (loaded_from : Option Str)
      → start x files log_starts opens env args ≡ serving s socket loaded_from
      → IsLoaded s.config
        × (s.rate_limiter ≡ [])
        × (s.auth.auth_limiter ≡ [])
        × (env.exists socket ≡ true)
  unfolding start run_command new_state
  start_serving env args s socket loaded_from e =
      let (check, path, ran) =
        command_serving env (parse_args false false none args) s socket loaded_from e in
      let (config, from, loaded, served) =
        outcome_serving (explicit path env) check
          (load_config_from_default_path x (explicit path env) files) s socket loaded_from ran in
      let (same, there) =
        start_with_serving (explicit path env) config from s socket loaded_from served in
      (
        rw same (load_config-IsLoaded x (explicit path env) files config from loaded),
        rw same refl,
        rw same refl,
        ap (λ f. f socket) (sym (explicit_exists path env)) ∙ there,
      )

-- With tables that are empty a state is one that can serve.
pub empty-IsFresh :
    (s : ProxyState)
    → IsLoaded s.config
    → s.rate_limiter ≡ []
    → s.auth.auth_limiter ≡ []
    → IsFresh s
empty-IsFresh s loaded no_rates no_failures = record {
  loaded = loaded;
  rates = rw no_rates (record { distinct = tt; bounded = omega arith });
  failures = rw no_failures (record { distinct = tt; bounded = omega arith });
}
