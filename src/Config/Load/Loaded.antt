-- ===== src/Config/Load/Loaded.antt =====
-- What holds of every configuration that src/config.rs loads.
use docker_proxy.Common.{
  ◌≡◌, ◌⊎◌, refl, Option, none, some, [], arith, Str, unwrap_or, inl, inr, Option-cases, Bool-cases,
}
use docker_proxy.Externals.{Externals}
use docker_proxy.Config.{ProxyConfig}
use docker_proxy.Config.Check.{Outcome, ok, err, ◌>>◌, validate, ConfigError, compile_regexes}
use docker_proxy.Config.Check.Accepted.{IsComplete}
use docker_proxy.Config.Check.Exactly.{IsAcceptable, validate_iff}
use docker_proxy.Config.Sort.{sort_rules_by_priority}
use docker_proxy.Config.Sort.Order.{IsSorted, sort_rules-All, sort_rules-IsSorted}
use docker_proxy.Config.Env.{Environment, resolve_env_vars, apply_env_overrides}
use docker_proxy.Config.Load.{
  Files, accept, finish, load, load_from_path, config_path, read_config, default_config,
}

-- `validate` accepts the configuration, and no rule stands behind one of a lower priority.
pub record IsLoaded (config : ProxyConfig) : Type 0 where
  pub acceptable : IsAcceptable config
  pub sorted : IsSorted (unwrap_or config.rules [])

-- Sorting the rules keeps what `validate` looks at.
sort-IsLoaded :
    (config : ProxyConfig) → IsAcceptable config → IsLoaded (sort_rules_by_priority config)
unfolding sort_rules_by_priority
sort-IsLoaded config h = elim (Option-cases config.rules) [
  | inl e ↦ rw e (record {
    acceptable = record { known = h.known; complete = tt; served = h.served };
    sorted = tt;
  })
  | inr (rules, e) ↦ rw e (record {
    acceptable = record {
      known = h.known;
      complete = sort_rules-All IsComplete rules (rw e at h.complete);
      served = h.served;
    };
    sorted = sort_rules-IsSorted rules;
  })
]

pub outcome_cases {ℓ} :
    {A : Type ℓ} (o : Outcome A) → ((e : ConfigError) × (o ≡ err e)) ⊎ ((a : A) × (o ≡ ok a))
outcome_cases (err e) = inl (e, refl)
outcome_cases (ok a) = inr (a, refl)

pub then_ok {ℓ κ} :
    {A : Type ℓ} {B : Type κ} (o : Outcome A) (k : A → Outcome B) (b : B)
    → (o >> k) ≡ ok b
    → (a : A) × (o ≡ ok a) × (k a ≡ ok b)
then_ok (ok a) k b e = (a, refl, e)
then_ok (err c) k b e = ground arith

pub accept_ok :
    (config valid : ProxyConfig) (o : Option ConfigError)
    → accept config o ≡ ok valid
    → (o ≡ none) × (valid ≡ config)
accept_ok config valid none e = (refl, ground arith)
accept_ok config valid (some c) e = ground arith

module _ (x : Externals) (env : Environment) (files : Files) where
  finish-IsLoaded :
      (start config : ProxyConfig) → finish x env files start ≡ ok config → IsLoaded config
  unfolding finish
  finish-IsLoaded start config e =
      let (expanded, _, e1) = then_ok (resolve_env_vars env start) _ config e in
      let (compiled, _, e2) =
        then_ok (compile_regexes x (apply_env_overrides env expanded)) _ config e1 in
      let (valid, e3, e4) = then_ok (accept compiled (validate compiled)) _ config e2 in
      let (accepted, same) = accept_ok compiled valid (validate compiled) e3 in
      let last : sort_rules_by_priority compiled ≡ config = ground (arith, e4, same) in
      rw (← last) (sort-IsLoaded compiled ((validate_iff compiled).0 accepted))

  -- A configuration that is loaded from a path is one that `validate` accepts, and its rules are
  -- sorted by priority.
  pub load_from_path-IsLoaded :
      (path : Str) (config : ProxyConfig)
      → load_from_path x env files path ≡ ok config
      → IsLoaded config
  unfolding load_from_path
  load_from_path-IsLoaded path config e =
      let (start, _, done) = then_ok (read_config x env files path) (finish x env files) config e in
      finish-IsLoaded start config done

  -- The configuration that the proxy starts with is one that `validate` accepts, and its rules are
  -- sorted by priority.
  pub load-IsLoaded : (config : ProxyConfig) → load x env files ≡ ok config → IsLoaded config
  unfolding load
  load-IsLoaded config e = elim (Option-cases (config_path x env files)) [
    | inl none_set ↦ finish-IsLoaded default_config config (rw (none_set, load) at e)
    | inr (path, set) ↦ elim (Bool-cases (env.exists path)) [
      | inl there ↦
          let (start, _, done) =
            then_ok (read_config x env files path) (finish x env files) config
              (rw (set, there, load) at e) in
          finish-IsLoaded start config done
      | inr gone ↦ finish-IsLoaded default_config config (rw (set, gone, load) at e)
    ]
  ]
