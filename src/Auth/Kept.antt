-- ===== src/Auth/Kept.antt =====
-- What a call of `authenticate` of src/main.rs does to its state, whatever it answers.
use docker_proxy.Common.{
  ℕ, ◌≡◌, refl, not, ◌⊎◌, inl, inr, Bool-cases, Option-cases, Option, none, some, ◌>>=◌,
  is_some_and, [], ◌∷◌, arith, Str, codes,
}
use docker_proxy.Externals.{Externals}
use docker_proxy.Headers.{HeaderMap}
use docker_proxy.Tls.{CertIdentity, resolve_mtls_role}
use docker_proxy.Config.{ProxyConfig}
use docker_proxy.AuthLimiter.{is_blocked}
use docker_proxy.AuthLimiter.Bounds.{IsValid, fails, succeeds, step, run, run-IsValid}
use docker_proxy.Auth.{
  AuthState, Bearer, token, missing, malformed, count_auth_failure, forgive, authenticate_cert,
  authenticate_bearer, authenticate, type_is, is_auth_strictly_configured, extract_bearer_token,
  resolve_token_role, auth_fail_max, auth_fail_window, auth_fail_lockout,
}

Bearer-cases : (b : Bearer) → (b ≡ missing) ⊎ ((b ≡ malformed) ⊎ ((t : Str) × (b ≡ token t)))
Bearer-cases missing = inl refl
Bearer-cases malformed = inr (inl refl)
Bearer-cases (token t) = inr (inr (t, refl))

module _ (P : AuthState → Type 0) (now : ℕ) (peer : Str) (s : AuthState) (same : P s)
    (forgiven : P (forgive peer s)) (counted : P (count_auth_failure now peer s)) where
  cert_role_keeps :
      (id : CertIdentity) (config : ProxyConfig)
      → P (authenticate_cert now peer config (some id) s).1
  unfolding authenticate_cert
  cert_role_keeps id config =
      elim (Option-cases (resolve_mtls_role id (config.auth >>= λ a. a.mtls))) [
        | inl unmapped ↦ rw (unmapped, authenticate_cert) counted
        | inr (role, mapped) ↦ rw (mapped, authenticate_cert) forgiven
      ]

  authenticate_cert_keeps :
      (config : ProxyConfig) (cert : Option CertIdentity)
      → P (authenticate_cert now peer config cert s).1
  unfolding authenticate_cert
  authenticate_cert_keeps config none = same
  authenticate_cert_keeps config (some id) = cert_role_keeps id config

  authenticate_bearer_keeps :
      (x : Externals) (config : ProxyConfig) (env_secret : Str) (headers : HeaderMap)
      → P (authenticate_bearer x now peer config env_secret headers s).1
  unfolding authenticate_bearer
  authenticate_bearer_keeps x config env_secret headers =
      elim (Bool-cases (not (is_auth_strictly_configured config env_secret))) [
        | inl unset ↦ rw unset same
        | inr set ↦ elim (Bearer-cases (extract_bearer_token x headers)) [
          | inl none_given ↦ rw (set, none_given, authenticate_bearer) counted
          | inr (inl wrong) ↦ rw (set, wrong, authenticate_bearer) counted
          | inr (inr (t, given)) ↦ elim (Option-cases (resolve_token_role config env_secret t)) [
            | inl unknown ↦ rw (set, given, unknown, authenticate_bearer) counted
            | inr (role, known) ↦ rw (set, given, known, authenticate_bearer) forgiven
          ]
        ]
      ]

  -- What holds of the state, and after a success and a failure of the address, holds afterwards.
  pub authenticate_keeps :
      (x : Externals) (config : ProxyConfig) (env_secret : Str) (headers : HeaderMap)
      (cert : Option CertIdentity)
      → P (authenticate x now config env_secret headers peer cert s).1
  unfolding authenticate
  authenticate_keeps x config env_secret headers cert =
      elim (Bool-cases (is_blocked now peer s.auth_limiter)) [
        | inl blocked ↦ rw blocked same
        | inr free ↦ elim (Bool-cases (is_some_and config.auth (λ a. type_is a (codes "none")))) [
          | inl open_to_all ↦ rw (free, open_to_all) same
          | inr closed ↦
              elim (Bool-cases (is_some_and config.auth (λ a. type_is a (codes "mtls")))) [
                | inl mtls ↦ rw (free, closed, mtls) (authenticate_cert_keeps config cert)
                | inr bearer ↦
                    rw (free, closed, bearer)
                      (authenticate_bearer_keeps x config env_secret headers)
              ]
        ]
      ]

module _ (x : Externals) (now : ℕ) (config : ProxyConfig) (env_secret : Str) (headers : HeaderMap)
    (peer : Str) (cert : Option CertIdentity) (s : AuthState) where
  -- The table of the limiter stays within its bounds.
  pub authenticate-IsValid :
      IsValid s.auth_limiter
      → IsValid (authenticate x now config env_secret headers peer cert s).1.auth_limiter
  unfolding run step count_auth_failure
  authenticate-IsValid v =
      authenticate_keeps (λ t. IsValid t.auth_limiter) now peer s v
        (run-IsValid (succeeds peer ∷ []) s.auth_limiter v)
        (run-IsValid (fails now peer auth_fail_max auth_fail_window auth_fail_lockout ∷ [])
          s.auth_limiter v)
        x config env_secret headers cert

  pub authenticate-requests_total :
      (authenticate x now config env_secret headers peer cert s).1.metrics.requests_total
      ≡ s.metrics.requests_total
  unfolding count_auth_failure
  authenticate-requests_total =
      authenticate_keeps (λ t. t.metrics.requests_total ≡ s.metrics.requests_total) now peer s refl
        refl (ground arith) x config env_secret headers cert

  -- A caller that is not let in is counted as denied by `handle`, not here.
  pub authenticate-requests_denied :
      (authenticate x now config env_secret headers peer cert s).1.metrics.requests_denied
      ≡ s.metrics.requests_denied
  unfolding count_auth_failure
  authenticate-requests_denied =
      authenticate_keeps (λ t. t.metrics.requests_denied ≡ s.metrics.requests_denied) now peer s
        refl refl (ground arith) x config env_secret headers cert
