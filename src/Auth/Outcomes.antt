-- ===== src/Auth/Outcomes.antt =====
-- Who `authenticate` of src/main.rs lets in, and how its failures lock an address out.
pub mod Guessing
use docker_proxy.Common.{
  ℕ, ◌≡◌, refl, sym, ap, ◌∙◌, ◌⊎◌, inl, inr, Bool, true, false, not, Option, none, some, ◌>>=◌,
  or_else, List, [], ◌∷◌, arith, Str, codes, is_some_and, Bool-cases, Option-cases,
}
use docker_proxy.Externals.{Externals}
use docker_proxy.Config.{ProxyConfig, AuthConfig}
use docker_proxy.Headers.{HeaderMap}
use docker_proxy.AuthLimiter.{is_blocked}
use docker_proxy.Tls.{CertIdentity, resolve_mtls_role}
use docker_proxy.Auth.{
  AuthState, AuthOutcome, allowed, denied, authenticate, authenticate_cert, authenticate_bearer,
  type_is, forgive, first_of, Bearer, token, missing, malformed, extract_bearer_token,
  resolve_token_role, is_auth_strictly_configured, count_auth_failure,
}

Bearer-cases : (b : Bearer) → ((t : Str) × (b ≡ token t)) ⊎ (b ≡ missing) ⊎ (b ≡ malformed)
Bearer-cases (token t) = inl (t, refl)
Bearer-cases missing = inr (inl refl)
Bearer-cases malformed = inr (inr refl)

abbrev pub has_type : ProxyConfig → Str → Bool
has_type config name = is_some_and config.auth (λ a. type_is a name)

module _ (x : Externals) (now : ℕ) (config : ProxyConfig) (env_secret : Str) (headers : HeaderMap)
    (peer : Str) where
  -- The token that was presented stands for this role.
  abbrev pub ByToken : Option Str → Option Str → Type 0
  ByToken role identity =
      (is_auth_strictly_configured config env_secret ≡ true)
      × (identity ≡ none)
      × ((t : Str) × (r : Str) × (extract_bearer_token x headers ≡ token t)
          × (resolve_token_role config env_secret t ≡ some r)
          × (role ≡ some r))

  -- The certificate stands for this role.
  abbrev pub ByCert : Option CertIdentity → Option Str → Option Str → Type 0
  ByCert cert role identity =
      (id : CertIdentity) × (r : Str) × (cert ≡ some id)
      × (resolve_mtls_role id (config.auth >>= λ a. a.mtls) ≡ some r)
      × (role ≡ some r)
      × (identity ≡ or_else id.common_name (first_of id.sans))

  denied_other :
      (status : ℕ) (message : Str) (role identity : Option Str)
      → denied status message ≡ allowed role identity
      → ⊥
  denied_other status message role identity e = ground arith

  same_role :
      (r i role identity : Option Str)
      → allowed r i ≡ allowed role identity
      → (role ≡ r) × (identity ≡ i)
  same_role r i role identity e = (ground arith, ground arith)

  bearer_allowed :
      (role identity : Option Str) (s : AuthState)
      → (authenticate_bearer x now peer config env_secret headers s).0 ≡ allowed role identity
      → ByToken role identity
        × ((authenticate_bearer x now peer config env_secret headers s).1 ≡ forgive peer s)
  unfolding authenticate_bearer
  bearer_allowed role identity s e =
      elim (Bool-cases (is_auth_strictly_configured config env_secret)) [
        | inr off ↦ absurd (denied_other _ _ role identity (rw (off, authenticate_bearer) at e))
        | inl on ↦ elim (Bearer-cases (extract_bearer_token x headers)) [
          | inr (inl b) ↦
              absurd (denied_other _ _ role identity (rw (on, b, authenticate_bearer) at e))
          | inr (inr b) ↦
              absurd (denied_other _ _ role identity (rw (on, b, authenticate_bearer) at e))
          | inl (t, b) ↦ elim (Option-cases (resolve_token_role config env_secret t)) [
            | inl wrong ↦
                absurd
                  (denied_other _ _ role identity (rw (on, b, wrong, authenticate_bearer) at e))
            | inr (r, found) ↦
                let (same, anonymous) =
                  same_role (some r) none role identity
                    (rw (on, b, found, authenticate_bearer) at e) in
                ((on, anonymous, (t, r, b, found, same)), rw (on, b, found) refl)
          ]
        ]
      ]

  cert_allowed :
      (cert : Option CertIdentity) (role identity : Option Str) (s : AuthState)
      → (authenticate_cert now peer config cert s).0 ≡ allowed role identity
      → ByCert cert role identity × ((authenticate_cert now peer config cert s).1 ≡ forgive peer s)
  unfolding authenticate_cert
  cert_allowed none role identity s e = absurd (denied_other _ _ role identity e)
  cert_allowed (some id) role identity s e =
      elim (Option-cases (resolve_mtls_role id (config.auth >>= λ a. a.mtls))) [
        | inl wrong ↦ absurd (denied_other _ _ role identity (rw (wrong, authenticate_cert) at e))
        | inr (r, found) ↦
            let (same, named) =
              same_role (some r) _ role identity (rw (found, authenticate_cert) at e) in
            ((id, r, refl, found, same, named), rw (found, authenticate_cert) refl)
      ]

  -- A caller is let in only while its address is not blocked, and then: with no role where the type is
  -- `none`; with the role of its certificate where it is `mtls`; and where it is neither, with the
  -- role of the one bearer token that it presents. The last two clear the failures of the address.
  pub authenticate_allowed :
      (cert : Option CertIdentity) (role identity : Option Str) (s : AuthState)
      → let result = authenticate x now config env_secret headers peer cert s in
        result.0 ≡ allowed role identity
        → (is_blocked now peer s.auth_limiter ≡ false)
          × (((has_type config (codes "none") ≡ true)
                × (role ≡ none)
                × (identity ≡ none)
                × (result.1 ≡ s))
              ⊎ ((has_type config (codes "none") ≡ false)
                  × (has_type config (codes "mtls") ≡ true)
                  × ByCert cert role identity
                  × (result.1 ≡ forgive peer s))
              ⊎ ((has_type config (codes "none") ≡ false)
                  × (has_type config (codes "mtls") ≡ false)
                  × ByToken role identity
                  × (result.1 ≡ forgive peer s)))
  unfolding authenticate
  authenticate_allowed cert role identity s e =
      elim (Bool-cases (is_blocked now peer s.auth_limiter)) [
        | inl blocked ↦ absurd (denied_other _ _ role identity (rw (blocked, authenticate) at e))
        | inr free ↦ elim (Bool-cases (has_type config (codes "none"))) [
          | inl anyone ↦
              let (same, anonymous) =
                same_role none none role identity (rw (free, anyone, authenticate) at e) in
              (free, inl (anyone, same, anonymous, rw (free, anyone) refl))
          | inr closed ↦ elim (Bool-cases (has_type config (codes "mtls"))) [
            | inl mtls ↦
                let (by, after) =
                  cert_allowed cert role identity s (rw (free, closed, mtls, authenticate) at e) in
                (free, inr (inl (closed, mtls, by, rw (free, closed, mtls) after)))
            | inr bearer ↦
                let (by, after) =
                  bearer_allowed role identity s (rw (free, closed, bearer, authenticate) at e) in
                (free, inr (inr (closed, bearer, by, rw (free, closed, bearer) after)))
          ]
        ]
      ]
