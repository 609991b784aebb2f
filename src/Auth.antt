-- ===== src/Auth.antt =====
-- The authentication of src/main.rs: tokens, roles and `authenticate`, which counts its failures in
-- the `AuthLimiter` and in the metrics.
pub mod Equality
pub mod Credentials
pub mod Outcomes
pub mod Kept
use Prim.Native.Nat.{bit_or, bit_xor}
use docker_proxy.Common.{
  ℕ, zero, suc, ◌%◌, Bool, true, false, not, ◌&&◌, ◌||◌, if◌then◌else◌, Option, none, some, ◌>>=◌,
  or_else, unwrap_or, is_some_and, List, [], ◌∷◌, Str, codes, str_eq, is_empty, length, any,
  find_map, strip_prefix, leb, ◌==◌, u32_mod,
}
use docker_proxy.Externals.{Externals, from_secs}
use docker_proxy.Config.{ProxyConfig, AuthConfig, TokenEntry}
use docker_proxy.Headers.{HeaderMap, get_all}
use docker_proxy.AuthLimiter.{AuthLimiter, is_blocked, record_failure, record_success}
use docker_proxy.Metrics.{Metrics, fetch_add}
use docker_proxy.Tls.{CertIdentity, resolve_mtls_role}

abbrev pub max_token_len : ℕ
max_token_len = 4096

abbrev pub auth_fail_max : ℕ
auth_fail_max = 10

abbrev pub auth_fail_window : ℕ
auth_fail_window = from_secs 60

abbrev pub auth_fail_lockout : ℕ
auth_fail_lockout = from_secs 300

-- The loop over both texts, with 0 behind the end of the shorter one.
unfoldable pub fold_diff : ℕ → Str → Str → ℕ
fold_diff diff [] [] = diff
fold_diff diff (x ∷ a) [] = fold_diff (bit_or diff (bit_xor x 0)) a []
fold_diff diff [] (y ∷ b) = fold_diff (bit_or diff (bit_xor 0 y)) [] b
fold_diff diff (x ∷ a) (y ∷ b) = fold_diff (bit_or diff (bit_xor x y)) a b

-- A length is a `usize`, and the difference of two lengths is cut to 32 bits.
unfoldable pub constant_time_eq : Str → Str → Bool
unfolding fold_diff
constant_time_eq a b = fold_diff (bit_xor (length a) (length b) % u32_mod) a b == 0

pub data Bearer : Type 0 where
  token : Str → Bearer
  missing : Bearer
  malformed : Bearer

abbrev pub bearer_of : Option Str → Bearer
bearer_of none = malformed
bearer_of (some t) = if not (is_empty t) && leb (length t) max_token_len then token t else malformed

unfoldable pub extract_bearer_token : Externals → HeaderMap → Bearer
unfolding get_all
extract_bearer_token x headers = elim (get_all (codes "authorization") headers) [
  | [] ↦ missing
  | v ∷ [] ↦ bearer_of (x.to_str v >>= strip_prefix (codes "Bearer "))
  | _ ∷ _ ∷ _ ↦ malformed
]

abbrev pub token_role : Str → TokenEntry → Option Str
token_role presented t =
    if constant_time_eq t.token presented then some (unwrap_or t.role (codes "user")) else none

abbrev pub secret_role : Str → Str → Option Str
secret_role secret presented =
    if not (is_empty secret) && constant_time_eq secret presented
    then some (codes "admin")
    else none

unfoldable pub resolve_token_role : ProxyConfig → Str → Str → Option Str
resolve_token_role config env_secret presented = elim config.auth [
  | some auth ↦
      or_else (find_map (token_role presented) (unwrap_or auth.tokens []))
        (auth.secret >>= λ secret. secret_role secret presented)
  | none ↦ secret_role env_secret presented
]

abbrev pub type_is : AuthConfig → Str → Bool
type_is auth name = is_some_and auth.auth_type (λ t. str_eq t name)

unfoldable pub is_auth_strictly_configured : ProxyConfig → Str → Bool
is_auth_strictly_configured config env_secret = elim config.auth [
  | none ↦ not (is_empty env_secret)
  | some auth ↦
      if type_is auth (codes "none")
      then true
      else if type_is auth (codes "mtls")
      then true
      else (any (λ t. not (is_empty t.token)) (unwrap_or auth.tokens [])
          || is_some_and auth.secret (λ s. not (is_empty s)))
]

-- The status of a denial with its text, or who was let in.
pub data AuthOutcome : Type 0 where
  allowed : Option Str → Option Str → AuthOutcome
  denied : ℕ → Str → AuthOutcome

-- What `authenticate` reads and writes of `ProxyState`.
pub record AuthState : Type 0 where
  pub auth_limiter : AuthLimiter
  pub metrics : Metrics

-- A failure counts, and it counts as a lockout when it is the one that locks the address.
unfoldable pub count_auth_failure : ℕ → Str → AuthState → AuthState
count_auth_failure now auth_key s =
    let recorded =
      record_failure now auth_key auth_fail_max auth_fail_window auth_fail_lockout s.auth_limiter in
    let failed = record s.metrics {
      auth_failures_total = fetch_add s.metrics.auth_failures_total 1;
    } in
    record {
      auth_limiter = recorded.1;
      metrics =
          if recorded.0
          then record failed { auth_lockouts_total = fetch_add failed.auth_lockouts_total 1 }
          else failed;
    }

abbrev pub forgive : Str → AuthState → AuthState
forgive auth_key s = record s { auth_limiter = record_success auth_key s.auth_limiter }

abbrev pub first_of : List Str → Option Str
first_of [] = none
first_of (s ∷ ss) = some s

-- `auth.type: mtls`.
unfoldable pub authenticate_cert :
    ℕ → Str → ProxyConfig → Option CertIdentity → AuthState → AuthOutcome × AuthState
unfolding count_auth_failure
authenticate_cert now auth_key config none s =
    (denied 401 (codes "mTLS required but no client certificate presented"), s)
authenticate_cert now auth_key config (some id) s =
    elim (resolve_mtls_role id (config.auth >>= λ a. a.mtls)) [
      | some role ↦
          (allowed (some role) (or_else id.common_name (first_of id.sans)), forgive auth_key s)
      | none ↦ (
        denied 401 (codes "Client certificate not authorized"),
        count_auth_failure now auth_key s,
      )
    ]

-- Every other type.
unfoldable pub authenticate_bearer :
    Externals → ℕ → Str → ProxyConfig → Str → HeaderMap → AuthState → AuthOutcome × AuthState
unfolding count_auth_failure
authenticate_bearer x now auth_key config env_secret headers s =
    if not (is_auth_strictly_configured config env_secret)
    then (denied 401 (codes "Authentication is not configured"), s)
    else (elim (extract_bearer_token x headers) [
      | missing ↦ (denied 401 (codes "Missing authorization"), count_auth_failure now auth_key s)
      | malformed ↦
          (denied 401 (codes "Malformed authorization"), count_auth_failure now auth_key s)
      | token t ↦ elim (resolve_token_role config env_secret t) [
        | some role ↦ (allowed (some role) none, forgive auth_key s)
        | none ↦ (denied 401 (codes "Invalid token"), count_auth_failure now auth_key s)
      ]
    ])

unfoldable pub authenticate :
    Externals
    → ℕ
    → ProxyConfig
    → Str
    → HeaderMap
    → Str
    → Option CertIdentity
    → AuthState
    → AuthOutcome × AuthState
authenticate x now config env_secret headers peer cert s =
    if is_blocked now peer s.auth_limiter
    then (denied 429 (codes "Too many authentication failures"), s)
    else if is_some_and config.auth (λ a. type_is a (codes "none"))
    then (allowed none none, s)
    else if is_some_and config.auth (λ a. type_is a (codes "mtls"))
    then authenticate_cert now peer config cert s
    else authenticate_bearer x now peer config env_secret headers s
