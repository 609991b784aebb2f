-- ===== src/Auth/Credentials.antt =====
-- The credentials that `resolve_token_role` of src/main.rs takes.
use docker_proxy.Common.{
  filled, ◌≡◌, refl, ◌∙◌, ◌+◌, ◌<◌, ◌≢◌, ◌⊎◌, inl, inr, Option, none, some, or_else, ◌>>=◌, List,
  [], ◌∷◌, ◌++◌, arith, Str, codes, length, is_empty, unwrap_or, find_map, find_map-some, All,
  Bool-cases, Option-cases, u32_mod, bind_some,
}
use docker_proxy.Config.{ProxyConfig, AuthConfig, TokenEntry}
use docker_proxy.Auth.{constant_time_eq, token_role, secret_role, resolve_token_role}
use docker_proxy.Auth.Equality.{constant_time_eq_iff}

-- Neither text is so long that its length leaves 32 bits.
abbrev pub IsShortWith : Str → Str → Type 0
IsShortWith presented secret = length secret + length presented < u32_mod

abbrev pub IsSecretShort : Str → Option Str → Type 0
IsSecretShort presented none = Unit
IsSecretShort presented (some secret) = IsShortWith presented secret

-- So are all the credentials of the configuration.
abbrev pub AreShortWith : Str → Option AuthConfig → Type 0
AreShortWith presented none = Unit
AreShortWith presented (some auth) =
    All (λ t. IsShortWith presented t.token) (unwrap_or auth.tokens [])
    × IsSecretShort presented auth.secret

-- The first entry with this token, and the role it gives.
abbrev pub HasToken : List TokenEntry → Str → Str → Type 0
HasToken tokens presented role =
    (before : List TokenEntry) × (t : TokenEntry) × (after : List TokenEntry) × (tokens
      ≡ before ++ t ∷ after)
    × (t.token ≡ presented)
    × (role ≡ unwrap_or t.role (codes "user"))

-- The secret, which gives the role `admin`.
abbrev pub HasSecret : Option Str → Str → Str → Type 0
HasSecret secret presented role =
    (secret ≡ some presented) × (presented ≢ []) × (role ≡ codes "admin")

-- What stands behind a role that a token got.
abbrev pub IsGranted : ProxyConfig → Str → Str → Str → Type 0
IsGranted config env_secret presented role =
    ((auth : AuthConfig) × (config.auth ≡ some auth)
      × (HasToken (unwrap_or auth.tokens []) presented role ⊎ HasSecret auth.secret presented role))
    ⊎ ((config.auth ≡ none) × HasSecret (some env_secret) presented role)

All-split : (P : TokenEntry → Type 0) (xs ys : List TokenEntry) → All P (xs ++ ys) → All P ys
All-split P [] ys h = h
All-split P (x ∷ xs) ys (_, h) = All-split P xs ys h

token_role_sound :
    (presented role : Str) (t : TokenEntry)
    → IsShortWith presented t.token
    → token_role presented t ≡ some role
    → (t.token ≡ presented) × (role ≡ unwrap_or t.role (codes "user"))
token_role_sound presented role t short e = elim (Bool-cases (constant_time_eq t.token presented)) [
  | inl same ↦ ((constant_time_eq_iff t.token presented short).0 same, ground (arith, same))
  | inr other ↦ ground (arith, other)
]

has_token :
    (tokens : List TokenEntry) (presented role : Str)
    → All (λ t. IsShortWith presented t.token) tokens
    → find_map (token_role presented) tokens ≡ some role
    → HasToken tokens presented role
has_token tokens presented role short e =
    let (before, t, after, whole, found, _) = find_map-some (token_role presented) tokens role e in
    let (h, _) = All-split _ before (t ∷ after) (rw whole at short) in
    let (same, gives) = token_role_sound presented role t h found in
    (before, t, after, whole, same, gives)

has_secret :
    (secret presented role : Str)
    → IsShortWith presented secret
    → secret_role secret presented ≡ some role
    → HasSecret (some secret) presented role
has_secret secret presented role short e = elim (Bool-cases (is_empty secret)) [
  | inl empty ↦ ground (arith, empty)
  | inr full ↦ elim (Bool-cases (constant_time_eq secret presented)) [
    | inr other ↦ ground (arith, full, other)
    | inl equal ↦
        let same = (constant_time_eq_iff secret presented short).0 equal in
        (rw same refl, λ h. filled secret full (same ∙ h), ground (arith, full, equal))
  ]
]

granted :
    (auth : AuthConfig) (presented role : Str)
    → All (λ t. IsShortWith presented t.token) (unwrap_or auth.tokens [])
    → IsSecretShort presented auth.secret
    → or_else
        (find_map (token_role presented) (unwrap_or auth.tokens []))
        (auth.secret >>= λ secret. secret_role secret presented)
      ≡ some role
    → HasToken (unwrap_or auth.tokens []) presented role ⊎ HasSecret auth.secret presented role
granted auth presented role tokens_short secret_short e =
    elim (Option-cases (find_map (token_role presented) (unwrap_or auth.tokens []))) [
      | inr (r, found) ↦ inl (
          has_token (unwrap_or auth.tokens []) presented role tokens_short
            (found ∙ (rw found at e)))
      | inl missing ↦
          let (secret, there, got) =
            bind_some auth.secret (λ secret. secret_role secret presented) role (rw missing at e) in
          inr (rw there (has_secret secret presented role (rw there at secret_short) got))
    ]

-- A role is given only for the token of an entry, and then the role of such an entry or `user`; or,
-- as `admin`, for the secret of the configuration, and for that of the environment where the
-- configuration says nothing of authentication. The texts are short enough for 32 bits.
pub resolve_token_role_sound :
    (config : ProxyConfig) (env_secret presented role : Str)
    → IsShortWith presented env_secret
    → AreShortWith presented config.auth
    → resolve_token_role config env_secret presented ≡ some role
    → IsGranted config env_secret presented role
unfolding resolve_token_role
resolve_token_role_sound config env_secret presented role short shorts e =
    elim (Option-cases config.auth) [
      | inl missing ↦ inr (
        missing,
        has_secret env_secret presented role short (rw (missing, resolve_token_role) at e),
      )
      | inr (auth, there) ↦
          let (tokens_short, secret_short) = rw there at shorts in
          inl (
            auth,
            there,
            granted auth presented role tokens_short secret_short
                (rw (there, resolve_token_role) at e),
          )
    ]
