-- ===== src/Tls.antt =====
-- `cn_match` and `resolve_mtls_role` of src/tls.rs: the role that a client certificate stands for.
pub mod Names
pub mod Roles
pub mod Server
use docker_proxy.Common.{
  Bool, true, false, Option, none, some, ◌>>=◌, or_else, if◌then◌else◌, List, [], ◌∷◌, ◌++◌, Str,
  codes, str_eq, strip_prefix, split_once, find_map,
}
use docker_proxy.Config.{CertRoleMapping, MtlsConfig}

pub record CertIdentity : Type 0 where
  pub common_name : Option Str
  pub sans : List Str

unfoldable pub cn_match : Str → Str → Bool
cn_match pattern value =
    if str_eq pattern value then true else (elim (strip_prefix (codes "*.") pattern) [
      | none ↦ false
      | some rest ↦ elim (split_once b'.' value) [
        | none ↦ false
        | some (_, tail) ↦ str_eq tail rest
      ]
    ])

abbrev pub option_list : Option Str → List Str
option_list none = []
option_list (some s) = s ∷ []

abbrev pub candidates : CertIdentity → List Str
candidates identity = option_list identity.common_name ++ identity.sans

unfoldable pub role_of : Str → CertRoleMapping → Option Str
unfolding cn_match
role_of cand entry = if cn_match entry.cn cand then some entry.role else none

unfoldable pub resolve_mtls_role : CertIdentity → Option MtlsConfig → Option Str
unfolding role_of
resolve_mtls_role identity none = none
resolve_mtls_role identity (some cfg) =
    or_else
      (cfg.cert_role_map >>= λ map.
        find_map (λ cand. find_map (role_of cand) map) (candidates identity))
      cfg.default_role
