-- ===== src/Tls/Roles.antt =====
-- Which role `resolve_mtls_role` of src/tls.rs gives a client certificate.
use docker_proxy.Common.{
  ◌≡◌, refl, ◌⊎◌, inl, inr, true, false, Bool-cases, Option-cases, none, some, List, [], ◌∷◌, ◌++◌,
  arith, Str, All, find_map, find_map-some, unwrap_or,
}
use docker_proxy.Config.{CertRoleMapping, MtlsConfig}
use docker_proxy.Tls.{CertIdentity, candidates, cn_match, role_of, resolve_mtls_role}

-- No entry of the list covers the name.
abbrev pub Uncovered : List CertRoleMapping → Str → Type 0
Uncovered entries name = All (λ entry. cn_match entry.cn name ≡ false) entries

-- The role of the first entry that covers the first name that some entry covers.
pub record IsMapped (map : List CertRoleMapping) (names : List Str) (role : Str) : Type 0 where
  pub earlier_names : List Str
  pub name : Str
  pub later_names : List Str
  pub earlier : List CertRoleMapping
  pub entry : CertRoleMapping
  pub later : List CertRoleMapping
  pub whole_names : names ≡ earlier_names ++ name ∷ later_names
  pub whole_map : map ≡ earlier ++ entry ∷ later
  pub none_earlier : All (Uncovered map) earlier_names
  pub not_before : Uncovered earlier name
  pub covers : cn_match entry.cn name ≡ true
  pub gives : entry.role ≡ role

role_of-some :
    (name : Str) (entry : CertRoleMapping) (role : Str)
    → role_of name entry ≡ some role
    → (cn_match entry.cn name ≡ true) × (entry.role ≡ role)
unfolding role_of
role_of-some name entry role e = elim (Bool-cases (cn_match entry.cn name)) [
  | inl match ↦ (match, ground (arith, e, match))
  | inr other ↦ ground (arith, e, other)
]

role_of-none :
    (name : Str) (entries : List CertRoleMapping)
    → find_map (role_of name) entries ≡ none
    → Uncovered entries name
unfolding find_map role_of
role_of-none name [] e = tt
role_of-none name (entry ∷ entries) e = elim (Bool-cases (cn_match entry.cn name)) [
  | inl match ↦ ground (arith, e, match)
  | inr other ↦ (other, role_of-none name entries (rw (other, find_map, role_of) at e))
]

roles_none :
    (map : List CertRoleMapping) (names : List Str)
    → find_map (λ name. find_map (role_of name) map) names ≡ none
    → All (Uncovered map) names
unfolding find_map
roles_none map [] e = tt
roles_none map (name ∷ names) e = elim (Option-cases (find_map (role_of name) map)) [
  | inl missing ↦
      (role_of-none name map missing, roles_none map names (rw (missing, find_map) at e))
  | inr (role, found) ↦ ground (arith, e, found)
]

mapped :
    (map : List CertRoleMapping) (names : List Str) (role : Str)
    → find_map (λ name. find_map (role_of name) map) names ≡ some role
    → IsMapped map names role
mapped map names role e =
    let (before, name, after, whole, found, front) =
      find_map-some (λ n. find_map (role_of n) map) names role e in
    let (earlier, entry, later, entries, chosen, none_before) =
      find_map-some (role_of name) map role found in
    let (match, gives) = role_of-some name entry role chosen in
    record {
      earlier_names = before;
      name = name;
      later_names = after;
      earlier = earlier;
      entry = entry;
      later = later;
      whole_names = whole;
      whole_map = entries;
      none_earlier = roles_none map before front;
      not_before = role_of-none name earlier none_before;
      covers = match;
      gives = gives;
    }

-- The entries of the configuration, if it has any.
abbrev pub entries_of : MtlsConfig → List CertRoleMapping
entries_of cfg = unwrap_or cfg.cert_role_map []

no_entries : (names : List Str) → All (Uncovered []) names
no_entries [] = tt
no_entries (name ∷ names) = (tt, no_entries names)

-- A certificate has the role of the first entry that covers its first covered name, the common name
-- before the alternative ones. A certificate of which no entry covers a name has the default role, or
-- none where there is no default role.
pub resolve_mtls_role_cases :
    (id : CertIdentity) (cfg : MtlsConfig)
    → ((role : Str) × IsMapped (entries_of cfg) (candidates id) role
        × (resolve_mtls_role id (some cfg) ≡ some role))
      ⊎ (All (Uncovered (entries_of cfg)) (candidates id)
          × (resolve_mtls_role id (some cfg) ≡ cfg.default_role))
unfolding resolve_mtls_role
resolve_mtls_role_cases id cfg = elim (Option-cases cfg.cert_role_map) [
  | inl missing ↦
      inr (rw missing (no_entries (candidates id)), rw (missing, resolve_mtls_role) refl)
  | inr (map, given) ↦
      elim (Option-cases (find_map (λ name. find_map (role_of name) map) (candidates id))) [
        | inl uncovered ↦ inr (
          rw given (roles_none map (candidates id) uncovered),
          rw (given, uncovered, resolve_mtls_role) refl,
        )
        | inr (role, found) ↦ inl (
          role,
          rw given (mapped map (candidates id) role found),
          rw (given, found, resolve_mtls_role) refl,
        )
      ]
]
