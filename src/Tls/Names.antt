-- ===== src/Tls/Names.antt =====
-- `cn_match` of src/tls.rs against a description of the names that a pattern stands for.
use docker_proxy.Common.{
  ◌≡◌, refl, ◌↔◌, ◌⊎◌, inl, inr, true, some, ◌∷◌, ◌++◌, arith, Str, codes, str_eq, str_eq_iff,
  str_eq_refl, strip_prefix, strip_prefix_sound, strip_prefix-append, split_once, split_once_sound,
  IsFree, Bool-cases, Option-cases, split_once_at, split_once-IsFree,
}
use docker_proxy.Tls.{cn_match}

-- The name itself, or `*.` and what stands behind the first dot of the name.
abbrev pub Covers : Str → Str → Type 0
Covers pattern value =
    (pattern ≡ value)
    ⊎ ((label : Str) × (rest : Str) × (pattern ≡ codes "*." ++ rest)
        × (value ≡ label ++ b'.' ∷ rest)
        × IsFree b'.' label)

cn_match_sound : (pattern value : Str) → cn_match pattern value ≡ true → Covers pattern value
unfolding cn_match
cn_match_sound pattern value h = elim (Bool-cases (str_eq pattern value)) [
  | inl same ↦ inl ((str_eq_iff pattern value).0 same)
  | inr other ↦ elim (Option-cases (strip_prefix (codes "*.") pattern)) [
    | inl missing ↦ ground (arith, other, missing)
    | inr (rest, found) ↦ elim (Option-cases (split_once b'.' value)) [
      | inl missing ↦ ground (arith, other, found, missing)
      | inr ((label, tail), cut) ↦
          let e : tail ≡ rest = (str_eq_iff tail rest).0 (ground (arith, other, found, cut)) in
          inr (
            label,
            rest,
            strip_prefix_sound (codes "*.") pattern rest found,
            rw (← e) (split_once_sound b'.' value label tail cut),
            split_once-IsFree b'.' value label tail cut,
          )
    ]
  ]
]

cn_match_complete : (pattern value : Str) → Covers pattern value → cn_match pattern value ≡ true
unfolding cn_match
cn_match_complete pattern value (inl e) = rw (e, str_eq_refl value) refl
cn_match_complete pattern value (inr (label, rest, p, v, free)) =
    elim (Bool-cases (str_eq pattern value)) [
      | inl same ↦ rw same refl
      | inr other ↦
          let found : strip_prefix (codes "*.") pattern ≡ some rest =
            rw p (strip_prefix-append (codes "*.") rest) in
          let cut : split_once b'.' value ≡ some (label, rest) =
            rw v (split_once_at b'.' label rest free) in
          rw (other, found, cut, str_eq_refl rest) refl
    ]

-- A pattern matches a name exactly if it is the name, or `*.` and what follows the first dot in it.
pub cn_match_iff : (pattern value : Str) → (cn_match pattern value ≡ true) ↔ Covers pattern value
cn_match_iff pattern value = (cn_match_sound pattern value, cn_match_complete pattern value)
