-- ===== src/Metrics/Render/Labels.antt =====
-- A label as `escape_label` of src/metrics.rs writes it, read back the way Prometheus reads it.
use docker_proxy.Common.{
  ℕ, ◌≡◌, refl, Bool, true, false, inl, inr, Bool-cases, if◌then◌else◌, Option, none, some, ◌>>=◌,
  [], ◌∷◌, ◌++◌, Str, arith, ◌==◌, IsFree,
}
use docker_proxy.Metrics.Render.{escape_label}

-- The character that stands behind a backslash.
abbrev pub unescaped : ℕ → ℕ
unescaped c = if c == b'n' then b'\n' else c

abbrev pub put : ℕ → Option (Str × Str) → Option (Str × Str)
put c o = o >>= λ r. some (c ∷ r.0, r.1)

-- The label up to the quote that ends it, and what follows; `after` a backslash or not.
unfoldable pub read_label : Bool → Str → Option (Str × Str)
read_label after [] = none
read_label true (c ∷ s) = put (unescaped c) (read_label false s)
read_label false (c ∷ s) =
    let plain = put c (read_label false s) in
    let escaped = read_label true s in
    if c == b'"' then some ([], s) else if c == b'\\' then escaped else plain

-- A label that is written is read back, whatever it holds: no quote of it ends the label early.
pub read_label-escape_label :
    (s rest : Str) → read_label false (escape_label s ++ b'"' ∷ rest) ≡ some (s, rest)
unfolding read_label escape_label
read_label-escape_label [] rest = refl
read_label-escape_label (c ∷ s) rest = elim (Bool-cases (c == b'\\')) [
  | inl backslash ↦ rw (backslash, read_label-escape_label s rest) (ground (arith, backslash))
  | inr other ↦ elim (Bool-cases (c == b'"')) [
    | inl quote ↦ rw (other, quote, read_label-escape_label s rest) (ground (arith, quote))
    | inr plain ↦ elim (Bool-cases (c == b'\n')) [
      | inl break ↦ rw (other, plain, break, read_label-escape_label s rest) (ground (arith, break))
      | inr none_of ↦
          rw (other, plain, none_of) (rw (other, plain, read_label-escape_label s rest) refl)
    ]
  ]
]

-- What is written holds no line break.
pub escape_label-IsFree : (s : Str) → IsFree b'\n' (escape_label s)
unfolding escape_label
escape_label-IsFree [] = tt
escape_label-IsFree (c ∷ s) = elim (Bool-cases (c == b'\\')) [
  | inl backslash ↦ rw backslash ((λ e. omega arith), ((λ e. omega arith), escape_label-IsFree s))
  | inr other ↦ elim (Bool-cases (c == b'"')) [
    | inl quote ↦
        rw (other, quote) ((λ e. omega arith), ((λ e. omega arith), escape_label-IsFree s))
    | inr plain ↦ elim (Bool-cases (c == b'\n')) [
      | inl break ↦
          rw (other, plain, break) ((λ e. omega arith), ((λ e. omega arith), escape_label-IsFree s))
      | inr none_of ↦
          rw (other, plain, none_of) ((λ e. ground (arith, none_of)), escape_label-IsFree s)
    ]
  ]
]
