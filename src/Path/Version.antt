-- ===== src/Path/Version.antt =====
-- `strip_api_version_prefix` of src/main.rs: which paths lose a prefix, and which prefix.
use docker_proxy.Common.{
  ℕ, ◌≡◌, refl, ◌⊎◌, inl, inr, true, [], ◌∷◌, ◌++◌, arith, Str, codes, split_once, split_once_sound,
  all, Bool-cases, Option-cases, some, none, starts_with, strip_prefix, strip_prefix_sound,
}
use docker_proxy.Path.{strip_api_version_prefix, is_version, is_version_char}

split_version :
    (part rest : Str)
    → all is_version_char part ≡ true
    → split_once b'/' (part ++ b'/' ∷ rest) ≡ some (part, rest)
unfolding split_once all
split_version [] rest h = refl
split_version (c ∷ part) rest h = ground (arith, split_version part rest)

version_chars : (part : Str) → is_version part ≡ true → all is_version_char part ≡ true
unfolding is_version
version_chars part h = ground (arith, h)

unversioned : is_version [] ≡ true → ⊥
unfolding is_version
unversioned h = ground arith

-- A path that starts with `/v`, a version and `/` loses what stands before that `/`.
pub strip_version :
    (part rest : Str)
    → is_version part ≡ true
    → strip_api_version_prefix (codes "/v" ++ (part ++ b'/' ∷ rest)) ≡ b'/' ∷ rest
unfolding strip_api_version_prefix starts_with strip_prefix
strip_version [] rest h = absurd (unversioned h)
strip_version (c ∷ part) rest h =
    ground (arith, h, split_version (c ∷ part) rest (version_chars (c ∷ part) h))

abbrev pub Strips : Str → Type 0
Strips path =
    (part : Str) × (rest : Str) × (is_version part ≡ true)
    × (path ≡ codes "/v" ++ (part ++ b'/' ∷ rest))
    × (strip_api_version_prefix path ≡ b'/' ∷ rest)

strip_tail :
    (c : ℕ) (tail : Str)
    → (strip_api_version_prefix (codes "/v" ++ (c ∷ tail)) ≡ codes "/v" ++ (c ∷ tail))
      ⊎ Strips (codes "/v" ++ (c ∷ tail))
unfolding strip_api_version_prefix starts_with strip_prefix
strip_tail c tail = elim (Option-cases (split_once b'/' (c ∷ tail))) [
  | inl missing ↦ inl (ground (arith, missing))
  | inr ((part, rest), found) ↦ elim (Bool-cases (is_version part)) [
    | inl version ↦
        let same = split_once_sound b'/' (c ∷ tail) part rest found in
        inr (part, rest, version, rw same refl, ground (arith, found, version))
    | inr other ↦ inl (ground (arith, found, other))
  ]
]

strip_empty : strip_api_version_prefix (codes "/v") ≡ codes "/v"
unfolding strip_api_version_prefix starts_with strip_prefix
strip_empty = refl

strip_found :
    (tail : Str)
    → (strip_api_version_prefix (codes "/v" ++ tail) ≡ codes "/v" ++ tail)
      ⊎ Strips (codes "/v" ++ tail)
strip_found [] = inl strip_empty
strip_found (c ∷ tail) = strip_tail c tail

strip_other :
    (path : Str) → strip_prefix (codes "/v") path ≡ none → strip_api_version_prefix path ≡ path
unfolding strip_api_version_prefix starts_with
strip_other path other = rw other refl

-- Every path is left as it is, or starts with `/v`, a version and `/` and loses what stands before
-- that `/`.
pub strip_cases : (path : Str) → (strip_api_version_prefix path ≡ path) ⊎ Strips path
strip_cases path = elim (Option-cases (strip_prefix (codes "/v") path)) [
  | inl other ↦ inl (strip_other path other)
  | inr (tail, found) ↦ rw (strip_prefix_sound (codes "/v") path tail found) (strip_found tail)
]
