-- ===== src/Path.antt =====
-- `canonicalize_path` of src/main.rs and what it calls: the path that the rules see and that the
-- upstream request is made to.
pub mod Decoding
pub mod Version
pub mod Segments
pub mod Canonical
use docker_proxy.Common.{
  ℕ, zero, suc, ◌+◌, ◌*◌, ◌-◌, Bool, true, false, not, ◌&&◌, ◌||◌, if◌then◌else◌, Option, none,
  some, ◌>>=◌, List, [], ◌∷◌, ◌++◌, Str, codes, str_eq, split, join, is_empty, starts_with,
  ends_with, split_once, is_ascii_digit, length, ltb, leb, ◌==◌, any, all, drop, but_last,
}

abbrev pub max_path_len : ℕ
max_path_len = 8192

-- `char::to_digit(16)`.
unfoldable pub to_digit : ℕ → Option ℕ
to_digit c =
    if is_ascii_digit c
    then some (c - b'0')
    else if leb b'a' c && leb c b'f'
    then some (c - b'a' + 10)
    else if leb b'A' c && leb c b'F'
    then some (c - b'A' + 10)
    else none

abbrev pub cons_byte : ℕ → Option Str → Option Str
cons_byte b rest = rest >>= λ r. some (b ∷ r)

-- The loop over the bytes: the text from `i` on is the argument, and what is pushed is in front.
unfoldable pub percent_decode : Str → Option Str
unfolding to_digit
percent_decode [] = some []
percent_decode (c ∷ []) = if c == b'%' then none else some (c ∷ [])
percent_decode (c ∷ d ∷ []) = elim (c == b'%') [
  | true ↦ none
  | false ↦ cons_byte c (percent_decode (d ∷ []))
]
percent_decode (c ∷ h ∷ l ∷ s) = elim (c == b'%') [
  | true ↦ to_digit h >>= λ x. to_digit l >>= λ y. cons_byte (x * 16 + y) (percent_decode s)
  | false ↦ cons_byte c (percent_decode (h ∷ l ∷ s))
]

-- `String::from_utf8`: how many bytes follow a first byte, and the range of the next one.
unfoldable pub utf8_start : ℕ → Option (ℕ × ℕ × ℕ)
utf8_start c =
    if ltb c 0x80
    then some (0, 0x80, 0xbf)
    else if leb 0xc2 c && leb c 0xdf
    then some (1, 0x80, 0xbf)
    else if c == 0xe0
    then some (2, 0xa0, 0xbf)
    else if c == 0xed
    then some (2, 0x80, 0x9f)
    else if leb 0xe1 c && leb c 0xef
    then some (2, 0x80, 0xbf)
    else if c == 0xf0
    then some (3, 0x90, 0xbf)
    else if leb 0xf1 c && leb c 0xf3
    then some (3, 0x80, 0xbf)
    else if c == 0xf4
    then some (3, 0x80, 0x8f)
    else none

unfoldable pub utf8_from : ℕ → ℕ → ℕ → Str → Bool
unfolding utf8_start
utf8_from zero lo hi [] = true
utf8_from (suc n) lo hi [] = false
utf8_from zero lo hi (c ∷ s) = elim (utf8_start c) [
  | none ↦ false
  | some (n, low, high) ↦ utf8_from n low high s
]
utf8_from (suc n) lo hi (c ∷ s) = leb lo c && (leb c hi && utf8_from n 0x80 0xbf s)

abbrev pub is_utf8 : Str → Bool
is_utf8 s = utf8_from 0 0x80 0xbf s

-- `is_ascii_digit() || c == '.'`, of the version in front of a path.
abbrev pub is_version_char : ℕ → Bool
is_version_char c = is_ascii_digit c || c == b'.'

unfoldable pub is_version : Str → Bool
is_version part = not (is_empty part) && (not (str_eq part (codes ".")) && all is_version_char part)

unfoldable pub strip_api_version_prefix : Str → Str
unfolding is_version
strip_api_version_prefix path =
    if not (starts_with path (codes "/v")) || ltb (length path) 3
    then path
    else (elim (split_once b'/' (drop 2 path)) [
      | none ↦ path
      | some (part, rest) ↦ if is_version part then b'/' ∷ rest else path
    ])

-- One round of the loop over the segments.
unfoldable pub push_segment : List Str → Str → List Str
push_segment segments seg =
    if is_empty seg || str_eq seg (codes ".")
    then segments
    else if str_eq seg (codes "..")
    then but_last segments
    else segments ++ seg ∷ []

unfoldable pub resolve_segments : List Str → List Str → List Str
unfolding push_segment
resolve_segments segments [] = segments
resolve_segments segments (seg ∷ rest) = resolve_segments (push_segment segments seg) rest

abbrev pub is_control : ℕ → Bool
is_control b = b == 0 || (ltb b 0x20 || b == 0x7f)

-- The path that the segments make.
unfoldable pub render_path : List Str → Bool → Str
render_path segments trailing_slash =
    let out = b'/' ∷ join (codes "/") segments in
    if trailing_slash && ltb 1 (length out) then out ++ codes "/" else out

abbrev pub has_trailing_slash : Str → Bool
has_trailing_slash decoded = ltb 1 (length decoded) && ends_with decoded (codes "/")

abbrev pub normalize : Str → Str
normalize decoded =
    render_path (resolve_segments [] (split b'/' decoded)) (has_trailing_slash decoded)

-- What is done with the bytes that the path decodes to.
abbrev pub canonicalize_decoded : Str → Option Str
canonicalize_decoded decoded =
    if any is_control decoded
    then none
    else if not (is_utf8 decoded)
    then none
    else some (normalize (strip_api_version_prefix decoded))

unfoldable pub canonicalize_path : Str → Option Str
unfolding percent_decode utf8_from strip_api_version_prefix resolve_segments render_path
canonicalize_path raw =
    if is_empty raw || not (starts_with raw (codes "/"))
    then none
    else if ltb max_path_len (length raw)
    then none
    else percent_decode raw >>= canonicalize_decoded
