-- ===== src/Path/Canonical.antt =====
-- What `canonicalize_path` of src/main.rs promises of its answer, and which paths it leaves alone.
use docker_proxy.Common.{
  ℕ, ◌≡◌, refl, sym, ap, ◌∙◌, inl, inr, Bool, true, false, not, some, List, [], ◌∷◌, ◌++◌, arith,
  Str, codes, ◌≤◌, length, IsFree, All, All-append, any, split, join, split-IsFree, split-join,
  Bool-cases, ◌==◌, ◌||◌, ltb, starts_with, strip_prefix, is_empty, guard_some, bind_some,
  some-injective, str_eq, ends_with, cons_head,
}
use docker_proxy.Path.{
  canonicalize_path, canonicalize_decoded, percent_decode, is_control, is_utf8, normalize,
  strip_api_version_prefix, render_path, resolve_segments, push_segment, max_path_len,
  has_trailing_slash,
}
use docker_proxy.Path.Decoding.{percent_decode_plain}
use docker_proxy.Path.Version.{strip_cases}
use docker_proxy.Path.Segments.{IsPlain, resolve_segments-All, resolve_segments-IsPlain}

-- No control byte.
abbrev pub IsPrintable : Str → Type 0
IsPrintable = All (λ b. is_control b ≡ false)

any-IsPrintable : (s : Str) → any is_control s ≡ false → IsPrintable s
unfolding any
any-IsPrintable [] h = tt
any-IsPrintable (c ∷ s) h = (ground (arith, h), any-IsPrintable s (ground (arith, h)))

IsPrintable-any : (s : Str) → IsPrintable s → any is_control s ≡ false
unfolding any
IsPrintable-any [] h = refl
IsPrintable-any (c ∷ s) (h, hs) = ground (arith, h, IsPrintable-any s hs)

All-drop : (xs ys : Str) → IsPrintable (xs ++ ys) → IsPrintable ys
All-drop [] ys h = h
All-drop (x ∷ xs) ys (_, h) = All-drop xs ys h

cons_head-IsPrintable :
    (c : ℕ) (ps : List Str)
    → is_control c ≡ false
    → All IsPrintable ps
    → All IsPrintable (cons_head c ps)
cons_head-IsPrintable c [] h k = ((h, tt), tt)
cons_head-IsPrintable c (p ∷ ps) h (k, ks) = ((h, k), ks)

split-IsPrintable : (s : Str) → IsPrintable s → All IsPrintable (split b'/' s)
unfolding split
split-IsPrintable [] h = (tt, tt)
split-IsPrintable (c ∷ s) (h, hs) = elim (Bool-cases (c == b'/')) [
  | inl at ↦ rw at (tt, split-IsPrintable s hs)
  | inr off ↦ rw off (cons_head-IsPrintable c (split b'/' s) h (split-IsPrintable s hs))
]

join-IsPrintable : (ps : List Str) → All IsPrintable ps → IsPrintable (join (codes "/") ps)
unfolding join
join-IsPrintable [] h = tt
join-IsPrintable (p ∷ []) (h, _) = h
join-IsPrintable (p ∷ q ∷ ps) (h, hs) = All-append _ p _ h (refl, join-IsPrintable (q ∷ ps) hs)

render_path-IsPrintable :
    (segments : List Str) (slash : Bool)
    → All IsPrintable segments
    → IsPrintable (render_path segments slash)
unfolding render_path
render_path-IsPrintable segments false h = (refl, join-IsPrintable segments h)
render_path-IsPrintable segments true h =
    elim (Bool-cases (ltb 1 (length (b'/' ∷ join (codes "/") segments)))) [
      | inl long ↦ rw long (
          All-append _ (b'/' ∷ join (codes "/") segments) (codes "/")
            (refl, join-IsPrintable segments h) (refl, tt))
      | inr short ↦ rw short (refl, join-IsPrintable segments h)
    ]

strip-IsPrintable : (path : Str) → IsPrintable path → IsPrintable (strip_api_version_prefix path)
strip-IsPrintable path h = elim (strip_cases path) [
  | inl same ↦ rw same h
  | inr (part, rest, _, whole, e) ↦ rw e (All-drop part (b'/' ∷ rest) (rw whole at h).1.1)
]

-- What is accepted.
record IsAccepted (raw path : Str) : Type 0 where
  decoded : Str
  within : length raw ≤ max_path_len
  decodes : percent_decode raw ≡ some decoded
  printable : any is_control decoded ≡ false
  answer : path ≡ normalize (strip_api_version_prefix decoded)

within_len : (raw : Str) → ltb max_path_len (length raw) ≡ false → length raw ≤ max_path_len
within_len raw h = ground (arith, h)

accepted : (raw path : Str) → canonicalize_path raw ≡ some path → IsAccepted raw path
unfolding canonicalize_path
accepted raw path e =
    let (_, e1) = guard_some (is_empty raw || not (starts_with raw (codes "/"))) _ path e in
    let (short, e2) = guard_some (ltb max_path_len (length raw)) _ path e1 in
    let (decoded, found, e3) = bind_some (percent_decode raw) canonicalize_decoded path e2 in
    let (printable, e4) = guard_some (any is_control decoded) _ path e3 in
    let (_, e5) = guard_some (not (is_utf8 decoded)) _ path e4 in
    record {
      decoded = decoded;
      within = within_len raw short;
      decodes = found;
      printable = printable;
      answer = sym (some-injective _ path e5);
    }

-- The path that is accepted is `/` and plain segments with a slash between any two, and perhaps one
-- at the end; it holds no control byte, and the path of the request had at most `MAX_PATH_LEN` bytes.
pub canonicalize_path_sound :
    (raw path : Str)
    → canonicalize_path raw ≡ some path
    → ((segments : List Str) × (slash : Bool) × All IsPlain segments
        × (path ≡ render_path segments slash))
      × IsPrintable path
      × (length raw ≤ max_path_len)
canonicalize_path_sound raw path e =
    let a = accepted raw path e in
    let stripped = strip_api_version_prefix a.decoded in
    let pieces = split b'/' stripped in
    let printable = strip-IsPrintable a.decoded (any-IsPrintable a.decoded a.printable) in
    (
      (
        resolve_segments [] pieces,
        has_trailing_slash stripped,
        resolve_segments-All (IsFree b'/') IsPlain (λ seg free (x, y, z). (x, y, z, free)) pieces []
            (split-IsFree b'/' stripped) tt,
        a.answer,
      ),
      rw (a.answer) (
          render_path-IsPrintable (resolve_segments [] pieces) (has_trailing_slash stripped) (
            resolve_segments-All IsPrintable IsPrintable (λ seg h _. h) pieces []
              (split-IsPrintable stripped printable) tt)),
      a.within,
    )

ends_with_tail :
    (c d : ℕ) (s : Str) → ends_with (c ∷ d ∷ s) (codes "/") ≡ ends_with (d ∷ s) (codes "/")
unfolding ends_with str_eq
ends_with_tail c d s = ground arith

ends_with-append :
    (a : Str) (d : ℕ) (s : Str) → ends_with (a ++ d ∷ s) (codes "/") ≡ ends_with (d ∷ s) (codes "/")
ends_with-append [] d s = refl
ends_with-append (c ∷ []) d s = ends_with_tail c d s
ends_with-append (c ∷ e ∷ a) d s = ends_with_tail c e (a ++ d ∷ s) ∙ ends_with-append (e ∷ a) d s

ends_with-IsFree : (s : Str) → IsFree b'/' s → ends_with s (codes "/") ≡ false
unfolding ends_with str_eq
ends_with-IsFree [] h = refl
ends_with-IsFree (c ∷ s) (h, hs) = ground (arith, h, ends_with-IsFree s hs)

-- A path of plain segments ends in a slash only where one is put at the end.
no_slash_at_end :
    (p : Str) (ps : List Str)
    → All IsPlain (p ∷ ps)
    → ends_with (b'/' ∷ join (codes "/") (p ∷ ps)) (codes "/") ≡ false
unfolding join
no_slash_at_end [] ps ((h, _, _, _), _) = absurd (h refl)
no_slash_at_end (c ∷ p) [] ((_, _, _, free), _) =
    ends_with_tail b'/' c p ∙ ends_with-IsFree (c ∷ p) free
no_slash_at_end (c ∷ p) (q ∷ qs) (_, hs) =
    ends_with-append (b'/' ∷ c ∷ p) b'/' (join (codes "/") (q ∷ qs)) ∙ no_slash_at_end q qs hs

All-IsFree : (ps : List Str) → All IsPlain ps → All (IsFree b'/') ps
All-IsFree [] h = tt
All-IsFree (p ∷ ps) ((_, _, _, free), hs) = (free, All-IsFree ps hs)

resolve_canonical :
    (segments : List Str)
    → All IsPlain segments
    → resolve_segments [] (split b'/' (b'/' ∷ join (codes "/") segments)) ≡ segments
unfolding resolve_segments push_segment split join
resolve_canonical [] h = refl
resolve_canonical (p ∷ ps) h =
    rw (split-join b'/' p ps (All-IsFree (p ∷ ps) h)) (resolve_segments-IsPlain (p ∷ ps) [] h)

trailing_slash :
    (segments : List Str)
    → All IsPlain segments
    → has_trailing_slash (b'/' ∷ join (codes "/") segments) ≡ false
unfolding join
trailing_slash [] h = refl
trailing_slash (p ∷ ps) h = ground (arith, no_slash_at_end p ps h)

normalize_fixed :
    (segments : List Str)
    → All IsPlain segments
    → normalize (b'/' ∷ join (codes "/") segments) ≡ b'/' ∷ join (codes "/") segments
unfolding render_path
normalize_fixed segments h = rw (resolve_canonical segments h, trailing_slash segments h) refl

accepts :
    (s decoded : Str)
    → ltb max_path_len (length (b'/' ∷ s)) ≡ false
    → percent_decode (b'/' ∷ s) ≡ some decoded
    → any is_control decoded ≡ false
    → is_utf8 decoded ≡ true
    → canonicalize_path (b'/' ∷ s) ≡ some (normalize (strip_api_version_prefix decoded))
unfolding canonicalize_path starts_with strip_prefix
accepts s decoded short found printable utf8 = rw (short, found, printable, utf8) refl

-- A path of plain segments with no slash at its end is accepted as it is, if it is short enough, in
-- UTF-8, without control bytes and escapes, and no version stands in front.
pub canonicalize_path_fixed :
    (segments : List Str)
    → let path = b'/' ∷ join (codes "/") segments in
      All IsPlain segments
      → IsFree b'%' path
      → IsPrintable path
      → is_utf8 path ≡ true
      → strip_api_version_prefix path ≡ path
      → length path ≤ max_path_len
      → canonicalize_path path ≡ some path
canonicalize_path_fixed segments h plain printable utf8 versionless short =
    let path = b'/' ∷ join (codes "/") segments in
    accepts (join (codes "/") segments) path (ground (arith, short))
      (percent_decode_plain path plain) (IsPrintable-any path printable) utf8
    ∙ rw versionless (ap (λ p. some p) (normalize_fixed segments h))
