-- ===== src/Common/Split.antt =====
-- Laws of `str::split` and `join` at one ASCII character.
use Prim.Native.Nat.{ℕ}
use mathlib.Core.Path.{◌≡◌, refl, ap, ◌∙◌}
use mathlib.Core.Logic.{◌≢◌, ◌⊎◌, inl, inr}
use mathlib.Core.List.{List, [], ◌∷◌, ◌++◌}
use native.Mathlib.Omega.{arith}
use mathlib.Core.Option.{some}
use docker_proxy.Common.Tests.{Option-cases, ◌==◌, Bool-cases}
use docker_proxy.Common.Lists.{All}
use docker_proxy.Common.Text.{split_once, Str, split, join}

-- No character of the text is `sep`.
abbrev pub IsFree : ℕ → Str → Type 0
IsFree sep [] = Unit
IsFree sep (c ∷ s) = (c ≢ sep) × IsFree sep s

pub IsFree-append : (sep : ℕ) (s t : Str) → IsFree sep s → IsFree sep t → IsFree sep (s ++ t)
IsFree-append sep [] t h k = k
IsFree-append sep (c ∷ s) t (n, h) k = (n, IsFree-append sep s t h k)

List-cases : (ps : List Str) → (ps ≡ []) ⊎ ((p : Str) × (qs : List Str) × (ps ≡ p ∷ qs))
List-cases [] = inl refl
List-cases (p ∷ qs) = inr (p, qs, refl)

pub split-ne-nil : (sep : ℕ) (s : Str) → split sep s ≢ []
unfolding split
split-ne-nil sep [] e = cc
split-ne-nil sep (c ∷ s) e = elim (Bool-cases (c == sep)) [
  | inl at ↦ ground (arith, at)
  | inr off ↦ elim (List-cases (split sep s)) [
    | inl empty ↦ split-ne-nil sep s empty
    | inr (p, qs, found) ↦ ground (arith, off, found)
  ]
]

-- The pieces hold no separator.
pub split-IsFree : (sep : ℕ) (s : Str) → All (IsFree sep) (split sep s)
unfolding split
split-IsFree sep [] = (tt, tt)
split-IsFree sep (c ∷ s) = elim (Bool-cases (c == sep)) [
  | inl at ↦ rw at (tt, split-IsFree sep s)
  | inr off ↦ elim (List-cases (split sep s)) [
    | inl empty ↦ absurd (split-ne-nil sep s empty)
    | inr (p, qs, found) ↦
        let rest = split-IsFree sep s in
        let (h, t) = rw found at rest in rw (off, found) ((λ e. ground arith, h), t)
  ]
]

join_cons_head :
    (by : Str) (c : ℕ) (p : Str) (ps : List Str) → join by ((c ∷ p) ∷ ps) ≡ c ∷ join by (p ∷ ps)
unfolding join
join_cons_head by c p [] = refl
join_cons_head by c p (q ∷ ps) = refl

-- Joining the pieces of a text gives the text back.
pub join-split : (sep : ℕ) (s : Str) → join (sep ∷ []) (split sep s) ≡ s
unfolding split join
join-split sep [] = refl
join-split sep (c ∷ s) = elim (Bool-cases (c == sep)) [
  | inl at ↦ elim (List-cases (split sep s)) [
    | inl empty ↦ absurd (split-ne-nil sep s empty)
    | inr (p, qs, found) ↦ ground (arith, at, found, join-split sep s)
  ]
  | inr off ↦ elim (List-cases (split sep s)) [
    | inl empty ↦ absurd (split-ne-nil sep s empty)
    | inr (p, qs, found) ↦
        ground (arith, off, found, join-split sep s, join_cons_head (sep ∷ []) c p qs)
  ]
]

pub split_at_sep : (sep : ℕ) (p r : Str) → IsFree sep p → split sep (p ++ sep ∷ r) ≡ p ∷ split sep r
unfolding split
split_at_sep sep [] r h = ground arith
split_at_sep sep (c ∷ p) r (h, hs) = ground (arith, split_at_sep sep p r hs)

split_free : (sep : ℕ) (p : Str) → IsFree sep p → split sep p ≡ p ∷ []
unfolding split
split_free sep [] h = refl
split_free sep (c ∷ p) (h, hs) = ground (arith, split_free sep p hs)

-- Splitting what pieces without the separator were joined to gives the pieces back.
pub split-join :
    (sep : ℕ) (p : Str) (ps : List Str)
    → All (IsFree sep) (p ∷ ps)
    → split sep (join (sep ∷ []) (p ∷ ps)) ≡ p ∷ ps
unfolding join
split-join sep p [] (h, _) = split_free sep p h
split-join sep p (q ∷ ps) (h, hs) =
    split_at_sep sep p (join (sep ∷ []) (q ∷ ps)) h ∙ ap (λ r. p ∷ r) (split-join sep q ps hs)

-- The text before the first separator holds none, and the first separator is where it is cut.
pub split_once-IsFree : (sep : ℕ) (s a b : Str) → split_once sep s ≡ some (a, b) → IsFree sep a
unfolding split_once
split_once-IsFree sep [] a b e = ground arith
split_once-IsFree sep (c ∷ s) a b e = elim (Bool-cases (c == sep)) [
  | inl at ↦ let empty : a ≡ [] = ground (arith, at) in rw empty tt
  | inr off ↦ elim (Option-cases (split_once sep s)) [
    | inl missing ↦ ground (arith, off, missing)
    | inr ((p, q), found) ↦
        let same : a ≡ c ∷ p = ground (arith, off, found) in
        rw same ((λ h. ground (arith, off, h)), split_once-IsFree sep s p q found)
  ]
]

pub split_once_at :
    (sep : ℕ) (p r : Str) → IsFree sep p → split_once sep (p ++ sep ∷ r) ≡ some (p, r)
unfolding split_once
split_once_at sep [] r h = ground arith
split_once_at sep (c ∷ p) r (h, hs) = ground (arith, split_once_at sep p r hs)
