-- ===== src/Common/Lists.antt =====
-- Lists measured by native numbers, the iterator methods, and a predicate that holds of every item.
use Prim.Native.Nat.{ℕ, zero, suc, ◌+◌}
use mathlib.Core.Path.{◌≡◌, refl}
use mathlib.Core.Logic.{◌≢◌, inl, inr}
use mathlib.Core.Bool.{Bool, true, false, not, ◌&&◌, ◌||◌}
use mathlib.Core.Option.{Option, none, some}
use mathlib.Core.List.{List, [], ◌∷◌, ◌++◌}
use native.Mathlib.Omega.{arith}
use docker_proxy.Common.Tests.{if◌then◌else◌, is_some, or_else, Option-cases}

module _ {ℓ} {A : Type ℓ} where
  abbrev pub length : List A → ℕ
  length [] = 0
  length (x ∷ xs) = suc (length xs)

  abbrev pub get_elem? : List A → ℕ → Option A
  get_elem? [] i = none
  get_elem? (x ∷ xs) zero = some x
  get_elem? (x ∷ xs) (suc i) = get_elem? xs i

  abbrev pub take : ℕ → List A → List A
  take zero xs = []
  take (suc n) [] = []
  take (suc n) (x ∷ xs) = x ∷ take n xs

  abbrev pub drop : ℕ → List A → List A
  drop zero xs = xs
  drop (suc n) [] = []
  drop (suc n) (x ∷ xs) = drop n xs

  pub length-append : (xs ys : List A) → length (xs ++ ys) ≡ length xs + length ys
  length-append [] ys = omega arith
  length-append (x ∷ xs) ys = omega (arith, length-append xs ys)

  abbrev pub is_empty : List A → Bool
  is_empty [] = true
  is_empty (x ∷ xs) = false

  pub filled : (xs : List A) → is_empty xs ≡ false → xs ≢ []
  filled [] h e = ground arith
  filled (x ∷ xs) h e = ground arith

  pub not_empty : (xs : List A) → xs ≢ [] → is_empty xs ≡ false
  not_empty [] h = absurd (h refl)
  not_empty (x ∷ xs) h = refl

  -- `iter().any` and `iter().all`.
  unfoldable pub any : (A → Bool) → List A → Bool
  any p [] = false
  any p (x ∷ xs) = p x || any p xs

  unfoldable pub all : (A → Bool) → List A → Bool
  all p [] = true
  all p (x ∷ xs) = p x && all p xs

  pub any-append : (p : A → Bool) (xs ys : List A) → any p (xs ++ ys) ≡ (any p xs || any p ys)
  unfolding any
  any-append p [] ys = refl
  any-append p (x ∷ xs) ys = ground (arith, any-append p xs ys)

  pub all-append : (p : A → Bool) (xs ys : List A) → all p (xs ++ ys) ≡ (all p xs && all p ys)
  unfolding all
  all-append p [] ys = refl
  all-append p (x ∷ xs) ys = ground (arith, all-append p xs ys)

  -- De Morgan's law for the two loops.
  pub all-not :
      (p q : A → Bool) → ((x : A) → q x ≡ not (p x)) → (xs : List A) → all q xs ≡ not (any p xs)
  unfolding any all
  all-not p q h [] = refl
  all-not p q h (x ∷ xs) = ground (arith, h x, all-not p q h xs)

  -- `iter().filter`, under the name of the test.
  unfoldable pub keep_if : (A → Bool) → List A → List A
  keep_if p [] = []
  keep_if p (x ∷ xs) = if p x then x ∷ keep_if p xs else keep_if p xs

  -- All items but the last, as `Vec::pop` leaves them.
  unfoldable pub but_last : List A → List A
  but_last [] = []
  but_last (x ∷ []) = []
  but_last (x ∷ y ∷ xs) = x ∷ but_last (y ∷ xs)

  -- `iter().find`.
  unfoldable pub find : (A → Bool) → List A → Option A
  find p [] = none
  find p (x ∷ xs) = if p x then some x else find p xs

  pub is_some-find : (p : A → Bool) (xs : List A) → is_some (find p xs) ≡ any p xs
  unfolding find any
  is_some-find p [] = refl
  is_some-find p (x ∷ xs) = ground (arith, is_some-find p xs)

module _ {ℓ κ} {A : Type ℓ} {B : Type κ} where
  -- `iter().filter_map`.
  unfoldable pub filter_map : (A → Option B) → List A → List B
  filter_map f [] = []
  filter_map f (x ∷ xs) = elim (f x) [ none ↦ filter_map f xs | some y ↦ y ∷ filter_map f xs ]

  -- `iter().find_map`, and `iter().rev().find_map`.
  unfoldable pub find_map : (A → Option B) → List A → Option B
  find_map f [] = none
  find_map f (x ∷ xs) = or_else (f x) (find_map f xs)

  unfoldable pub rfind_map : (A → Option B) → List A → Option B
  rfind_map f [] = none
  rfind_map f (x ∷ xs) = or_else (rfind_map f xs) (f x)

  pub rfind_map-append :
      (f : A → Option B) (xs ys : List A)
      → rfind_map f (xs ++ ys) ≡ or_else (rfind_map f ys) (rfind_map f xs)
  unfolding rfind_map
  rfind_map-append f [] ys = ground arith
  rfind_map-append f (x ∷ xs) ys = ground (arith, rfind_map-append f xs ys)

  -- The first item that is mapped to something: nothing in front of it is.
  pub find_map-some :
      (f : A → Option B) (xs : List A) (y : B)
      → find_map f xs ≡ some y
      → (before : List A) × (x : A) × (after : List A) × (xs ≡ before ++ x ∷ after)
        × (f x ≡ some y)
        × (find_map f before ≡ none)
  unfolding find_map
  find_map-some f [] y e = ground arith
  find_map-some f (x ∷ xs) y e = elim (Option-cases (f x)) [
    | inl missing ↦
        let (before, z, after, whole, found, front) =
          find_map-some f xs y (rw (missing, find_map) at e) in
        (x ∷ before, z, after, rw whole refl, found, rw (missing, front) refl)
    | inr (w, found) ↦ ([], x, xs, refl, ground (arith, found), refl)
  ]

module _ {ℓ κ} {A : Type ℓ} (P : A → Type κ) where
  abbrev pub All : List A → Type κ
  All [] = Unit
  All (x ∷ xs) = P x × All xs

  pub All-append : (xs ys : List A) → All xs → All ys → All (xs ++ ys)
  All-append [] ys h k = k
  All-append (x ∷ xs) ys (p, h) k = (p, All-append xs ys h k)

  pub but_last-All : (xs : List A) → All xs → All (but_last xs)
  unfolding but_last
  but_last-All [] h = h
  but_last-All (x ∷ []) h = tt
  but_last-All (x ∷ y ∷ xs) (p, h) = (p, but_last-All (y ∷ xs) h)
