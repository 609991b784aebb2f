-- ===== src/Common/Map.antt =====
-- `HashMap<String, V>` as an association list: the entry API is a lookup and an insertion.
use Prim.Native.Nat.{suc, ◌≤◌}
use mathlib.Core.Path.{◌≡◌, refl}
use mathlib.Core.Bool.{Bool}
use mathlib.Core.Option.{Option, none, some}
use mathlib.Core.List.{List, [], ◌∷◌}
use native.Mathlib.Omega.{arith}
use docker_proxy.Common.Tests.{if◌then◌else◌, is_some}
use docker_proxy.Common.Lists.{length}
use docker_proxy.Common.Text.{Str, str_eq, str_eq_iff}

abbrev pub HashMap {ℓ} : Type ℓ → Type ℓ
HashMap V = List (Str × V)

module _ {ℓ} {V : Type ℓ} where
  unfoldable pub get : Str → HashMap V → Option V
  get k [] = none
  get k ((j, v) ∷ m) = if str_eq j k then some v else get k m

  abbrev pub contains_key : Str → HashMap V → Bool
  contains_key k m = is_some (get k m)

  unfoldable pub insert : Str → V → HashMap V → HashMap V
  insert k v [] = (k, v) ∷ []
  insert k v ((j, w) ∷ m) = if str_eq j k then (k, v) ∷ m else (j, w) ∷ insert k v m

  unfoldable pub remove : Str → HashMap V → HashMap V
  remove k [] = []
  remove k ((j, w) ∷ m) = if str_eq j k then remove k m else (j, w) ∷ remove k m

  unfoldable pub retain : (V → Bool) → HashMap V → HashMap V
  retain p [] = []
  retain p ((j, w) ∷ m) = if p w then (j, w) ∷ retain p m else retain p m

  pub get-insert :
      (k j : Str) (v : V) (m : HashMap V)
      → get j (insert k v m) ≡ (if str_eq k j then some v else get j m)
  unfolding get insert
  get-insert k j v [] = refl
  get-insert k j v ((i, w) ∷ m) =
      ground (arith, str_eq_iff k j, str_eq_iff i k, str_eq_iff i j, get-insert k j v m)

  pub get-remove :
      (k j : Str) (m : HashMap V) → get j (remove k m) ≡ (if str_eq k j then none else get j m)
  unfolding get remove
  get-remove k j [] = ground arith
  get-remove k j ((i, w) ∷ m) =
      ground (arith, str_eq_iff k j, str_eq_iff i k, str_eq_iff i j, get-remove k j m)

  -- Replacing an entry keeps the number of entries, and a new one adds one.
  pub length-insert :
      (k : Str) (v : V) (m : HashMap V)
      → length (insert k v m) ≡ (if contains_key k m then length m else suc (length m))
  unfolding get insert
  length-insert k v [] = refl
  length-insert k v ((i, w) ∷ m) = ground (arith, length-insert k v m)

  pub length-remove-le : (k : Str) (m : HashMap V) → length (remove k m) ≤ length m
  unfolding remove
  length-remove-le k [] = omega arith
  length-remove-le k ((i, w) ∷ m) = ground (arith, length-remove-le k m)

  pub length-retain-le : (p : V → Bool) (m : HashMap V) → length (retain p m) ≤ length m
  unfolding retain
  length-retain-le p [] = omega arith
  length-retain-le p ((i, w) ∷ m) = ground (arith, length-retain-le p m)

  -- A kept entry is found as before, unless a dropped entry of the same key hid it.
  pub get-retain-none :
      (p : V → Bool) (k : Str) (m : HashMap V) → get k m ≡ none → get k (retain p m) ≡ none
  unfolding get retain
  get-retain-none p k [] e = refl
  get-retain-none p k ((i, w) ∷ m) e = ground (arith, get-retain-none p k m)

  -- Keys that stand once each, as in a hash map.
  abbrev pub HasDistinctKeys : HashMap V → Type ℓ
  HasDistinctKeys [] = Unit
  HasDistinctKeys ((k, v) ∷ m) = (get k m ≡ none) × HasDistinctKeys m

  pub get-retain :
      (p : V → Bool) (k : Str) (m : HashMap V)
      → HasDistinctKeys m
      → get k (retain p m)
        ≡ (elim (get k m) [ none ↦ none | some v ↦ if p v then some v else none ])
  unfolding get retain
  get-retain p k [] d = refl
  get-retain p k ((i, w) ∷ m) (h, d) =
      ground (arith, get-retain p k m d, str_eq_iff i k, get-retain-none p i m h)

  pub HasDistinctKeys-insert :
      (k : Str) (v : V) (m : HashMap V) → HasDistinctKeys m → HasDistinctKeys (insert k v m)
  unfolding insert get
  HasDistinctKeys-insert k v [] d = (refl, tt)
  HasDistinctKeys-insert k v ((i, w) ∷ m) (h, d) =
      ground
        (arith, HasDistinctKeys-insert k v m d, str_eq_iff i k, str_eq_iff k i, get-insert k i v m)

  pub HasDistinctKeys-remove :
      (k : Str) (m : HashMap V) → HasDistinctKeys m → HasDistinctKeys (remove k m)
  unfolding remove
  HasDistinctKeys-remove k [] d = tt
  HasDistinctKeys-remove k ((i, w) ∷ m) (h, d) =
      ground (arith, HasDistinctKeys-remove k m d, get-remove k i m)

  pub HasDistinctKeys-retain :
      (p : V → Bool) (m : HashMap V) → HasDistinctKeys m → HasDistinctKeys (retain p m)
  unfolding retain
  HasDistinctKeys-retain p [] d = tt
  HasDistinctKeys-retain p ((i, w) ∷ m) (h, d) =
      ground (arith, HasDistinctKeys-retain p m d, get-retain-none p i m h)
