-- ===== src/Json.antt =====
-- JSON values (`serde_json::Value`) and the paths into them: `json_get`, `json_get_mut` and
-- `json_remove` of src/rules.rs. A mutable reference is modelled by the change that is made to
-- what it points to.
pub mod Children
pub mod Access
pub mod Removal
use docker_proxy.Common.{
  ℕ, zero, suc, Bool, true, false, if◌then◌else◌, Option, none, some, ◌>>=◌, List, [], ◌∷◌, Str,
  str_eq, split, join, is_empty, Number, parse_unsigned, u64_mod, length, ltb, codes, but_last,
}

mutual
  pub data Json : Type 0 where
    null : Json
    bool : Bool → Json
    number : Number → Json
    string : Str → Json
    array : Items → Json
    object : Fields → Json

  pub data Items : Type 0 where
    nil : Items
    cons : Json → Items → Items

  pub data Fields : Type 0 where
    end : Fields
    field : Str → Json → Fields → Fields

abbrev pub items : Items → List Json
items nil = []
items (cons v vs) = v ∷ items vs

-- `Map::get`, and the map with another value under a key that it has.
unfoldable pub get_field : Str → Fields → Option Json
get_field k end = none
get_field k (field j v fs) = if str_eq j k then some v else get_field k fs

unfoldable pub set_field : Str → Json → Fields → Fields
set_field k new end = end
set_field k new (field j v fs) =
    if str_eq j k then field j new fs else field j v (set_field k new fs)

unfoldable pub remove_field : Str → Fields → Fields
remove_field k end = end
remove_field k (field j v fs) =
    if str_eq j k then remove_field k fs else field j v (remove_field k fs)

-- `[T]::get`.
unfoldable pub get_item : ℕ → Items → Option Json
get_item i nil = none
get_item zero (cons v vs) = some v
get_item (suc i) (cons v vs) = get_item i vs

unfoldable pub set_item : ℕ → Json → Items → Items
set_item i new nil = nil
set_item zero new (cons v vs) = cons new vs
set_item (suc i) new (cons v vs) = cons v (set_item i new vs)

-- `usize` has 64 bits.
unfoldable pub parse_index : Str → Option ℕ
unfolding parse_unsigned
parse_index segment = parse_unsigned u64_mod segment

-- The value that one segment of a path names.
unfoldable pub child : Json → Str → Option Json
child (object fs) segment = get_field segment fs
child (array vs) segment = parse_index segment >>= λ i. get_item i vs
child null segment = none
child (bool b) segment = none
child (number n) segment = none
child (string s) segment = none

-- The value with another child under a segment that names one.
unfoldable pub with_child : Json → Str → Json → Json
with_child (object fs) segment new = object (set_field segment new fs)
with_child (array vs) segment new = elim (parse_index segment) [
  | none ↦ array vs
  | some i ↦ array (set_item i new vs)
]
with_child v segment new = v

-- The loop of `json_get`.
unfoldable pub json_get_at : Json → List Str → Option Json
json_get_at current [] = some current
json_get_at current (segment ∷ segments) =
    if is_empty segment then none else child current segment >>= λ next. json_get_at next segments

unfoldable pub json_get : Json → Str → Option Json
json_get root path = json_get_at root (split b'.' path)

-- The loop of `json_get_mut`, and the change `f` of what it finds; `none` is a path to nothing.
unfoldable pub json_get_mut_at : Json → List Str → (Json → Option Json) → Option Json
json_get_mut_at current [] f = none
json_get_mut_at current (segment ∷ []) f =
    if is_empty segment
    then none
    else child current segment >>= λ v. f v >>= λ new. some (with_child current segment new)
json_get_mut_at current (segment ∷ next ∷ segments) f =
    if is_empty segment
    then none
    else child current segment >>= λ v.
        json_get_mut_at v (next ∷ segments) f >>= λ new. some (with_child current segment new)

unfoldable pub json_get_mut : Json → Str → (Json → Option Json) → Option Json
json_get_mut root path f = json_get_mut_at root (split b'.' path) f

-- `segments.last().unwrap()`; there is always a segment.
unfoldable pub last : List Str → Str
last [] = []
last (s ∷ []) = s
last (s ∷ t ∷ ss) = last (t ∷ ss)

-- `map.remove(key)` where the value is an object.
unfoldable pub remove_key : Str → Json → Option Json
remove_key key (object fs) = elim (get_field key fs) [
  | none ↦ none
  | some _ ↦ some (object (remove_field key fs))
]
remove_key key v = none

-- The value after `json_remove`, and `none` where it returns false and changes nothing.
unfoldable pub json_remove : Json → Str → Option Json
json_remove root path =
    let segments = split b'.' path in
    if ltb (length segments) 2
    then none
    else json_get_mut root (join (codes ".") (but_last segments)) (remove_key (last segments))
