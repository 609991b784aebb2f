-- ===== src/Json/Children.antt =====
-- One segment of a path: what a changed child leaves in place.
use docker_proxy.Common.{
  ℕ, zero, suc, ◌≡◌, ◌≢◌, refl, false, none, some, inl, inr, arith, Str, str_eq, str_eq_iff,
  Option-cases, ap,
}
use docker_proxy.Json.{
  Json, null, bool, number, string, array, object, Items, nil, cons, Fields, end, field, get_field,
  set_field, remove_field, get_item, set_item, parse_index, child, with_child,
}

get_field-set_field :
    (k j : Str) (new : Json) (fs : Fields)
    → str_eq k j ≡ false
    → get_field j (set_field k new fs) ≡ get_field j fs
unfolding get_field set_field
get_field-set_field k j new end h = refl
get_field-set_field k j new (field i v fs) h =
    ground (arith, str_eq_iff k j, str_eq_iff i k, str_eq_iff i j, get_field-set_field k j new fs h)

get_field-set_field_self :
    (k : Str) (old new : Json) (fs : Fields)
    → get_field k fs ≡ some old
    → get_field k (set_field k new fs) ≡ some new
unfolding get_field set_field
get_field-set_field_self k old new end h = ground arith
get_field-set_field_self k old new (field i v fs) h =
    ground (arith, get_field-set_field_self k old new fs)

pub get_field-remove_field :
    (k j : Str) (fs : Fields)
    → str_eq k j ≡ false
    → get_field j (remove_field k fs) ≡ get_field j fs
unfolding get_field remove_field
get_field-remove_field k j end h = refl
get_field-remove_field k j (field i v fs) h =
    ground (arith, str_eq_iff k j, str_eq_iff i k, str_eq_iff i j, get_field-remove_field k j fs h)

pub get_field-remove_field_self : (k : Str) (fs : Fields) → get_field k (remove_field k fs) ≡ none
unfolding get_field remove_field
get_field-remove_field_self k end = refl
get_field-remove_field_self k (field i v fs) = ground (arith, get_field-remove_field_self k fs)

get_item-set_item :
    (i j : ℕ) (new : Json) (vs : Items) → i ≢ j → get_item j (set_item i new vs) ≡ get_item j vs
unfolding get_item set_item
get_item-set_item i j new nil h = ground arith
get_item-set_item zero zero new (cons v vs) h = absurd (h refl)
get_item-set_item zero (suc j) new (cons v vs) h = refl
get_item-set_item (suc i) zero new (cons v vs) h = refl
get_item-set_item (suc i) (suc j) new (cons v vs) h =
    get_item-set_item i j new vs (λ e. h (ap suc e))

get_item-set_item_self :
    (i : ℕ) (old new : Json) (vs : Items)
    → get_item i vs ≡ some old
    → get_item i (set_item i new vs) ≡ some new
unfolding get_item set_item
get_item-set_item_self zero old new nil h = cc
get_item-set_item_self (suc i) old new nil h = cc
get_item-set_item_self zero old new (cons v vs) h = refl
get_item-set_item_self (suc i) old new (cons v vs) h = get_item-set_item_self i old new vs h

-- Two segments that name different children of every value: different keys, and not the same index
-- written in two ways, as "1" and "01" are.
pub record IsApart (a b : Str) : Type 0 where
  pub keys : a ≢ b
  pub indices : (i : ℕ) → parse_index a ≡ some i → parse_index b ≢ some i

str_eq_of_IsApart : (a b : Str) → IsApart a b → str_eq a b ≡ false
str_eq_of_IsApart a b h = ground (arith, str_eq_iff a b, h.keys)

pub child-with_child_self :
    (v : Json) (segment : Str) (old new : Json)
    → child v segment ≡ some old
    → child (with_child v segment new) segment ≡ some new
unfolding child with_child
child-with_child_self (object fs) segment old new h = get_field-set_field_self segment old new fs h
child-with_child_self (array vs) segment old new h = elim (Option-cases (parse_index segment)) [
  | inl e ↦ ground (arith, e)
  | inr (i, e) ↦ ground (arith, e, get_item-set_item_self i old new vs)
]
child-with_child_self null segment old new h = cc
child-with_child_self (bool b) segment old new h = cc
child-with_child_self (number n) segment old new h = cc
child-with_child_self (string s) segment old new h = cc

pub child-with_child :
    (v : Json) (a b : Str) (new : Json) → IsApart a b → child (with_child v a new) b ≡ child v b
unfolding child with_child
child-with_child (object fs) a b new h = get_field-set_field a b new fs (str_eq_of_IsApart a b h)
child-with_child (array vs) a b new h = elim (Option-cases (parse_index a)) [
  | inl e ↦ ground (arith, e)
  | inr (i, e) ↦ elim (Option-cases (parse_index b)) [
    | inl none_b ↦ ground (arith, e, none_b)
    | inr (j, e') ↦ ground (arith, e, e', h.indices i e, get_item-set_item i j new vs)
  ]
]
child-with_child null a b new h = refl
child-with_child (bool x) a b new h = refl
child-with_child (number n) a b new h = refl
child-with_child (string s) a b new h = refl
