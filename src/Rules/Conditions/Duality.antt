-- ===== src/Rules/Conditions/Duality.antt =====
-- Which operators of src/rules.rs are negations of one another, field by field.
use Prim.Native.String.{String}
use docker_proxy.Common.{
  ◌≡◌, refl, Bool, false, not, ◌&&◌, Option, none, some, ◌>>=◌, inl, inr, List, arith, Str, codes,
  str_eq, is_some, is_some_and, is_none_or, all-not, HashMap, filter_map, Bool-cases, is_empty,
}
use docker_proxy.Json.{Json, json_get, items}
use docker_proxy.Yaml.{Yaml, yaml_value_to_string}
use docker_proxy.Externals.{Externals}
use docker_proxy.Config.{Condition}
use docker_proxy.Rules.Conditions.{
  value_string, value_sequence, any_string, all_strings, match_path_condition,
  match_method_condition, match_header_condition, match_ip_condition, match_body_condition,
  match_body_value, header_value, as_str, ip_in, ip_not_in, cidrs, body_contains, body_not_contains,
}

-- The same condition with another operator.
abbrev pub with_operator : Condition → String → Condition
with_operator c name = record c { operator = codes name }

not-is_some_and {ℓ} :
    {A : Type ℓ} (p q : A → Bool)
    → ((a : A) → q a ≡ not (p a))
    → (o : Option A) → is_none_or o q ≡ not (is_some_and o p)
not-is_some_and p q h none = refl
not-is_some_and p q h (some a) = h a

all_strings-not :
    (p : Str → Bool) (seq : List Yaml) → all_strings (λ s. not (p s)) seq ≡ not (any_string p seq)
unfolding all_strings any_string
all_strings-not p seq =
    all-not _ _ (λ v. not-is_some_and p (λ s. not (p s)) (λ s. refl) (yaml_value_to_string v)) seq

module _ (x : Externals) where
  -- On the path, `not_equals`, `not_contains`, `not_matches` and `not_in` hold exactly where
  -- `equals`, `contains`, `matches` and `in` do not, whatever the condition's value.
  pub match_path_condition-negated :
      (c : Condition) (path : Str)
      → let holds = λ (name : String). match_path_condition x (with_operator c name) path in
        (holds "not_equals" ≡ not (holds "equals"))
        × (holds "not_contains" ≡ not (holds "contains"))
        × (holds "not_matches" ≡ not (holds "matches"))
        × (holds "not_in" ≡ not (holds "in"))
  unfolding match_path_condition str_eq
  match_path_condition-negated c path = (
    not-is_some_and _ _ (λ v. refl) (value_string c),
    not-is_some_and _ _ (λ v. refl) (value_string c),
    ground arith,
    not-is_some_and _ _ (λ seq. all_strings-not _ seq) (value_sequence c),
  )

  -- On the method, `not_equals` and `not_in` hold exactly where `equals` and `in` do not.
  pub match_method_condition-negated :
      (c : Condition) (method : Str)
      → let holds = λ (name : String). match_method_condition x (with_operator c name) method in
        (holds "not_equals" ≡ not (holds "equals")) × (holds "not_in" ≡ not (holds "in"))
  unfolding match_method_condition str_eq
  match_method_condition-negated c method = (
    not-is_some_and _ _ (λ v. refl) (value_string c),
    not-is_some_and _ _ (λ seq. all_strings-not _ seq) (value_sequence c),
  )

  -- On a header, `not_equals`, `not_contains`, `not_exists` and `not_in` hold exactly where
  -- `equals`, `contains`, `exists` and `in` do not; `not_matches` never holds.
  pub match_header_condition-negated :
      (c : Condition) (headers : HashMap Str) (name : Str)
      → let holds = λ (op : String). match_header_condition x (with_operator c op) headers name in
        (holds "not_equals" ≡ not (holds "equals"))
        × (holds "not_contains" ≡ not (holds "contains"))
        × (holds "not_exists" ≡ not (holds "exists"))
        × (holds "not_in" ≡ not (holds "in"))
        × (holds "not_matches" ≡ false)
  unfolding match_header_condition str_eq
  match_header_condition-negated c headers name = (
    not-is_some_and _ _ (λ v. refl) (header_value x headers name),
    not-is_some_and _ _ (λ v. not-is_some_and _ _ (λ cv. refl) (value_string c))
        (header_value x headers name),
    ground arith,
    not-is_some_and _ _
        (λ seq. not-is_some_and _ _ (λ hv. all_strings-not _ seq) (header_value x headers name))
        (value_sequence c),
    refl,
  )

  ip_in-negated : (c : Condition) (ip : Option Str) → ip_not_in x c ip ≡ not (ip_in x c ip)
  unfolding ip_in ip_not_in
  ip_in-negated c ip = elim (Bool-cases (is_empty (filter_map x.parse_net (cidrs x c)))) [
    | inl empty ↦ rw empty (not-is_some_and _ _ (λ a. all-not _ _ (λ s. refl) (cidrs x c)) ip)
    | inr given ↦ rw given (not-is_some_and _ _ (λ a. refl) ip)
  ]

  -- On the client's address, `not_equals` and `not_in` hold exactly where `equals` and `in` do not,
  -- also where the value holds no prefix or the address cannot be read.
  pub match_ip_condition-negated :
      (c : Condition) (ip : Str)
      → let holds = λ (op : String). match_ip_condition x (with_operator c op) ip in
        (holds "not_equals" ≡ not (holds "equals")) × (holds "not_in" ≡ not (holds "in"))
  unfolding match_ip_condition str_eq cidrs
  match_ip_condition-negated c ip = (
    not-is_some_and _ _ (λ v. not-is_some_and _ _ (λ a. refl) (x.parse_ip ip)) (value_string c),
    ip_in-negated (with_operator c "in") (x.parse_ip ip),
  )

  body_contains-negated :
      (text : Str) (v : Json) → body_not_contains x text v ≡ not (body_contains x text v)
  unfolding body_not_contains body_contains
  body_contains-negated text (Json.array vs) =
      all-not _ _ (λ item. not-is_some_and _ _ (λ s. refl) (as_str item)) (items vs)
  body_contains-negated text v = refl

  abbrev holds_of : Condition → Json → String → Bool
  holds_of c v op = match_body_value x (with_operator c op) v

  match_body_value-negated :
      (c : Condition) (v : Json)
      → (holds_of c v "not_equals" ≡ not (holds_of c v "equals"))
        × (holds_of c v "not_contains" ≡ not (holds_of c v "contains"))
        × (holds_of c v "not_in" ≡ not (holds_of c v "in"))
  unfolding match_body_value str_eq
  match_body_value-negated c v = (
    not-is_some_and _ _ (λ cv. refl) c.value,
    not-is_some_and _ _ (λ text. body_contains-negated text v) (value_string c),
    not-is_some_and _ _ (λ seq. all-not _ _ (λ w. refl) seq) (value_sequence c),
  )

  where_present :
      (o : Option Json) (p q : Json → Bool)
      → ((v : Json) → q v ≡ not (p v))
      → is_some_and o q ≡ (is_some o && not (is_some_and o p))
  where_present none p q h = refl
  where_present (some v) p q h = h v

  only_present :
      (o : Option Json) (p : Json → Bool) → is_some_and o p ≡ (is_some o && is_some_and o p)
  only_present none p = refl
  only_present (some v) p = refl

  -- The value that a condition on the body looks at.
  abbrev pub body_value : Option Json → Str → Option Json
  body_value body path = body >>= λ b. json_get b path

  -- On the body, `not_exists` is the negation of `exists`; `not_equals`, `not_contains` and `not_in`
  -- hold where a value stands at the path and `equals`, `contains` and `in` do not hold of it. Where
  -- no value stands there, all six are false.
  pub match_body_condition-negated :
      (c : Condition) (body : Option Json) (path : Str)
      → let holds = λ (op : String). match_body_condition x (with_operator c op) body path in
        let present = is_some (body_value body path) in
        (holds "not_exists" ≡ not (holds "exists"))
        × (holds "not_equals" ≡ (present && not (holds "equals")))
        × (holds "not_contains" ≡ (present && not (holds "contains")))
        × (holds "not_in" ≡ (present && not (holds "in")))
        × (holds "equals" ≡ (present && holds "equals"))
        × (holds "contains" ≡ (present && holds "contains"))
        × (holds "in" ≡ (present && holds "in"))
  unfolding match_body_condition str_eq
  match_body_condition-negated c body path =
      let o = body_value body path in
      (
        ground arith,
        where_present o _ _ (λ v. (match_body_value-negated c v).0),
        where_present o _ _ (λ v. (match_body_value-negated c v).1),
        where_present o _ _ (λ v. (match_body_value-negated c v).2),
        only_present o _,
        only_present o _,
        only_present o _,
      )
