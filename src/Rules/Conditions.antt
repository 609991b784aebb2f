-- ===== src/Rules/Conditions.antt =====
-- One condition of a rule against one request: the five kinds of fields and their operators.
pub mod Duality
use docker_proxy.Common.{
  ℕ, Bool, true, false, not, if◌then◌else◌, Option, none, some, ◌>>=◌, List, [], ◌∷◌, Str, codes,
  str_eq, is_some_and, is_none_or, is_some, is_none, unwrap_or, any, all, find, filter_map,
  is_empty, starts_with, ends_with, contains, eq_ignore_ascii_case, HashMap, drop, ℤ, int_eq,
  Number, ◌==◌,
}
use Prim.Native.String.{String}
use docker_proxy.Json.{Json, json_get, items}
use docker_proxy.Yaml.{Yaml, elements, yaml_value_to_string}
use docker_proxy.Externals.{Externals}
use docker_proxy.Config.{Condition}

pub record EvaluationContext : Type 0 where
  pub path : Str
  pub method : Str
  pub headers : HashMap Str
  pub client_ip : Str
  pub body_json : Option Json
  pub user_role : Option Str

abbrev pub operator_is : Condition → String → Bool
operator_is c name = str_eq c.operator (codes name)

abbrev pub value_string : Condition → Option Str
value_string c = c.value >>= yaml_value_to_string

abbrev pub sequence_of : Yaml → Option (List Yaml)
sequence_of (Yaml.sequence vs) = some (elements vs)
sequence_of _ = none

abbrev pub value_sequence : Condition → Option (List Yaml)
value_sequence c = c.value >>= sequence_of

-- `yaml_value_to_string(v).is_some_and(..)` and `is_none_or(..)` over a sequence.
unfoldable pub any_string : (Str → Bool) → List Yaml → Bool
any_string p seq = any (λ v. is_some_and (yaml_value_to_string v) p) seq

unfoldable pub all_strings : (Str → Bool) → List Yaml → Bool
all_strings p seq = all (λ v. is_none_or (yaml_value_to_string v) p) seq

abbrev pub as_str : Json → Option Str
as_str (Json.string s) = some s
as_str _ = none

abbrev pub as_bool : Json → Option Bool
as_bool (Json.bool b) = some b
as_bool _ = none

abbrev pub as_number : Json → Option Number
as_number (Json.number n) = some n
as_number _ = none

abbrev pub bool_eq : Bool → Bool → Bool
bool_eq true b = b
bool_eq false b = not b

module _ (x : Externals) where
  open x use {regex_new, is_match, parse_ip, parse_net, net_contains, json_to_string, f64_eq}

  unfoldable pub regex_matches : Condition → Str → Bool
  regex_matches c text = unwrap_or (c.compiled_regex >>= λ r. some (is_match r text)) false

  unfoldable pub match_path_condition : Condition → Str → Bool
  unfolding any_string all_strings regex_matches
  match_path_condition c path =
      let val = value_string c in
      if operator_is c "equals"
      then is_some_and val (λ v. str_eq path v)
      else if operator_is c "not_equals"
      then is_none_or val (λ v. not (str_eq path v))
      else if operator_is c "contains"
      then is_some_and val (λ v. contains path v)
      else if operator_is c "not_contains"
      then is_none_or val (λ v. not (contains path v))
      else if operator_is c "starts_with"
      then is_some_and val (λ v. starts_with path v)
      else if operator_is c "ends_with"
      then is_some_and val (λ v. ends_with path v)
      else if operator_is c "matches"
      then regex_matches c path
      else if operator_is c "not_matches"
      then unwrap_or (c.compiled_regex >>= λ r. some (not (is_match r path))) true
      else if operator_is c "in"
      then is_some_and (value_sequence c) (any_string (λ s. str_eq s path))
      else if operator_is c "not_in"
      then is_none_or (value_sequence c) (all_strings (λ s. not (str_eq s path)))
      else false

  unfoldable pub match_method_condition : Condition → Str → Bool
  unfolding any_string all_strings
  match_method_condition c method =
      let val = value_string c in
      if operator_is c "equals"
      then is_some_and val (λ v. eq_ignore_ascii_case method v)
      else if operator_is c "not_equals"
      then is_none_or val (λ v. not (eq_ignore_ascii_case method v))
      else if operator_is c "in"
      then is_some_and (value_sequence c) (any_string (λ s. eq_ignore_ascii_case method s))
      else if operator_is c "not_in"
      then is_none_or (value_sequence c) (all_strings (λ s. not (eq_ignore_ascii_case method s)))
      else false

  -- The value of the first header of that name, in any case.
  unfoldable pub header_value : HashMap Str → Str → Option Str
  header_value headers name = find (λ h. eq_ignore_ascii_case h.0 name) headers >>= λ h. some h.1

  unfoldable pub match_header_condition : Condition → HashMap Str → Str → Bool
  unfolding any_string all_strings regex_matches header_value
  match_header_condition c headers header_name =
      let header_val = header_value headers header_name in
      let cond_val = value_string c in
      if operator_is c "equals"
      then is_some_and header_val (λ v. is_some_and cond_val (λ cv. str_eq cv v))
      else if operator_is c "not_equals"
      then is_none_or header_val (λ v. not (is_some_and cond_val (λ cv. str_eq cv v)))
      else if operator_is c "contains"
      then is_some_and header_val (λ v. is_some_and cond_val (λ cv. contains v cv))
      else if operator_is c "not_contains"
      then is_none_or header_val (λ v. is_none_or cond_val (λ cv. not (contains v cv)))
      else if operator_is c "starts_with"
      then is_some_and header_val (λ v. is_some_and cond_val (λ cv. starts_with v cv))
      else if operator_is c "ends_with"
      then is_some_and header_val (λ v. is_some_and cond_val (λ cv. ends_with v cv))
      else if operator_is c "matches"
      then is_some_and header_val (λ v. regex_matches c v)
      else if operator_is c "exists"
      then is_some header_val
      else if operator_is c "not_exists"
      then is_none header_val
      else if operator_is c "in"
      then is_some_and (value_sequence c)
          (λ seq. is_some_and header_val (λ hv. any_string (λ s. str_eq s hv) seq))
      else if operator_is c "not_in"
      then is_none_or (value_sequence c)
          (λ seq. is_none_or header_val (λ hv. all_strings (λ s. not (str_eq s hv)) seq))
      else false

  -- The texts of the value: those of a sequence, or the one of a scalar.
  cidrs_of : Yaml → List Str
  cidrs_of (Yaml.sequence vs) = filter_map yaml_value_to_string (elements vs)
  cidrs_of v = elim (yaml_value_to_string v) [ none ↦ [] | some s ↦ s ∷ [] ]

  unfoldable pub cidrs : Condition → List Str
  unfolding cidrs_of
  cidrs c = unwrap_or (c.value >>= λ v. some (cidrs_of v)) []

  unfoldable pub ip_in : Condition → Option Str → Bool
  unfolding cidrs
  ip_in c client_ip =
      let ipnets = filter_map parse_net (cidrs c) in
      if is_empty ipnets
      then is_some_and client_ip (λ ip. any (λ s. str_eq s ip) (cidrs c))
      else is_some_and client_ip (λ ip. any (λ net. net_contains net ip) ipnets)

  unfoldable pub ip_not_in : Condition → Option Str → Bool
  unfolding cidrs
  ip_not_in c client_ip =
      let ipnets = filter_map parse_net (cidrs c) in
      if is_empty ipnets
      then is_none_or client_ip (λ ip. all (λ s. not (str_eq s ip)) (cidrs c))
      else is_none_or client_ip (λ ip. not (any (λ net. net_contains net ip) ipnets))

  unfoldable pub match_ip_condition : Condition → Str → Bool
  unfolding ip_in ip_not_in
  match_ip_condition c client_ip_str =
      let client_ip = parse_ip client_ip_str in
      if operator_is c "equals"
      then is_some_and (value_string c) (λ v. is_some_and client_ip (λ ip. str_eq ip v))
      else if operator_is c "not_equals"
      then is_none_or (value_string c) (λ v. is_none_or client_ip (λ ip. not (str_eq ip v)))
      else if operator_is c "in"
      then ip_in c client_ip
      else if operator_is c "not_in"
      then ip_not_in c client_ip
      else false

  -- The number views in the order in which `value_equal` asks for them.
  number_equal : Number → Number → Bool
  number_equal n json_n = elim json_n.as_i64 [
    | some i ↦ is_some_and n.as_i64 (λ j. int_eq j i)
    | none ↦ elim json_n.as_u64 [
      | some u ↦ is_some_and n.as_u64 (λ v. v == u)
      | none ↦ elim json_n.as_f64 [ some f ↦ is_some_and n.as_f64 (λ g. f64_eq g f) | none ↦ false ]
    ]
  ]

  abbrev null_equal : Json → Bool
  null_equal Json.null = true
  null_equal _ = false

  unfoldable pub value_equal : Yaml → Json → Bool
  unfolding number_equal
  value_equal (Yaml.string s) v = is_some_and (as_str v) (λ t. str_eq t s)
  value_equal (Yaml.bool b) v = is_some_and (as_bool v) (λ c. bool_eq c b)
  value_equal (Yaml.number n) v = is_some_and (as_number v) (λ m. number_equal n m)
  value_equal Yaml.null v = null_equal v
  value_equal _ v = false

  -- The text that `starts_with` and `matches` look at.
  text_of : Json → Str
  text_of (Json.string s) = s
  text_of v = json_to_string v

  body_contains : Str → Json → Bool
  body_contains text (Json.string s) = contains s text
  body_contains text (Json.array vs) =
      any (λ item. is_some_and (as_str item) (λ s. str_eq s text)) (items vs)
  body_contains text v = contains (json_to_string v) text

  body_not_contains : Str → Json → Bool
  body_not_contains text (Json.string s) = not (contains s text)
  body_not_contains text (Json.array vs) =
      all (λ item. is_none_or (as_str item) (λ s. not (str_eq s text))) (items vs)
  body_not_contains text v = not (contains (json_to_string v) text)

  -- The operators that need a value in the body.
  unfoldable pub match_body_value : Condition → Json → Bool
  unfolding value_equal text_of body_contains body_not_contains regex_matches
  match_body_value c v =
      if operator_is c "equals"
      then is_some_and c.value (λ cv. value_equal cv v)
      else if operator_is c "not_equals"
      then is_none_or c.value (λ cv. not (value_equal cv v))
      else if operator_is c "contains"
      then is_some_and (value_string c) (λ text. body_contains text v)
      else if operator_is c "not_contains"
      then is_none_or (value_string c) (λ text. body_not_contains text v)
      else if operator_is c "in"
      then is_some_and (value_sequence c) (λ seq. any (λ w. value_equal w v) seq)
      else if operator_is c "not_in"
      then is_none_or (value_sequence c) (λ seq. all (λ w. not (value_equal w v)) seq)
      else if operator_is c "starts_with"
      then is_some_and (value_string c) (λ cv. starts_with (text_of v) cv)
      else if operator_is c "matches"
      then regex_matches c (text_of v)
      else false

  unfoldable pub match_body_condition : Condition → Option Json → Str → Bool
  unfolding match_body_value
  match_body_condition c body_json field_path =
      let json_val = body_json >>= λ b. json_get b field_path in
      if operator_is c "exists"
      then is_some json_val
      else if operator_is c "not_exists"
      then is_none json_val
      else is_some_and json_val (λ v. match_body_value c v)

  unfoldable pub evaluate_condition : Condition → EvaluationContext → Bool
  unfolding match_method_condition match_path_condition match_ip_condition match_header_condition
      match_body_condition
  evaluate_condition c ctx =
      if str_eq c.field (codes "method")
      then match_method_condition c ctx.method
      else if str_eq c.field (codes "path")
      then match_path_condition c ctx.path
      else if str_eq c.field (codes "client_ip")
      then match_ip_condition c ctx.client_ip
      else if starts_with c.field (codes "header.")
      then match_header_condition c ctx.headers (drop 7 c.field)
      else if starts_with c.field (codes "body.")
      then match_body_condition c ctx.body_json (drop 5 c.field)
      else false
