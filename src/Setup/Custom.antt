-- ===== src/Setup/Custom.antt =====
-- `build_custom_rule` of src/setup.rs: a rule that is asked for field by field.
use Prim.Native.String.{String}
use docker_proxy.Common.{
  ℕ, ◌||◌, if◌then◌else◌, Option, none, some, List, [], ◌∷◌, ◌++◌, Str, codes, str_eq, is_empty,
  map, ◌==◌, u16_mod, u64_mod, get_elem?,
}
use docker_proxy.Yaml.{Yaml}
use docker_proxy.Config.{ConditionNode, leaf, ResponseFilterEntry, Rule, default_rule}
use docker_proxy.Setup.{Dialogue, pure, ◌>>=◌, ask_text, ask_number, ask_choice, item, repeat}

abbrev texts : List String → List Str
texts items = map codes items

abbrev pub role_names : List Str
role_names = texts ("admin" ∷ "readonly" ∷ "user" ∷ [])

abbrev field_names : List Str
field_names = texts ("path" ∷ "method" ∷ "client_ip" ∷ "header.<name>" ∷ "body.<path>" ∷ [])

abbrev operators : List Str
operators = texts (
    "equals" ∷ "not_equals" ∷ "contains" ∷ "not_contains" ∷ "starts_with" ∷ "ends_with" ∷ "matches"
    ∷ "not_matches" ∷ "in" ∷ "not_in" ∷ "exists" ∷ "not_exists" ∷ [])

pub data Action : Type 0 where
  deny : Action
  allow : Action
  require_role : Action
  response_filter : Action
  rate_limit : Action

abbrev pub actions : List Action
actions = deny ∷ allow ∷ require_role ∷ response_filter ∷ rate_limit ∷ []

abbrev pub action_name : Action → Str
action_name deny = codes "deny"
action_name allow = codes "allow"
action_name require_role = codes "require_role"
action_name response_filter = codes "response_filter"
action_name rate_limit = codes "rate_limit"

unfoldable pub ask_field : Dialogue Str
unfolding ask_choice ask_text
ask_field = ask_choice >>= λ field_idx. item field_names field_idx >>= λ field.
    if field_idx == 3
    then (ask_text >>= λ hdr. pure (codes "header." ++ hdr))
    else if field_idx == 4
    then (ask_text >>= λ path. pure (codes "body." ++ path))
    else pure field

abbrev given : Str → Option Yaml
given v = if is_empty v then none else some (Yaml.string v)

unfoldable pub ask_value : Str → Dialogue (Option Yaml)
unfolding ask_text
ask_value operator =
    if str_eq operator (codes "exists") || str_eq operator (codes "not_exists")
    then pure none
    else (ask_text >>= λ v. pure (given v))

unfoldable pub ask_condition : List ConditionNode → Dialogue (List ConditionNode)
unfolding ask_field ask_value
ask_condition conditions = ask_field >>= λ field. ask_choice >>= λ op_idx.
    item operators op_idx >>= λ operator. ask_value operator >>= λ value. pure (
      conditions
      ++ leaf (record { field = field; operator = operator; value = value; compiled_regex = none })
        ∷ [])

abbrev filter_action : ℕ → Str
filter_action i =
    if i == 1 then codes "remove" else if i == 2 then codes "replace" else codes "redact"

abbrev ask_replacement : Str → Dialogue (Option Str)
ask_replacement action =
    if str_eq action (codes "replace") then (ask_text >>= λ r. pure (some r)) else pure none

unfoldable pub ask_filter : List ResponseFilterEntry → Dialogue (List ResponseFilterEntry)
unfolding ask_text ask_choice
ask_filter filters = ask_text >>= λ fpath. ask_choice >>= λ fa_idx.
    ask_replacement (filter_action fa_idx) >>= λ r.
    pure (filters ++ record { field = fpath; action = filter_action fa_idx; replacement = r } ∷ [])

abbrev ask_status : Rule → Dialogue Rule
ask_status rule = ask_number u16_mod >>= λ status. pure (record rule { status = some status })

-- What the action of the rule needs.
unfoldable pub ask_details : ℕ → Action → Rule → Dialogue Rule
unfolding ask_choice ask_number repeat ask_filter
ask_details fuel require_role rule = ask_choice >>= λ role_idx.
    item role_names role_idx >>= λ role. pure (record rule { role = some role })
ask_details fuel response_filter rule =
    repeat fuel ask_filter [] >>= λ filters. pure (record rule { response_filter = some filters })
ask_details fuel rate_limit rule = ask_number u64_mod >>= λ requests.
    ask_number u64_mod >>= λ period. ask_number u64_mod >>= λ penalty. pure (record rule {
      rate_limit = some (record { requests = requests; period = period; penalty = penalty });
      status = some 429;
    })
ask_details fuel deny rule = ask_status rule
ask_details fuel allow rule = ask_status rule

abbrev pub first_status : Action → ℕ
first_status rate_limit = 429
first_status _ = 403

abbrev pub new_rule : Str → Action → List ConditionNode → Str → Rule
new_rule name action conditions message = record default_rule {
  name = name;
  action = action_name action;
  conditions = conditions;
  message = some message;
  status = some (first_status action);
}

-- The questions behind the action.
unfoldable pub ask_rule : ℕ → Str → Action → Dialogue Rule
unfolding ask_text repeat ask_condition ask_details
ask_rule fuel name action = ask_text >>= λ message. repeat fuel ask_condition [] >>= λ conditions.
    ask_details fuel action (new_rule name action conditions message)

-- `none`: an action that is not in the list.
unfoldable pub build_custom_rule : ℕ → Dialogue (Option Rule)
unfolding ask_rule
build_custom_rule fuel = ask_text >>= λ name. ask_choice >>= λ action_idx.
    elim (get_elem? actions action_idx) [
      | none ↦ pure none
      | some action ↦ ask_rule fuel name action >>= λ rule. pure (some rule)
    ]
