-- ===== src/Setup/Dialogue.antt =====
-- `main` of src/setup.rs, up to the configuration that it writes: `serde_yaml` prints it, and
-- `fs::write` puts it into `config.yaml`. Each loop takes its own fuel.
use docker_proxy.Common.{
  Bool, ℕ, true, false, if◌then◌else◌, Option, none, some, List, [], ◌∷◌, ◌++◌, Str, codes,
  is_empty, get_elem?, ◌==◌, u16_mod,
}
use docker_proxy.Config.{AuthConfig, TokenEntry, Rule, ProxyConfig, GlobalConfig, default_global}
use docker_proxy.Setup.{
  unwrap, Dialogue, pure, ◌>>=◌, ask_text, ask_number, ask_choice, ask_choices, ask_confirm, item,
  repeat,
}
use docker_proxy.Setup.Templates.{templates}
use docker_proxy.Setup.Custom.{build_custom_rule, role_names}

abbrev pub unless_empty : Str → Option Str
unless_empty s = if is_empty s then none else some s

unfoldable pub ask_token : List TokenEntry → Dialogue (List TokenEntry)
unfolding ask_text ask_choice
ask_token tokens = ask_text >>= λ token. ask_choice >>= λ role_idx.
    item role_names role_idx >>= λ role.
    pure (tokens ++ record { token = token; role = some role } ∷ [])

abbrev pub bearer : Option Str → Option (List TokenEntry) → AuthConfig
bearer secret tokens = record {
  auth_type = some (codes "bearer");
  secret = secret;
  tokens = tokens;
  mtls = none;
}

abbrev pub unless_none : List TokenEntry → Option (List TokenEntry)
unless_none tokens = if is_empty tokens then none else some tokens

unfoldable pub ask_auth : ℕ → ℕ → Dialogue (Option AuthConfig)
unfolding ask_text repeat ask_token
ask_auth fuel auth_choice =
    if auth_choice == 1
    then (ask_text >>= λ secret. pure (some (bearer (some secret) none)))
    else if auth_choice == 2
    then (ask_text >>= λ secret. repeat fuel ask_token [] >>= λ tokens.
        pure (some (bearer (unless_empty secret) (unless_none tokens))))
    else pure none

abbrev pub with_rule : List Rule → Option Rule → List Rule
with_rule rules none = rules
with_rule rules (some rule) = rules ++ rule ∷ []

-- One of the templates that were chosen; the custom rule is number 14.
unfoldable pub add_template : ℕ → ℕ → List Rule → Dialogue (List Rule)
unfolding templates build_custom_rule
add_template fuel idx rules = elim (get_elem? templates idx) [
  | some added ↦ pure (rules ++ added)
  | none ↦
      if idx == 14
      then (build_custom_rule fuel >>= λ rule. pure (with_rule rules rule))
      else pure rules
]

unfoldable pub add_templates : ℕ → List ℕ → List Rule → Dialogue (List Rule)
unfolding add_template
add_templates fuel [] rules = pure rules
add_templates fuel (idx ∷ chosen) rules =
    add_template fuel idx rules >>= λ more. add_templates fuel chosen more

unfoldable pub ask_templates : ℕ → List Rule → Dialogue (List Rule)
unfolding ask_choices add_templates
ask_templates fuel rules = ask_choices >>= λ chosen. add_templates fuel chosen rules

unfoldable pub ask_rules : ℕ → Dialogue (List Rule)
unfolding ask_confirm repeat ask_templates
ask_rules fuel = ask_confirm >>= λ wanted. elim wanted [
  | true ↦ repeat fuel (ask_templates fuel) []
  | false ↦ pure []
]

abbrev pub rules_or_none : List Rule → Option (List Rule)
rules_or_none rules = if is_empty rules then none else some rules

abbrev pub global_config : ℕ → Str → GlobalConfig
global_config port socket_path = record default_global {
  port = some port;
  socket = unless_empty socket_path;
}

unfoldable pub setup : ℕ → Dialogue ProxyConfig
unfolding ask_number ask_text ask_choice ask_auth ask_rules
setup fuel = ask_number u16_mod >>= λ port. ask_text >>= λ socket_path.
    ask_choice >>= λ auth_choice. ask_auth fuel auth_choice >>= λ auth. ask_rules fuel >>= λ rules.
    pure (record {
      global = some (global_config port socket_path);
      auth = auth;
      rules = rules_or_none rules;
    })

-- The end of `main`: what is written to config.yaml. `to_yaml` is `serde_yaml::to_string`, and
-- `writes` says whether `fs::write` of a text succeeds.
unfoldable pub run_setup : (ProxyConfig → Option Str) → (Str → Bool) → ℕ → Dialogue Str
unfolding setup
run_setup to_yaml writes fuel = setup fuel >>= λ config.
    unwrap (to_yaml config) >>= λ yaml. unwrap (if writes yaml then some yaml else none)
