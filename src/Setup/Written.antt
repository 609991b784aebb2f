-- ===== src/Setup/Written.antt =====
-- The configuration that the dialogue of src/setup.rs writes, against `validate` of src/config.rs.
use docker_proxy.Common.{
  ℕ, ◌<◌, ◌≡◌, refl, Bool, true, false, inl, inr, Option, none, some, List, [], ◌∷◌, arith, Str,
  str_eq, length, Bool-cases, Option-cases, get_elem?, All-append, any, is_empty, unwrap_or, ◌==◌,
}
use docker_proxy.Config.{TokenEntry, AuthConfig, Rule, ProxyConfig}
use docker_proxy.Config.Check.{ConfigError, validate, check_rules, check_auth_type, ◌and_then◌}
use docker_proxy.Setup.{Answer, pure, repeat}
use docker_proxy.Setup.Templates.{templates}
use docker_proxy.Setup.Custom.{role_names}
use docker_proxy.Setup.Dialogue.{
  ask_token, ask_auth, add_template, add_templates, ask_templates, ask_rules, setup, with_rule,
  rules_or_none, global_config,
}
use docker_proxy.Setup.Ready.{IsReady, name_error, templates-IsReady, get_elem?-All}
use docker_proxy.Setup.Runs.{
  EndsWith, Runs, Anything, pure-Runs, >>=-Runs, ask_text-Runs, ask_number-Runs, ask_choice-Runs,
  ask_choices-Runs, ask_confirm-Runs, item-Runs, repeat-Runs,
}
use docker_proxy.Setup.Asked.{then_any, if-Runs, AreReady, MayBeReady, build_custom_rule-Runs}

-- Nothing but the name of a rule can be wrong.
abbrev pub IsWritten : ProxyConfig → Type 0
IsWritten config =
    validate config ≡ name_error (any (λ rule. is_empty rule.name) (unwrap_or config.rules []))

module _ (fuel : ℕ) where
  with_rule-AreReady :
      (rules : List Rule) (o : Option Rule)
      → AreReady rules
      → MayBeReady o
      → AreReady (with_rule rules o)
  with_rule-AreReady rules none h k = h
  with_rule-AreReady rules (some rule) h k = All-append IsReady rules (rule ∷ []) h k

  add_template-Runs :
      (idx : ℕ) (rules : List Rule)
      → AreReady rules
      → Runs fuel AreReady (add_template fuel idx rules)
  unfolding add_template
  add_template-Runs idx rules h = elim (Option-cases (get_elem? templates idx)) [
    | inl missing ↦ rw missing (
        if-Runs fuel AreReady (idx == 14) _ _
          (>>=-Runs fuel MayBeReady AreReady _ _ (build_custom_rule-Runs fuel)
            λ o ready. pure-Runs fuel AreReady _ (with_rule-AreReady rules o h ready))
          (pure-Runs fuel AreReady _ h))
    | inr (added, found) ↦ rw found (
        pure-Runs fuel AreReady _ (
          All-append IsReady rules added h
            (get_elem?-All AreReady templates idx added templates-IsReady found)))
  ]

  add_templates-Runs :
      (chosen : List ℕ) (rules : List Rule)
      → AreReady rules
      → Runs fuel AreReady (add_templates fuel chosen rules)
  unfolding add_templates
  add_templates-Runs [] rules h = pure-Runs fuel AreReady _ h
  add_templates-Runs (idx ∷ chosen) rules h =
      >>=-Runs fuel AreReady AreReady _ _ (add_template-Runs idx rules h)
        λ more ready. add_templates-Runs chosen more ready

  ask_templates-Runs :
      (rules : List Rule) → AreReady rules → Runs fuel AreReady (ask_templates fuel rules)
  unfolding ask_templates
  ask_templates-Runs rules h =
      then_any fuel AreReady _ _ (ask_choices-Runs fuel) λ chosen. add_templates-Runs chosen rules h

  wanted-Runs :
      (wanted : Bool)
      → Runs fuel AreReady
          (elim wanted [ true ↦ repeat fuel (ask_templates fuel) [] | false ↦ pure [] ])
  wanted-Runs true =
      repeat-Runs AreReady (ask_templates fuel) AreReady fuel (λ _ h. h) ask_templates-Runs fuel []
        (omega arith) tt
  wanted-Runs false = pure-Runs fuel AreReady _ tt

  ask_rules-Runs : Runs fuel AreReady (ask_rules fuel)
  unfolding ask_rules
  ask_rules-Runs = then_any fuel AreReady _ _ (ask_confirm-Runs fuel) wanted-Runs

  ask_token-Runs : (tokens : List TokenEntry) → Runs fuel Anything (ask_token tokens)
  unfolding ask_token
  ask_token-Runs tokens = then_any fuel Anything _ _ (ask_text-Runs fuel) λ token.
      then_any fuel Anything _ _ (ask_choice-Runs fuel) λ i.
        then_any fuel Anything _ _ (item-Runs fuel role_names i)
          λ role. pure-Runs fuel Anything _ tt

  abbrev IsKnownType : Option AuthConfig → Type 0
  IsKnownType auth = (elim auth [ none ↦ none | some a ↦ check_auth_type a ]) ≡ none

  ask_auth-Runs : (auth_choice : ℕ) → Runs fuel IsKnownType (ask_auth fuel auth_choice)
  unfolding ask_auth check_auth_type str_eq
  ask_auth-Runs auth_choice =
      if-Runs fuel IsKnownType (auth_choice == 1) _ _
        (then_any fuel IsKnownType _ _ (ask_text-Runs fuel)
          λ secret. pure-Runs fuel IsKnownType _ refl)
        (if-Runs fuel IsKnownType (auth_choice == 2) _ _
          (then_any fuel IsKnownType _ _ (ask_text-Runs fuel) λ secret.
            then_any fuel IsKnownType _ _
              (repeat-Runs Anything ask_token Anything fuel (λ _ _. tt) (λ t _. ask_token-Runs t)
                fuel [] (omega arith) tt)
              λ tokens. pure-Runs fuel IsKnownType _ refl)
          (pure-Runs fuel IsKnownType _ refl))

  ready_rules :
      (rules : List Rule)
      → AreReady rules
      → check_rules rules ≡ name_error (any (λ rule. is_empty rule.name) rules)
  unfolding check_rules any
  ready_rules [] h = refl
  ready_rules (rule ∷ rules) (h, hs) = elim (Bool-cases (is_empty rule.name)) [
    | inl missing ↦ rw (h, missing) refl
    | inr named ↦ rw (h, named) (ready_rules rules hs)
  ]

  rules_or_none_lem : (rules : List Rule) → unwrap_or (rules_or_none rules) [] ≡ rules
  rules_or_none_lem [] = refl
  rules_or_none_lem (rule ∷ rules) = refl

  and_then_none : (o : Option ConfigError) → (o and_then none) ≡ o
  and_then_none none = refl
  and_then_none (some e) = refl

  finished-IsWritten :
      (port : ℕ) (socket_path : Str) (auth : Option AuthConfig) (rules : List Rule)
      → IsKnownType auth
      → AreReady rules
      → IsWritten (record {
        global = some (global_config port socket_path);
        auth = auth;
        rules = rules_or_none rules;
      })
  unfolding validate any
  finished-IsWritten port socket_path none rules known ready =
      rw (rules_or_none_lem rules, and_then_none) (ready_rules rules ready)
  finished-IsWritten port socket_path (some a) rules known ready =
      rw (known, rules_or_none_lem rules, and_then_none) (ready_rules rules ready)

setup-Runs : (fuel : ℕ) → Runs fuel IsWritten (setup fuel)
unfolding setup
setup-Runs fuel = then_any fuel IsWritten _ _ (ask_number-Runs fuel _) λ port.
    then_any fuel IsWritten _ _ (ask_text-Runs fuel) λ socket_path.
      then_any fuel IsWritten _ _ (ask_choice-Runs fuel) λ auth_choice.
        >>=-Runs fuel (IsKnownType fuel) IsWritten _ _ (ask_auth-Runs fuel auth_choice)
          λ auth known. >>=-Runs fuel AreReady IsWritten _ _ (ask_rules-Runs fuel) λ rules ready.
            pure-Runs fuel IsWritten _
              (finished-IsWritten fuel port socket_path auth rules known ready)

-- The dialogue comes to an end: with more fuel than there are answers it gives a configuration, or a
-- prompt fails. `validate` accepts the configuration, unless a rule was given an empty name, which is
-- then its error.
pub setup_ends :
    (fuel : ℕ) (answers : List Answer)
    → length answers < fuel
    → EndsWith IsWritten (length answers) (setup fuel answers)
setup_ends fuel = (setup-Runs fuel).ends
