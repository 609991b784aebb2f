-- ===== src/Setup/Asked.antt =====
-- What the dialogue of src/setup.rs asks for a custom rule gives a rule that is ready.
use docker_proxy.Common.{
  ℕ, ◌≡◌, refl, Bool, true, false, Option, none, some, List, [], arith, Str, codes, str_eq,
  if◌then◌else◌, All, is_empty, ◌==◌, ◌||◌,
}
use docker_proxy.Config.{ConditionNode, ResponseFilterEntry, Rule}
use docker_proxy.Setup.{Dialogue, pure, ◌>>=◌}
use docker_proxy.Setup.Custom.{
  Action, deny, allow, require_role, response_filter, rate_limit, ask_field, ask_value,
  ask_condition, ask_filter, ask_details, ask_rule, build_custom_rule, new_rule, role_names,
}
use docker_proxy.Setup.Dialogue.{with_rule}
use docker_proxy.Setup.Ready.{IsReady, accepted, append-filled}
use docker_proxy.Setup.Runs.{
  Runs, Anything, pure-Runs, >>=-Runs, ask_text-Runs, ask_number-Runs, ask_choice-Runs, item-Runs,
  repeat-Runs,
}

abbrev pub AreReady : List Rule → Type 0
AreReady rules = All IsReady rules

abbrev pub MayBeReady : Option Rule → Type 0
MayBeReady o = AreReady (with_rule [] o)

module _ (fuel : ℕ) where
  -- A dialogue that gives something, whatever it is, followed by another.
  pub then_any {ℓ κ} :
      {A : Type ℓ} {B : Type κ} (P : B → Type 0) (m : Dialogue A) (f : A → Dialogue B)
      → Runs fuel Anything m
      → ((a : A) → Runs fuel P (f a))
      → Runs fuel P (m >>= f)
  then_any P m f first next = >>=-Runs fuel Anything P m f first (λ a _. next a)

  pub if-Runs {ℓ} :
      {A : Type ℓ} (P : A → Type 0) (b : Bool) (m n : Dialogue A)
      → Runs fuel P m
      → Runs fuel P n
      → Runs fuel P (if b then m else n)
  if-Runs P true m n h k = h
  if-Runs P false m n h k = k

  ask_field-Runs : Runs fuel Anything ask_field
  unfolding ask_field
  ask_field-Runs = then_any Anything _ _ (ask_choice-Runs fuel) λ i.
      then_any Anything _ _ (item-Runs fuel _ i) λ field.
        if-Runs Anything (i == 3) _ _
          (then_any Anything _ _ (ask_text-Runs fuel) λ s. pure-Runs fuel Anything _ tt)
          (if-Runs Anything (i == 4) _ _
            (then_any Anything _ _ (ask_text-Runs fuel) λ s. pure-Runs fuel Anything _ tt)
            (pure-Runs fuel Anything _ tt))

  ask_value-Runs : (operator : Str) → Runs fuel Anything (ask_value operator)
  unfolding ask_value
  ask_value-Runs operator =
      if-Runs Anything (str_eq operator (codes "exists") || str_eq operator (codes "not_exists")) _
        _ (pure-Runs fuel Anything _ tt)
        (then_any Anything _ _ (ask_text-Runs fuel) λ s. pure-Runs fuel Anything _ tt)

  -- A round adds a condition.
  ask_condition-Runs :
      (conditions : List ConditionNode)
      → Runs fuel (λ more. is_empty more ≡ false) (ask_condition conditions)
  unfolding ask_condition
  ask_condition-Runs conditions = then_any _ _ _ ask_field-Runs λ field.
      then_any _ _ _ (ask_choice-Runs fuel) λ i. then_any _ _ _ (item-Runs fuel _ i) λ operator.
        then_any _ _ _ (ask_value-Runs operator)
          λ value. pure-Runs fuel _ _ (append-filled conditions _)

  ask_filter-Runs : (filters : List ResponseFilterEntry) → Runs fuel Anything (ask_filter filters)
  unfolding ask_filter
  ask_filter-Runs filters = then_any _ _ _ (ask_text-Runs fuel) λ path.
      then_any _ _ _ (ask_choice-Runs fuel) λ i.
        then_any _ _ _
          (if-Runs Anything _ _ _
            (then_any _ _ _ (ask_text-Runs fuel) λ r. pure-Runs fuel Anything _ tt)
            (pure-Runs fuel Anything _ tt))
          λ r. pure-Runs fuel Anything _ tt

  ask_details-Runs :
      (action : Action) (name message : Str) (conditions : List ConditionNode)
      → is_empty conditions ≡ false
      → Runs fuel IsReady (ask_details fuel action (new_rule name action conditions message))
  unfolding ask_details str_eq
  ask_details-Runs require_role name message conditions h =
      then_any IsReady _ _ (ask_choice-Runs fuel) λ i.
        then_any IsReady _ _ (item-Runs fuel role_names i)
          λ role. pure-Runs fuel IsReady _ (accepted _ h refl refl refl refl)
  ask_details-Runs response_filter name message conditions h =
      then_any IsReady _ _
        (repeat-Runs Anything ask_filter Anything fuel (λ _ _. tt)
          (λ filters _. ask_filter-Runs filters) fuel [] (omega arith) tt)
        λ filters. pure-Runs fuel IsReady _ (accepted _ h refl refl refl refl)
  ask_details-Runs rate_limit name message conditions h =
      then_any IsReady _ _ (ask_number-Runs fuel _) λ requests.
        then_any IsReady _ _ (ask_number-Runs fuel _) λ period.
          then_any IsReady _ _ (ask_number-Runs fuel _)
            λ penalty. pure-Runs fuel IsReady _ (accepted _ h refl refl refl refl)
  ask_details-Runs deny name message conditions h =
      then_any IsReady _ _ (ask_number-Runs fuel _)
        λ status. pure-Runs fuel IsReady _ (accepted _ h refl refl refl refl)
  ask_details-Runs allow name message conditions h =
      then_any IsReady _ _ (ask_number-Runs fuel _)
        λ status. pure-Runs fuel IsReady _ (accepted _ h refl refl refl refl)

  ask_rule-Runs : (name : Str) (action : Action) → Runs fuel IsReady (ask_rule fuel name action)
  unfolding ask_rule
  ask_rule-Runs name action = then_any IsReady _ _ (ask_text-Runs fuel) λ message.
      >>=-Runs fuel (λ (c : List ConditionNode). is_empty c ≡ false) IsReady _ _
        (repeat-Runs _ ask_condition Anything fuel (λ _ _. tt) (λ c _. ask_condition-Runs c) fuel []
          (omega arith) tt)
        λ conditions filled. ask_details-Runs action name message conditions filled

  chosen_action-Runs :
      (name : Str) (o : Option Action)
      → Runs fuel MayBeReady (elim o [
        | none ↦ pure none
        | some action ↦ ask_rule fuel name action >>= λ rule. pure (some rule)
      ])
  chosen_action-Runs name none = pure-Runs fuel MayBeReady _ tt
  chosen_action-Runs name (some action) =
      >>=-Runs fuel IsReady MayBeReady _ _ (ask_rule-Runs name action)
        λ rule ready. pure-Runs fuel MayBeReady _ (ready, tt)

  pub build_custom_rule-Runs : Runs fuel MayBeReady (build_custom_rule fuel)
  unfolding build_custom_rule
  build_custom_rule-Runs =
      then_any MayBeReady _ _ (ask_text-Runs fuel)
        λ name. then_any MayBeReady _ _ (ask_choice-Runs fuel) λ i. chosen_action-Runs name _
