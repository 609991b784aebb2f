-- ===== src/Setup/Ready.antt =====
-- The rules that the dialogue of src/setup.rs writes, against `validate` of src/config.rs.
use docker_proxy.Common.{
  ℕ, zero, suc, some-injective, ◌≡◌, refl, Bool, false, Option, none, some, List, [], ◌∷◌, ◌++◌,
  arith, codes, str_eq, if◌then◌else◌, get_elem?, All, is_empty, ◌&&◌, is_none,
}
use docker_proxy.Config.{Rule}
use docker_proxy.Config.Check.{ConfigError, rule_name_empty, check_rule}
use docker_proxy.Setup.Templates.{templates}

-- What `validate` says of a rule in which nothing but its name may be missing.
abbrev pub name_error : Bool → Option ConfigError
name_error missing = if missing then some rule_name_empty else none

abbrev pub IsReady : Rule → Type 0
IsReady rule = check_rule rule ≡ name_error (is_empty rule.name)

pub templates-IsReady : All (All IsReady) templates
unfolding templates check_rule str_eq
templates-IsReady = (
  (refl, (refl, tt)),
  (
    (refl, tt),
    (
      (refl, tt),
      (
        (refl, tt),
        (
          (refl, (refl, tt)),
          (
            (refl, tt),
            (
              (refl, tt),
              (
                (refl, tt),
                (
                  (refl, tt),
                  ((refl, tt), ((refl, tt), ((refl, tt), ((refl, tt), ((refl, tt), tt))))),
                ),
              ),
            ),
          ),
        ),
      ),
    ),
  ),
)

pub get_elem?-All {ℓ} :
    {A : Type ℓ} (P : A → Type 0) (xs : List A) (i : ℕ) (a : A)
    → All P xs
    → get_elem? xs i ≡ some a
    → P a
get_elem?-All P [] i a h e = ground arith
get_elem?-All P (x ∷ xs) zero a (p, h) e = rw (← some-injective x a e) p
get_elem?-All P (x ∷ xs) (suc i) a (p, h) e = get_elem?-All P xs i a h e

pub accepted :
    (rule : Rule)
    → is_empty rule.conditions ≡ false
    → is_empty rule.action ≡ false
    → (str_eq rule.action (codes "require_role") && is_none rule.role) ≡ false
    → (str_eq rule.action (codes "rate_limit") && is_none rule.rate_limit) ≡ false
    → (str_eq rule.action (codes "response_filter") && is_none rule.response_filter) ≡ false
    → IsReady rule
unfolding check_rule
accepted rule conditions action role limit filter =
    rw (action, conditions, role, limit, filter) refl

pub append-filled {ℓ} : {A : Type ℓ} (xs : List A) (a : A) → is_empty (xs ++ a ∷ []) ≡ false
append-filled [] a = refl
append-filled (x ∷ xs) a = refl
