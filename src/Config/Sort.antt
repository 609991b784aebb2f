-- ===== src/Config/Sort.antt =====
-- `sort_rules_by_priority` of src/config.rs: `sort_by_key` of the standard library is stable, and the
-- key is `Reverse` of the priority. Here the rules are inserted one by one, from the last.
pub mod Order
use docker_proxy.Common.{ℕ, Bool, Option, none, some, unwrap_or, List, [], ◌∷◌, if◌then◌else◌, leb}
use docker_proxy.Config.{Rule, ProxyConfig}

abbrev pub priority_of : Rule → ℕ
priority_of r = unwrap_or r.priority 0

-- In front of the rules of the same priority.
unfoldable pub insert_rule : Rule → List Rule → List Rule
insert_rule r [] = r ∷ []
insert_rule r (s ∷ rules) =
    let rest = insert_rule r rules in
    if leb (priority_of s) (priority_of r) then r ∷ s ∷ rules else s ∷ rest

unfoldable pub sort_rules : List Rule → List Rule
unfolding insert_rule
sort_rules [] = []
sort_rules (r ∷ rules) = insert_rule r (sort_rules rules)

unfoldable pub sort_rules_by_priority : ProxyConfig → ProxyConfig
unfolding sort_rules
sort_rules_by_priority config = elim config.rules [
  | none ↦ config
  | some rules ↦ record config { rules = some (sort_rules rules) }
]
