-- ===== src/Config/Sort/Order.antt =====
-- `sort_rules_by_priority` of src/config.rs sorts, keeps every rule, and is stable.
use docker_proxy.Common.{
  ℕ, ◌≤◌, ◌≡◌, refl, ◌∙◌, List, [], ◌∷◌, arith, keep_if, leb, ◌==◌, Bool-cases, inl, inr, All,
}
use docker_proxy.Config.{Rule}
use docker_proxy.Config.Sort.{sort_rules, insert_rule, priority_of}

-- No rule stands behind one of a lower priority.
abbrev pub IsSorted : List Rule → Type 0
IsSorted [] = Unit
IsSorted (r ∷ rules) = All (λ s. priority_of s ≤ priority_of r) rules × IsSorted rules

AtMost : ℕ → List Rule → Type 0
AtMost n = All (λ s. priority_of s ≤ n)

AtMost-le : (m n : ℕ) (rules : List Rule) → m ≤ n → AtMost m rules → AtMost n rules
unfolding AtMost
AtMost-le m n [] h k = tt
AtMost-le m n (r ∷ rules) h (k, ks) = (omega (arith, h, k), AtMost-le m n rules h ks)

pub insert_rule-All {ℓ} :
    (P : Rule → Type ℓ) (r : Rule) (rules : List Rule)
    → P r
    → All P rules
    → All P (insert_rule r rules)
unfolding insert_rule
insert_rule-All P r [] h k = (h, tt)
insert_rule-All P r (s ∷ rules) h (k, ks) =
    elim (Bool-cases (leb (priority_of s) (priority_of r))) [
      | inl front ↦ rw front (h, (k, ks))
      | inr behind ↦ rw behind (k, insert_rule-All P r rules h ks)
    ]

insert_rule-IsSorted :
    (r : Rule) (rules : List Rule) → IsSorted rules → IsSorted (insert_rule r rules)
unfolding AtMost insert_rule
insert_rule-IsSorted r [] h = (tt, tt)
insert_rule-IsSorted r (s ∷ rules) (h, hs) =
    elim (Bool-cases (leb (priority_of s) (priority_of r))) [
      | inl front ↦
          let le : priority_of s ≤ priority_of r = ground (arith, front) in
          rw front ((le, AtMost-le (priority_of s) (priority_of r) rules le h), (h, hs))
      | inr behind ↦
          let le : priority_of r ≤ priority_of s = ground (arith, behind) in
          rw behind (insert_rule-All _ r rules le h, insert_rule-IsSorted r rules hs)
    ]

pub sort_rules-IsSorted : (rules : List Rule) → IsSorted (sort_rules rules)
unfolding sort_rules
sort_rules-IsSorted [] = tt
sort_rules-IsSorted (r ∷ rules) =
    insert_rule-IsSorted r (sort_rules rules) (sort_rules-IsSorted rules)

-- The rules of one priority, in their order.
abbrev pub at_priority : ℕ → List Rule → List Rule
at_priority n = keep_if (λ r. priority_of r == n)

keep_insert :
    (n : ℕ) (r : Rule) (rules : List Rule)
    → at_priority n (insert_rule r rules) ≡ at_priority n (r ∷ rules)
unfolding keep_if insert_rule
keep_insert n r [] = refl
keep_insert n r (s ∷ rules) = ground (arith, keep_insert n r rules)

keep_sort : (n : ℕ) (rules : List Rule) → at_priority n (sort_rules rules) ≡ at_priority n rules
unfolding sort_rules keep_if
keep_sort n [] = refl
keep_sort n (r ∷ rules) = keep_insert n r (sort_rules rules) ∙ rw (keep_sort n rules) refl

pub sort_rules-All {ℓ} :
    (P : Rule → Type ℓ) (rules : List Rule) → All P rules → All P (sort_rules rules)
unfolding sort_rules
sort_rules-All P [] h = tt
sort_rules-All P (r ∷ rules) (h, hs) =
    insert_rule-All P r (sort_rules rules) h (sort_rules-All P rules hs)

-- The sorted rules have no rule behind one of a lower priority, and of every priority the same rules
-- in the same order as before.
pub sort_rules_lem :
    (rules : List Rule)
    → IsSorted (sort_rules rules)
      × ((n : ℕ) → at_priority n (sort_rules rules) ≡ at_priority n rules)
sort_rules_lem rules = (sort_rules-IsSorted rules, λ n. keep_sort n rules)
