-- ===== src/Rules/Nodes.antt =====
-- Nested conditions of src/rules.rs: `evaluate_node`, and when a rule applies to a request.
use docker_proxy.Common.{Bool, true, false, not, ◌&&◌, ◌||◌, ◌≡◌, refl, arith, any, all, is_empty}
use docker_proxy.Externals.{Externals}
use docker_proxy.Config.{ConditionNode, leaf, all_of, any_of, Nodes, nil, cons, nodes, Rule}
use docker_proxy.Rules.Conditions.{EvaluationContext, evaluate_condition}

module _ (x : Externals) (ctx : EvaluationContext) where
  unfoldable mutual
    pub evaluate_node : ConditionNode → Bool
    evaluate_node (leaf c) = evaluate_condition x c ctx
    evaluate_node (all_of ns) = evaluate_all ns
    evaluate_node (any_of ns) = evaluate_any ns

    pub evaluate_all : Nodes → Bool
    evaluate_all nil = true
    evaluate_all (cons n ns) = evaluate_node n && evaluate_all ns

    pub evaluate_any : Nodes → Bool
    evaluate_any nil = false
    evaluate_any (cons n ns) = evaluate_node n || evaluate_any ns

  evaluate_all-all : (ns : Nodes) → evaluate_all ns ≡ all evaluate_node (nodes ns)
  unfolding evaluate_node all
  evaluate_all-all nil = refl
  evaluate_all-all (cons n ns) = ground (arith, evaluate_all-all ns)

  evaluate_any-any : (ns : Nodes) → evaluate_any ns ≡ any evaluate_node (nodes ns)
  unfolding evaluate_node any
  evaluate_any-any nil = refl
  evaluate_any-any (cons n ns) = ground (arith, evaluate_any-any ns)

  -- `rule.conditions` is not empty and all of them hold.
  unfoldable pub applies : Rule → Bool
  applies r = not (is_empty r.conditions) && all evaluate_node r.conditions
