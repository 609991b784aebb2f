-- ===== src/Tests/Bodies.antt =====
-- Bodies, filters and the histogram.
use docker_proxy.Common.{
  inr, ◌+◌, ◌≡◌, refl, inl, true, none, some, [], ◌∷◌, codes, arith, str_eq, split, but_last,
  parse_unsigned, digits_value,
}
use docker_proxy.Json.{
  Json, object, array, end, field, null, bool, string, nil, cons, json_get, json_get_at, get_field,
  parse_index, child,
}
use docker_proxy.Json.Access.{Diverge}
use docker_proxy.Config.{ResponseFilterEntry}
use docker_proxy.Rules.Filters.{apply_filter, apply_filters}
use docker_proxy.Rules.Filters.Chains.{apply_filters-Writes}
use docker_proxy.Rules.Filters.Effects.{seen_after, apply_filter-Writes, apply_filter_removes}
use docker_proxy.Metrics.{observe, cumulative_from, latency_buckets_ms, new_histogram}
use docker_proxy.Metrics.Latency.{with_value, cumulative_from-observe}

-- `{"a": {"k": true, "l": null}, "b": null}`.
abbrev root : Json
root = object (
    field (codes "a") (object (field (codes "k") (bool true) (field (codes "l") null end)))
      (field (codes "b") null end))

abbrev lone : Json
lone = object (field (codes "a") (object (field (codes "l") null end)) (field (codes "b") null end))

a_apart_b : Diverge (codes "a" ∷ []) (codes "b" ∷ [])
unfolding parse_index parse_unsigned digits_value
a_apart_b = inl (record { keys = λ e. ground arith; indices = λ i e. ground arith })

abbrev changed : Json
changed = object (field (codes "a") null (field (codes "b") null end))

abbrev redact_a : ResponseFilterEntry
redact_a = record { field = codes "a"; action = codes "redact"; replacement = none }

apply_filter-Writes_example :
    (json_get (apply_filter redact_a root) (codes "a") ≡ some (string (codes "***REDACTED***")))
    × (json_get (apply_filter redact_a root) (codes "b") ≡ json_get root (codes "b"))
unfolding json_get split json_get_at child get_field str_eq
apply_filter-Writes_example =
    apply_filter-Writes redact_a (codes "***REDACTED***") root (codes "b") (inl (refl, refl))
      a_apart_b

abbrev remove_k : ResponseFilterEntry
remove_k = record { field = codes "a.k"; action = codes "remove"; replacement = none }

apply_filter_removes_example : json_get (apply_filter remove_k root) (codes "a.k") ≡ none
unfolding split json_get_at child get_field str_eq but_last
apply_filter_removes_example =
    apply_filter_removes remove_k root (field (codes "k") (bool true) (field (codes "l") null end))
      refl refl

abbrev listed : Json
listed = object (field (codes "a") (array (cons null nil)) end)

abbrev remove_item : ResponseFilterEntry
remove_item = record { field = codes "a.0"; action = codes "remove"; replacement = none }

cumulative_from-observe_example :
    (cumulative_from 0 (observe 30 new_histogram).buckets
      ≡ with_value 30 latency_buckets_ms (cumulative_from 0 new_histogram.buckets))
    × ((observe 30 new_histogram).count ≡ new_histogram.count + 1)
cumulative_from-observe_example =
    cumulative_from-observe 30 new_histogram refl (omega arith) (omega arith)

abbrev replace_b : ResponseFilterEntry
replace_b = record { field = codes "b"; action = codes "replace"; replacement = some (codes "x") }

b_apart_a : Diverge (codes "b" ∷ []) (codes "a" ∷ [])
unfolding parse_index parse_unsigned digits_value
b_apart_a = inl (record { keys = λ e. ground arith; indices = λ i e. ground arith })

apply_filters-Writes_example :
    json_get (apply_filters (remove_k ∷ redact_a ∷ replace_b ∷ []) root) (codes "a")
    ≡ seen_after
        (json_get (apply_filters (remove_k ∷ []) root) (codes "a"))
        (string (codes "***REDACTED***"))
unfolding split
apply_filters-Writes_example =
    apply_filters-Writes (remove_k ∷ []) (replace_b ∷ []) redact_a (codes "***REDACTED***") root
      (inl (refl, refl)) ((codes "x", inr (refl, refl), b_apart_a), tt)
