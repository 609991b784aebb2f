-- ===== src/Rules/Filters.antt =====
-- Response filters of src/rules.rs: which a request collects, and what they do to a body.
pub mod Effects
pub mod Chains
use docker_proxy.Common.{
  ℕ, Bool, true, false, if◌then◌else◌, Option, none, some, List, [], ◌∷◌, ◌++◌, Str, codes, str_eq,
  unwrap_or, is_empty, length, split, ◌==◌,
}
use docker_proxy.Json.{Json, object, string, get_field, remove_field, json_get_mut, json_remove}
use docker_proxy.Externals.{Externals}
use docker_proxy.Config.{Rule, ResponseFilterEntry}
use docker_proxy.Rules.Conditions.{EvaluationContext}
use docker_proxy.Rules.Nodes.{applies}

abbrev pub redacted : Json
redacted = string (codes "***REDACTED***")

-- `*target = value` where the path leads to a target, and no change where it does not.
unfoldable pub overwrite : Json → Str → Json → Json
overwrite json field new = unwrap_or (json_get_mut json field (λ _. some new)) json

unfoldable pub remove_top : Json → Str → Json
remove_top (object fs) field = object (remove_field field fs)
remove_top json field = json

unfoldable pub remove_path : Json → Str → Json
unfolding remove_top
remove_path json field =
    if length (split b'.' field) == 1
    then remove_top json field
    else unwrap_or (json_remove json field) json

-- One round of the loop of `apply_response_filters`.
unfoldable pub apply_filter : ResponseFilterEntry → Json → Json
unfolding overwrite remove_path
apply_filter f json =
    if str_eq f.action (codes "redact")
    then overwrite json f.field redacted
    else if str_eq f.action (codes "remove")
    then remove_path json f.field
    else if str_eq f.action (codes "replace")
    then overwrite json f.field (string (unwrap_or f.replacement []))
    else json

unfoldable pub apply_filters : List ResponseFilterEntry → Json → Json
unfolding apply_filter
apply_filters [] json = json
apply_filters (f ∷ fs) json = apply_filters fs (apply_filter f json)

module _ (x : Externals) where
  unfoldable pub collect_response_filters : List Rule → EvaluationContext → List ResponseFilterEntry
  collect_response_filters [] ctx = []
  collect_response_filters (r ∷ rules) ctx =
      let rest = collect_response_filters rules ctx in
      if applies x ctx r then unwrap_or r.response_filter [] ++ rest else rest

  unfoldable pub apply_response_filters : List ResponseFilterEntry → Str → Str
  unfolding apply_filters
  apply_response_filters filters body =
      if is_empty filters then body else (elim (x.from_slice body) [
        | none ↦ body
        | some json ↦ unwrap_or (x.to_vec (apply_filters filters json)) body
      ])
