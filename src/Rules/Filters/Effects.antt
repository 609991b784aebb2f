-- ===== src/Rules/Filters/Effects.antt =====
-- What one response filter of src/rules.rs does at its field and elsewhere.
use docker_proxy.Common.{
  ◌≡◌, refl, sym, ◌∙◌, ◌⊎◌, Option, none, some, List, [], ◌∷◌, ◌++◌, arith, Str, codes, str_eq, inl,
  inr, Option-cases, unwrap_or, split, join, split-ne-nil, join-split, but_last, ap,
}
use docker_proxy.Json.{
  Json, Items, Fields, object, array, remove_field, remove_key, child, string, json_get,
  json_get_at, json_get_mut, json_remove,
}
use docker_proxy.Json.Access.{Diverge, json_get-json_get_mut}
use docker_proxy.Json.Children.{get_field-remove_field_self}
use docker_proxy.Json.Removal.{
  parent, remove_key-json_remove, json_remove_array, json_get_at-append, whole_path, key_of,
  json_get-json_remove_path,
}
use docker_proxy.Config.{ResponseFilterEntry}
use docker_proxy.Rules.Filters.{overwrite, remove_path, remove_top, apply_filter}

-- What a filter that writes a value leaves to see at its field: the value, if anything was there.
abbrev pub seen_after : Option Json → Json → Option Json
seen_after none new = none
seen_after (some old) new = some new

overwrite_missing :
    (json : Json) (field : Str) (new : Json)
    → json_get_mut json field (λ _. some new) ≡ none
    → json_get json field ≡ none
overwrite_missing json field new e = elim (Option-cases (json_get json field)) [
  | inl missing ↦ missing
  | inr (old, found) ↦
      let (after, done) = (json_get-json_get_mut json field (λ _. some new)).1 old new found refl in
      cc
]

overwrite_field :
    (json : Json) (field : Str) (new : Json)
    → json_get (overwrite json field new) field ≡ seen_after (json_get json field) new
unfolding overwrite json_get
overwrite_field json field new = elim (Option-cases (json_get_mut json field (λ _. some new))) [
  | inl e ↦ let missing = overwrite_missing json field new e in rw (e, missing)
  | inr (after, e) ↦
      let c = ((json_get-json_get_mut json field (λ _. some new)).2 after e).0 in
      rw (e, c.found) (c.seen ∙ sym c.changed)
]

overwrite_elsewhere :
    (json : Json) (field q : Str) (new : Json)
    → Diverge (split b'.' field) (split b'.' q)
    → json_get (overwrite json field new) q ≡ json_get json q
unfolding overwrite
overwrite_elsewhere json field q new d =
    elim (Option-cases (json_get_mut json field (λ _. some new))) [
      | inl e ↦ rw e
      | inr (after, e) ↦ rw e (((json_get-json_get_mut json field (λ _. some new)).2 after e).1 q d)
    ]

-- A filter that writes: `redact` and `replace`, with the text that they write.
abbrev pub Writes : ResponseFilterEntry → Str → Type 0
Writes f text =
    ((f.action ≡ codes "redact") × (text ≡ codes "***REDACTED***"))
    ⊎ ((f.action ≡ codes "replace") × (text ≡ unwrap_or f.replacement []))

apply_filter-overwrite :
    (f : ResponseFilterEntry) (text : Str) (json : Json)
    → Writes f text
    → apply_filter f json ≡ overwrite json f.field (string text)
unfolding apply_filter str_eq
apply_filter-overwrite f text json (inl (a, t)) = rw (a, t)
apply_filter-overwrite f text json (inr (a, t)) = rw (a, t)

pub apply_filter-Writes_field :
    (f : ResponseFilterEntry) (text : Str) (json : Json)
    → Writes f text
    → json_get (apply_filter f json) f.field ≡ seen_after (json_get json f.field) (string text)
apply_filter-Writes_field f text json w =
    rw (apply_filter-overwrite f text json w) (overwrite_field json f.field (string text))

-- A `redact` or `replace` filter leaves its text at its field, if the body had anything there, and
-- nothing there otherwise; every field whose path parts from the filter's is as it was.
pub apply_filter-Writes :
    (f : ResponseFilterEntry) (text : Str) (json : Json) (q : Str)
    → Writes f text
    → Diverge (split b'.' f.field) (split b'.' q)
    → (json_get (apply_filter f json) f.field ≡ seen_after (json_get json f.field) (string text))
      × (json_get (apply_filter f json) q ≡ json_get json q)
apply_filter-Writes f text json q w d =
    rw (apply_filter-overwrite f text json w) (
      overwrite_field json f.field (string text),
      overwrite_elsewhere json f.field q (string text) d,
    )

remove_top_gone : (fs : Fields) (p : Str) → json_get_at (object (remove_field p fs)) (p ∷ []) ≡ none
unfolding json_get_at child
remove_top_gone fs p = ground (arith, get_field-remove_field_self p fs)

missing_key :
    (json : Json) (path : Str) (fs : Fields)
    → parent path ++ key_of path ∷ [] ≡ split b'.' path
    → json_get_at json (parent path) ≡ some (object fs)
    → remove_key (key_of path) (object fs) ≡ none
    → json_get_at json (split b'.' path) ≡ none
unfolding remove_key json_get_at child
missing_key json path fs whole found absent =
    rw (← whole)
      (json_get_at-append json (parent path) (key_of path) (object fs) found ∙ ground arith)

one_segment : (field p : Str) → split b'.' field ≡ p ∷ [] → p ≡ field
unfolding join
one_segment field p e = rw e at (join-split b'.' field)

remove_path_nested :
    (json : Json) (field p q : Str) (ps : List Str)
    → split b'.' field ≡ p ∷ q ∷ ps
    → remove_path json field ≡ unwrap_or (json_remove json field) json
unfolding remove_path
remove_path_nested json field p q ps e = ground (arith, e)

remove_path_object :
    (json : Json) (field : Str) (fs : Fields) (segments : List Str)
    → split b'.' field ≡ segments
    → json_get_at json (parent field) ≡ some (object fs)
    → json_get (remove_path json field) field ≡ none
unfolding remove_path json_get but_last remove_top json_get_at
remove_path_object json field fs [] e found = absurd (split-ne-nil b'.' field e)
remove_path_object json field fs (p ∷ []) e found =
    let same : json ≡ object fs = ground (arith, e, found) in
    rw (same, e, one_segment field p e) (remove_top_gone fs field)
remove_path_object json field fs (p ∷ q ∷ ps) e found =
    elim (Option-cases (json_remove json field)) [
      | inl refused ↦
          let absent = remove_key-json_remove json field p q ps (object fs) e found refused in
          let gone = missing_key json field fs (whole_path field p q ps e) found absent in
          ap (λ j. json_get_at j (split b'.' field))
            (remove_path_nested json field p q ps e ∙ rw refused refl)
          ∙ gone
      | inr (after, done) ↦
          ap (λ j. json_get_at j (split b'.' field))
            (remove_path_nested json field p q ps e ∙ rw done refl)
          ∙ json_get-json_remove_path json field after done
    ]

remove_path_array :
    (json : Json) (field : Str) (vs : Items) (segments : List Str)
    → split b'.' field ≡ segments
    → json_get_at json (parent field) ≡ some (array vs)
    → remove_path json field ≡ json
unfolding remove_path but_last remove_top json_get_at
remove_path_array json field vs [] e found = absurd (split-ne-nil b'.' field e)
remove_path_array json field vs (p ∷ []) e found =
    let same : json ≡ array vs = ground (arith, e, found) in rw (same, e) refl
remove_path_array json field vs (p ∷ q ∷ ps) e found =
    remove_path_nested json field p q ps e ∙ rw (json_remove_array json field vs found) refl

-- A `remove` filter whose field stands in an object leaves nothing at the field.
pub apply_filter_removes :
    (f : ResponseFilterEntry) (json : Json) (fs : Fields)
    → f.action ≡ codes "remove"
    → json_get_at json (parent f.field) ≡ some (object fs)
    → json_get (apply_filter f json) f.field ≡ none
unfolding apply_filter str_eq
apply_filter_removes f json fs a found = rw a (remove_path_object json f.field fs _ refl found)

-- A `remove` filter whose field names an item of an array changes nothing.
pub apply_filter_keeps_items :
    (f : ResponseFilterEntry) (json : Json) (vs : Items)
    → f.action ≡ codes "remove"
    → json_get_at json (parent f.field) ≡ some (array vs)
    → apply_filter f json ≡ json
unfolding apply_filter str_eq
apply_filter_keeps_items f json vs a found = rw a (remove_path_array json f.field vs _ refl found)
