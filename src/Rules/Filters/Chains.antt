-- ===== src/Rules/Filters/Chains.antt =====
-- Several response filters of src/rules.rs one after the other.
use docker_proxy.Common.{◌≡◌, refl, ◌∙◌, ap, List, [], ◌∷◌, ◌++◌, Str, All, split}
use docker_proxy.Json.{Json, string, json_get}
use docker_proxy.Json.Access.{Diverge}
use docker_proxy.Config.{ResponseFilterEntry}
use docker_proxy.Rules.Filters.{apply_filter, apply_filters}
use docker_proxy.Rules.Filters.Effects.{
  Writes, seen_after, apply_filter-Writes, apply_filter-Writes_field,
}

-- A filter that writes at a field whose path parts from `field`.
abbrev pub WritesElsewhere : Str → ResponseFilterEntry → Type 0
WritesElsewhere field g =
    (text : Str) × Writes g text × Diverge (split b'.' g.field) (split b'.' field)

apply_filters-append :
    (before after : List ResponseFilterEntry) (json : Json)
    → apply_filters (before ++ after) json ≡ apply_filters after (apply_filters before json)
unfolding apply_filters
apply_filters-append [] after json = refl
apply_filters-append (f ∷ before) after json =
    apply_filters-append before after (apply_filter f json)

apply_filters_elsewhere :
    (filters : List ResponseFilterEntry) (json : Json) (field : Str)
    → All (WritesElsewhere field) filters
    → json_get (apply_filters filters json) field ≡ json_get json field
unfolding apply_filters
apply_filters_elsewhere [] json field h = refl
apply_filters_elsewhere (g ∷ filters) json field ((text, w, d), hs) =
    apply_filters_elsewhere filters (apply_filter g json) field hs
    ∙ (apply_filter-Writes g text json field w d).1

-- What a `redact` or `replace` filter writes is still there at the end, whatever filters come before
-- it, if the filters behind it write at fields whose paths part from its own; and it is there only if
-- the filters before it left something at its field.
pub apply_filters-Writes :
    (before after : List ResponseFilterEntry) (f : ResponseFilterEntry) (text : Str) (json : Json)
    → Writes f text
    → All (WritesElsewhere f.field) after
    → json_get (apply_filters (before ++ f ∷ after) json) f.field
      ≡ seen_after (json_get (apply_filters before json) f.field) (string text)
unfolding apply_filters
apply_filters-Writes before after f text json w h =
    ap (λ j. json_get j f.field) (apply_filters-append before (f ∷ after) json)
    ∙ (apply_filters_elsewhere after (apply_filter f (apply_filters before json)) f.field h
        ∙ apply_filter-Writes_field f text (apply_filters before json) w)
