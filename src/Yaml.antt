-- ===== src/Yaml.antt =====
-- YAML values (`serde_yaml::Value`) as far as the program reads them: of a mapping and of a tagged
-- value it reads only that it is one.
use docker_proxy.Common.{Bool, true, false, Option, none, some, List, [], ◌∷◌, Str, codes, Number}

mutual
  pub data Yaml : Type 0 where
    null : Yaml
    bool : Bool → Yaml
    number : Number → Yaml
    string : Str → Yaml
    sequence : Sequence → Yaml
    mapping : Yaml
    tagged : Yaml

  pub data Sequence : Type 0 where
    nil : Sequence
    cons : Yaml → Sequence → Sequence

abbrev pub elements : Sequence → List Yaml
elements nil = []
elements (cons v vs) = v ∷ elements vs

abbrev pub bool_to_string : Bool → Str
bool_to_string true = codes "true"
bool_to_string false = codes "false"

-- src/rules.rs and src/config.rs have the same function twice.
unfoldable pub yaml_value_to_string : Yaml → Option Str
yaml_value_to_string (string s) = some s
yaml_value_to_string (bool b) = some (bool_to_string b)
yaml_value_to_string (number n) = some n.text
yaml_value_to_string _ = none
