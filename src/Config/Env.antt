-- ===== src/Config/Env.antt =====
-- The environment in the configuration: `expand_env`, `resolve_env_vars` and `apply_env_overrides`
-- of src/config.rs. The regular expression of `expand_env` is an argument: the pieces that it cuts
-- a text into.
use docker_proxy.Common.{
  Bool, true, false, not, ◌&&◌, if◌then◌else◌, Option, none, some, ◌>>=◌, unwrap_or, List, [], ◌∷◌,
  ◌++◌, Str, codes, is_empty, parse_unsigned, u16_mod,
}
use docker_proxy.Yaml.{Yaml, Sequence}
use docker_proxy.Config.{
  ProxyConfig, AuthConfig, GlobalConfig, TokenEntry, Rule, Condition, ConditionNode, leaf, all_of,
  any_of, Nodes, nil, cons, default_global,
}
use docker_proxy.Config.Check.{missing_variables, Outcome, ok, err, ◌>>◌}

-- A text as the matches of `${name}` cut it.
pub data Piece : Type 0 where
  literal : Str → Piece
  variable : Str → Piece

-- `Regex::replace_all`, `env::var` and `Path::exists`.
pub record Environment : Type 0 where
  pub pieces : Str → List Piece
  pub var : Str → Option Str
  pub exists : Str → Bool

module _ (env : Environment) where
  -- The text, and the names that are not set.
  unfoldable pub expand_pieces : List Piece → Str × List Str
  expand_pieces [] = ([], [])
  expand_pieces (literal s ∷ ps) = let rest = expand_pieces ps in (s ++ rest.0, rest.1)
  expand_pieces (variable name ∷ ps) =
      let rest = expand_pieces ps in
      elim (env.var name) [ some v ↦ (v ++ rest.0, rest.1) | none ↦ (rest.0, name ∷ rest.1) ]

  unfoldable pub expand_env : Str → Bool → Outcome Str
  unfolding expand_pieces
  expand_env s required =
      let result = expand_pieces (env.pieces s) in
      if required && not (is_empty result.1) then err (missing_variables result.1) else ok result.0

  unfoldable mutual
    pub expand_value_env : Yaml → Bool → Outcome Yaml
    expand_value_env (Yaml.string s) required = expand_env s required >> λ t. ok (Yaml.string t)
    expand_value_env (Yaml.sequence seq) required =
        expand_values_env seq required >> λ vs. ok (Yaml.sequence vs)
    expand_value_env v required = ok v

    pub expand_values_env : Sequence → Bool → Outcome Sequence
    expand_values_env Sequence.nil required = ok Sequence.nil
    expand_values_env (Sequence.cons v vs) required = expand_value_env v required >> λ w.
        expand_values_env vs required >> λ ws. ok (Sequence.cons w ws)

  unfoldable pub expand_condition_env : Condition → Bool → Outcome Condition
  unfolding expand_value_env
  expand_condition_env c required = elim c.value [
    | none ↦ ok c
    | some v ↦ expand_value_env v required >> λ w. ok (record c { value = some w })
  ]

  unfoldable mutual
    pub expand_node_env : ConditionNode → Bool → Outcome ConditionNode
    expand_node_env (leaf c) required = expand_condition_env c required >> λ d. ok (leaf d)
    expand_node_env (all_of ns) required = expand_nodes_env ns required >> λ ms. ok (all_of ms)
    expand_node_env (any_of ns) required = expand_nodes_env ns required >> λ ms. ok (any_of ms)

    pub expand_nodes_env : Nodes → Bool → Outcome Nodes
    expand_nodes_env nil required = ok nil
    expand_nodes_env (cons n ns) required =
        expand_node_env n required >> λ m. expand_nodes_env ns required >> λ ms. ok (cons m ms)

  -- `for x in xs.iter_mut()` with a step that can fail.
  unfoldable pub for_each {ℓ} : {A : Type ℓ} → (A → Outcome A) → List A → Outcome (List A)
  for_each f [] = ok []
  for_each f (a ∷ rest) = f a >> λ b. for_each f rest >> λ bs. ok (b ∷ bs)

  unfoldable pub for_some {ℓ} : {A : Type ℓ} → (A → Outcome A) → Option A → Outcome (Option A)
  for_some f none = ok none
  for_some f (some a) = f a >> λ b. ok (some b)

  unfoldable pub expand_token : TokenEntry → Outcome TokenEntry
  expand_token t = expand_env t.token true >> λ e. ok (record t { token = e })

  unfoldable pub expand_auth : AuthConfig → Outcome AuthConfig
  unfolding expand_token for_each for_some
  expand_auth auth = for_some (λ s. expand_env s true) auth.secret >> λ secret.
      for_some (for_each expand_token) auth.tokens >> λ tokens.
      ok (record auth { secret = secret; tokens = tokens })

  unfoldable pub expand_rule : Rule → Outcome Rule
  unfolding expand_node_env for_each for_some
  expand_rule rule = for_some (λ m. expand_env m false) rule.message >> λ message.
      for_each (λ n. expand_node_env n false) rule.conditions >> λ conditions.
      for_some (for_each (λ m. expand_env m false)) rule.methods >> λ methods.
      ok (record rule { message = message; conditions = conditions; methods = methods })

  unfoldable pub resolve_env_vars : ProxyConfig → Outcome ProxyConfig
  unfolding expand_auth expand_rule
  resolve_env_vars config = for_some expand_auth config.auth >> λ auth.
      for_some (for_each expand_rule) config.rules >> λ rules.
      ok (record config { auth = auth; rules = rules })

  abbrev pub or_default : Option GlobalConfig → GlobalConfig
  or_default global = unwrap_or global default_global

  unfoldable pub override_port : ProxyConfig → ProxyConfig
  override_port config = elim (env.var (codes "DOCKER_PROXY_PORT") >>= parse_unsigned u16_mod) [
    | none ↦ config
    | some p ↦ record config { global = some (record (or_default config.global) { port = some p }) }
  ]

  unfoldable pub override_socket : ProxyConfig → ProxyConfig
  override_socket config = elim (env.var (codes "DOCKER_SOCKET")) [
    | none ↦ config
    | some socket ↦
        if env.exists socket
        then record config {
          global = some (record (or_default config.global) { socket = some socket });
        }
        else config
  ]

  abbrev pub bearer_auth : AuthConfig
  bearer_auth = record {
    auth_type = some (codes "bearer");
    secret = none;
    tokens = none;
    mtls = none;
  }

  unfoldable pub override_secret : ProxyConfig → ProxyConfig
  override_secret config = elim (env.var (codes "DOCKER_PROXY_SECRET")) [
    | none ↦ config
    | some secret ↦
        if is_empty secret
        then config
        else (let auth = unwrap_or config.auth bearer_auth in
            record config {
              auth = some (record auth {
                secret = some secret;
                auth_type = some (unwrap_or auth.auth_type (codes "bearer"));
              });
            })
  ]

  unfoldable pub apply_env_overrides : ProxyConfig → ProxyConfig
  unfolding override_port override_socket override_secret
  apply_env_overrides config = override_secret (override_socket (override_port config))
