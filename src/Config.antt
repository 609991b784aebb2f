-- ===== src/Config.antt =====
-- The configuration as src/config.rs declares it, after `serde_yaml` has read it. A `SecretToken` is
-- the text that `expose_secret` shows, and a compiled `Regex` the pattern it was compiled from.
pub mod Check
pub mod Sort
pub mod Env
pub mod Load
use docker_proxy.Common.{ℕ, Bool, Option, none, some, List, [], ◌∷◌, Str}
use docker_proxy.Yaml.{Yaml}

pub record TlsConfig : Type 0 where
  pub cert : Str
  pub key : Str
  pub client_ca : Option Str
  pub require_client_cert : Option Bool

pub record MetricsConfig : Type 0 where
  pub enabled : Option Bool
  pub path : Option Str

pub record GlobalConfig : Type 0 where
  pub port : Option ℕ
  pub socket : Option Str
  pub log_level : Option Str
  pub log_format : Option Str
  pub audit_log : Option Str
  pub bind : Option Str
  pub tls : Option TlsConfig
  pub metrics : Option MetricsConfig
  pub trusted_proxies : Option (List Str)

pub record CertRoleMapping : Type 0 where
  pub cn : Str
  pub role : Str

pub record MtlsConfig : Type 0 where
  pub cert_role_map : Option (List CertRoleMapping)
  pub default_role : Option Str

pub record TokenEntry : Type 0 where
  pub token : Str
  pub role : Option Str

pub record AuthConfig : Type 0 where
  pub auth_type : Option Str
  pub secret : Option Str
  pub tokens : Option (List TokenEntry)
  pub mtls : Option MtlsConfig

pub record Condition : Type 0 where
  pub field : Str
  pub operator : Str
  pub value : Option Yaml
  pub compiled_regex : Option Str

mutual
  pub data ConditionNode : Type 0 where
    leaf : Condition → ConditionNode
    all_of : Nodes → ConditionNode
    any_of : Nodes → ConditionNode

  pub data Nodes : Type 0 where
    nil : Nodes
    cons : ConditionNode → Nodes → Nodes

abbrev pub nodes : Nodes → List ConditionNode
nodes nil = []
nodes (cons n ns) = n ∷ nodes ns

pub record ResponseFilterEntry : Type 0 where
  pub field : Str
  pub action : Str
  pub replacement : Option Str

pub record RateLimitConfig : Type 0 where
  pub requests : ℕ
  pub period : ℕ
  pub penalty : ℕ

pub record Rule : Type 0 where
  pub name : Str
  pub description : Option Str
  pub action : Str
  pub priority : Option ℕ
  pub conditions : List ConditionNode
  pub message : Option Str
  pub role : Option Str
  pub response_filter : Option (List ResponseFilterEntry)
  pub status : Option ℕ
  pub methods : Option (List Str)
  pub rate_limit : Option RateLimitConfig
  pub dry_run : Option Bool

pub record ProxyConfig : Type 0 where
  pub global : Option GlobalConfig
  pub auth : Option AuthConfig
  pub rules : Option (List Rule)

-- `Default` of the records that derive it.
abbrev pub default_global : GlobalConfig
default_global = record {
  port = none;
  socket = none;
  log_level = none;
  log_format = none;
  audit_log = none;
  bind = none;
  tls = none;
  metrics = none;
  trusted_proxies = none;
}

abbrev pub default_rule : Rule
default_rule = record {
  name = [];
  description = none;
  action = [];
  priority = none;
  conditions = [];
  message = none;
  role = none;
  response_filter = none;
  status = none;
  methods = none;
  rate_limit = none;
  dry_run = none;
}

abbrev pub default_config : ProxyConfig
default_config = record { global = none; auth = none; rules = none }
