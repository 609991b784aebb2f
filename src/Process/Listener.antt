-- ===== src/Process/Listener.antt =====
-- `create_listener` of src/main.rs: the address, and the TLS configuration, if there is one. Whether
-- the address can be bound is an argument.
use docker_proxy.Common.{
  ℕ, Bool, if◌then◌else◌, Option, none, some, ◌>>=◌, or_else, unwrap_or, ◌++◌, Str, codes,
  to_string, parse_unsigned, u16_mod,
}
use docker_proxy.Config.{ProxyConfig}
use docker_proxy.Config.Env.{Environment}
use docker_proxy.Tls.Server.{TlsLibrary, TlsError, ok, err, ServerConfig, build_server_config}

pub record Listener : Type 0 where
  pub address : Str
  pub tls : Option ServerConfig

pub data Created : Type 0 where
  created : Listener → Created
  tls_failed : TlsError → Created
  bind_failed : Created

abbrev pub port_of : Environment → ProxyConfig → ℕ
port_of env config =
    unwrap_or
      (or_else (config.global >>= λ g. g.port)
        (env.var (codes "DOCKER_PROXY_PORT") >>= parse_unsigned u16_mod))
      2376

abbrev pub bind_host_of : ProxyConfig → Str
bind_host_of config = unwrap_or (config.global >>= λ g. g.bind) (codes "127.0.0.1")

abbrev pub address_of : Environment → ProxyConfig → Str
address_of env config = bind_host_of config ++ (codes ":" ++ to_string (port_of env config))

abbrev pub bound : (Str → Bool) → Str → Option ServerConfig → Created
bound binds address tls =
    if binds address then created (record { address = address; tls = tls }) else bind_failed

unfoldable pub create_listener : TlsLibrary → (Str → Bool) → Environment → ProxyConfig → Created
unfolding build_server_config
create_listener lib binds env config = elim (config.global >>= λ g. g.tls) [
  | none ↦ bound binds (address_of env config) none
  | some tls ↦ elim (build_server_config lib tls) [
    | err e ↦ tls_failed e
    | ok built ↦ bound binds (address_of env config) (some built)
  ]
]
