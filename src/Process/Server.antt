-- ===== src/Process/Server.antt =====
-- The loop of `main` of src/main.rs as steps: connections are accepted and end, requests are handled,
-- the tables are cleaned, and a SIGHUP loads the configuration and rebinds the listener
-- (`spawn_sighup_reloader`). A semaphore belongs to each listener; connections of a listener that is
-- gone go on. The semaphore of tokio is an argument.
pub mod Permits
pub mod Safe
use docker_proxy.Common.{
  ℕ, suc, ◌+◌, ◌-◌, ◌≤◌, ◌<◌, ◌≡◌, Bool, true, false, Option, none, some, Str,
}
use docker_proxy.Externals.{Externals}
use docker_proxy.Config.{ProxyConfig}
use docker_proxy.Config.Check.{ConfigError, ok, err}
use docker_proxy.Config.Env.{Environment}
use docker_proxy.Config.Load.{Files, load_from_path}
use docker_proxy.RateLimiter
use docker_proxy.AuthLimiter
use docker_proxy.Tls.Server.{TlsLibrary}
use docker_proxy.Proxy.{ProxyState, Arrival, HttpRequest}
use docker_proxy.Proxy.Exchange.{Daemon}
use docker_proxy.Proxy.Handle.{Rendering, handle}
use docker_proxy.Process.Listener.{Listener, created, create_listener}

abbrev pub max_concurrent_conns : ℕ
max_concurrent_conns = 1024

-- `Semaphore::new`, `try_acquire_owned`, and a permit that is dropped.
pub record Semaphores (S : Type 0) : Type 0 where
  pub new : ℕ → S
  pub try_acquire : S → Option S
  pub release : S → S

-- The listener with its `conn_sem`, and how many of its connections are served.
pub record Listening (S : Type 0) : Type 0 where
  pub listener : Listener
  pub conn_sem : S
  pub connections : ℕ

-- `lingering` counts the connections of the listeners before.
pub record Server (S : Type 0) : Type 0 where
  pub proxy : ProxyState
  pub loaded_from : Option Str
  pub listening : Option (Listening S)
  pub lingering : ℕ
  pub restarts : ℕ
  pub notified : Bool

-- `main` when it enters the loop.
abbrev pub new_server : {S : Type 0} → ProxyState → Option Str → Server S
new_server proxy loaded_from = record {
  proxy = proxy;
  loaded_from = loaded_from;
  listening = none;
  lingering = 0;
  restarts = 0;
  notified = false;
}

abbrev pub connections_of : {S : Type 0} → Option (Listening S) → ℕ
connections_of none = 0
connections_of (some l) = l.connections

module _ {S : Type 0} (sem : Semaphores S) where
  abbrev pub listen : Listener → Listening S
  listen l = record { listener = l; conn_sem = sem.new max_concurrent_conns; connections = 0 }

  -- A connection that comes is served with a permit, or dropped where there is none.
  unfoldable pub accept_connection : Listening S → Listening S
  accept_connection l = elim (sem.try_acquire l.conn_sem) [
    | none ↦ l
    | some left ↦ record l { conn_sem = left; connections = l.connections + 1 }
  ]

  -- The task of a connection ends, and drops its permit.
  unfoldable pub end_task : Listening S → Listening S
  end_task l = record l { conn_sem = sem.release l.conn_sem; connections = l.connections - 1 }

abbrev pub swap_config : ProxyConfig → ProxyState → ProxyState
swap_config config proxy = record proxy { config = config }

abbrev pub clean_up : Externals → ℕ → ProxyState → ProxyState
clean_up x now proxy = record proxy {
  rate_limiter = RateLimiter.cleanup x now proxy.rate_limiter;
  auth = record proxy.auth { auth_limiter = AuthLimiter.cleanup now proxy.auth.auth_limiter };
}

-- The environment and the files may change at any time, so each load and bind has its own.
module _ (x : Externals) (lib : TlsLibrary) {S : Type 0} (sem : Semaphores S) where
  -- The loop tells `main` to restart the listener with a new configuration, and keeps the old one
  -- where there is an error.
  unfoldable pub hang_up : Environment → Files → Str → Server S → Server S
  unfolding load_from_path
  hang_up env files path s = elim (load_from_path x env files path) [
    | err e ↦ s
    | ok config ↦ record s { proxy = swap_config config s.proxy; notified = true }
  ]

  pub data Step (s : Server S) : Server S → Type 0 where
    binds :
        (env : Environment) (can_bind : Str → Bool) (l : Listener)
        → s.listening ≡ none
        → create_listener lib can_bind env s.proxy.config ≡ created l
        → Step s (record s { listening = some (listen sem l) })
    accepts :
        (l : Listening S)
        → s.listening ≡ some l
        → Step s (record s { listening = some (accept_connection sem l) })
    ends :
        (l : Listening S)
        → s.listening ≡ some l
        → 0 < l.connections
        → Step s (record s { listening = some (end_task sem l) })
    ends_lingering : (n : ℕ) → s.lingering ≡ suc n → Step s (record s { lingering = n })
    handles :
        (p : Rendering) (d : Daemon) (at : Arrival) (req : HttpRequest)
        → 0 < connections_of s.listening + s.lingering
        → Step s (record s { proxy = (handle x p d at req s.proxy).state })
    cleans : (now : ℕ) → Step s (record s { proxy = clean_up x now s.proxy })
    hangs_up :
        (env : Environment) (files : Files) (path : Str)
        → s.loaded_from ≡ some path
        → Step s (hang_up env files path s)
    restarts :
        (l : Listening S)
        → s.listening ≡ some l
        → s.notified ≡ true
        → Step s (record s {
          listening = none;
          lingering = s.lingering + l.connections;
          restarts = s.restarts + 1;
          notified = false;
        })

  pub data Reach (s : Server S) : Server S → Type 0 where
    here : Reach s s
    next : {t u : Server S} → Reach s t → Step t u → Reach s u
