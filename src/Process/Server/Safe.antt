-- ===== src/Process/Server/Safe.antt =====
-- What holds of the server of src/main.rs in every state that it can come to.
use docker_proxy.Common.{
  ℕ, ◌+◌, ◌*◌, ◌≤◌, ◌≡◌, inl, inr, ◌⊎◌, Bool, false, Option, List, [], ◌∷◌, arith, Str,
}
use docker_proxy.Externals.{Externals}
use docker_proxy.Config.Env.{Environment}
use docker_proxy.Config.Load.{Files, load_from_path}
use docker_proxy.Config.Load.Loaded.{load_from_path-IsLoaded, outcome_cases}
use docker_proxy.Process.Server.Permits.{
  Counts, connections-IsShared, is_full, is_full-IsShared, Reach-IsHeld,
}
use docker_proxy.AuthLimiter.Bounds.{cleans, run, step, run-IsValid}
use docker_proxy.RateLimiter.Bounds.{check-IsValid}
use docker_proxy.Tls.Server.{TlsLibrary}
use docker_proxy.Proxy.{ProxyState}
use docker_proxy.Proxy.Handle.{handle}
use docker_proxy.Proxy.Handle.Frames.{IsKept}
use docker_proxy.Proxy.Handle.Kept.{handle-IsKept}
use docker_proxy.Process.Start.{serving, start}
use docker_proxy.Process.Start.Loaded.{IsFresh, empty-IsFresh, start_serving}
use docker_proxy.Process.Server.{
  Semaphores, Server, new_server, connections_of, clean_up, max_concurrent_conns, Step, hang_up,
  Reach,
}

module _ (x : Externals) (lib : TlsLibrary) {S : Type 0} (sem : Semaphores S) where
  handled-IsFresh :
      (s : ProxyState) (t : ProxyState) (n : ℕ) → IsFresh s → IsKept s.config n t → IsFresh t
  handled-IsFresh s t n f k = record {
    loaded = rw k.same_config f.loaded;
    rates = k.rates;
    failures = k.failures;
  }

  cleaned-IsFresh : (now : ℕ) (s : ProxyState) → IsFresh s → IsFresh (clean_up x now s)
  unfolding run step
  cleaned-IsFresh now s f = record {
    loaded = f.loaded;
    rates = (check-IsValid x now [] 0 0 0 s.rate_limiter f.rates).1;
    failures = run-IsValid (cleans now ∷ []) s.auth.auth_limiter f.failures;
  }

  hang_up-IsFresh :
      (env : Environment) (files : Files) (path : Str) (s : Server S)
      → IsFresh s.proxy
      → IsFresh (hang_up x lib sem env files path s).proxy
  unfolding hang_up
  hang_up-IsFresh env files path s h = elim (outcome_cases (load_from_path x env files path)) [
    | inl (e, failed) ↦ rw (failed, hang_up) h
    | inr (config, loaded) ↦
        rw (loaded, hang_up)
          (record {
            loaded = load_from_path-IsLoaded x env files path config loaded;
            rates = h.rates;
            failures = h.failures;
          })
  ]

  Step-IsFresh : {s t : Server S} → Step x lib sem s t → IsFresh s.proxy → IsFresh t.proxy
  Step-IsFresh (Step.binds env can_bind l gone made) h = h
  Step-IsFresh (Step.accepts l on) h = h
  Step-IsFresh (Step.ends l on serving_one) h = h
  Step-IsFresh (Step.ends_lingering n e) h = h
  Step-IsFresh {s} (Step.handles p d at req connected) h =
      handled-IsFresh s.proxy (handle x p d at req s.proxy).state _ h
        (handle-IsKept x p d at req s.proxy h.rates h.failures)
  Step-IsFresh {s} (Step.cleans now) h = cleaned-IsFresh now s.proxy h
  Step-IsFresh {s} (Step.hangs_up env files path known) h = hang_up-IsFresh env files path s h
  Step-IsFresh (Step.restarts l on told) h = h

  run-IsFresh : {s t : Server S} → Reach x lib sem s t → IsFresh s.proxy → IsFresh t.proxy
  run-IsFresh Reach.here h = h
  run-IsFresh (Reach.next r st) h = Step-IsFresh st (run-IsFresh r h)

  module _ (files : Files) (log_starts : Str → Option Str → Bool) (opens : Str → Bool)
      (env : Environment) (args : List Str) (proxy : ProxyState) (socket : Str)
      (loaded_from : Option Str)
      (started : start x files log_starts opens env args ≡ serving proxy socket loaded_from)
      {t : Server S} (reached : Reach x lib sem (new_server proxy loaded_from) t) where
    -- However many requests and reloads there were since the start, in whatever order: the
    -- configuration in force is one that `validate` accepts, its rules sorted by priority, and the
    -- tables of both limiters are within their bounds.
    pub Reach-IsFresh : IsFresh t.proxy
    Reach-IsFresh =
        let (loaded, no_rates, no_failures, _) =
          start_serving x files log_starts opens env args proxy socket loaded_from started in
        run-IsFresh reached (empty-IsFresh proxy loaded no_rates no_failures)

    -- For a semaphore that counts its permits as tokio's does: of the connections that the listener has accepted
    -- no more than 1024 are served at a time, and one more is dropped only while 1024 are served. With
    -- those of the listeners that a reload has closed at most 1024 are served for each listener
    -- there was.
    pub connections_le :
        (available : S → ℕ)
        → Counts sem available
        → (connections_of t.listening ≤ max_concurrent_conns)
          × ((is_full sem t.listening ≡ false)
              ⊎ (connections_of t.listening ≡ max_concurrent_conns))
          × (connections_of t.listening + t.lingering ≤ max_concurrent_conns * (t.restarts + 1))
    connections_le available laws =
        let safe =
          Reach-IsHeld x lib sem available laws reached
            (record { shared = tt; left = omega arith }) in
        let within = connections-IsShared available t.listening safe.shared in
        (
          within,
          is_full-IsShared sem available laws t.listening safe.shared,
          omega (arith, within, safe.left),
        )
