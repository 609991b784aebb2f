-- ===== src/Process/Server/Permits.antt =====
-- The permits of the connections that `main` of src/main.rs accepts.
use docker_proxy.Common.{
  ℕ, suc, none, some, Option, Option-cases, inl, inr, ◌<◌, ◌+◌, ◌*◌, ◌≤◌, ◌≡◌, refl, arith, Bool,
  true, false, is_none, ◌⊎◌, Str,
}
use docker_proxy.Externals.{Externals}
use docker_proxy.Config.Env.{Environment}
use docker_proxy.Config.Load.{Files, load_from_path}
use docker_proxy.Process.Listener.{Listener, created, create_listener}
use docker_proxy.Tls.Server.{TlsLibrary}
use docker_proxy.Config.Load.Loaded.{outcome_cases}
use docker_proxy.Process.Server.{
  Semaphores, Listening, Server, connections_of, listen, accept_connection, end_task,
  max_concurrent_conns, Step, hang_up, Reach,
}

-- What tokio says of a semaphore: a new one has the permits that it is made with, `try_acquire` takes
-- one, and fails only where there is none, and a permit that is dropped goes back.
pub record Counts {S : Type 0} (sem : Semaphores S) (available : S → ℕ) : Type 0 where
  pub new_has : (n : ℕ) → available (sem.new n) ≡ n
  pub takes : (s t : S) → sem.try_acquire s ≡ some t → available s ≡ suc (available t)
  pub fails : (s : S) → sem.try_acquire s ≡ none → available s ≡ 0
  pub goes_back : (s : S) → available (sem.release s) ≡ suc (available s)

-- Each connection has one of the permits of the listener, and the others are available.
abbrev pub IsShared : {S : Type 0} → (S → ℕ) → Option (Listening S) → Type 0
IsShared available none = Unit
IsShared available (some l) = available l.conn_sem + l.connections ≡ max_concurrent_conns

pub connections-IsShared :
    {S : Type 0} (available : S → ℕ) (o : Option (Listening S))
    → IsShared available o
    → connections_of o ≤ max_concurrent_conns
connections-IsShared available none h = omega arith
connections-IsShared available (some l) h = omega (arith, h)

-- Whether the listener drops the next connection.
abbrev pub is_full : {S : Type 0} → Semaphores S → Option (Listening S) → Bool
is_full sem none = false
is_full sem (some l) = is_none (sem.try_acquire l.conn_sem)

pub is_full-IsShared :
    {S : Type 0} (sem : Semaphores S) (available : S → ℕ)
    → Counts sem available
    → (o : Option (Listening S)) → IsShared available o
    → (is_full sem o ≡ false) ⊎ (connections_of o ≡ max_concurrent_conns)
is_full-IsShared sem available laws none h = inl refl
is_full-IsShared sem available laws (some l) h = elim (Option-cases (sem.try_acquire l.conn_sem)) [
  | inl missing ↦ inr (omega (arith, h, laws.fails l.conn_sem missing))
  | inr (left, taken) ↦ inl (rw taken refl)
]

-- The permits are those of the connections, and a listener that is gone has left no more connections
-- than it had permits.
pub record IsHeld {S : Type 0} (available : S → ℕ) (s : Server S) : Type 0 where
  pub shared : IsShared available s.listening
  pub left : s.lingering ≤ max_concurrent_conns * s.restarts

no_permits : {n : ℕ} → n ≡ 0 → n ≡ max_concurrent_conns → ⊥
no_permits none_left some_left = omega arith

module _ (x : Externals) (lib : TlsLibrary) {S : Type 0} (sem : Semaphores S) (available : S → ℕ)
    (laws : Counts sem available) where
  accept_connection-IsShared :
      (l : Listening S)
      → IsShared available (some l)
      → IsShared available (some (accept_connection sem l))
  unfolding accept_connection
  accept_connection-IsShared l h = elim (Option-cases (sem.try_acquire l.conn_sem)) [
    | inl full ↦ rw (full, accept_connection) h
    | inr (left, taken) ↦
        rw (taken, accept_connection) (omega (arith, h, laws.takes l.conn_sem left taken))
  ]

  end_task-IsShared :
      (l : Listening S)
      → 0 < l.connections
      → IsShared available (some l)
      → IsShared available (some (end_task sem l))
  unfolding end_task
  end_task-IsShared l serving_one h = omega (arith, h, laws.goes_back l.conn_sem)

  hang_up-IsHeld :
      (env : Environment) (files : Files) (path : Str) (s : Server S)
      → IsHeld available s
      → IsHeld available (hang_up x lib sem env files path s)
  unfolding hang_up
  hang_up-IsHeld env files path s h = elim (outcome_cases (load_from_path x env files path)) [
    | inl (e, failed) ↦ rw (failed, hang_up) h
    | inr (config, loaded) ↦ rw (loaded, hang_up) (record { shared = h.shared; left = h.left })
  ]

  Step-IsHeld : {s t : Server S} → Step x lib sem s t → IsHeld available s → IsHeld available t
  Step-IsHeld (Step.binds env can_bind l gone made) h = record {
    shared = omega (arith, laws.new_has max_concurrent_conns);
    left = h.left;
  }
  Step-IsHeld (Step.accepts l on) h = record {
    shared = accept_connection-IsShared l (rw on at h.shared);
    left = h.left;
  }
  Step-IsHeld (Step.ends l on serving_one) h = record {
    shared = end_task-IsShared l serving_one (rw on at h.shared);
    left = h.left;
  }
  Step-IsHeld (Step.ends_lingering n e) h = record {
    shared = h.shared;
    left = omega (arith, e, h.left);
  }
  Step-IsHeld (Step.handles p d at req connected) h = record { shared = h.shared; left = h.left }
  Step-IsHeld (Step.cleans now) h = record { shared = h.shared; left = h.left }
  Step-IsHeld {s} (Step.hangs_up env files path known) h = hang_up-IsHeld env files path s h
  Step-IsHeld (Step.restarts l on told) h = record {
    shared = tt;
    left =
        let all_of_it = connections-IsShared available (some l) (rw on at h.shared) in
        omega (arith, h.left, all_of_it);
  }

  pub Reach-IsHeld :
      {s t : Server S} → Reach x lib sem s t → IsHeld available s → IsHeld available t
  Reach-IsHeld Reach.here h = h
  Reach-IsHeld (Reach.next r st) h = Step-IsHeld st (Reach-IsHeld r h)

  -- A server at the limit that is told to restart, and can bind its address again, takes one
  -- connection more while all the others go on.
  restart_exceeds_limit :
      (s : Server S) (l : Listening S) (renewed : Listener) (env : Environment)
      (can_bind : Str → Bool)
      → s.listening ≡ some l
      → s.notified ≡ true
      → l.connections ≡ max_concurrent_conns
      → create_listener lib can_bind env s.proxy.config ≡ created renewed
      → (t : Server S) × Reach x lib sem s t
        × (connections_of t.listening + t.lingering ≡ max_concurrent_conns + s.lingering + 1)
  unfolding accept_connection
  restart_exceeds_limit s l renewed env can_bind on told full made =
      elim (Option-cases (sem.try_acquire (sem.new max_concurrent_conns))) [
        | inl missing ↦
            absurd (no_permits (laws.fails _ missing) (laws.new_has max_concurrent_conns))
        | inr (left, taken) ↦ (
          _,
          Reach.next
              (Reach.next (Reach.next Reach.here (Step.restarts l on told))
                (Step.binds env can_bind renewed refl made))
              (Step.accepts (listen sem renewed) refl),
          rw (taken, accept_connection) (omega (arith, full)),
        )
      ]
