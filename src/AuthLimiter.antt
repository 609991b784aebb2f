-- ===== src/AuthLimiter.antt =====
-- `AuthLimiter` of src/rules.rs: failed logins by address, and the lockout. Times are nanoseconds,
-- and `Instant::now()` is an argument.
pub mod Lockout
pub mod Bounds
use docker_proxy.Common.{
  ℕ, ◌+◌, ◌-◌, ◌*◌, Bool, true, false, not, ◌&&◌, if◌then◌else◌, Option, none, some, Str, HashMap,
  get, contains_key, insert, remove, retain, length, unwrap_or, ltb, leb, is_some_and, is_none, min,
  u32_mod,
}
use docker_proxy.Externals.{from_secs}

abbrev pub max_auth_limiter_keys : ℕ
max_auth_limiter_keys = 16384

pub record AuthLockoutState : Type 0 where
  pub failures : ℕ
  pub first_failure : ℕ
  pub blocked_until : Option ℕ

abbrev pub AuthLimiter : Type 0
AuthLimiter = HashMap AuthLockoutState

unfoldable pub is_blocked : ℕ → Str → AuthLimiter → Bool
is_blocked now key state =
    is_some_and (get key state) (λ s. is_some_and s.blocked_until (λ u. ltb now u))

abbrev pub first_state : ℕ → AuthLockoutState
first_state now = record { failures = 0; first_failure = now; blocked_until = none }

-- A lockout that is over is forgotten.
unfoldable pub expire : ℕ → AuthLockoutState → AuthLockoutState
expire now s = elim s.blocked_until [ none ↦ s | some u ↦ if leb u now then first_state now else s ]

-- Failures before the window are forgotten.
unfoldable pub slide : ℕ → ℕ → AuthLockoutState → AuthLockoutState
slide now window s =
    if ltb window (now - s.first_failure) then record s { failures = 0; first_failure = now } else s

-- `u32::saturating_add(1)`.
abbrev pub saturating_suc : ℕ → ℕ
saturating_suc n = min (n + 1) (u32_mod - 1)

unfoldable pub count_failure : ℕ → ℕ → ℕ → AuthLockoutState → Bool × AuthLockoutState
count_failure now max lockout s =
    let counted = record s { failures = saturating_suc s.failures } in
    if leb max counted.failures && is_none counted.blocked_until
    then (true, record counted { blocked_until = some (now + lockout) })
    else (false, counted)

-- The entry of the key after one more failure, and whether it locks the key.
unfoldable pub next_entry : ℕ → ℕ → ℕ → ℕ → AuthLockoutState → Bool × AuthLockoutState
unfolding expire slide count_failure
next_entry now max window lockout entry =
    count_failure now max lockout (slide now window (expire now entry))

abbrev pub is_full_for : Str → AuthLimiter → Bool
is_full_for key state = leb max_auth_limiter_keys (length state) && not (contains_key key state)

unfoldable pub record_failure : ℕ → Str → ℕ → ℕ → ℕ → AuthLimiter → Bool × AuthLimiter
record_failure now key max window lockout state =
    let entry = unwrap_or (get key state) (first_state now) in
    let next = next_entry now max window lockout entry in
    if is_full_for key state then (false, state) else (next.0, insert key next.1 state)

unfoldable pub record_success : Str → AuthLimiter → AuthLimiter
record_success key state = remove key state

abbrev pub is_kept : ℕ → AuthLockoutState → Bool
is_kept now s = elim s.blocked_until [
  | some u ↦ ltb now u
  | none ↦ ltb (now - s.first_failure) (from_secs 600)
]

unfoldable pub cleanup : ℕ → AuthLimiter → AuthLimiter
cleanup now state = retain (is_kept now) state
