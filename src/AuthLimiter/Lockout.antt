-- ===== src/AuthLimiter/Lockout.antt =====
-- When `AuthLimiter` of src/rules.rs locks an address, for how long, and what ends the lockout.
use native.Mathlib.Nat.{add-zero}
use docker_proxy.Common.{
  ℕ, suc, ◌+◌, ◌-◌, ◌≤◌, ◌<◌, ◌≡◌, true, false, none, some, arith, List, [], ◌∷◌, Str, str_eq,
  str_eq_refl, get, insert, length, HasDistinctKeys, get-insert, get-remove, get-retain, All, ltb,
  u32_mod, if◌then◌else◌,
}
use docker_proxy.AuthLimiter.{
  AuthLimiter, AuthLockoutState, max_auth_limiter_keys, is_blocked, record_failure, record_success,
  cleanup, is_kept, next_entry, first_state,
}

-- An address that is not locked, with `n` failures since `first`.
abbrev pub counting : ℕ → ℕ → AuthLockoutState
counting n first = record { failures = n; first_failure = first; blocked_until = none }

module _ (max window lockout : ℕ) where
  pub next_entry-counting :
      (n first now : ℕ)
      → now - first ≤ window
      → n + 1 < max
      → max < u32_mod
      → next_entry now max window lockout (counting n first) ≡ (false, counting (n + 1) first)
  unfolding next_entry
  next_entry-counting n first now near few w = ground arith

  next_entry_last :
      (n first now : ℕ)
      → now - first ≤ window
      → n + 1 ≡ max
      → max < u32_mod
      → next_entry now max window lockout (counting n first) ≡ (
        true,
        record { failures = max; first_failure = first; blocked_until = some (now + lockout) },
      )
  unfolding next_entry
  next_entry_last n first now near last w = ground arith

  -- Failures of one address, in order.
  unfoldable pub run_failures : Str → List ℕ → AuthLimiter → AuthLimiter
  run_failures key [] state = state
  run_failures key (now ∷ times) state =
      run_failures key times (record_failure now key max window lockout state).1

  record_failure_known :
      (now : ℕ) (key : Str) (s : AuthLockoutState) (state : AuthLimiter)
      → get key state ≡ some s
      → record_failure now key max window lockout state
        ≡ (let next = next_entry now max window lockout s in (next.0, insert key next.1 state))
  unfolding record_failure
  record_failure_known now key s state known = ground (arith, known)

  pub record_failure_first :
      (now : ℕ) (key : Str) (state : AuthLimiter)
      → get key state ≡ none
      → length state < max_auth_limiter_keys
      → record_failure now key max window lockout state ≡ (
          let next = next_entry now max window lockout (first_state now) in
          (next.0, insert key next.1 state))
  unfolding record_failure
  record_failure_first now key state new room = ground (arith, new)

  pub after_failure :
      (now : ℕ) (key : Str) (s : AuthLockoutState) (state : AuthLimiter)
      → get key state ≡ some s
      → get key (record_failure now key max window lockout state).1
        ≡ some (next_entry now max window lockout s).1
  after_failure now key s state known =
      rw (record_failure_known now key s state known, get-insert key key _ state, str_eq_refl key)

  abbrev pub IsNear : ℕ → ℕ → Type 0
  IsNear first now = now - first ≤ window

  run_failures-counting :
      (key : Str) (first : ℕ) (times : List ℕ) (n : ℕ) (state : AuthLimiter)
      → get key state ≡ some (counting n first)
      → All (IsNear first) times
      → n + length times < max
      → max < u32_mod
      → get key (run_failures key times state) ≡ some (counting (n + length times) first)
  unfolding run_failures
  run_failures-counting key first [] n state known near few w = rw add-zero known
  run_failures-counting key first (now ∷ times) n state known (h, near) few w =
      let next = next_entry-counting n first now h (omega arith) w in
      let later : get key (record_failure now key max window lockout state).1
          ≡ some (counting (n + 1) first) =
        rw (after_failure now key (counting n first) state known, next) in
      let same : n + 1 + length times ≡ n + suc (length times) = omega arith in
      rw (← same) (run_failures-counting key first times (n + 1) _ later near (omega arith) w)

  -- For an address that is not in the table, while the table has room: `max` failures, none later
  -- than `window` after the first, leave it unblocked until the last of them, which reports a lockout;
  -- from then on it is blocked exactly at the instants before that failure's time plus `lockout`.
  pub lockout_after_max :
      (key : Str) (first : ℕ) (times : List ℕ) (now : ℕ) (state : AuthLimiter)
      → get key state ≡ none
      → length state < max_auth_limiter_keys
      → length times + 2 ≡ max
      → max < u32_mod
      → All (IsNear first) times
      → IsNear first now
      → let before = run_failures key (first ∷ times) state in
        let last = record_failure now key max window lockout before in
        ((u : ℕ) → is_blocked u key before ≡ false)
        × (last.0 ≡ true)
        × ((u : ℕ) → is_blocked u key last.1 ≡ ltb u (now + lockout))
  unfolding is_blocked run_failures
  lockout_after_max key first times now state new room enough w near h =
      let start : first - first ≤ window = omega arith in
      let once : get key (record_failure first key max window lockout state).1
          ≡ some (counting 1 first) =
        rw (
          record_failure_first first key state new room,
          get-insert key key _ state,
          str_eq_refl key,
          next_entry-counting 0 first first start (omega arith) w,
        ) in
      let counted = run_failures-counting key first times 1 _ once near (omega arith) w in
      let last = next_entry_last (1 + length times) first now h (omega arith) w in
      (
        λ u. rw counted,
        rw (record_failure_known now key _ _ counted, last),
        λ u. rw (after_failure now key _ _ counted, last),
      )

  next_entry_blocked :
      (now : ℕ) (s : AuthLockoutState) (until : ℕ)
      → s.blocked_until ≡ some until
      → now < until
      → let next = next_entry now max window lockout s in
        (next.0 ≡ false) × (next.1.blocked_until ≡ some until)
  unfolding next_entry
  next_entry_blocked now s until blocked early = ground arith

  -- Failures during a lockout neither end it nor prolong it.
  pub record_failure_blocked :
      (now u : ℕ) (key : Str) (s : AuthLockoutState) (until : ℕ) (state : AuthLimiter)
      → get key state ≡ some s
      → s.blocked_until ≡ some until
      → now < until
      → let after = record_failure now key max window lockout state in
        (after.0 ≡ false) × (is_blocked u key after.1 ≡ is_blocked u key state)
  unfolding is_blocked
  record_failure_blocked now u key s until state known blocked early =
      let (quiet, same) = next_entry_blocked now s until blocked early in
      (
        rw (record_failure_known now key s state known, quiet),
        rw (after_failure now key s state known, same, known, blocked),
      )

-- A success forgets the address's failures and its lockout, and touches no other address.
pub record_success_lem :
    (key j : Str) (state : AuthLimiter)
    → get j (record_success key state) ≡ (if str_eq key j then none else get j state)
unfolding record_success
record_success_lem key j state = get-remove key j state

-- The cleanup at one instant changes no answer of `is_blocked` at that instant or later.
pub is_blocked-cleanup :
    (now u : ℕ) (key : Str) (state : AuthLimiter)
    → HasDistinctKeys state
    → now ≤ u
    → is_blocked u key (cleanup now state) ≡ is_blocked u key state
unfolding is_blocked cleanup
is_blocked-cleanup now u key state d later =
    rw (get-retain (is_kept now) key state d) (ground arith)
