-- ===== src/AuthLimiter/Bounds.antt =====
-- The table of src/rules.rs `AuthLimiter` under every method: its size, its keys, and a full table.
use docker_proxy.Common.{
  ℕ, ◌≤◌, ◌≡◌, false, none, inl, inr, arith, List, [], ◌∷◌, Str, str_eq, get, insert, length,
  HasDistinctKeys, HasDistinctKeys-insert, HasDistinctKeys-remove, HasDistinctKeys-retain,
  length-insert, length-remove-le, length-retain-le, get-insert, Bool-cases,
}
use docker_proxy.AuthLimiter.{
  AuthLimiter, AuthLockoutState, max_auth_limiter_keys, record_failure, record_success, cleanup,
  is_kept, is_full_for,
}

pub record IsValid (state : AuthLimiter) : Type 0 where
  pub distinct : HasDistinctKeys state
  pub bounded : length state ≤ max_auth_limiter_keys

-- The calls that change the table, with their arguments and times.
pub data Call : Type 0 where
  fails : ℕ → Str → ℕ → ℕ → ℕ → Call
  succeeds : Str → Call
  cleans : ℕ → Call

unfoldable pub step : Call → AuthLimiter → AuthLimiter
step (fails now key max window lockout) state = (record_failure now key max window lockout state).1
step (succeeds key) state = record_success key state
step (cleans now) state = cleanup now state

unfoldable pub run : List Call → AuthLimiter → AuthLimiter
run [] state = state
run (c ∷ cs) state = run cs (step c state)

insert-IsValid :
    (key : Str) (s : AuthLockoutState) (state : AuthLimiter)
    → IsValid state
    → ((get key state ≡ none) → length state ≤ 16383)
    → IsValid (insert key s state)
insert-IsValid key s state v room = record {
  distinct = HasDistinctKeys-insert key s state v.distinct;
  bounded = ground (arith, length-insert key s state, v.bounded, room);
}

step-IsValid : (c : Call) (state : AuthLimiter) → IsValid state → IsValid (step c state)
unfolding step record_failure record_success cleanup
step-IsValid (fails now key max window lockout) state v =
    elim (Bool-cases (is_full_for key state)) [
      | inl full ↦ rw (full, step) v
      | inr room ↦ rw (room, step) (insert-IsValid key _ state v (λ absent. ground arith))
    ]
step-IsValid (succeeds key) state v = record {
  distinct = HasDistinctKeys-remove key state v.distinct;
  bounded = omega (arith, length-remove-le key state, v.bounded);
}
step-IsValid (cleans now) state v = record {
  distinct = HasDistinctKeys-retain (is_kept now) state v.distinct;
  bounded = omega (arith, length-retain-le (is_kept now) state, v.bounded);
}

-- Whatever happens, each address has one entry and the table has at most 16,384.
pub run-IsValid : (cs : List Call) (state : AuthLimiter) → IsValid state → IsValid (run cs state)
unfolding run
run-IsValid [] state v = v
run-IsValid (c ∷ cs) state v = run-IsValid cs (step c state) (step-IsValid c state v)

-- A failure of one address changes the entry of no other.
pub get-record_failure :
    (now : ℕ) (key j : Str) (max window lockout : ℕ) (state : AuthLimiter)
    → str_eq key j ≡ false
    → get j (record_failure now key max window lockout state).1 ≡ get j state
unfolding record_failure
get-record_failure now key j max window lockout state other =
    elim (Bool-cases (is_full_for key state)) [
      | inl full ↦ rw full
      | inr room ↦ rw (room, get-insert key j _ state, other)
    ]
