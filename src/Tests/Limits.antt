-- ===== src/Tests/Limits.antt =====
-- The limiters at concrete times.
use docker_proxy.Common.{
  ℕ, ◌*◌, ◌≡◌, refl, true, false, none, some, [], ◌∷◌, Str, codes, arith, get, str_eq, ltb,
}
use docker_proxy.Externals.{f64_one}
use docker_proxy.RateLimiter.{RateLimiter, RateBucket, check}
use docker_proxy.RateLimiter.Penalty.{refused_until_penalty_over}
use docker_proxy.RateLimiter.Burst.{FloatLaws, after_checks, burst, burst_after_penalty}
use docker_proxy.AuthLimiter.{AuthLockoutState, is_blocked, record_failure}
use docker_proxy.AuthLimiter.Bounds as AuthBounds
use docker_proxy.AuthLimiter.Bounds.{run-IsValid, run, fails, cleans}
use docker_proxy.AuthLimiter.Lockout.{run_failures, lockout_after_max}
use docker_proxy.Tests.{plain}

plain-FloatLaws : FloatLaws plain
plain-FloatLaws = record {
  one_le_suc = λ n h. ground arith;
  one_le_zero = refl;
  sub_one = λ n h. omega arith;
  add_nothing = λ n max period. omega arith;
  min_le = λ n m h. omega (arith, h);
}

abbrev one : Str
one = codes "deny-all:10.0.0.1"

abbrev two : Str
two = codes "deny-all:10.0.0.2"

burst_example :
    ((check plain 7 one 3 1 60 (after_checks plain plain-FloatLaws 7 one 3 1 60 2 [])).0 ≡ true)
    × ((check plain 7 one 3 1 60 (after_checks plain plain-FloatLaws 7 one 3 1 60 3 [])).0 ≡ false)
unfolding get
burst_example =
    burst plain plain-FloatLaws 7 one 3 1 60 [] 2 (omega arith) (omega arith) refl (omega arith)
      (omega arith)

abbrev penalised : RateBucket
penalised = record {
  last_check = 5;
  tokens = 0;
  max_tokens = 3 * f64_one;
  blocked_until = some 100;
}

abbrev table : RateLimiter
table = (one, penalised) ∷ []

abbrev drained : RateLimiter
drained =
    (one, record { last_check = 7; tokens = 0; max_tokens = 3 * f64_one; blocked_until = none })
    ∷ []

refused_until_penalty_over_example :
    let after = (check plain 7 one 3 1 60 drained).1 in
    check plain 1000 one 9 1 1 after ≡ (false, after)
unfolding check get str_eq
refused_until_penalty_over_example =
    refused_until_penalty_over plain 7 one 3 1 60 drained (λ e. omega (arith, e)) refl refl refl
      1000 9 1 1 (omega arith)

burst_after_penalty_example :
    ((check plain 200 one 3 1 60 (after_checks plain plain-FloatLaws 200 one 3 1 60 2 table)).0
      ≡ true)
    × ((check plain 200 one 3 1 60 (after_checks plain plain-FloatLaws 200 one 3 1 60 3 table)).0
        ≡ false)
unfolding get str_eq
burst_after_penalty_example =
    burst_after_penalty plain plain-FloatLaws 200 one 3 1 60 table penalised 100 2
      (λ e. omega (arith, e)) (omega arith) refl refl (omega arith) (omega arith)

-- The addresses of the auth limiter.
abbrev peer : Str
peer = codes "10.0.0.7"

abbrev locked : AuthLockoutState
locked = record { failures = 10; first_failure = 3; blocked_until = some 500 }

run-IsValid_example :
    AuthBounds.IsValid (run (fails 9 peer 10 60 300 ∷ cleans 700 ∷ []) ((one, locked) ∷ []))
unfolding get
run-IsValid_example =
    run-IsValid (fails 9 peer 10 60 300 ∷ cleans 700 ∷ []) ((one, locked) ∷ [])
      (record { distinct = (refl, tt); bounded = omega arith })

lockout_after_max_example :
    let before = run_failures 3 60 300 peer (10 ∷ 20 ∷ []) [] in
    let last = record_failure 30 peer 3 60 300 before in
    ((u : ℕ) → is_blocked u peer before ≡ false)
    × (last.0 ≡ true)
    × ((u : ℕ) → is_blocked u peer last.1 ≡ ltb u 330)
unfolding get
lockout_after_max_example =
    lockout_after_max 3 60 300 peer 10 (20 ∷ []) 30 [] refl (omega arith) (omega arith)
      (omega arith) (omega arith, tt) (omega arith)
