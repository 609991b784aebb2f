-- ===== src/RateLimiter.antt =====
-- `RateLimiter` of src/rules.rs: one token bucket for each key. Instants and durations are
-- nanoseconds, `Instant::now()` is an argument, and `-` on instants stops at zero as it does in
-- Rust. The mutex makes each method one step.
pub mod Bounds
pub mod Penalty
pub mod Burst
use docker_proxy.Common.{
  ℕ, ◌+◌, ◌-◌, Bool, true, false, not, ◌&&◌, ◌||◌, if◌then◌else◌, Option, none, some, Str, HashMap,
  get, contains_key, insert, retain, length, unwrap_or, ltb, leb, ◌==◌, is_some_and,
}
use docker_proxy.Externals.{Externals, f64_one, f64_milli, from_secs}

abbrev pub max_rate_limit_buckets : ℕ
max_rate_limit_buckets = 16384

pub record RateBucket : Type 0 where
  pub last_check : ℕ
  pub tokens : ℕ
  pub max_tokens : ℕ
  pub blocked_until : Option ℕ

abbrev pub RateLimiter : Type 0
RateLimiter = HashMap RateBucket

module _ (x : Externals) where
  open x use {f64_lt, f64_le, f64_add, f64_sub, f64_mul, f64_div, f64_min, f64_of_u64, as_secs_f64}

  abbrev pub refill_rate : ℕ → ℕ → ℕ
  refill_rate max_requests period_secs =
      let max_tokens = f64_of_u64 max_requests in
      if period_secs == 0 then max_tokens else f64_div max_tokens (f64_of_u64 period_secs)

  abbrev pub full_bucket : ℕ → ℕ → RateBucket
  full_bucket now max_tokens = record {
    last_check = now;
    tokens = max_tokens;
    max_tokens = max_tokens;
    blocked_until = none;
  }

  -- The bucket before the refill: its own, one whose penalty is over, or a new one.
  unfoldable pub open_bucket : ℕ → ℕ → Option RateBucket → RateBucket
  open_bucket now max_tokens none = full_bucket now max_tokens
  open_bucket now max_tokens (some b) = elim b.blocked_until [
    | none ↦ b
    | some blocked ↦ record b { blocked_until = none; tokens = max_tokens; last_check = now }
  ]

  unfoldable pub refill : ℕ → ℕ → ℕ → RateBucket → RateBucket
  refill now max_tokens rate b = record b {
    tokens =
        f64_min (f64_add b.tokens (f64_mul (as_secs_f64 (now - b.last_check)) rate)) max_tokens;
    last_check = now;
    max_tokens = max_tokens;
  }

  -- Takes one token, or starts the penalty.
  unfoldable pub spend : ℕ → ℕ → RateBucket → Bool × RateBucket
  spend now penalty_secs b =
      if f64_le f64_one b.tokens
      then (true, record b { tokens = f64_sub b.tokens f64_one })
      else (false, record b { blocked_until = some (now + from_secs penalty_secs) })

  abbrev pub is_penalised : ℕ → Option RateBucket → Bool
  is_penalised now o = is_some_and o (λ b. is_some_and b.blocked_until (λ u. ltb now u))

  unfoldable pub check : ℕ → Str → ℕ → ℕ → ℕ → RateLimiter → Bool × RateLimiter
  unfolding open_bucket refill spend
  check now key max_requests period_secs penalty_secs buckets =
      if max_requests == 0
      then (false, buckets)
      else if not (contains_key key buckets) && leb max_rate_limit_buckets (length buckets)
      then (false, buckets)
      else if is_penalised now (get key buckets)
      then (false, buckets)
      else let max_tokens = f64_of_u64 max_requests in
        let opened = open_bucket now max_tokens (get key buckets) in
        let filled = refill now max_tokens (refill_rate max_requests period_secs) opened in
        let (granted, bucket) = spend now penalty_secs filled in
        (granted, insert key bucket buckets)

  abbrev pub is_kept : ℕ → RateBucket → Bool
  is_kept now b =
      let spent = f64_lt b.tokens (f64_sub b.max_tokens f64_milli) in
      elim b.blocked_until [ none ↦ spent | some blocked ↦ ltb now blocked || spent ]

  unfoldable pub cleanup : ℕ → RateLimiter → RateLimiter
  cleanup now buckets = retain (is_kept now) buckets
