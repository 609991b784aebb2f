-- ===== src/RateLimiter/Burst.antt =====
-- How many checks of one key `RateLimiter` of src/rules.rs grants at one instant.
use docker_proxy.Common.{
  ℕ, zero, suc, ◌-◌, ◌^◌, ◌≤◌, ◌<◌, ◌≡◌, ◌≢◌, ap, ◌∙◌, true, false, none, some, arith, Str,
  str_eq_refl, get, insert, length, get-insert,
}
use docker_proxy.Externals.{Externals, f64_one}
use docker_proxy.RateLimiter.{
  RateLimiter, RateBucket, max_rate_limit_buckets, check, open_bucket, refill, spend, refill_rate,
}
use docker_proxy.RateLimiter.Penalty.{check_open, check_penalty_over}

abbrev pub exact_bound : ℕ
exact_bound = 2 ^ 53

-- IEEE 754 arithmetic on the integers below 2^53, which `f64` represents exactly, and the refill
-- after no time: a finite rate times zero is zero.
pub record FloatLaws (x : Externals) : Type 0 where
  pub one_le_suc : (n : ℕ) → n < exact_bound → x.f64_le f64_one (x.f64_of_u64 (suc n)) ≡ true
  pub one_le_zero : x.f64_le f64_one (x.f64_of_u64 0) ≡ false
  pub sub_one :
      (n : ℕ) → n < exact_bound → x.f64_sub (x.f64_of_u64 (suc n)) f64_one ≡ x.f64_of_u64 n
  pub add_nothing :
      (n max period : ℕ)
      → x.f64_add (x.f64_of_u64 n) (x.f64_mul (x.as_secs_f64 0) (refill_rate x max period))
        ≡ x.f64_of_u64 n
  pub min_le : (n m : ℕ) → n ≤ m → x.f64_min (x.f64_of_u64 n) (x.f64_of_u64 m) ≡ x.f64_of_u64 n

module _ (x : Externals) (laws : FloatLaws x) (now : ℕ) (key : Str) (max period penalty : ℕ) where
  abbrev with_tokens : ℕ → RateBucket
  with_tokens n = record {
    last_check = now;
    tokens = x.f64_of_u64 n;
    max_tokens = x.f64_of_u64 max;
    blocked_until = none;
  }

  refill_at_once :
      (n : ℕ)
      → n ≤ max
      → refill x now (x.f64_of_u64 max) (refill_rate x max period) (with_tokens n) ≡ with_tokens n
  unfolding refill
  refill_at_once n h =
      let no_time : now - now ≡ 0 = omega arith in
      rw (no_time, laws.add_nothing n max period, laws.min_le n max h)

  spend_one :
      (n : ℕ) → n < exact_bound → spend x now penalty (with_tokens (suc n)) ≡ (true, with_tokens n)
  unfolding spend
  spend_one n h = rw (laws.one_le_suc n h, laws.sub_one n h)

  spend_last : (spend x now penalty (with_tokens 0)).0 ≡ false
  unfolding spend
  spend_last = rw laws.one_le_zero

  -- The table after `n` checks of the key at this instant.
  pub after_checks : ℕ → RateLimiter → RateLimiter
  after_checks zero buckets = buckets
  after_checks (suc n) buckets = (check x now key max period penalty (after_checks n buckets)).1

  check_known :
      (n : ℕ) (buckets : RateLimiter)
      → max ≢ 0
      → n ≤ max
      → get key buckets ≡ some (with_tokens n)
      → check x now key max period penalty buckets
        ≡ (let spent = spend x now penalty (with_tokens n) in (spent.0, insert key spent.1 buckets))
  unfolding open_bucket
  check_known n buckets h few known = rw (
    check_open x now key max period penalty buckets h (ground (arith, known)) (rw known),
    known,
    refill_at_once n few,
  )

  -- The key is checked with a full bucket.
  abbrev IsFull : RateLimiter → Type 0
  IsFull buckets =
      check x now key max period penalty buckets
      ≡ (let spent = spend x now penalty (with_tokens max) in (spent.0, insert key spent.1 buckets))

  check_new :
      (buckets : RateLimiter)
      → max ≢ 0
      → get key buckets ≡ none
      → length buckets < max_rate_limit_buckets
      → IsFull buckets
  unfolding open_bucket
  check_new buckets h new room = rw (
    check_open x now key max period penalty buckets h (ground (arith, new)) (rw new),
    new,
    refill_at_once max (omega arith),
  )

  module _ (buckets : RateLimiter) (positive : max ≢ 0) (exact : max < exact_bound)
      (starts_full : IsFull buckets) where
    granted :
        (i : ℕ)
        → i < max
        → check x now key max period penalty (after_checks i buckets)
          ≡ (true, insert key (with_tokens (max - suc i)) (after_checks i buckets))
    unfolding after_checks
    granted zero h =
        let taken = spend_one (max - 1) (omega arith) in
        let counted : max ≡ suc (max - 1) = omega arith in
        let full : spend x now penalty (with_tokens max) ≡ (true, with_tokens (max - 1)) =
          ap (λ n. spend x now penalty (with_tokens n)) counted ∙ taken in
        rw (starts_full, full)
    granted (suc i) h =
        let before = granted i (omega arith) in
        let left : max - suc i ≡ suc (max - suc (suc i)) = omega arith in
        let taken : spend x now penalty (with_tokens (max - suc i))
            ≡ (true, with_tokens (max - suc (suc i))) =
          ap (λ n. spend x now penalty (with_tokens n)) left
          ∙ spend_one (max - suc (suc i)) (omega arith) in
        let known : get key (after_checks (suc i) buckets) ≡ some (with_tokens (max - suc i)) = rw (
          before,
          after_checks,
          get-insert key key (with_tokens (max - suc i)) (after_checks i buckets),
          str_eq_refl key,
        ) in
        rw (
          check_known (max - suc i) (after_checks (suc i) buckets) positive (omega arith) known,
          taken,
        )

    emptied : get key (after_checks max buckets) ≡ some (with_tokens 0)
    unfolding after_checks
    emptied =
        let counted : max ≡ suc (max - 1) = omega arith in
        let left : max - suc (max - 1) ≡ 0 = omega arith in
        let before = granted (max - 1) (omega arith) in
        let same : after_checks max buckets ≡ after_checks (suc (max - 1)) buckets =
          ap (λ n. after_checks n buckets) counted in
        rw (
          same,
          before,
          after_checks,
          get-insert key key (with_tokens (max - suc (max - 1))) (after_checks (max - 1) buckets),
          str_eq_refl key,
          left,
        )

    full_burst :
        (i : ℕ)
        → i < max
        → ((check x now key max period penalty (after_checks i buckets)).0 ≡ true)
          × ((check x now key max period penalty (after_checks max buckets)).0 ≡ false)
    full_burst i h = (
      rw (granted i h),
      rw (check_known 0 (after_checks max buckets) positive (omega arith) emptied, spend_last),
    )

  -- By the laws of exact `f64` arithmetic, a key that the table does not have but has room for is
  -- granted exactly its limit at one instant, for a limit that is not zero and below 2^53: each
  -- check that fewer than `max` came before is granted, and the one that `max` came before is refused.
  pub burst :
      (buckets : RateLimiter) (i : ℕ)
      → max ≢ 0
      → max < exact_bound
      → get key buckets ≡ none
      → length buckets < max_rate_limit_buckets
      → i < max
      → ((check x now key max period penalty (after_checks i buckets)).0 ≡ true)
        × ((check x now key max period penalty (after_checks max buckets)).0 ≡ false)
  burst buckets i positive exact new room =
      full_burst buckets positive exact (check_new buckets positive new room) i

  -- By the same laws, a key whose penalty is over is served again: it is granted exactly its limit at
  -- one instant, however few tokens it had when the penalty began.
  pub burst_after_penalty :
      (buckets : RateLimiter) (b : RateBucket) (until i : ℕ)
      → max ≢ 0
      → max < exact_bound
      → get key buckets ≡ some b
      → b.blocked_until ≡ some until
      → until ≤ now
      → i < max
      → ((check x now key max period penalty (after_checks i buckets)).0 ≡ true)
        × ((check x now key max period penalty (after_checks max buckets)).0 ≡ false)
  burst_after_penalty buckets b until i positive exact known blocked over =
      let again =
        check_penalty_over x now key max period penalty buckets b until positive known blocked
          over in
      full_burst buckets positive exact (rw (again, refill_at_once max (omega arith))) i
