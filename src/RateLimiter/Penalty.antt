-- ===== src/RateLimiter/Penalty.antt =====
-- The penalty of `RateLimiter` of src/rules.rs: what starts it, what it refuses, and its end.
use docker_proxy.Common.{
  ℕ, ◌+◌, ◌≤◌, ◌<◌, ◌≡◌, ◌≢◌, true, false, some, arith, Str, str_eq_refl, get, insert, length,
  HasDistinctKeys, get-insert, get-retain, contains_key, not, ◌&&◌, leb, ◌==◌,
}
use docker_proxy.Externals.{Externals, from_secs}
use docker_proxy.RateLimiter.{
  RateLimiter, RateBucket, max_rate_limit_buckets, check, cleanup, is_kept, is_penalised,
  open_bucket, refill, spend, refill_rate, full_bucket,
}

-- The table has the key, or has room for it.
abbrev pub HasRoom : Str → RateLimiter → Type 0
HasRoom key buckets =
    (not (contains_key key buckets) && leb max_rate_limit_buckets (length buckets)) ≡ false

module _ (x : Externals) where
  -- What a check does that is not refused at once.
  pub check_open :
      (now : ℕ) (key : Str) (max period penalty : ℕ) (buckets : RateLimiter)
      → max ≢ 0
      → HasRoom key buckets
      → is_penalised x now (get key buckets) ≡ false
      → check x now key max period penalty buckets ≡ (
          let max_tokens = x.f64_of_u64 max in
          let opened = open_bucket x now max_tokens (get key buckets) in
          let spent =
            spend x now penalty (refill x now max_tokens (refill_rate x max period) opened) in
          (spent.0, insert key spent.1 buckets))
  unfolding check
  check_open now key max period penalty buckets some_allowed room free =
      let allowed : (max == 0) ≡ false = ground arith in rw (allowed, room, free)

  -- Until the penalty of a key is over every check of it is refused and changes nothing, whatever
  -- limits the check is made with.
  pub check_penalised :
      (now : ℕ) (key : Str) (max period penalty : ℕ) (buckets : RateLimiter) (b : RateBucket)
      (until : ℕ)
      → get key buckets ≡ some b
      → b.blocked_until ≡ some until
      → now < until
      → check x now key max period penalty buckets ≡ (false, buckets)
  unfolding check
  check_penalised now key max period penalty buckets b until known blocked early =
      let penalised : is_penalised x now (get key buckets) ≡ true =
        rw (known, blocked) (ground arith) in
      ground (arith, penalised)

  check-insert_penalised :
      (now : ℕ) (key : Str) (max period penalty : ℕ) (buckets : RateLimiter) (b : RateBucket)
      (until : ℕ)
      → b.blocked_until ≡ some until
      → now < until
      → check x now key max period penalty (insert key b buckets) ≡ (false, insert key b buckets)
  check-insert_penalised now key max period penalty buckets b until blocked early =
      check_penalised now key max period penalty (insert key b buckets) b until
        (rw (get-insert key key b buckets, str_eq_refl key)) blocked early

  spend_refused :
      (now penalty : ℕ) (b : RateBucket)
      → (spend x now penalty b).0 ≡ false
      → (spend x now penalty b).1.blocked_until ≡ some (now + from_secs penalty)
  unfolding spend
  spend_refused now penalty b e = ground arith

  -- A check that finds too few tokens starts the penalty: with some requests allowed, a table that
  -- has or can take the key, and no penalty running, a refusal at `now` means that every check of
  -- the key before `now` plus the penalty is refused and changes nothing.
  pub refused_until_penalty_over :
      (now : ℕ) (key : Str) (max period penalty : ℕ) (buckets : RateLimiter)
      → max ≢ 0
      → HasRoom key buckets
      → is_penalised x now (get key buckets) ≡ false
      → (check x now key max period penalty buckets).0 ≡ false
      → let after = (check x now key max period penalty buckets).1 in
        (later max' period' penalty' : ℕ)
        → later < now + from_secs penalty
        → check x later key max' period' penalty' after ≡ (false, after)
  refused_until_penalty_over now key max period penalty buckets h room free refused later max'
        period' penalty' early =
      let opened = check_open now key max period penalty buckets h room free in
      rw opened (
        check-insert_penalised later key max' period' penalty' buckets _ _
          (spend_refused now penalty _ (rw opened at refused)) early)

  -- Once its penalty is over a key is checked as one that has just come, with a full bucket.
  pub check_penalty_over :
      (now : ℕ) (key : Str) (max period penalty : ℕ) (buckets : RateLimiter) (b : RateBucket)
      (until : ℕ)
      → max ≢ 0
      → get key buckets ≡ some b
      → b.blocked_until ≡ some until
      → until ≤ now
      → check x now key max period penalty buckets ≡ (
          let max_tokens = x.f64_of_u64 max in
          let filled =
            refill x now max_tokens (refill_rate x max period) (full_bucket x now max_tokens) in
          let spent = spend x now penalty filled in (spent.0, insert key spent.1 buckets))
  unfolding open_bucket refill
  check_penalty_over now key max period penalty buckets b until h known blocked over =
      let room : HasRoom key buckets = ground (arith, known) in
      let free : is_penalised x now (get key buckets) ≡ false =
        rw (known, blocked) (ground arith) in
      rw (check_open now key max period penalty buckets h room free, known, blocked)

  -- The cleanup keeps the bucket of every key whose penalty is running.
  pub cleanup_penalised :
      (now : ℕ) (key : Str) (buckets : RateLimiter) (b : RateBucket) (until : ℕ)
      → HasDistinctKeys buckets
      → get key buckets ≡ some b
      → b.blocked_until ≡ some until
      → now < until
      → get key (cleanup x now buckets) ≡ some b
  unfolding cleanup
  cleanup_penalised now key buckets b until d known blocked early =
      let kept : is_kept x now b ≡ true = ground (arith, blocked) in
      rw (get-retain (is_kept x now) key buckets d, known, kept)
