-- ===== src/RateLimiter/Bounds.antt =====
-- The table of `RateLimiter` of src/rules.rs: its size, and what a call leaves alone.
use docker_proxy.Common.{
  ℕ, ◌≤◌, ◌≡◌, refl, Bool, false, none, inl, inr, arith, Str, str_eq, get, insert, length,
  HasDistinctKeys, HasDistinctKeys-insert, HasDistinctKeys-retain, length-insert, length-retain-le,
  get-insert, contains_key, Bool-cases, not, ◌&&◌, leb, ◌==◌,
}
use docker_proxy.Externals.{Externals}
use docker_proxy.RateLimiter.{
  RateLimiter, RateBucket, max_rate_limit_buckets, check, cleanup, is_kept, is_penalised,
}

pub record IsValid (buckets : RateLimiter) : Type 0 where
  pub distinct : HasDistinctKeys buckets
  pub bounded : length buckets ≤ max_rate_limit_buckets

module _ (x : Externals) where
  -- A check either refuses and changes nothing, or writes the bucket of its key where the table has
  -- one or has room for it.
  check_cases {ℓ} :
      (P : Bool × RateLimiter → Type ℓ) (now : ℕ) (key : Str) (max period penalty : ℕ)
      (buckets : RateLimiter)
      → P (false, buckets)
      → ((granted : Bool) (b : RateBucket)
          → (get key buckets ≡ none → length buckets ≤ 16383)
          → P (granted, insert key b buckets))
      → P (check x now key max period penalty buckets)
  unfolding check
  check_cases P now key max period penalty buckets refused written = elim (Bool-cases (max == 0)) [
    | inl none_allowed ↦ rw none_allowed refused
    | inr allowed ↦
        elim (Bool-cases
          (not (contains_key key buckets) && leb max_rate_limit_buckets (length buckets))) [
            | inl full ↦ rw (allowed, full) refused
            | inr room ↦ elim (Bool-cases (is_penalised x now (get key buckets))) [
              | inl blocked ↦ rw (allowed, room, blocked) refused
              | inr free ↦ rw (allowed, room, free) (written _ _ (λ absent. ground arith))
            ]
          ]
  ]

  -- No call makes the table hold more than 16,384 keys, or one key twice.
  pub check-IsValid :
      (now : ℕ) (key : Str) (max period penalty : ℕ) (buckets : RateLimiter)
      → IsValid buckets
      → IsValid (check x now key max period penalty buckets).1 × IsValid (cleanup x now buckets)
  unfolding cleanup
  check-IsValid now key max period penalty buckets v = (
    check_cases (λ r. IsValid r.1) now key max period penalty buckets v
        (λ granted b room. record {
          distinct = HasDistinctKeys-insert key b buckets v.distinct;
          bounded = ground (arith, length-insert key b buckets, v.bounded, room);
        }),
    record {
      distinct = HasDistinctKeys-retain (is_kept x now) buckets v.distinct;
      bounded = omega (arith, length-retain-le (is_kept x now) buckets, v.bounded);
    },
  )

  -- A check of one key leaves the bucket of every other key as it was.
  pub get-check :
      (now : ℕ) (key j : Str) (max period penalty : ℕ) (buckets : RateLimiter)
      → str_eq key j ≡ false
      → get j (check x now key max period penalty buckets).1 ≡ get j buckets
  get-check now key j max period penalty buckets other =
      check_cases (λ r. get j r.1 ≡ get j buckets) now key max period penalty buckets refl
        (λ granted b room. rw (get-insert key j b buckets, other))
