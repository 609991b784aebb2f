-- ===== src/Metrics/Latency.antt =====
-- The latency histogram of src/metrics.rs as a Prometheus histogram: each bucket that is printed
-- counts the values up to its bound.
use docker_proxy.Common.{
  ℕ, suc, ◌+◌, ◌≤◌, ◌<◌, ◌≡◌, refl, sym, ap, ◌∙◌, List, [], ◌∷◌, arith, length, leb, if◌then◌else◌,
  All, u64_mod, map, Bool-cases, inl, inr,
}
use docker_proxy.Metrics.{
  LatencyHistogram, observe, placed_idx, add_at, cumulative_from, fetch_add, saturating_add,
  latency_buckets_ms,
}

-- The totals for the bounds and for `+Inf` with one more value.
abbrev pub with_value : ℕ → List ℕ → List ℕ → List ℕ
with_value ms [] totals = map (λ c. c + 1) totals
with_value ms (bound ∷ bounds) [] = []
with_value ms (bound ∷ bounds) (c ∷ totals) =
    (if leb ms bound then c + 1 else c) ∷ with_value ms bounds totals

abbrev pub sum : List ℕ → ℕ
sum [] = 0
sum (b ∷ bs) = b + sum bs

abbrev pub IsAscending : List ℕ → Type 0
IsAscending [] = Unit
IsAscending (b ∷ bs) = All (λ c. b ≤ c) bs × IsAscending bs

cumulative_suc :
    (t : ℕ) (bs : List ℕ)
    → t + sum bs + 1 < u64_mod
    → cumulative_from (t + 1) bs ≡ map (λ c. c + 1) (cumulative_from t bs)
unfolding cumulative_from
cumulative_suc t [] h = refl
cumulative_suc t (b ∷ bs) h =
    let now : saturating_add (t + 1) b ≡ t + b + 1 = omega (arith, h) in
    let was : saturating_add t b ≡ t + b = omega (arith, h) in
    rw (now, was, cumulative_suc (t + b) bs (omega (arith, h))) refl

with_value-All :
    (ms : ℕ) (bounds totals : List ℕ)
    → All (λ c. ms ≤ c) bounds
    → with_value ms bounds totals ≡ map (λ c. c + 1) totals
with_value-All ms [] totals h = refl
with_value-All ms (bound ∷ bounds) [] h = refl
with_value-All ms (bound ∷ bounds) (c ∷ totals) (h, hs) =
    ground (arith, h, with_value-All ms bounds totals hs)

All-le : (a b : ℕ) (bs : List ℕ) → a ≤ b → All (λ c. b ≤ c) bs → All (λ c. a ≤ c) bs
All-le a b [] h k = tt
All-le a b (c ∷ bs) h (k, ks) = (omega (arith, h, k), All-le a b bs h ks)

bump_head :
    (t b : ℕ) (bs : List ℕ)
    → t + sum (b ∷ bs) + 1 < u64_mod
    → cumulative_from t (fetch_add b 1 ∷ bs) ≡ map (λ c. c + 1) (cumulative_from t (b ∷ bs))
unfolding cumulative_from
bump_head t b bs h =
    let now : saturating_add t (fetch_add b 1) ≡ t + b + 1 = omega (arith, h) in
    let was : saturating_add t b ≡ t + b = omega (arith, h) in
    rw (now, was, cumulative_suc (t + b) bs (omega (arith, h))) refl

observe_totals :
    (ms t : ℕ) (bounds bs : List ℕ)
    → IsAscending bounds
    → length bs ≡ suc (length bounds)
    → t + sum bs + 1 < u64_mod
    → cumulative_from t (add_at (placed_idx ms bounds) bs)
      ≡ with_value ms bounds (cumulative_from t bs)
unfolding cumulative_from add_at placed_idx
observe_totals ms t bounds [] asc len h = absurd (omega (arith, len))
observe_totals ms t [] (b ∷ bs) asc len h = bump_head t b bs h
observe_totals ms t (bound ∷ bounds) (b ∷ bs) (le, asc) len h = elim (Bool-cases (leb ms bound)) [
  | inl here ↦
      let le' : ms ≤ bound = ground (arith, here) in
      rw here (
        bump_head t b bs h
        ∙ ap (λ rest. (saturating_add t b + 1) ∷ rest)
            (sym (with_value-All ms bounds _ (All-le ms bound bounds le' le))))
  | inr later ↦ rw later (
      ap (λ rest. saturating_add t b ∷ rest)
        (observe_totals ms (saturating_add t b) bounds bs asc (omega (arith, len))
          (omega (arith, h))))
]

bounds_ascend : IsAscending latency_buckets_ms
bounds_ascend = ground arith

-- One more value adds one to the count, and one to the printed total of each bucket whose bound is not
-- below the value, and of `+Inf`; the other totals stay. The buckets are twelve, and no total leaves
-- 64 bits.
pub cumulative_from-observe :
    (ms : ℕ) (h : LatencyHistogram)
    → length h.buckets ≡ 12
    → sum h.buckets + 1 < u64_mod
    → h.count + 1 < u64_mod
    → (cumulative_from 0 (observe ms h).buckets
        ≡ with_value ms latency_buckets_ms (cumulative_from 0 h.buckets))
      × ((observe ms h).count ≡ h.count + 1)
unfolding observe
cumulative_from-observe ms h twelve room count = (
  observe_totals ms 0 latency_buckets_ms h.buckets bounds_ascend twelve (omega (arith, room)),
  omega (arith, count),
)
