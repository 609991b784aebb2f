-- ===== src/Auth/Equality.antt =====
-- `constant_time_eq` of src/main.rs compares what it is given.
use Prim.Native.Nat.{bit_or, bit_xor}
use docker_proxy.Common.{
  ℕ, ◌+◌, ◌%◌, ◌<◌, ◌≡◌, refl, ◌↔◌, true, [], ◌∷◌, arith, Str, length, ==_iff, u32_mod,
  bit_or-eq-zero_iff, bit_xor-eq-zero_iff, bit_xor-le,
}
use docker_proxy.Auth.{fold_diff, constant_time_eq}

-- A difference that was found is not lost.
fold_diff_start : (diff : ℕ) (a b : Str) → fold_diff diff a b ≡ 0 → diff ≡ 0
unfolding fold_diff
fold_diff_start diff [] [] e = e
fold_diff_start diff (x ∷ a) [] e =
    ((bit_or-eq-zero_iff diff (bit_xor x 0)).0
      (fold_diff_start (bit_or diff (bit_xor x 0)) a [] e)).0
fold_diff_start diff [] (y ∷ b) e =
    ((bit_or-eq-zero_iff diff (bit_xor 0 y)).0
      (fold_diff_start (bit_or diff (bit_xor 0 y)) [] b e)).0
fold_diff_start diff (x ∷ a) (y ∷ b) e =
    ((bit_or-eq-zero_iff diff (bit_xor x y)).0
      (fold_diff_start (bit_or diff (bit_xor x y)) a b e)).0

fold_diff_same : (diff : ℕ) (a b : Str) → length a ≡ length b → fold_diff diff a b ≡ 0 → a ≡ b
unfolding fold_diff
fold_diff_same diff [] [] h e = refl
fold_diff_same diff (x ∷ a) [] h e = absurd (omega (arith, h))
fold_diff_same diff [] (y ∷ b) h e = absurd (omega (arith, h))
fold_diff_same diff (x ∷ a) (y ∷ b) h e =
    let start = fold_diff_start (bit_or diff (bit_xor x y)) a b e in
    let same = (bit_xor-eq-zero_iff x y).0 ((bit_or-eq-zero_iff diff (bit_xor x y)).0 start).1 in
    rw (same, fold_diff_same (bit_or diff (bit_xor x y)) a b (omega (arith, h)) e) refl

fold_diff_refl : (a : Str) → fold_diff 0 a a ≡ 0
unfolding fold_diff
fold_diff_refl [] = refl
fold_diff_refl (x ∷ a) =
    rw ((bit_xor-eq-zero_iff x x).1 refl, (bit_or-eq-zero_iff 0 0).1 (refl, refl))
      (fold_diff_refl a)

xor_small : (a b : ℕ) → a + b < u32_mod → bit_xor a b % u32_mod ≡ 0 → a ≡ b
xor_small a b w e = (bit_xor-eq-zero_iff a b).0 (omega (arith, bit_xor-le a b, w, e))

-- Of texts of fewer than 2 ^ 32 bytes together, exactly equal ones compare as equal.
pub constant_time_eq_iff :
    (a b : Str) → length a + length b < u32_mod → (constant_time_eq a b ≡ true) ↔ (a ≡ b)
unfolding constant_time_eq
constant_time_eq_iff a b w = (
  λ e.
      let zero = (==_iff _ 0).0 e in
      fold_diff_same _ a b (xor_small (length a) (length b) w (fold_diff_start _ a b zero)) zero,
  λ e. rw (e, (bit_xor-eq-zero_iff (length b) (length b)).1 refl) (rw (fold_diff_refl b) refl),
)
