-- ===== src/Common/Numerals.antt =====
-- What the program reads of a JSON or YAML number: its three views and its printed form. An `f64` is
-- its bit pattern, which only the operations of `Externals` look into.
use Prim.Native.Nat.{ℕ, ◌+◌, ◌-◌, ◌*◌, ◌^◌}
use mathlib.Core.Path.{◌≡◌}
use mathlib.Core.Logic.{◌↔◌}
use mathlib.Core.Bool.{Bool, true, false}
use mathlib.Core.Option.{Option, none, some}
use mathlib.Core.List.{[], ◌∷◌}
use native.Mathlib.Omega.{arith}
use docker_proxy.Common.Tests.{ltb, ◌==◌, if◌then◌else◌, ◌>>=◌}
use docker_proxy.Common.Text.{Str, is_ascii_digit}

-- `negsuc n` is -(n + 1).
pub data ℤ : Type 0 where
  pos : ℕ → ℤ
  negsuc : ℕ → ℤ

unfoldable pub int_eq : ℤ → ℤ → Bool
int_eq (pos a) (pos b) = a == b
int_eq (negsuc a) (negsuc b) = a == b
int_eq _ _ = false

pub int_eq_iff : (a b : ℤ) → (int_eq a b ≡ true) ↔ (a ≡ b)
unfolding int_eq
int_eq_iff (pos a) (pos b) = ground arith
int_eq_iff (pos a) (negsuc b) = ground arith
int_eq_iff (negsuc a) (pos b) = ground arith
int_eq_iff (negsuc a) (negsuc b) = ground arith

pub record Number : Type 0 where
  pub as_i64 : Option ℤ
  pub as_u64 : Option ℕ
  pub as_f64 : Option ℕ
  pub text : Str

abbrev pub u16_mod : ℕ
u16_mod = 2 ^ 16

abbrev pub u32_mod : ℕ
u32_mod = 2 ^ 32

abbrev pub u64_mod : ℕ
u64_mod = 2 ^ 64

-- The value of a run of decimal digits, read from the left.
unfoldable pub digits_value : ℕ → Str → Option ℕ
digits_value acc [] = some acc
digits_value acc (c ∷ s) =
    let rest = digits_value (acc * 10 + (c - b'0')) s in if is_ascii_digit c then rest else none

abbrev pub below : ℕ → ℕ → Option ℕ
below bound n = if ltb n bound then some n else none

abbrev pub drop_plus : Str → Str
drop_plus [] = []
drop_plus (c ∷ s) = if c == b'+' then s else c ∷ s

abbrev pub digits_only : ℕ → Str → Option ℕ
digits_only bound [] = none
digits_only bound (c ∷ s) = digits_value 0 (c ∷ s) >>= below bound

-- `str::parse` into an unsigned integer below `bound`: a sign `+` may stand in front, and a text
-- with no digit or a value out of range is an error.
unfoldable pub parse_unsigned : ℕ → Str → Option ℕ
unfolding digits_value
parse_unsigned bound s = digits_only bound (drop_plus s)
