-- ===== src/Common/Decimal.antt =====
-- An unsigned integer as `to_string` and `{}` print it, and that `str::parse` reads it back.
use Prim.Native.Nat.{ℕ, zero, suc, ◌+◌, ◌-◌, ◌*◌, ◌/◌, ◌%◌, ◌≤◌, ◌<◌}
use mathlib.Core.Path.{◌≡◌, refl}
use mathlib.Core.Logic.{inl, inr, ◌≢◌}
use mathlib.Core.Bool.{true, false}
use mathlib.Core.Option.{some}
use mathlib.Core.List.{[], ◌∷◌, ◌++◌}
use native.Mathlib.Omega.{arith}
use docker_proxy.Common.Tests.{ltb, ◌==◌, if◌then◌else◌, ◌>>=◌, Bool-cases}
use docker_proxy.Common.Text.{Str}
use docker_proxy.Common.Lists.{All, All-append}
use docker_proxy.Common.Split.{IsFree}
use docker_proxy.Common.Numerals.{digits_value, parse_unsigned}

abbrev digit : ℕ → ℕ
digit n = b'0' + n % 10

-- The last digit is printed last; a round for each unit of the number is more than enough.
digits : ℕ → ℕ → Str
digits zero n = digit n ∷ []
digits (suc rounds) n =
    let tens = digits rounds (n / 10) in if ltb n 10 then digit n ∷ [] else tens ++ digit n ∷ []

unfoldable pub to_string : ℕ → Str
unfolding digits
to_string n = digits n n

digits_value-append :
    (acc c : ℕ) (s : Str)
    → digits_value acc (s ++ c ∷ []) ≡ (digits_value acc s >>= λ v. digits_value v (c ∷ []))
unfolding digits_value
digits_value-append acc c [] = refl
digits_value-append acc c (d ∷ s) = ground (arith, digits_value-append (acc * 10 + (d - b'0')) c s)

digits_value-digits : (rounds n : ℕ) → n ≤ rounds → digits_value 0 (digits rounds n) ≡ some n
unfolding digits digits_value
digits_value-digits zero n h = ground arith
digits_value-digits (suc rounds) n h = elim (Bool-cases (ltb n 10)) [
  | inl small ↦ rw small (ground (arith, small))
  | inr large ↦
      rw
        (
          large,
          digits_value-append 0 (digit n) (digits rounds (n / 10)),
          digits_value-digits rounds (n / 10) (ground (arith, large)),
        )
        (ground (arith, large))
]

abbrev AreDigits : Str → Type 0
AreDigits s = All (λ c. (b'0' ≤ c) × (c ≤ b'9')) s

digits-AreDigits : (rounds n : ℕ) → AreDigits (digits rounds n)
unfolding digits
digits-AreDigits zero n = (omega arith, tt)
digits-AreDigits (suc rounds) n = elim (Bool-cases (ltb n 10)) [
  | inl small ↦ rw small (omega arith, tt)
  | inr large ↦
      rw large (
        All-append _ (digits rounds (n / 10)) _ (digits-AreDigits rounds (n / 10))
          (omega arith, tt))
]

parsed_digits :
    (bound n : ℕ) (s : Str)
    → AreDigits s
    → digits_value 0 s ≡ some n
    → s ≢ []
    → n < bound
    → parse_unsigned bound s ≡ some n
unfolding parse_unsigned
parsed_digits bound n [] d e filled h = absurd (filled refl)
parsed_digits bound n (c ∷ s) (d, ds) e filled h =
    let plus : (c == b'+') ≡ false = ground (arith, d) in
    let small : ltb n bound ≡ true = ground arith in rw (plus, e) (rw small refl)

append-filled : (s : Str) (c : ℕ) → s ++ c ∷ [] ≢ []
append-filled [] c e = cc
append-filled (d ∷ s) c e = cc

digits-filled : (rounds n : ℕ) → digits rounds n ≢ []
unfolding digits
digits-filled zero n = λ e. cc
digits-filled (suc rounds) n = elim (Bool-cases (ltb n 10)) [
  | inl small ↦ rw small (λ e. cc)
  | inr large ↦ rw large (append-filled (digits rounds (n / 10)) (digit n))
]

-- Reading what is printed gives the number back.
pub parse_unsigned-to_string :
    (bound n : ℕ) → n < bound → parse_unsigned bound (to_string n) ≡ some n
unfolding to_string
parse_unsigned-to_string bound n h =
    parsed_digits bound n (digits n n) (digits-AreDigits n n)
      (digits_value-digits n n (omega arith)) (digits-filled n n) h

IsFree-digits : (sep : ℕ) (s : Str) → sep < b'0' → AreDigits s → IsFree sep s
IsFree-digits sep [] h d = tt
IsFree-digits sep (c ∷ s) h (d, ds) = ((λ e. omega (arith, e)), IsFree-digits sep s h ds)

pub to_string-IsFree : (sep n : ℕ) → sep < b'0' → IsFree sep (to_string n)
unfolding to_string
to_string-IsFree sep n h = IsFree-digits sep (digits n n) h (digits-AreDigits n n)
