-- ===== src/Base/Decimal.antt =====
-- `strconv.FormatUint` and `strconv.FormatInt` in base ten, and what their digits determine.
use Prim.Native.Nat.{ℕ, zero, suc, ◌+◌, ◌-◌, ◌*◌, ◌/◌, ◌%◌, ◌^◌, ◌≤◌, ◌<◌}
use mathlib.Core.Path.{◌≡◌, ◌∙◌, sym, ap, subst}
use mathlib.Core.List.{[], ◌∷◌, foldl}
use native.Mathlib.Omega.{arith}
use myflowhub_clipboardnode.Base.Tests.{ltb, if◌then◌else◌, if_elim}
use myflowhub_clipboardnode.Base.Lists.{All}
use myflowhub_clipboardnode.Base.Int.{ℤ, pos, negsuc, pos_part, neg_part}
use myflowhub_clipboardnode.Base.Strings.{Text}

abbrev tail : Text → Text
tail [] = []
tail (c ∷ s) = s

abbrev zero_digit : ℕ
zero_digit = 48

abbrev minus_sign : ℕ
minus_sign = 45

-- At most `fuel` digits of n, put in front of `out`.
unfoldable pub digits : ℕ → ℕ → Text → Text
digits zero n out = out
digits (suc fuel) n out =
    let rest = digits fuel (n / 10) ((zero_digit + n % 10) ∷ out) in
    if ltb n 10 then (zero_digit + n) ∷ out else rest

-- A uint64 has at most 20 digits.
unfoldable pub format_uint : ℕ → Text
unfolding digits
format_uint n = digits 20 n []

unfoldable pub format_int : ℤ → Text
unfolding format_uint
format_int (pos n) = format_uint n
format_int (negsuc n) = minus_sign ∷ format_uint (suc n)

-- The number that digits spell behind `n`.
abbrev value : ℕ → Text → ℕ
value = foldl (λ n c. n * 10 + (c - zero_digit))

-- 10 ^ fuel: the numbers that fit into so many digits are those below it.
abbrev room : ℕ → ℕ
room zero = 1
room (suc fuel) = 10 * room fuel

same_value : (m n : ℕ) (out : Text) → m ≡ n → value m out ≡ value n out
same_value m n out e = ap (λ (k : ℕ). value k out) e

value-digits :
    (fuel n : ℕ) (out : Text)
    → n < room (suc fuel)
    → value 0 (digits (suc fuel) n out) ≡ value n out
unfolding digits
value-digits zero n out h = ground (arith, same_value (0 * 10 + (48 + n - 48)) n out (omega arith))
value-digits (suc fuel) n out h =
    let ih = value-digits fuel (n / 10) ((zero_digit + n % 10) ∷ out) (omega arith) in
    ground (
      arith,
      ih,
      same_value (0 * 10 + (48 + n - 48)) n out (omega arith),
      same_value (n / 10 * 10 + (48 + n % 10 - 48)) n out (omega arith),
    )

-- Every number of at most 20 digits is what its decimal text spells: the digits do not run out.
pub value-format_uint : (n : ℕ) → n < 10 ^ 20 → value 0 (format_uint n) ≡ n
unfolding format_uint
value-format_uint n h = value-digits 19 n [] h

pub format_uint_inj : (m n : ℕ) → m < 10 ^ 20 → n < 10 ^ 20 → format_uint m ≡ format_uint n → m ≡ n
format_uint_inj m n hm hn e = sym (value-format_uint m hm) ∙ ap (value 0) e ∙ value-format_uint n hn

abbrev pub IsDigit : ℕ → Type 0
IsDigit c = (zero_digit ≤ c) × (c ≤ 57)

digits-All : (fuel n : ℕ) (out : Text) → All IsDigit out → All IsDigit (digits fuel n out)
unfolding digits
digits-All zero n out h = h
digits-All (suc fuel) n out h =
    if_elim (All IsDigit) (ltb n 10) (λ e. ((omega arith, ground arith), h))
      (λ e. digits-All fuel (n / 10) ((zero_digit + n % 10) ∷ out) ((omega arith, omega arith), h))

pub format_uint-All : (n : ℕ) → All IsDigit (format_uint n)
unfolding format_uint
format_uint-All n = digits-All 20 n [] tt

abbrev pub IsInt64 : ℤ → Type 0
IsInt64 a = (pos_part a < 2 ^ 63) × (neg_part a ≤ 2 ^ 63)

unsigned : (n : ℕ) (s : Text) → ¬ (minus_sign ∷ s ≡ format_uint n)
unsigned n s e = absurd (omega (arith, (subst (All IsDigit) (sym e) (format_uint-All n)).0.0))

-- The sign is no digit, so neither the sign nor the number is lost.
pub format_int_inj : (a b : ℤ) → IsInt64 a → IsInt64 b → format_int a ≡ format_int b → a ≡ b
unfolding format_int
format_int_inj (pos m) (pos n) ha hb e =
    ap pos (format_uint_inj m n (omega (arith, ha.0)) (omega (arith, hb.0)) e)
format_int_inj (pos m) (negsuc n) ha hb e = absurd (unsigned m _ (sym e))
format_int_inj (negsuc m) (pos n) ha hb e = absurd (unsigned n _ e)
format_int_inj (negsuc m) (negsuc n) ha hb e =
    let same =
      format_uint_inj (suc m) (suc n) (omega (arith, ha.1)) (omega (arith, hb.1))
        (ap (λ (s : Text). tail s) e) in
    ap negsuc (omega (arith, same))
