-- ===== src/Text/Decimal.antt =====
-- Go's `strconv`: `Itoa`, `Atoi` and `ParseUint(s, 10, 32)`.
use mathlib.Core.List.{concat-ne-nil}
use sql_ai_tools.Prelude.{
  ℕ, zero, suc, ◌+◌, ◌-◌, ◌*◌, ◌/◌, ◌%◌, ◌^◌, ◌<◌, ◌≡◌, refl, Bool, ◌&&◌, [], ◌∷◌, ◌++◌, Option,
  none, some, ◌>>=◌, Bytes, arith, All, All-append, Bool-cases, inl, inr, true, ltb→lt, lt→ltb, ◌≢◌,
  ltb, leb, ◌==◌, if◌then◌else◌,
}
use sql_ai_tools.Prelude.Int.{ℤ, pos, negsuc}

unfoldable pub is_digit : ℕ → Bool
is_digit c = leb b'0' c && leb c b'9'

-- The number that decimal digits spell behind `n`.
unfoldable pub digits_value : ℕ → Bytes → Option ℕ
unfolding is_digit
digits_value n [] = some n
digits_value n (c ∷ s) =
    let rest = digits_value (n * 10 + (c - b'0')) s in if is_digit c then rest else none

-- One digit at least.
unfoldable pub parse_nat : Bytes → Option ℕ
unfolding digits_value
parse_nat [] = none
parse_nat (c ∷ s) = digits_value 0 (c ∷ s)

abbrev pub int_limit : ℕ
int_limit = 2 ^ 63

-- The number is refused where it does not fit 64 bits.
fit_pos : ℕ → Option ℤ
fit_pos n = if ltb n int_limit then some (pos n) else none

fit_neg : ℕ → Option ℤ
fit_neg zero = some (pos 0)
fit_neg (suc n) = if ltb n int_limit then some (negsuc n) else none

-- `strconv.Atoi`: an optional sign, then digits.
unfoldable pub atoi : Bytes → Option ℤ
unfolding parse_nat fit_pos fit_neg
atoi [] = none
atoi (c ∷ s) =
    if c == b'-'
    then parse_nat s >>= fit_neg
    else if c == b'+'
    then parse_nat s >>= fit_pos
    else parse_nat (c ∷ s) >>= fit_pos

-- `strconv.ParseUint(s, 10, 32)`.
unfoldable pub parse_uint32 : Bytes → Option ℕ
unfolding parse_nat
parse_uint32 s = parse_nat s >>= λ n. if ltb n (2 ^ 32) then some n else none

-- The digits of a number; the fuel `suc n` is enough for `n`.
unfoldable pub format_fuel : ℕ → ℕ → Bytes
format_fuel zero n = []
format_fuel (suc f) n =
    let front = format_fuel f (n / 10) in
    if ltb n 10 then (b'0' + n) ∷ [] else front ++ (b'0' + n % 10) ∷ []

unfoldable pub format_nat : ℕ → Bytes
unfolding format_fuel
format_nat n = format_fuel (suc n) n

-- `strconv.Itoa`.
unfoldable pub itoa : ℤ → Bytes
unfolding format_nat
itoa (pos n) = format_nat n
itoa (negsuc n) = b'-' ∷ format_nat (suc n)

digits_value-append :
    (s t : Bytes) (n : ℕ) → digits_value n (s ++ t) ≡ (digits_value n s >>= λ m. digits_value m t)
unfolding digits_value
digits_value-append [] t n = refl
digits_value-append (c ∷ s) t n = ground (arith, digits_value-append s t (n * 10 + (c - b'0')))

digits_value-format_fuel : (f n : ℕ) → n < f → digits_value 0 (format_fuel f n) ≡ some n
unfolding format_fuel digits_value
digits_value-format_fuel zero n h = absurd (omega arith)
digits_value-format_fuel (suc f) n h = ground (
  arith,
  digits_value-append (format_fuel f (n / 10)) ((b'0' + n % 10) ∷ []) 0,
  digits_value-format_fuel f (n / 10),
)

-- A number is read back from its digits.
pub digits_value-format_nat : (n : ℕ) → digits_value 0 (format_nat n) ≡ some n
unfolding format_nat
digits_value-format_nat n = digits_value-format_fuel (suc n) n (omega arith)

abbrev pub AllDigits : Bytes → Type 0
AllDigits = All (λ c. is_digit c ≡ true)

digit-is_digit : (n : ℕ) → n < 10 → is_digit (b'0' + n) ≡ true
unfolding is_digit
digit-is_digit n h = ground arith

format_fuel-AllDigits : (f n : ℕ) → AllDigits (format_fuel f n)
unfolding format_fuel
format_fuel-AllDigits zero n = tt
format_fuel-AllDigits (suc f) n = elim (Bool-cases (ltb n 10)) [
  | inl e ↦ rw e (digit-is_digit n (ltb→lt n 10 e), tt)
  | inr e ↦ rw e (
      All-append (λ c. is_digit c ≡ true) (format_fuel f (n / 10)) _
        (format_fuel-AllDigits f (n / 10)) (digit-is_digit (n % 10) (omega arith), tt))
]

-- A printed number is digits only.
pub format_nat-AllDigits : (n : ℕ) → AllDigits (format_nat n)
unfolding format_nat
format_nat-AllDigits n = format_fuel-AllDigits (suc n) n

pub format_nat-ne-nil : (n : ℕ) → format_nat n ≢ []
unfolding format_nat format_fuel
format_nat-ne-nil n = elim (Bool-cases (ltb n 10)) [
  | inl e ↦ rw e (cc)
  | inr e ↦ rw e (concat-ne-nil _ (format_fuel n (n / 10)))
]

-- A number below ten is one digit.
pub format_nat-digit : (n : ℕ) → n < 10 → format_nat n ≡ (b'0' + n) ∷ []
unfolding format_nat format_fuel
format_nat-digit n h = rw (lt→ltb n 10 h)

pub atoi-digits :
    (s : Bytes) (n : ℕ) → s ≢ [] → digits_value 0 s ≡ some n → n < int_limit → atoi s ≡ some (pos n)
unfolding atoi digits_value is_digit
atoi-digits [] n ne h lt = absurd (ne refl)
atoi-digits (c ∷ s) n ne h lt = ground arith

-- `Atoi` undoes `Itoa` on every number from 0 on that fits 64 bits.
pub atoi-itoa : (n : ℕ) → n < int_limit → atoi (itoa (pos n)) ≡ some (pos n)
unfolding itoa
atoi-itoa n h = atoi-digits (format_nat n) n (format_nat-ne-nil n) (digits_value-format_nat n) h
