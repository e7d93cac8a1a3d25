-- ===== src/Time/Convert/Decimal.antt =====
-- Decimal texts: what they say, and the digits that src/utils/avs_strings.c writes, read again.
use avs_commons.Common.{
  ℕ, zero, suc, true, false, ◌&&◌, ◌≡◌, refl, ap, ◌∙◌, inl, inr, ◌≤◌, ◌<◌, ◌+◌, ◌-◌, ◌*◌, ◌/◌, ◌%◌,
  ◌^◌, ◌==◌, leb, if◌then◌else◌, List, [], ◌∷◌, ◌++◌, length, replicate, Bool-cases, arith,
}
use avs_commons.Common.Int.{ℤ, pos, negsuc, neg}
use avs_commons.Time.Convert.Text.{digits_loop, uint64_as_string, int64_as_string, zero_padded}

-- The number that the digits in front say, and what follows them.
pub number : ℕ → List ℕ → ℕ × List ℕ
number value [] = (value, [])
number value (c ∷ cs) =
    let more = number (value * 10 + (c - b'0')) cs in
    if leb b'0' c && leb c b'9' then more else (value, c ∷ cs)

-- A fraction of nine digits at most, in units of 10 ^ -9.
pub fraction : List ℕ → ℕ
unfolding number
fraction [] = 0
fraction (point ∷ digits) = (number 0 digits).0 * 10 ^ (9 - length digits)

-- A decimal number without a sign, in units of 10 ^ -9.
pub magnitude : List ℕ → ℕ
unfolding number fraction
magnitude text = let w = number 0 text in w.0 * 1_000_000_000 + fraction w.1

-- A decimal number, in units of 10 ^ -9: the sign counts for all of it.
unfoldable pub decimal : List ℕ → ℤ
unfolding magnitude
decimal [] = pos 0
decimal (c ∷ cs) = if c == b'-' then neg (magnitude cs) else pos (magnitude (c ∷ cs))

-- A digit, read behind others.
number_digit :
    (value d : ℕ) (text : List ℕ)
    → d < 10
    → number value ((d + b'0') ∷ text) ≡ number (value * 10 + d) text
unfolding number
number_digit value d text h = ground (arith, h)

pub number-digits_loop :
    (fuel n : ℕ) (text : List ℕ)
    → n < 10 ^ suc fuel
    → number 0 (digits_loop (suc fuel) n text) ≡ number n text
unfolding digits_loop
number-digits_loop zero n text h =
    let one : (n / 10 == 0) ≡ true = ground (arith, h) in
    rw one (
      number_digit 0 (n % 10) text (omega arith) ∙ ap (λ (k : ℕ). number k text) (omega (arith, h)))
number-digits_loop (suc fuel) n text h = elim (Bool-cases (n / 10 == 0)) [
  | inl e ↦ rw e (
      number_digit 0 (n % 10) text (omega arith)
      ∙ ap (λ (k : ℕ). number k text) (ground (arith, e)))
  | inr e ↦ rw e (
      number-digits_loop fuel (n / 10) ((n % 10 + b'0') ∷ text) (omega (arith, h))
      ∙ number_digit (n / 10) (n % 10) text (omega arith)
      ∙ ap (λ (k : ℕ). number k text) (omega arith))
]

pub digits_loop-append :
    (fuel n : ℕ) (text tail : List ℕ)
    → digits_loop fuel n text ++ tail ≡ digits_loop fuel n (text ++ tail)
unfolding digits_loop
digits_loop-append zero n text tail = refl
digits_loop-append (suc fuel) n text tail = elim (Bool-cases (n / 10 == 0)) [
  | inl e ↦ rw e refl
  | inr e ↦ rw e (digits_loop-append fuel (n / 10) ((n % 10 + b'0') ∷ text) tail)
]

pub length-digits_loop :
    (width fuel n : ℕ) (text : List ℕ)
    → n < 10 ^ suc width
    → length (digits_loop fuel n text) ≤ suc width + length text
unfolding digits_loop
length-digits_loop width zero n text h = omega arith
length-digits_loop zero (suc fuel) n text h =
    let one : (n / 10 == 0) ≡ true = ground (arith, h) in rw one (omega arith)
length-digits_loop (suc width) (suc fuel) n text h = elim (Bool-cases (n / 10 == 0)) [
  | inl e ↦ rw e (omega arith)
  | inr e ↦ rw e (
      omega
        (arith, length-digits_loop width fuel (n / 10) ((n % 10 + b'0') ∷ text) (omega (arith, h))))
]

-- It starts with a digit.
pub first_digit :
    (fuel n : ℕ) (text : List ℕ)
    → (d : ℕ) × (cs : List ℕ) × (digits_loop (suc fuel) n text ≡ (d + b'0') ∷ cs)
unfolding digits_loop
first_digit zero n text = elim (Bool-cases (n / 10 == 0)) [
  | inl e ↦ (n % 10, text, rw e refl)
  | inr e ↦ (n % 10, text, rw e refl)
]
first_digit (suc fuel) n text = elim (Bool-cases (n / 10 == 0)) [
  | inl e ↦ (n % 10, text, rw e refl)
  | inr e ↦ let (d, cs, q) = first_digit fuel (n / 10) ((n % 10 + b'0') ∷ text) in (d, cs, rw e q)
]

-- What follows the digits begins with no digit.
pub number_end : (n : ℕ) (tail : List ℕ) → number n (b'.' ∷ tail) ≡ (n, b'.' ∷ tail)
unfolding number
number_end n tail = refl

pub uint64_as_string_lem : (n : ℕ) → uint64_as_string n ≡ digits_loop 20 n []
unfolding uint64_as_string
uint64_as_string_lem n = refl

pub zero_padded_lem :
    (m : ℕ)
    → zero_padded (pos m) ≡ replicate (9 - length (uint64_as_string m)) b'0' ++ uint64_as_string m
unfolding zero_padded
zero_padded_lem m = refl

pub int64_as_string_pos : (n : ℕ) → int64_as_string (pos n) ≡ uint64_as_string n
unfolding int64_as_string
int64_as_string_pos n = refl

pub int64_as_string_negsuc : (n : ℕ) → int64_as_string (negsuc n) ≡ b'-' ∷ uint64_as_string (suc n)
unfolding int64_as_string
int64_as_string_negsuc n = refl

pub decimal_minus : (cs : List ℕ) → decimal (b'-' ∷ cs) ≡ neg (magnitude cs)
unfolding decimal
decimal_minus cs = refl

pub decimal_digit :
    (d : ℕ) (cs : List ℕ) → decimal ((d + b'0') ∷ cs) ≡ pos (magnitude ((d + b'0') ∷ cs))
unfolding decimal
decimal_digit d cs = let no_minus : (d + b'0' == b'-') ≡ false = ground arith in rw no_minus refl

number_stop : (n : ℕ) → number n [] ≡ (n, [])
unfolding number
number_stop n = refl

pub number-uint64_as_string : (n : ℕ) → n < 10 ^ 20 → number 0 (uint64_as_string n) ≡ (n, [])
number-uint64_as_string n h =
    ap (number 0) (uint64_as_string_lem n) ∙ number-digits_loop 19 n [] h ∙ number_stop n

pub number_zeros : (k : ℕ) (text : List ℕ) → number 0 (replicate k b'0' ++ text) ≡ number 0 text
number_zeros zero text = refl
number_zeros (suc k) text =
    number_digit 0 0 (replicate k b'0' ++ text) (omega arith) ∙ number_zeros k text

pub fraction_lem :
    (digits : List ℕ) → fraction (b'.' ∷ digits) ≡ (number 0 digits).0 * 10 ^ (9 - length digits)
unfolding fraction
fraction_lem digits = refl

pub magnitude_is :
    (text : List ℕ)
    → magnitude text ≡ (number 0 text).0 * 1_000_000_000 + fraction (number 0 text).1
unfolding magnitude
magnitude_is text = refl
