-- ===== src/Time/Convert/Text.antt =====
-- The text that `avs_time_duration_as_string_impl__` of src/utils/avs_time.c prints, with the decimal numbers
-- of src/utils/avs_strings.c. `none` stands for a failed assertion.
use avs_commons.Common.{
  ℕ, zero, suc, Option, none, some, List, [], ◌∷◌, ◌++◌, ◌+◌, ◌-◌, ◌/◌, ◌%◌, ◌==◌, ltb, length,
  replicate, if◌then◌else◌,
}
use avs_commons.Common.Int.{ℤ, pos, negsuc}
use avs_commons.Common.Strings.{codes}
use avs_commons.Time.{Duration, valid}
use avs_commons.Time.Convert.{printed}

-- The loop of `uint64_as_string_custom`, which writes in front of `text`. A number of 64 bits has no more
-- than 20 digits.
unfoldable pub digits_loop : ℕ → ℕ → List ℕ → List ℕ
digits_loop zero value text = text
digits_loop (suc fuel) value text =
    let c = value % 10 + b'0' in
    let more = digits_loop fuel (value / 10) (c ∷ text) in
    if value / 10 == 0 then c ∷ text else more

unfoldable pub uint64_as_string : ℕ → List ℕ
unfolding digits_loop
uint64_as_string value = digits_loop 20 value []

unfoldable pub int64_as_string : ℤ → List ℕ
unfolding uint64_as_string
int64_as_string (pos n) = uint64_as_string n
int64_as_string (negsuc n) = b'-' ∷ uint64_as_string (suc n)

-- `%09d` of C: zeros up to a width of 9, which counts the sign.
unfoldable pub zero_padded : ℤ → List ℕ
unfolding uint64_as_string
zero_padded (pos n) = let text = uint64_as_string n in replicate (9 - length text) b'0' ++ text
zero_padded (negsuc n) =
    let text = uint64_as_string (suc n) in b'-' ∷ replicate (8 - length text) b'0' ++ text

-- `avs_simple_snprintf` into a block of AVS_TIME_DURATION_AS_STRING_MAX_LENGTH, and the assertion on it.
unfoldable pub into_block : List ℕ → Option (List ℕ)
into_block text = if ltb (length text) 32 then some text else none

unfoldable pub duration_as_string : Duration → Option (List ℕ)
unfolding int64_as_string zero_padded into_block
duration_as_string time =
    if valid time
    then into_block (int64_as_string (printed time).0 ++ b'.' ∷ zero_padded (printed time).1)
    else into_block (codes "TIME_INVALID")
