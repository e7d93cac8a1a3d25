-- ===== src/Time/Convert/Shown.antt =====
-- That `avs_time_duration_as_string_impl__` of src/utils/avs_time.c prints a decimal number that says the time.
use avs_commons.Common.{ℕ, ◌≡◌, ◌<◌, ◌+◌, ◌-◌, List, ◌∷◌, ◌++◌, length, replicate}
use avs_commons.Common.Int.{ℤ, pos, pos_part, neg_part}
use avs_commons.Time.{Duration}
use avs_commons.Time.Convert.{printed}
use avs_commons.Time.Convert.Text.{uint64_as_string, int64_as_string, zero_padded}

module _ (m : ℕ) (small : m < 1_000_000_000) where
  zeros : List ℕ
  zeros = replicate (9 - length (uint64_as_string m)) b'0'

-- What is printed of a valid time.
record AreFine (p : ℤ × ℤ) : Type 0 where
  fraction_of : ℕ
  is_fraction : p.1 ≡ pos fraction_of
  small : fraction_of < 1_000_000_000
  in_range : pos_part p.0 + neg_part p.0 < 10_000_000_000_000_000_000

printed_text : Duration → List ℕ
printed_text t = int64_as_string (printed t).0 ++ b'.' ∷ zero_padded (printed t).1
