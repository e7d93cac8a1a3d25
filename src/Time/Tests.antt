-- ===== src/Time/Tests.antt =====
-- Runs of avs_time.c, some of them from tests/utils/time.c, and the theorems at concrete inputs.
use avs_commons.Common.{◌-◌, ◌^◌, ◌≡◌, refl, some, arith}
use avs_commons.Common.Int.{pos, negsuc, ◌+ℤ◌, ◌-ℤ◌, ◌*ℤ◌, quot, rem}
use avs_commons.Time.{
  Duration, ns_in_s, int64_min, int64_max, invalid, valid, add, diff, safe_mul, fit_int64,
}
use avs_commons.Time.Nanos.{nanos, IsTime, raw}
use avs_commons.Time.Exact.{IsChecked, IsExact, add_exact, add_edge}
use avs_commons.Time.Fallback.{safe_mul_portable, safe_mul_portable-eq-safe_mul}
use avs_commons.Time.Convert.{to_scalar, from_scalar, mul_int32, printed}
use avs_commons.Time.Convert.Scalar.{to_scalar_exact}
use avs_commons.Time.Convert.Printed.{printed_loses_sign}
use avs_commons.Time.Convert.Decimal.{decimal}
use avs_commons.Time.Convert.Text.{duration_as_string}
use avs_commons.Common.Strings.{codes}

-- -0.3 s and 1.5 s
abbrev early : Duration
early = raw (negsuc 0) (pos 700_000_000)

abbrev late : Duration
late = raw (pos 1) (pos 500_000_000)

abbrev least : Duration
least = raw int64_min (pos 0)

add_carries : add early late ≡ raw (pos 1) (pos 200_000_000)
unfolding add ◌+ℤ◌ ◌-ℤ◌
add_carries = refl

diff-least : diff early least ≡ raw int64_max (pos 700_000_000)
unfolding diff ◌+ℤ◌ ◌-ℤ◌
diff-least = refl

mul_test : mul_int32 late (negsuc 2) ≡ raw (negsuc 4) (pos 500_000_000)
unfolding mul_int32 ◌+ℤ◌ ◌-ℤ◌ ◌*ℤ◌ quot rem
mul_test = refl

scalar_test : (to_scalar 4 early ≡ some (negsuc 299)) × (to_scalar 0 late ≡ some (pos 0))
unfolding to_scalar ◌+ℤ◌ ◌-ℤ◌ ◌*ℤ◌ quot
scalar_test = (refl, refl)

from_scalar_test :
    (from_scalar (negsuc 299) 4 ≡ early) × (from_scalar (pos (2 ^ 63 - 1)) 0 ≡ invalid)
unfolding from_scalar ◌+ℤ◌ ◌-ℤ◌ ◌*ℤ◌ quot
from_scalar_test = (refl, refl)

printed_test : printed (raw (negsuc 122) (pos 456)) ≡ (negsuc 121, pos 999_999_544)
unfolding printed ◌+ℤ◌ ◌-ℤ◌
printed_test = refl

add_exact_example : IsChecked (nanos early +ℤ nanos late) (negsuc 0 +ℤ pos 1) (add early late)
add_exact_example = add_exact {a = early} {b = late} (omega arith) (omega arith)

-- Half a second more than the least time of whole seconds, twice.
add_edge_example :
    let a : Duration = raw (negsuc (2 ^ 63 - 1)) (pos 500_000_000) in
    let b : Duration = raw (negsuc 0) (pos 500_000_000) in
    (add a b ≡ invalid)
    × IsExact (nanos a +ℤ nanos b) (raw int64_min (pos 500_000_000 +ℤ pos 500_000_000 -ℤ ns_in_s))
unfolding ◌+ℤ◌
add_edge_example =
    add_edge {a = raw (negsuc (2 ^ 63 - 1)) (pos 500_000_000)}
      {b = raw (negsuc 0) (pos 500_000_000)} (omega arith) (omega arith) refl (omega arith)

safe_mul_portable-eq-safe_mul_example :
    safe_mul_portable int64_min (negsuc 0) ≡ safe_mul int64_min (negsuc 0)
safe_mul_portable-eq-safe_mul_example =
    safe_mul_portable-eq-safe_mul int64_min (negsuc 0) (omega arith) (omega arith)

to_scalar_exact_example : to_scalar 4 early ≡ fit_int64 (quot (nanos early) (pos 1_000_000))
to_scalar_exact_example = to_scalar_exact 4 1_000_000 {t = early} refl (omega arith)

-- Two minutes and a little more before zero.
abbrev before_zero : Duration
before_zero = raw (negsuc 122) (pos 456)

duration_as_string_lem : duration_as_string before_zero ≡ some (codes "-122.999999544")
unfolding duration_as_string printed valid ◌+ℤ◌ ◌-ℤ◌
duration_as_string_lem = refl

duration_as_string-invalid : duration_as_string invalid ≡ some (codes "TIME_INVALID")
unfolding duration_as_string valid
duration_as_string-invalid = refl

decimal_lem : decimal (codes "12.05") ≡ pos 12_050_000_000
unfolding decimal
decimal_lem = refl

printed_loses_sign_example :
    let t = raw (negsuc 0) (pos 500_000_000) in
    let u = raw (pos 0) (pos 500_000_000) in
    IsTime t × IsTime u × (nanos t ≡ pos 0 -ℤ nanos u) × (printed t ≡ printed u)
printed_loses_sign_example = printed_loses_sign 500_000_000 (omega arith) (omega arith)
