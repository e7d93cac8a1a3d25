-- ===== src/Time/Convert.antt =====
-- The conversions of avs_time.c and avs_x_time_conv.h, at `SCALAR_TYPE` int64_t, and the
-- multiplication of a time by an int32_t. What divides by doubles is not modelled.
pub mod Printed
pub mod Text
pub mod Decimal
pub mod Shown
pub mod Scalar
use avs_commons.Common.{
  ◌>>=◌, ℕ, ◌+◌, ◌-◌, Bool, true, false, ◌&&◌, ◌||◌, not, Option, none, some, List, [], ◌∷◌,
  if◌then◌else◌, get_elem?,
}
use avs_commons.Common.Int.{ℤ, pos, negsuc, ◌+ℤ◌, ◌-ℤ◌, ◌*ℤ◌, ltb_ℤ, leb_ℤ, quot, rem}
use avs_commons.Common.Word.{Status, ok, fail}
use avs_commons.Time.{
  Duration, ns_in_s, invalid, valid, safe_add, safe_mul, normalize, checked, settle,
}

-- A failure of a step is that of the whole.
-- `unit_conv_op_t`: UCO_MUL and UCO_DIV.
pub data ConvOp : Type 0 where
  mul div : ConvOp

-- `unit_conv_t` and `time_conv_t`; a factor is positive.
pub record UnitConv : Type 0 where
  pub op : ConvOp
  pub factor : ℕ

pub record TimeConv : Type 0 where
  pub conv_s : UnitConv
  pub conv_ns : UnitConv

abbrev by_div : ℕ → UnitConv
by_div n = record { op = div; factor = n }

abbrev by_mul : ℕ → UnitConv
by_mul n = record { op = mul; factor = n }

-- The rows of `CONVERSIONS`.
abbrev pub day : TimeConv
day = record { conv_s = by_div 86_400; conv_ns = by_div 86_400_000_000_000 }

abbrev pub hour : TimeConv
hour = record { conv_s = by_div 3_600; conv_ns = by_div 3_600_000_000_000 }

abbrev pub minute : TimeConv
minute = record { conv_s = by_div 60; conv_ns = by_div 60_000_000_000 }

abbrev pub second : TimeConv
second = record { conv_s = by_mul 1; conv_ns = by_div 1_000_000_000 }

abbrev pub millisecond : TimeConv
millisecond = record { conv_s = by_mul 1_000; conv_ns = by_div 1_000_000 }

abbrev pub microsecond : TimeConv
microsecond = record { conv_s = by_mul 1_000_000; conv_ns = by_div 1_000 }

abbrev pub nanosecond : TimeConv
nanosecond = record { conv_s = by_mul 1_000_000_000; conv_ns = by_mul 1 }

-- `CONVERSIONS`, in the order of `avs_time_unit_t`.
abbrev pub conversions : List TimeConv
conversions = day ∷ hour ∷ minute ∷ second ∷ millisecond ∷ microsecond ∷ nanosecond ∷ []

unfoldable pub unit_conv : ℤ → ConvOp → ℕ → Option ℤ
unfolding safe_mul
unit_conv input mul factor = safe_mul input (pos factor)
unit_conv input div factor = some (quot input (pos factor))

unfoldable pub unit_conv_forward : ℤ → UnitConv → Option ℤ
unfolding unit_conv
unit_conv_forward input c = unit_conv input c.op c.factor

abbrev pub opposite : ConvOp → ConvOp
opposite div = mul
opposite mul = div

unfoldable pub unit_conv_backward : ℤ → UnitConv → Option ℤ
unfolding unit_conv
unit_conv_backward input c = unit_conv input (opposite c.op) c.factor

-- Seconds before the epoch are moved towards it, so that they and the nanoseconds have one sign.
unfoldable pub align : ℤ → ℤ → ℤ × ℤ
align s ns = if ltb_ℤ s (pos 0) && ltb_ℤ (pos 0) ns then (s +ℤ pos 1, ns -ℤ ns_in_s) else (s, ns)

unfoldable pub time_conv_forward : ℤ → ℤ → TimeConv → Option ℤ
unfolding align unit_conv_forward safe_add
time_conv_forward s ns c = do
  let aligned = align s ns
  converted_s ← unit_conv_forward aligned.0 c.conv_s
  converted_ns ← unit_conv_forward aligned.1 c.conv_ns
  safe_add converted_s converted_ns

unfoldable pub time_conv_backward : ℤ → TimeConv → Option Duration
unfolding unit_conv_forward unit_conv_backward normalize
time_conv_backward input c = do
  s ← unit_conv_backward input c.conv_s
  seconds_only ← unit_conv_forward s c.conv_s
  ns ← unit_conv_backward (input -ℤ seconds_only) c.conv_ns
  if leb_ℤ ns (pos 0 -ℤ ns_in_s) || leb_ℤ ns_in_s ns
      then none
      else let (status, t) = normalize (record { seconds = s; nanoseconds = ns }) in
        elim status [ ok ↦ some t | fail ↦ none ]

-- The unit is the number that the enumeration gives it; `unit_valid` is that the table has it.
unfoldable pub to_scalar : ℕ → Duration → Option ℤ
unfolding valid time_conv_forward
to_scalar unit t = do
  c ← get_elem? conversions unit
  if not (valid t) then none else time_conv_forward t.seconds t.nanoseconds c

unfoldable pub from_scalar : ℤ → ℕ → Duration
unfolding time_conv_backward
from_scalar value unit = elim (get_elem? conversions unit >>= time_conv_backward value) [
  | none ↦ invalid
  | some t ↦ t
]

-- `avs_time_duration_mul`
unfoldable pub mul_int32 : Duration → ℤ → Duration
unfolding valid safe_mul safe_add checked
mul_int32 input multiplier =
    let nanoseconds = input.nanoseconds *ℤ multiplier in
    if not (valid input) then invalid else elim (safe_mul input.seconds multiplier) [
      | none ↦ invalid
      | some s ↦ checked (safe_add s (quot nanoseconds ns_in_s)) (rem nanoseconds ns_in_s)
    ]

-- The seconds and nanoseconds that `avs_time_duration_as_string_impl__` prints of a valid time, as
-- `%s` and `%09d` around a point.
unfoldable pub printed : Duration → ℤ × ℤ
printed t =
    if ltb_ℤ t.seconds (pos 0) && ltb_ℤ (pos 0) t.nanoseconds
    then (t.seconds +ℤ pos 1, ns_in_s -ℤ t.nanoseconds)
    else (t.seconds, t.nanoseconds)
