-- ===== src/Time.antt =====
-- src/utils/avs_time.c and src/utils/avs_x_time_conv.h, and the inline functions of
-- include_public/avsystem/commons/avs_time.h: time as seconds and nanoseconds. An int64_t or int32_t
-- is the integer that it holds; where the code checks for an overflow, the result is an option.
pub mod Nanos
pub mod Exact
pub mod Convert
pub mod Fallback
mod Tests
use avs_commons.Common.{
  ℕ, ◌+◌, ◌-◌, ◌^◌, Bool, true, false, ◌&&◌, ◌||◌, not, Option, none, some, if◌then◌else◌,
}
use avs_commons.Common.Int.{ℤ, pos, negsuc, ◌+ℤ◌, ◌-ℤ◌, ◌*ℤ◌, ltb_ℤ, leb_ℤ, ◌==ℤ◌, quot, rem, ◌≤ℤ◌}
use avs_commons.Common.Word.{Status, ok, fail}

-- `NS_IN_S`
abbrev pub ns_in_s : ℤ
ns_in_s = pos 1_000_000_000

abbrev pub int64_min : ℤ
int64_min = negsuc (2 ^ 63 - 1)

abbrev pub int64_max : ℤ
int64_max = pos (2 ^ 63 - 1)

-- `avs_time_duration_t`
pub record Duration : Type 0 where
  pub seconds : ℤ
  pub nanoseconds : ℤ

abbrev pub invalid : Duration
invalid = record { seconds = pos 0; nanoseconds = negsuc 0 }

abbrev pub zero_time : Duration
zero_time = record { seconds = pos 0; nanoseconds = pos 0 }

unfoldable pub valid : Duration → Bool
valid t = leb_ℤ (pos 0) t.nanoseconds && ltb_ℤ t.nanoseconds ns_in_s

unfoldable pub less : Duration → Duration → Bool
unfolding valid
less a b =
    if not (valid a) || not (valid b)
    then false
    else ltb_ℤ a.seconds b.seconds || a.seconds ==ℤ b.seconds && ltb_ℤ a.nanoseconds b.nanoseconds

unfoldable pub equal : Duration → Duration → Bool
unfolding valid
equal a b =
    if not (valid a) || not (valid b)
    then false
    else a.seconds ==ℤ b.seconds && a.nanoseconds ==ℤ b.nanoseconds

-- The sum or the product, if an int64_t can hold it: what the compilers' overflow builtins store and
-- return.
abbrev pub fit_int64 : ℤ → Option ℤ
fit_int64 a = if leb_ℤ int64_min a && leb_ℤ a int64_max then some a else none

unfoldable pub safe_add : ℤ → ℤ → Option ℤ
safe_add a b = fit_int64 (a +ℤ b)

unfoldable pub safe_mul : ℤ → ℤ → Option ℤ
safe_mul a b = fit_int64 (a *ℤ b)

-- A failure leaves the time as it was. The assertions on the nanoseconds that the callers pass are left out.
unfoldable pub normalize : Duration → Status × Duration
normalize t =
    if ltb_ℤ t.nanoseconds (pos 0)
    then if t.seconds ==ℤ int64_min
      then (fail, t)
      else (ok, record { seconds = t.seconds -ℤ pos 1; nanoseconds = t.nanoseconds +ℤ ns_in_s })
    else if leb_ℤ ns_in_s t.nanoseconds
    then if t.seconds ==ℤ int64_max
      then (fail, t)
      else (ok, record { seconds = t.seconds +ℤ pos 1; nanoseconds = t.nanoseconds -ℤ ns_in_s })
    else (ok, t)

-- `if (normalize(&result)) { return AVS_TIME_DURATION_INVALID; } return result;`
abbrev pub settle : Status × Duration → Duration
settle (ok, t) = t
settle (fail, t) = invalid

-- `if (safe_add_int64_t(&result.seconds, …) || normalize(&result)) …`
unfoldable pub checked : Option ℤ → ℤ → Duration
unfolding normalize
checked none ns = invalid
checked (some s) ns = settle (normalize (record { seconds = s; nanoseconds = ns }))

unfoldable pub add : Duration → Duration → Duration
unfolding valid safe_add checked
add a b =
    if not (valid a) || not (valid b)
    then invalid
    else checked (safe_add a.seconds b.seconds) (a.nanoseconds +ℤ b.nanoseconds)

-- Its status is ignored by the one caller.
unfoldable pub negate : Duration → Status × Duration
unfolding normalize
negate t =
    let t' =
      if ltb_ℤ t.seconds (pos 0)
      then record { seconds = t.seconds +ℤ pos 1; nanoseconds = t.nanoseconds -ℤ ns_in_s }
      else t in
    normalize (record { seconds = pos 0 -ℤ t'.seconds; nanoseconds = pos 0 -ℤ t'.nanoseconds })

unfoldable pub diff : Duration → Duration → Duration
unfolding valid safe_add checked negate
diff a b =
    let n = (negate b).1 in
    if not (valid a) || not (valid b)
    then invalid
    else checked (safe_add a.seconds n.seconds) (a.nanoseconds +ℤ n.nanoseconds)
