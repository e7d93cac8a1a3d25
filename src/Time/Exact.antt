-- ===== src/Time/Exact.antt =====
-- `avs_time_duration_add` and `avs_time_duration_diff` against integer arithmetic on nanoseconds, and
-- the comparisons against the order of the nanoseconds.
use avs_commons.Common.{◌^◌, ◌≡◌, ◌⊎◌, ◌↔◌, inl, inr, refl, ◌∙◌, true, arith, Bool-cases}
use avs_commons.Common.Int.{ℤ, pos, negsuc, ◌+ℤ◌, ◌-ℤ◌, ◌≤ℤ◌, ◌<ℤ◌, int_laws, parts_of_eq, ltb_ℤ}
use avs_commons.Time.{
  Duration, ns_in_s, int64_min, int64_max, invalid, less, equal, normalize, checked, add, negate,
  diff, fit_int64,
}
use avs_commons.Time.Nanos.{
  nanos, IsTime, nanos_parts, valid_iff, down, underflow, up, overflow, normal, normalize-cases,
  TooSmall, TooLarge, raw, Outcome, exact, too_small, too_large, edge_low, edge_high,
  checked-Outcome, carry_down, carry_up,
}

-- `r` is the time of `n` nanoseconds.
pub record IsExact (n : ℤ) (r : Duration) : Type 0 where
  pub time : IsTime r
  pub same : nanos r ≡ n

-- `r` is the time of `n` nanoseconds, or it is invalid: since no valid time stands for `n`, or since
-- the sum `s` of the seconds misses the range of an int64_t by one, downwards.
abbrev pub IsChecked : ℤ → ℤ → Duration → Type 0
IsChecked n s r =
    IsExact n r ⊎ ((r ≡ invalid) × (TooSmall n ⊎ (TooLarge n ⊎ (s ≡ negsuc (2 ^ 63)))))

Outcome-IsChecked :
    {s ns : ℤ} {r : Duration} (n : ℤ)
    → pos 0 ≤ℤ ns
    → nanos (raw s ns) ≡ n
    → Outcome s ns r
    → IsChecked n s r
Outcome-IsChecked n p e (exact t q) = inl (record { time = t; same = q ∙ e })
Outcome-IsChecked n p e (too_small t q) = inr (q, inl (rw e at t))
Outcome-IsChecked n p e (too_large t q) = inr (q, inr (inl (rw e at t)))
Outcome-IsChecked n p e (edge_low t c q) = inr (q, inr (inr t))
Outcome-IsChecked n p e (edge_high t c q) = absurd (omega arith)

nanos-add :
    (a b : Duration)
    → nanos (raw (a.seconds +ℤ b.seconds) (a.nanoseconds +ℤ b.nanoseconds)) ≡ nanos a +ℤ nanos b
nanos-add a b = omega (
  int_laws,
  nanos_parts a,
  nanos_parts b,
  nanos_parts (raw (a.seconds +ℤ b.seconds) (a.nanoseconds +ℤ b.nanoseconds)),
)

add-eq :
    {a b : Duration}
    → IsTime a
    → IsTime b
    → add a b ≡ checked (fit_int64 (a.seconds +ℤ b.seconds)) (a.nanoseconds +ℤ b.nanoseconds)
unfolding add
add-eq v w = rw (valid_iff v, valid_iff w)

-- `avs_time_duration_add` of two valid times is the time of the sum of their nanoseconds, or it is
-- invalid, and then no time in range stands for that sum, or the seconds add up to one less than an
-- int64_t can hold.
pub add_exact :
    {a b : Duration}
    → IsTime a
    → IsTime b
    → IsChecked (nanos a +ℤ nanos b) (a.seconds +ℤ b.seconds) (add a b)
add_exact {a} {b} v w = rw (add-eq v w) (
    Outcome-IsChecked (nanos a +ℤ nanos b) (omega int_laws) (nanos-add a b) (
      checked-Outcome (a.seconds +ℤ b.seconds) (a.nanoseconds +ℤ b.nanoseconds) (omega int_laws)
        (omega int_laws)))

-- Behind `negate` the nanoseconds are those of the negated time, in range, but for the least time,
-- where `normalize` fails and leaves a full second of nanoseconds.
record Negated (b n : Duration) : Type 0 where
  s_low : int64_min ≤ℤ n.seconds
  s_high : n.seconds ≤ℤ int64_max
  ns_low : pos 0 ≤ℤ n.nanoseconds
  ns_high : n.nanoseconds ≤ℤ ns_in_s
  same : nanos n ≡ pos 0 -ℤ nanos b

normalize-Negated :
    (b t : Duration)
    → int64_min <ℤ t.seconds
    → t.seconds ≤ℤ int64_max
    → negsuc 999_999_999 ≤ℤ t.nanoseconds
    → t.nanoseconds ≤ℤ ns_in_s
    → nanos t ≡ pos 0 -ℤ nanos b
    → Negated b (normalize t).1
normalize-Negated b t l h nl nh e = elim (normalize-cases t) [
  | down p q r ↦ rw r (record {
    s_low = omega int_laws;
    s_high = omega int_laws;
    ns_low = omega int_laws;
    ns_high = omega int_laws;
    same = omega (int_laws, parts_of_eq _ _ e, nanos_parts t, nanos_parts (carry_down t));
  })
  | underflow p q r ↦ absurd (omega arith)
  | up p q r ↦ rw r (record {
    s_low = omega int_laws;
    s_high = omega int_laws;
    ns_low = omega int_laws;
    ns_high = omega int_laws;
    same = omega (int_laws, parts_of_eq _ _ e, nanos_parts t, nanos_parts (carry_up t));
  })
  | overflow p q r ↦
      rw r
        (record { s_low = omega arith; s_high = h; ns_low = omega arith; ns_high = nh; same = e })
  | normal p q r ↦
      rw r (record { s_low = omega arith; s_high = h; ns_low = p; ns_high = nh; same = e })
]

-- The two times that `negate` normalizes, for a time before the epoch and for one after it.
abbrev flip : Duration → Duration
flip t = raw (pos 0 -ℤ t.seconds) (pos 0 -ℤ t.nanoseconds)

abbrev toward_zero : Duration → Duration
toward_zero t = raw (t.seconds +ℤ pos 1) (t.nanoseconds -ℤ ns_in_s)

negate-eq :
    (b : Duration)
    → ((b.seconds <ℤ pos 0) × (negate b ≡ normalize (flip (toward_zero b))))
      ⊎ ((pos 0 ≤ℤ b.seconds) × (negate b ≡ normalize (flip b)))
unfolding negate
negate-eq b = elim (Bool-cases (ltb_ℤ b.seconds (pos 0))) [
  | inl e ↦ inl (ground arith, rw e)
  | inr e ↦ inr (ground arith, rw e)
]

negate-Negated : {b : Duration} → IsTime b → Negated b (negate b).1
negate-Negated {b} v = elim (negate-eq b) [
  | inl (h, e) ↦
      let t = toward_zero b in
      rw e (
        normalize-Negated b (flip t) (omega int_laws) (omega int_laws) (omega int_laws)
          (omega int_laws) (omega (int_laws, nanos_parts b, nanos_parts (flip t))))
  | inr (h, e) ↦ rw e (
      normalize-Negated b (flip b) (omega int_laws) (omega int_laws) (omega int_laws)
        (omega int_laws) (omega (int_laws, nanos_parts b, nanos_parts (flip b))))
]

diff-eq :
    {a b : Duration}
    → IsTime a
    → IsTime b
    → let n = (negate b).1 in
      diff a b ≡ checked (fit_int64 (a.seconds +ℤ n.seconds)) (a.nanoseconds +ℤ n.nanoseconds)
unfolding diff
diff-eq v w = rw (valid_iff v, valid_iff w)

-- `avs_time_duration_diff` of two valid times is the time of the difference of their nanoseconds, also
-- where `negate` fails, or it is invalid, and then no time in range stands for that difference, or the
-- seconds added to those of the negated subtrahend are one less than an int64_t can hold.
pub diff_exact :
    {a b : Duration}
    → IsTime a
    → IsTime b
    → IsChecked (nanos a -ℤ nanos b) (a.seconds +ℤ (negate b).1.seconds) (diff a b)
diff_exact {a} {b} v w =
    let n = (negate b).1 in
    let m = negate-Negated w in
    rw (diff-eq v w) (
      Outcome-IsChecked (nanos a -ℤ nanos b) (omega (int_laws, m.ns_low))
        (nanos-add a n ∙ omega (int_laws, parts_of_eq _ _ m.same))
        (checked-Outcome (a.seconds +ℤ n.seconds) (a.nanoseconds +ℤ n.nanoseconds) (omega int_laws)
          (omega int_laws)))

-- Where the seconds of two valid times add up to one less than an int64_t can hold, and the nanoseconds
-- to a second or more, the sum is invalid, although there is a valid time of as many nanoseconds.
pub add_edge :
    {a b : Duration}
    → IsTime a
    → IsTime b
    → a.seconds +ℤ b.seconds ≡ negsuc (2 ^ 63)
    → ns_in_s ≤ℤ a.nanoseconds +ℤ b.nanoseconds
    → (add a b ≡ invalid)
      × IsExact (nanos a +ℤ nanos b) (raw int64_min (a.nanoseconds +ℤ b.nanoseconds -ℤ ns_in_s))
add_edge {a} {b} v w e c = (
  rw (add-eq v w) rw e (unfold checked in refl),
  record {
    time = omega int_laws;
    same = omega (
      int_laws,
      parts_of_eq _ _ e,
      nanos_parts a,
      nanos_parts b,
      nanos_parts (raw int64_min (a.nanoseconds +ℤ b.nanoseconds -ℤ ns_in_s)),
    );
  },
)

-- `avs_time_duration_less` of valid times holds exactly if the first has fewer nanoseconds.
pub less_iff : {a b : Duration} → IsTime a → IsTime b → (less a b ≡ true) ↔ (nanos a <ℤ nanos b)
unfolding less
less_iff {a} {b} v w = rw (valid_iff v, valid_iff w) (ground (arith, nanos_parts a, nanos_parts b))

-- `avs_time_duration_equal` of valid times holds exactly if they have as many nanoseconds.
pub equal_iff : {a b : Duration} → IsTime a → IsTime b → (equal a b ≡ true) ↔ (nanos a ≡ nanos b)
unfolding equal
equal_iff {a} {b} v w = rw (valid_iff v, valid_iff w) (ground (arith, nanos_parts a, nanos_parts b))
