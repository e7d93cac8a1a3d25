-- ===== src/Time/Nanos.antt =====
-- The nanoseconds that a time stands for, and what `normalize` behind a checked addition of seconds
-- makes of them.
use avs_commons.Common.{
  Bool-cases, ◌^◌, ◌+◌, ◌-◌, ◌*◌, ◌≡◌, ◌≢◌, inl, inr, refl, true, some, none, arith,
}
use avs_commons.Common.Int.{
  ℤ, pos, negsuc, pos_part, neg_part, le_or_lt, ◌+ℤ◌, ◌-ℤ◌, ◌*ℤ◌, ◌≤ℤ◌, ◌<ℤ◌, ltb_ℤ, leb_ℤ, ◌==ℤ◌,
  +ℤ_parts, *ℤ_parts, int_laws,
}
use avs_commons.Common.Word.{Status, ok, fail}
use avs_commons.Time.{
  Duration, settle, ns_in_s, int64_min, int64_max, valid, invalid, normalize, checked, fit_int64,
}

-- The number of nanoseconds that a duration stands for.
pub nanos : Duration → ℤ
nanos t = t.seconds *ℤ ns_in_s +ℤ t.nanoseconds

-- A valid time, as the fields of `avs_time_duration_t` can hold it.
pub record IsTime (t : Duration) : Type 0 where
  pub s_low : int64_min ≤ℤ t.seconds
  pub s_high : t.seconds ≤ℤ int64_max
  pub ns_low : pos 0 ≤ℤ t.nanoseconds
  pub ns_high : t.nanoseconds <ℤ ns_in_s

pub nanos_parts :
    (t : Duration)
    → pos_part (nanos t) + neg_part t.seconds * 1_000_000_000 + neg_part t.nanoseconds
      ≡ neg_part (nanos t) + pos_part t.seconds * 1_000_000_000 + pos_part t.nanoseconds
unfolding nanos
nanos_parts t =
    omega (arith, +ℤ_parts (t.seconds *ℤ ns_in_s) t.nanoseconds, *ℤ_parts t.seconds 1_000_000_000)

pub valid_iff : {t : Duration} → IsTime t → valid t ≡ true
unfolding valid
valid_iff v = ground arith

-- What a carry of one second does to a duration.
abbrev pub carry_down : Duration → Duration
carry_down t = record { seconds = t.seconds -ℤ pos 1; nanoseconds = t.nanoseconds +ℤ ns_in_s }

abbrev pub carry_up : Duration → Duration
carry_up t = record { seconds = t.seconds +ℤ pos 1; nanoseconds = t.nanoseconds -ℤ ns_in_s }

-- Equality of integers by their parts, for arithmetic.
abbrev pub Agree : ℤ → ℤ → Type 0
Agree a b = pos_part a + neg_part b ≡ pos_part b + neg_part a

abbrev pub Differ : ℤ → ℤ → Type 0
Differ a b = pos_part a + neg_part b ≢ pos_part b + neg_part a

-- The five ways through `normalize`.
pub data Normalized (t : Duration) (n : Status × Duration) : Type 0 where
  down :
      t.nanoseconds <ℤ pos 0 → Differ t.seconds int64_min → n ≡ (ok, carry_down t) → Normalized t n
  underflow : t.nanoseconds <ℤ pos 0 → Agree t.seconds int64_min → n ≡ (fail, t) → Normalized t n
  up : ns_in_s ≤ℤ t.nanoseconds → Differ t.seconds int64_max → n ≡ (ok, carry_up t) → Normalized t n
  overflow : ns_in_s ≤ℤ t.nanoseconds → Agree t.seconds int64_max → n ≡ (fail, t) → Normalized t n
  normal : pos 0 ≤ℤ t.nanoseconds → t.nanoseconds <ℤ ns_in_s → n ≡ (ok, t) → Normalized t n

pub normalize-cases : (t : Duration) → Normalized t (normalize t)
unfolding normalize
normalize-cases t = elim (Bool-cases (ltb_ℤ t.nanoseconds (pos 0))) [
  | inl p ↦ elim (Bool-cases (t.seconds ==ℤ int64_min)) [
    | inl q ↦ rw (p, q) (underflow (ground arith) (ground arith) refl)
    | inr q ↦ rw (p, q) (down (ground arith) (ground arith) refl)
  ]
  | inr p ↦ elim (Bool-cases (leb_ℤ ns_in_s t.nanoseconds)) [
    | inl r ↦ elim (Bool-cases (t.seconds ==ℤ int64_max)) [
      | inl q ↦ rw (p, r, q) (overflow (ground arith) (ground arith) refl)
      | inr q ↦ rw (p, r, q) (up (ground arith) (ground arith) refl)
    ]
    | inr r ↦ rw (p, r) (normal (ground arith) (ground arith) refl)
  ]
]

-- The numbers of nanoseconds that no valid time stands for.
abbrev pub TooSmall : ℤ → Type 0
TooSmall n = n <ℤ negsuc (2 ^ 63 * 10 ^ 9 - 1)

abbrev pub TooLarge : ℤ → Type 0
TooLarge n = pos (2 ^ 63 * 10 ^ 9) ≤ℤ n

-- The duration before `normalize`, whose seconds may not fit an int64_t.
abbrev pub raw : ℤ → ℤ → Duration
raw s ns = record { seconds = s; nanoseconds = ns }

-- What the checked addition of seconds and `normalize` make of `s` seconds and `ns` nanoseconds: the
-- time of that many nanoseconds, or the invalid time. At the two edges there is such a time, but the
-- seconds do not fit before the carry.
pub data Outcome (s ns : ℤ) (r : Duration) : Type 0 where
  exact : IsTime r → nanos r ≡ nanos (raw s ns) → Outcome s ns r
  too_small : TooSmall (nanos (raw s ns)) → r ≡ invalid → Outcome s ns r
  too_large : TooLarge (nanos (raw s ns)) → r ≡ invalid → Outcome s ns r
  edge_low : s ≡ negsuc (2 ^ 63) → ns_in_s ≤ℤ ns → r ≡ invalid → Outcome s ns r
  edge_high : s ≡ pos (2 ^ 63) → ns <ℤ pos 0 → r ≡ invalid → Outcome s ns r

pub fits : (a : ℤ) → int64_min ≤ℤ a → a ≤ℤ int64_max → fit_int64 a ≡ some a
fits a l h = ground arith

pub overflows : (a : ℤ) → int64_max <ℤ a → fit_int64 a ≡ none
overflows a h = ground arith

pub underflows : (a : ℤ) → a <ℤ int64_min → fit_int64 a ≡ none
underflows a h = ground arith

module _ (s ns : ℤ) (low : negsuc 999_999_999 ≤ℤ ns) (high : ns <ℤ pos 2_000_000_000) where
  Outcome-below : s <ℤ int64_min → Outcome s ns invalid
  Outcome-below h = elim (le_or_lt (negsuc (2 ^ 63)) s) [
    | inl e ↦ elim (le_or_lt ns_in_s ns) [
      | inl c ↦ edge_low (omega int_laws) c refl
      | inr c ↦ too_small (omega (arith, nanos_parts (raw s ns))) refl
    ]
    | inr e ↦ too_small (omega (arith, nanos_parts (raw s ns))) refl
  ]

  Outcome-above : int64_max <ℤ s → Outcome s ns invalid
  Outcome-above h = elim (le_or_lt s (pos (2 ^ 63))) [
    | inl e ↦ elim (le_or_lt (pos 0) ns) [
      | inl c ↦ too_large (omega (arith, nanos_parts (raw s ns))) refl
      | inr c ↦ edge_high (omega int_laws) c refl
    ]
    | inr e ↦ too_large (omega (arith, nanos_parts (raw s ns))) refl
  ]

  Outcome-inside : int64_min ≤ℤ s → s ≤ℤ int64_max → Outcome s ns (settle (normalize (raw s ns)))
  Outcome-inside l h = elim (normalize-cases (raw s ns)) [
    | down p q e ↦ rw e (
        exact (omega int_laws)
          (omega (int_laws, nanos_parts (raw s ns), nanos_parts (carry_down (raw s ns)))))
    | underflow p q e ↦ rw e (too_small (omega (arith, nanos_parts (raw s ns))) refl)
    | up p q e ↦ rw e (
        exact (omega int_laws)
          (omega (int_laws, nanos_parts (raw s ns), nanos_parts (carry_up (raw s ns)))))
    | overflow p q e ↦ rw e (too_large (omega (arith, nanos_parts (raw s ns))) refl)
    | normal p q e ↦ rw e (exact (omega arith) refl)
  ]

  pub checked-Outcome : Outcome s ns (checked (fit_int64 s) ns)
  unfolding checked
  checked-Outcome = elim (le_or_lt int64_min s) [
    | inl l ↦ elim (le_or_lt s int64_max) [
      | inl h ↦ rw (fits s l h) (Outcome-inside l h)
      | inr h ↦ rw (overflows s h) (Outcome-above h)
    ]
    | inr l ↦ rw (underflows s l) (Outcome-below l)
  ]
