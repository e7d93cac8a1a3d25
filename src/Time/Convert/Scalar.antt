-- ===== src/Time/Convert/Scalar.antt =====
-- `avs_time_duration_to_scalar` and `avs_time_duration_from_scalar` against division and
-- multiplication of the nanoseconds by those of the unit.
use avs_commons.Common.{
  ◌>>=◌, ℕ, zero, suc, ◌+◌, ◌*◌, ◌/◌, ◌<◌, ◌≡◌, ◌⊎◌, inl, inr, refl, ap, ◌∙◌, some, List, [], ◌∷◌,
  get_elem?, arith, Bool-cases, ◌&&◌,
}
use mathlib.Core.Path.{subst}
use native.Mathlib.Nat.{div-le_self}
use avs_commons.Common.Int.{
  ℤ, pos, pos_part, neg_part, ◌+ℤ◌, ◌-ℤ◌, ◌*ℤ◌, ◌≤ℤ◌, ◌<ℤ◌, ltb_ℤ, quot, int_laws, eq_of_parts,
  quot_parts, *ℤ_parts, +ℤ_parts, one_part,
}
use avs_commons.Time.{Duration, ns_in_s, int64_min, int64_max, fit_int64, safe_add, safe_mul}
use avs_commons.Time.Nanos.{nanos, IsTime, nanos_parts, valid_iff, raw}
use avs_commons.Time.Convert.{
  mul, div, UnitConv, TimeConv, conversions, day, hour, minute, second, millisecond, microsecond,
  nanosecond, unit_conv_forward, align, to_scalar,
}

-- The nanoseconds of a unit, in the order of `avs_time_unit_t`.
abbrev pub unit_nanos : List ℕ
unit_nanos =
    86_400_000_000_000 ∷ 3_600_000_000_000 ∷ 60_000_000_000 ∷ 1_000_000_000 ∷ 1_000_000 ∷ 1_000 ∷ 1
    ∷ []

-- What a unit conversion does to an absolute value.
abbrev scale : UnitConv → ℕ → ℕ
scale c n = elim c.op [ mul ↦ n * c.factor | div ↦ n / c.factor ]

-- The same on integers, with no bounds.
abbrev scale_ℤ : UnitConv → ℤ → ℤ
scale_ℤ c a = elim c.op [ mul ↦ a *ℤ pos c.factor | div ↦ quot a (pos c.factor) ]

scale_ℤ_parts :
    (c : UnitConv) (a : ℤ)
    → (pos_part (scale_ℤ c a) ≡ scale c (pos_part a))
      × (neg_part (scale_ℤ c a) ≡ scale c (neg_part a))
scale_ℤ_parts c a = ground (arith, *ℤ_parts a c.factor, quot_parts a c.factor)

unit_conv-eq :
    (c : UnitConv) (a : ℤ)
    → int64_min ≤ℤ a
    → a ≤ℤ int64_max
    → unit_conv_forward a c ≡ fit_int64 (scale_ℤ c a)
unfolding unit_conv_forward safe_mul
unit_conv-eq c a l h = ground (
  arith,
  quot_parts a c.factor,
  div-le_self (pos_part a) c.factor,
  div-le_self (neg_part a) c.factor,
)

-- Seconds and nanoseconds of one sign, less than a second of these.
record IsAligned (s ns : ℤ) : Type 0 where
  s_low : int64_min ≤ℤ s
  s_high : s ≤ℤ int64_max
  one_sign : ((neg_part s ≡ 0) × (neg_part ns ≡ 0)) ⊎ ((pos_part s ≡ 0) × (pos_part ns ≡ 0))
  below : pos_part ns + neg_part ns < 1_000_000_000

moved-IsAligned :
    {t : Duration}
    → IsTime t
    → t.seconds <ℤ pos 0
    → pos 0 <ℤ t.nanoseconds
    → IsAligned (t.seconds +ℤ pos 1) (t.nanoseconds -ℤ ns_in_s)
moved-IsAligned {t} v p q =
    omega (int_laws, one_part (t.seconds +ℤ pos 1), one_part (t.nanoseconds -ℤ ns_in_s))

stayed-IsAligned :
    {t : Duration}
    → IsTime t
    → (pos 0 ≤ℤ t.seconds) ⊎ (t.nanoseconds ≤ℤ pos 0)
    → IsAligned t.seconds t.nanoseconds
stayed-IsAligned {t} v p = omega (arith, one_part t.seconds, one_part t.nanoseconds)

align-IsAligned :
    {t : Duration} → IsTime t → let (s, ns) = align t.seconds t.nanoseconds in IsAligned s ns
unfolding align
align-IsAligned {t} v = elim (Bool-cases (ltb_ℤ t.seconds (pos 0) && ltb_ℤ (pos 0) t.nanoseconds)) [
  | inl e ↦ rw e (moved-IsAligned v (ground arith) (ground arith))
  | inr e ↦ rw e (stayed-IsAligned v (ground arith))
]

nanos-align :
    (t : Duration)
    → nanos (raw (align t.seconds t.nanoseconds).0 (align t.seconds t.nanoseconds).1) ≡ nanos t
unfolding align
nanos-align t = elim (Bool-cases (ltb_ℤ t.seconds (pos 0) && ltb_ℤ (pos 0) t.nanoseconds)) [
  | inl e ↦ rw e (
      omega (
        int_laws,
        nanos_parts t,
        nanos_parts (raw (t.seconds +ℤ pos 1) (t.nanoseconds -ℤ ns_in_s)),
      ))
  | inr e ↦ rw e
]

-- Two numbers of one sign: if their sum fits, each of them does.
fit_sum :
    (x y : ℤ)
    → ((neg_part x ≡ 0) × (neg_part y ≡ 0)) ⊎ ((pos_part x ≡ 0) × (pos_part y ≡ 0))
    → (fit_int64 x >>= λ a. fit_int64 y >>= λ b. fit_int64 (a +ℤ b)) ≡ fit_int64 (x +ℤ y)
fit_sum x y h = ground (arith, +ℤ_parts x y)

scale-zero : (c : UnitConv) → scale c 0 ≡ 0
scale-zero c = ground arith

convert-eq :
    (c : TimeConv) {s ns : ℤ}
    → IsAligned s ns
    → (unit_conv_forward s c.conv_s >>= λ x. unit_conv_forward ns c.conv_ns >>= λ y. safe_add x y)
      ≡ fit_int64 (scale_ℤ c.conv_s s +ℤ scale_ℤ c.conv_ns ns)
unfolding safe_add
convert-eq c {s} {ns} a =
    rw
      (
        unit_conv-eq c.conv_s s a.s_low a.s_high,
        unit_conv-eq c.conv_ns ns (omega arith) (omega arith),
      )
      (fit_sum (scale_ℤ c.conv_s s) (scale_ℤ c.conv_ns ns) (
        ground (
          arith,
          scale_ℤ_parts c.conv_s s,
          scale_ℤ_parts c.conv_ns ns,
          scale-zero c.conv_s,
          scale-zero c.conv_ns,
        )))

-- On absolute values the two conversions of a unit of `k` nanoseconds add up to one division.
abbrev Converts : TimeConv → ℕ → Type 0
Converts c k =
    (s ns : ℕ)
    → ns < 1_000_000_000
    → scale c.conv_s s + scale c.conv_ns ns ≡ (s * 1_000_000_000 + ns) / k

nanos_one_sign :
    {s ns : ℤ}
    → IsAligned s ns
    → (pos_part (nanos (raw s ns)) ≡ pos_part s * 1_000_000_000 + pos_part ns)
      × (neg_part (nanos (raw s ns)) ≡ neg_part s * 1_000_000_000 + neg_part ns)
nanos_one_sign {s} {ns} a = omega (arith, nanos_parts (raw s ns), one_part (nanos (raw s ns)))

scale_ℤ-add :
    (c : TimeConv) (k : ℕ) {s ns : ℤ}
    → Converts c k
    → IsAligned s ns
    → scale_ℤ c.conv_s s +ℤ scale_ℤ c.conv_ns ns ≡ quot (nanos (raw s ns)) (pos k)
scale_ℤ-add c k {s} {ns} e a = eq_of_parts _ _ (
    ground (
      arith,
      nanos_one_sign a,
      e (pos_part s) (pos_part ns),
      e (neg_part s) (neg_part ns),
      +ℤ_parts (scale_ℤ c.conv_s s) (scale_ℤ c.conv_ns ns),
      scale_ℤ_parts c.conv_s s,
      scale_ℤ_parts c.conv_ns ns,
      quot_parts (nanos (raw s ns)) k,
    ))

to_scalar-eq :
    (unit : ℕ) (c : TimeConv) (k : ℕ) {t : Duration}
    → get_elem? conversions unit ≡ some c
    → Converts c k
    → IsTime t
    → to_scalar unit t ≡ fit_int64 (quot (nanos t) (pos k))
unfolding to_scalar
to_scalar-eq unit c k {t} g e v =
    rw (g, valid_iff v)
      (convert-eq c a
        ∙ ap fit_int64 (scale_ℤ-add c k e a ∙ ap (λ n. quot n (pos k)) (nanos-align t)))
  where
    a : IsAligned (align t.seconds t.nanoseconds).0 (align t.seconds t.nanoseconds).1
    a = align-IsAligned v

to_unit : (c : TimeConv) {j k : ℕ} → some j ≡ some k → Converts c j → Converts c k
to_unit c e = subst (Converts c) (cc)

-- Each row of the table converts to the unit of its index.
pub conversion :
    (unit k : ℕ)
    → get_elem? unit_nanos unit ≡ some k
    → (c : TimeConv) × (get_elem? conversions unit ≡ some c) × Converts c k
conversion zero k e = (day, refl, to_unit day e (λ s ns h. omega arith))
conversion (suc zero) k e = (hour, refl, to_unit hour e (λ s ns h. omega arith))
conversion (suc (suc zero)) k e = (minute, refl, to_unit minute e (λ s ns h. omega arith))
conversion (suc (suc (suc zero))) k e = (second, refl, to_unit second e (λ s ns h. omega arith))
conversion (suc (suc (suc (suc zero)))) k e =
    (millisecond, refl, to_unit millisecond e (λ s ns h. omega arith))
conversion (suc (suc (suc (suc (suc zero))))) k e =
    (microsecond, refl, to_unit microsecond e (λ s ns h. omega arith))
conversion (suc (suc (suc (suc (suc (suc zero)))))) k e =
    (nanosecond, refl, to_unit nanosecond e (λ s ns h. omega arith))
conversion (suc (suc (suc (suc (suc (suc (suc n))))))) k e = cc

-- `avs_time_duration_to_scalar` divides the nanoseconds of a valid time by those of the unit, rounding
-- towards zero, and fails exactly where the quotient does not fit an int64_t.
pub to_scalar_exact :
    (unit k : ℕ) {t : Duration}
    → get_elem? unit_nanos unit ≡ some k
    → IsTime t
    → to_scalar unit t ≡ fit_int64 (quot (nanos t) (pos k))
to_scalar_exact unit k e v =
    let (c, g, converts) = conversion unit k e in to_scalar-eq unit c k g converts v
