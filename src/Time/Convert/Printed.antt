-- ===== src/Time/Convert/Printed.antt =====
-- The two numbers that `avs_time_duration_as_string_impl__` prints.
use avs_commons.Common.{ℕ, ◌-◌, ◌<◌, ◌≡◌, ◌⊎◌, inl, inr, ltb, true, ◌∙◌, Bool-cases, ◌&&◌, arith}
use avs_commons.Common.Int.{
  ℤ, pos, negsuc, pos_part, neg_part, ◌+ℤ◌, ◌-ℤ◌, ◌*ℤ◌, ◌≤ℤ◌, ◌<ℤ◌, ltb_ℤ, int_laws, *ℤ_parts,
}
use avs_commons.Time.{Duration, ns_in_s}
use avs_commons.Time.Nanos.{nanos, nanos_parts, IsTime, raw}
use avs_commons.Time.Convert.{printed}

-- A minus sign before the seconds counts for the fraction behind the point too.
abbrev pub read_back : ℤ × ℤ → ℤ
read_back (s, ns) = elim s [ pos n ↦ pos n *ℤ ns_in_s +ℤ ns | negsuc n ↦ negsuc n *ℤ ns_in_s -ℤ ns ]

read_back_parts :
    (s ns : ℤ)
    → ((pos 0 ≤ℤ s) × (read_back (s, ns) ≡ s *ℤ ns_in_s +ℤ ns))
      ⊎ ((s <ℤ pos 0) × (read_back (s, ns) ≡ s *ℤ ns_in_s -ℤ ns))
read_back_parts s ns = ground arith

moved :
    (t : Duration)
    → t.seconds <ℤ negsuc 0
    → read_back (t.seconds +ℤ pos 1, ns_in_s -ℤ t.nanoseconds) ≡ nanos t
moved t h = elim (read_back_parts (t.seconds +ℤ pos 1) (ns_in_s -ℤ t.nanoseconds)) [
  | inl (p, e) ↦ absurd (omega int_laws)
  | inr (p, e) ↦ e ∙ omega (int_laws, nanos_parts t, *ℤ_parts (t.seconds +ℤ pos 1) 1_000_000_000)
]

stayed :
    (t : Duration)
    → (pos 0 ≤ℤ t.seconds) ⊎ (pos_part t.nanoseconds ≡ neg_part t.nanoseconds)
    → read_back (t.seconds, t.nanoseconds) ≡ nanos t
stayed t h = elim (read_back_parts t.seconds t.nanoseconds) [
  | inl (p, e) ↦ e ∙ omega (int_laws, nanos_parts t, *ℤ_parts t.seconds 1_000_000_000)
  | inr (p, e) ↦ e ∙ omega (int_laws, nanos_parts t, *ℤ_parts t.seconds 1_000_000_000)
]

-- Read as a decimal number of seconds, what is printed of a valid time is that time, unless it lies
-- less than a second before zero.
pub printed_exact :
    (t : Duration)
    → IsTime t
    → (t.seconds <ℤ negsuc 0) ⊎ ((pos 0 ≤ℤ t.seconds) ⊎ (t.nanoseconds ≤ℤ pos 0))
    → read_back (printed t) ≡ nanos t
unfolding printed
printed_exact t v h = elim (Bool-cases (ltb_ℤ t.seconds (pos 0) && ltb_ℤ (pos 0) t.nanoseconds)) [
  | inl e ↦ rw e (moved t (ground arith))
  | inr e ↦ rw e (stayed t (ground arith))
]

-- Less than a second before zero the sign is lost: the time and its opposite are printed alike.
pub printed_loses_sign :
    (n : ℕ)
    → 0 < n
    → n < 1_000_000_000
    → let t = raw (negsuc 0) (pos n) in
      let u = raw (pos 0) (pos (1_000_000_000 - n)) in
      IsTime t × IsTime u × (nanos t ≡ pos 0 -ℤ nanos u) × (printed t ≡ printed u)
unfolding printed
printed_loses_sign n p q =
    let e : negsuc 0 +ℤ pos 1 ≡ pos 0 = omega int_laws in
    let f : ns_in_s -ℤ pos n ≡ pos (1_000_000_000 - n) = omega int_laws in
    let g : ltb 0 n ≡ true = ground arith in
    (
      omega arith,
      omega arith,
      omega (
        int_laws,
        nanos_parts (raw (negsuc 0) (pos n)),
        nanos_parts (raw (pos 0) (pos (1_000_000_000 - n))),
      ),
      ground (arith, e, f),
    )
