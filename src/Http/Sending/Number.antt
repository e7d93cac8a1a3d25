-- ===== src/Http/Sending/Number.antt =====
-- What `%lX` prints in src/http/avs_chunked.c, `strtoul` reads.
use avs_commons.Common.{
  ℕ, zero, suc, Bool, true, false, ◌&&◌, ◌||◌, Option, none, some, ◌≡◌, refl, sym, ap, ◌∙◌, ◌≤◌,
  ◌<◌, ◌+◌, ◌*◌, ◌/◌, ◌%◌, ◌^◌, ◌==◌, ltb, leb, List, [], ◌∷◌, ◌++◌, length, length-append,
  append_assoc, append-nil, Bool-cases, inl, inr, arith,
}
use avs_commons.Base64.{isspace}
use avs_commons.Common.Word.{size_mod}
use avs_commons.Hexlify.{char_to_value}
use avs_commons.Http.Chunked.Number.{
  strtoul, digits_loop, skip_space, take_sign, skip_prefix, starts_hex, is_hex,
}
use avs_commons.Http.Chunked.Wire.{IsHeadline}
use avs_commons.Stream.Line.Terminated.{Plain, plain_nil, plain_cons}
use avs_commons.Http.Sending.{upper_digit, upper_hex}

char_to_value-upper_digit : (d : ℕ) → d < 16 → char_to_value (upper_digit d) ≡ some d
unfolding char_to_value upper_digit
char_to_value-upper_digit d h = ground (arith, h)

digits_loop-char_to_value :
    (c d : ℕ) (cs : List ℕ) (value : ℕ)
    → char_to_value c ≡ some d
    → digits_loop (c ∷ cs) value false
      ≡ digits_loop cs (value * 16 + d) (leb size_mod (value * 16 + d))
unfolding digits_loop
digits_loop-char_to_value c d cs value e =
    ap
      (λ (o : Option ℕ). elim o [
        | none ↦ record { value = value; range_error = false; rest = c ∷ cs }
        | some k ↦ digits_loop cs (value * 16 + k) (leb size_mod (value * 16 + k))
      ])
      e

-- A digit, in front of more.
digit_step :
    (d : ℕ) (tail : List ℕ) (value : ℕ)
    → d < 16
    → value * 16 + d < size_mod
    → digits_loop (upper_digit d ∷ tail) value false ≡ digits_loop tail (value * 16 + d) false
unfolding digits_loop
digit_step d tail value h k =
    let room : leb size_mod (value * 16 + d) ≡ false = ground (arith, k) in
    digits_loop-char_to_value (upper_digit d) d tail value (char_to_value-upper_digit d h)
    ∙ ap (λ (b : Bool). digits_loop tail (value * 16 + d) b) room

digits_loop-upper_hex :
    (k n : ℕ) (tail : List ℕ)
    → n < 16 ^ k
    → n < size_mod
    → digits_loop (upper_hex k n ++ tail) 0 false ≡ digits_loop tail n false
unfolding upper_hex
digits_loop-upper_hex zero n tail h m = ap (λ (j : ℕ). digits_loop tail j false) (omega (arith, h))
digits_loop-upper_hex (suc k) n tail h m = elim (Bool-cases (ltb n 16)) [
  | inl e ↦ rw e (
      digit_step n tail 0 (ground (arith, e)) (omega (arith, m))
      ∙ ap (λ (j : ℕ). digits_loop tail j false) (omega arith))
  | inr e ↦ rw e (
      ap (λ (l : List ℕ). digits_loop l 0 false)
        (append_assoc (upper_hex k (n / 16)) (upper_digit (n % 16) ∷ []) tail)
      ∙ digits_loop-upper_hex k (n / 16) (upper_digit (n % 16) ∷ tail) (omega (arith, h))
          (omega (arith, m))
      ∙ digit_step (n % 16) tail (n / 16) (omega arith) (omega (arith, m))
      ∙ ap (λ (j : ℕ). digits_loop tail j false) (omega arith))
]

-- An upper-case digit, which is not a space, a sign, or part of a prefix.
record IsUpper (c : ℕ) : Type 0 where
  no_space : isspace c ≡ false
  no_minus : (c == b'-') ≡ false
  no_plus : (c == b'+') ≡ false
  no_prefix : (c == b'x' || c == b'X') ≡ false
  hex : is_hex c ≡ true
  no_end : (c == 0) ≡ false
  no_lf : (c == 10) ≡ false
  no_cr : (c == 13) ≡ false

upper_digit-IsUpper : (d : ℕ) → d < 16 → IsUpper (upper_digit d)
unfolding upper_digit isspace is_hex char_to_value
upper_digit-IsUpper d h = record {
  no_space = ground (arith, h);
  no_minus = ground (arith, h);
  no_plus = ground (arith, h);
  no_prefix = ground (arith, h);
  hex = ground (arith, h);
  no_end = ground (arith, h);
  no_lf = ground (arith, h);
  no_cr = ground (arith, h);
}

-- What is printed: a digit, and then digits.
data AllUpper : List ℕ → Type 0 where
  no_digit : AllUpper []
  a_digit : (c : ℕ) (cs : List ℕ) → IsUpper c → AllUpper cs → AllUpper (c ∷ cs)

AllUpper-append : {xs ys : List ℕ} → AllUpper xs → AllUpper ys → AllUpper (xs ++ ys)
AllUpper-append no_digit b = b
AllUpper-append (a_digit c cs u a) b = a_digit c (cs ++ _) u (AllUpper-append a b)

upper_hex-AllUpper : (k n : ℕ) → AllUpper (upper_hex k n)
unfolding upper_hex
upper_hex-AllUpper zero n = no_digit
upper_hex-AllUpper (suc k) n = elim (Bool-cases (ltb n 16)) [
  | inl e ↦ rw e (a_digit (upper_digit n) [] (upper_digit-IsUpper n (ground (arith, e))) no_digit)
  | inr e ↦ rw e (
      AllUpper-append (upper_hex-AllUpper k (n / 16))
        (a_digit (upper_digit (n % 16)) [] (upper_digit-IsUpper (n % 16) (omega arith)) no_digit))
]

upper_hex-some : (k n : ℕ) → 0 < length (upper_hex (suc k) n)
unfolding upper_hex
upper_hex-some k n = elim (Bool-cases (ltb n 16)) [
  | inl e ↦ rw e (omega arith)
  | inr e ↦ rw e (omega (arith, length-append (upper_hex k (n / 16)) (upper_digit (n % 16) ∷ [])))
]

skips : {t : List ℕ} → AllUpper t → skip_space t ≡ t
unfolding skip_space
skips no_digit = refl
skips (a_digit c cs u a) = rw u.no_space refl

signs : {t : List ℕ} → AllUpper t → take_sign t ≡ (false, t)
unfolding take_sign
signs no_digit = refl
signs (a_digit c cs u a) = rw u.no_minus (rw u.no_plus refl)

prefixes : {t : List ℕ} → AllUpper t → skip_prefix t ≡ t
unfolding skip_prefix
prefixes no_digit = refl
prefixes (a_digit c [] u a) = refl
prefixes (a_digit z (x ∷ []) u a) = refl
prefixes (a_digit z (x ∷ d ∷ cs) u (a_digit y ys w b)) =
    let never : (z == b'0' && ((x == b'x' || x == b'X') && is_hex d)) ≡ false =
      ground (arith, w.no_prefix) in
    rw never refl

starts : {t : List ℕ} → 0 < length t → AllUpper t → starts_hex t ≡ true
unfolding starts_hex
starts h no_digit = absurd (omega (arith, h))
starts h (a_digit c cs u a) = u.hex

ended : (j : ℕ) → digits_loop [] j false ≡ record { value = j; range_error = false; rest = [] }
unfolding digits_loop
ended j = refl

digits_are :
    (n : ℕ)
    → n < size_mod
    → digits_loop (upper_hex 16 n) 0 false ≡ record { value = n; range_error = false; rest = [] }
digits_are n m =
    ap (λ (l : List ℕ). digits_loop l 0 false) (sym (append-nil (upper_hex 16 n)))
    ∙ digits_loop-upper_hex 16 n [] (omega (arith, m)) m
    ∙ ended n

pub strtoul-upper_hex :
    (n : ℕ)
    → n < size_mod
    → strtoul (upper_hex 16 n) ≡ record { value = n; range_error = false; rest = [] }
unfolding strtoul
strtoul-upper_hex n m =
    let u = upper_hex-AllUpper 16 n in
    rw (skips u, strtoul)
      (rw (signs u)
        (rw (prefixes u) (rw (starts (upper_hex-some 15 n) u) (rw (digits_are n m) refl))))

pub upper_hex-IsHeadline : (n : ℕ) → n < size_mod → IsHeadline (upper_hex 16 n) n
upper_hex-IsHeadline n m = record {
  no_error = rw (strtoul-upper_hex n m) refl;
  value_is = rw (strtoul-upper_hex n m) refl;
  whole = rw (strtoul-upper_hex n m) refl;
  not_empty = upper_hex-some 15 n;
}

plain : {t : List ℕ} → AllUpper t → Plain t
plain no_digit = plain_nil
plain (a_digit c cs u a) = plain_cons c cs u.no_end u.no_lf u.no_cr (plain a)

pub upper_hex-Plain : (k n : ℕ) → Plain (upper_hex k n)
upper_hex-Plain k n = plain (upper_hex-AllUpper k n)

pub length-upper_hex : (k n : ℕ) → length (upper_hex k n) ≤ k
unfolding upper_hex
length-upper_hex zero n = omega arith
length-upper_hex (suc k) n = elim (Bool-cases (ltb n 16)) [
  | inl e ↦ rw e (omega arith)
  | inr e ↦ rw e (
      omega (
        arith,
        length-append (upper_hex k (n / 16)) (upper_digit (n % 16) ∷ []),
        length-upper_hex k (n / 16),
      ))
]
