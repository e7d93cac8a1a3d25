-- ===== src/Url/RoundTrip.antt =====
-- What avs_url_percent_encode of src/url/avs_url.c has written, avs_url_percent_decode reads.
use avs_commons.Url.Encoding.{encoded, encode_loop-Writes}
use avs_commons.Common.{
  ℕ, true, false, Option, some, List, [], ◌∷◌, ◌++◌, ◌≡◌, refl, sym, ap, ◌∙◌, ◌≢◌, ◌<◌, ◌+◌, ◌/◌,
  ◌%◌, ◌==◌, if◌then◌else◌, length, take, if-split, Bool-cases, inl, inr, arith,
}
use avs_commons.Common.Strings.{contains, IsText, IsText-append}
use avs_commons.Hexlify.{hex_digit}
use avs_commons.Hexlify.RoundTrip.{char_to_value-hex_digit, Bytes}
use avs_commons.Stream.{VTable, Err, is_ok}
use avs_commons.Stream.Queue.{IsSink}
use avs_commons.Url.{fine, isxdigit}
use avs_commons.Url.Decoding.{grow, decoded}
use avs_commons.Url.InPlace.{Decodes, bad, good, decoded_plain}
use avs_commons.Url.Prepare.{percent_decode-Decodes}
use avs_commons.Url.Escape.{escape, must_escape, percent_encode, hex_value, percent_decode}
use mathlib.Core.Bool.{false≢true}

hex_digit-isxdigit : (d : ℕ) → d < 16 → isxdigit (hex_digit d) ≡ true
unfolding isxdigit
hex_digit-isxdigit d h = ground (arith, char_to_value-hex_digit d h)

hex_value-hex_digit : (c : ℕ) → c < 256 → hex_value (hex_digit (c / 16)) (hex_digit (c % 16)) ≡ c
unfolding hex_value
hex_value-hex_digit c h = ground (
  arith,
  char_to_value-hex_digit (c / 16) (omega (arith, h)),
  char_to_value-hex_digit (c % 16) (omega arith),
)

decoded-escape : (c : ℕ) (cs : List ℕ) → c < 256 → decoded (escape c ++ cs) ≡ grow c (decoded cs)
unfolding decoded escape
decoded-escape c cs h =
    rw (hex_digit-isxdigit (c / 16) (omega (arith, h)), hex_digit-isxdigit (c % 16) (omega arith))
      (rw (hex_value-hex_digit c h) refl)

module _ (unreserved : List ℕ) (plain : contains unreserved b'%' ≡ false) where
  percent-must_escape : must_escape unreserved b'%' ≡ true
  unfolding must_escape
  percent-must_escape = rw plain refl

  decoded-encoded : (input : List ℕ) → Bytes input → decoded (encoded unreserved input) ≡ some input
  unfolding encoded
  decoded-encoded [] b = unfold decoded in refl
  decoded-encoded (c ∷ cs) b = elim (Bool-cases (must_escape unreserved c)) [
    | inl e ↦
        rw e (decoded-escape c (encoded unreserved cs) b.0 ∙ ap (grow c) (decoded-encoded cs b.1))
    | inr e ↦
        rw e (
          decoded_plain c (encoded unreserved cs) (other c e)
          ∙ ap (grow c) (decoded-encoded cs b.1))
  ]
    where
      other : (d : ℕ) → must_escape unreserved d ≡ false → (d == b'%') ≡ false
      other d e = elim (Bool-cases (d == b'%')) [
        | inr q ↦ q
        | inl q ↦
            let same : d ≡ b'%' = ground (arith, q) in
            absurd (false≢true (sym e ∙ ap (must_escape unreserved) same ∙ percent-must_escape))
      ]

hex_digit-IsText : (d : ℕ) → d < 16 → hex_digit d ≢ 0
unfolding hex_digit
hex_digit-IsText d h = ground arith

encoded-IsText :
    (unreserved input : List ℕ) → Bytes input → IsText input → IsText (encoded unreserved input)
unfolding encoded escape
encoded-IsText unreserved [] b h = tt
encoded-IsText unreserved (c ∷ cs) b h =
    IsText-append (if must_escape unreserved c then escape c else c ∷ []) (encoded unreserved cs)
      (if-split IsText (must_escape unreserved c)
        (λ e. (
          (λ z. ground (arith, z)),
          (
            hex_digit-IsText (c / 16) (omega (arith, b.0)),
            (hex_digit-IsText (c % 16) (omega arith), tt),
          ),
        ))
        (λ e. (h.0, tt)))
      (encoded-IsText unreserved cs b.1 h.1)

-- What a stream holds after an encoding, in a block with its terminator and anything behind it, decoded.
pub data ReadBack (input rest : List ℕ) {T : Type 0} (content : T → List ℕ) (t : T)
    (result : Option (Err × T)) : Type 0 where
  broken :
      (err : Err) (after : T)
      → result ≡ some (err, after)
      → is_ok err ≡ false
      → ReadBack input rest content t result
  kept :
      (err : Err) (after : T) (sent junk : List ℕ)
      → result ≡ some (err, after)
      → is_ok err ≡ true
      → content after ≡ content t ++ sent
      → percent_decode (sent ++ 0 ∷ rest) ≡ fine (input ++ 0 ∷ junk, length input)
      → ReadBack input rest content t result

ReadBack-Decodes :
    {T : Type 0} (content : T → List ℕ) (input rest sent : List ℕ) (t : T) {size : ℕ}
    {result : Option (Err × T)} (err : Err) (after : T)
    → result ≡ some (err, after)
    → is_ok err ≡ true
    → content after ≡ content t ++ sent
    → decoded sent ≡ some input
    → Decodes [] sent size (percent_decode (sent ++ 0 ∷ rest))
    → ReadBack input rest content t result
ReadBack-Decodes content input rest sent t err after e o a d (bad n f) =
    absurd (ground (arith, sym n ∙ d))
ReadBack-Decodes content input rest sent t err after e o a d (good u junk n f z k) =
    kept err after sent junk e o a (f ∙ (λ i. fine (same i ++ 0 ∷ junk, count i)))
  where
    both : some u ≡ some input
    both = sym n ∙ d

    same : u ≡ input
    same = cc (both)

    count : 0 + length u ≡ length input
    count = omega (arith, ap (λ (l : List ℕ). length l) same)

take_whole : (l : List ℕ) → take (length l) l ≡ l
take_whole [] = refl
take_whole (x ∷ l) = ap (λ m. x ∷ m) (take_whole l)

module _ {T : Type 0} {w : VTable T} {Valid : T → Type 0} {content : T → List ℕ}
    (sink : IsSink w Valid content) where
  -- For any stream that takes what is written to it, and a text of bytes other than 0, fewer
  -- than 2^63 of them: avs_url_percent_encode either returns an error, or all that it has added
  -- to the stream is a string that avs_url_percent_decode turns back into exactly the text, in whatever
  -- block it stands, if `%` is not declared an unreserved character.
  pub percent_round_trip :
      (unreserved : List ℕ)
      → contains unreserved b'%' ≡ false
      → (input rest : List ℕ) → Bytes input
      → IsText input
      → (t : T) → Valid t
      → length input < 9223372036854775808
      → ReadBack input rest content t (percent_encode w unreserved t input)
  unfolding percent_encode
  percent_round_trip unreserved plain input rest b h t k small =
      let sent = encode_loop-Writes sink unreserved input [] t k (omega (arith, small)) in
      elim (Bool-cases (is_ok sent.err)) [
        | inr o ↦ broken sent.err sent.after sent.writes o
        | inl o ↦
            ReadBack-Decodes content input rest (encoded unreserved input) t sent.err sent.after
              sent.writes o
              (sent.appended
                ∙ ap (λ (l : List ℕ). content t ++ l)
                    (ap (λ (n : ℕ). take n (encoded unreserved input)) (sent.complete o)
                      ∙ take_whole (encoded unreserved input)))
              (decoded-encoded unreserved plain input b)
              (percent_decode-Decodes (encoded unreserved input) rest
                (encoded-IsText unreserved input b h))
      ]
