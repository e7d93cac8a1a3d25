-- ===== src/Base64/Tests.antt =====
-- Runs of src/algorithm/avs_base64.c on concrete inputs, and the witnesses.
use avs_commons.Base64.{
  Config, digit, memchr, isspace, encode_custom, decode_custom, encoded_size, estimate_decoded_size,
}
use avs_commons.Base64.Encode.{needed}
use avs_commons.Base64.Decode.{IsConfig, strlen, lone_digit, decode_custom-bounds}
use avs_commons.Base64.RoundTrip.{Bytes, decode_custom-encode_custom}
use avs_commons.Common.{
  ℕ, zero, suc, Bool, true, false, not, ◌&&◌, ◌≡◌, refl, none, some, List, [], ◌∷◌, ◌==◌, ◌<◌, ◌≤◌,
  length, if◌then◌else◌, arith,
}
use avs_commons.Common.Word.{ok, fail}

-- `AVS_BASE64_CHARS`
abbrev chars : List ℕ
chars =
    65 ∷ 66 ∷ 67 ∷ 68 ∷ 69 ∷ 70 ∷ 71 ∷ 72 ∷ 73 ∷ 74 ∷ 75 ∷ 76 ∷ 77 ∷ 78 ∷ 79 ∷ 80 ∷ 81 ∷ 82 ∷ 83
    ∷ 84 ∷ 85 ∷ 86 ∷ 87 ∷ 88 ∷ 89 ∷ 90 ∷ 97 ∷ 98 ∷ 99 ∷ 100 ∷ 101 ∷ 102 ∷ 103 ∷ 104 ∷ 105 ∷ 106
    ∷ 107 ∷ 108 ∷ 109 ∷ 110 ∷ 111 ∷ 112 ∷ 113 ∷ 114 ∷ 115 ∷ 116 ∷ 117 ∷ 118 ∷ 119 ∷ 120 ∷ 121 ∷ 122
    ∷ 48 ∷ 49 ∷ 50 ∷ 51 ∷ 52 ∷ 53 ∷ 54 ∷ 55 ∷ 56 ∷ 57 ∷ 43 ∷ 47 ∷ []

-- `AVS_BASE64_DEFAULT_STRICT_CONFIG`
abbrev strict : Config
strict = record {
  alphabet = chars;
  padding_char = 61;
  allow_whitespace = false;
  require_padding = true;
}

-- `AVS_BASE64_DEFAULT_LOOSE_CONFIG`
abbrev loose : Config
loose = record strict { allow_whitespace = true; require_padding = false }

all_below : (ℕ → Bool) → ℕ → Bool
all_below f zero = true
all_below f (suc n) = if f n then all_below f n else false

all_below→true : (f : ℕ → Bool) (n : ℕ) → all_below f n ≡ true → (i : ℕ) → i < n → f i ≡ true
unfolding all_below
all_below→true f zero e i h = absurd (omega arith)
all_below→true f (suc n) e i h = ground (arith, all_below→true f n (ground arith) i)

-- A digit is found at its own place, and is none of the other characters.
proper : Config → ℕ → Bool
unfolding memchr isspace
proper config d =
    let c = digit config d in
    elim (memchr c config.alphabet) [
      | none ↦ false
      | some i ↦ i == d && not (isspace c) && not (c == config.padding_char) && not (c == 0)
    ]

strict-IsConfig : IsConfig strict
unfolding all_below proper memchr isspace
strict-IsConfig = record {
  found = λ d h. ground (arith, digits d h);
  visible = λ d h. ground (arith, digits d h);
  not_padding = λ d h. ground (arith, digits d h);
  not_end = λ d h. ground (arith, digits d h);
  visible_padding = refl;
}
  where
    digits : (d : ℕ) → d < 64 → proper strict d ≡ true
    digits = all_below→true (proper strict) 64 refl

encode-hello :
    encode_custom 9 (104 ∷ 101 ∷ 108 ∷ 108 ∷ 111 ∷ []) strict
    ≡ (ok, 97 ∷ 71 ∷ 86 ∷ 115 ∷ 98 ∷ 71 ∷ 56 ∷ 61 ∷ 0 ∷ [])
unfolding encode_custom
encode-hello = refl

decode-hello :
    decode_custom 6 (97 ∷ 71 ∷ 86 ∷ 115 ∷ 98 ∷ 71 ∷ 56 ∷ 61 ∷ 0 ∷ []) strict
    ≡ (ok, 104 ∷ 101 ∷ 108 ∷ 108 ∷ 111 ∷ [])
unfolding decode_custom
decode-hello = refl

decode_spaces :
    decode_custom 6 (97 ∷ 32 ∷ 71 ∷ 86 ∷ 115 ∷ 10 ∷ 0 ∷ []) loose ≡ (ok, 104 ∷ 101 ∷ 108 ∷ [])
unfolding decode_custom
decode_spaces = refl

lone_digit_example : decode_custom 3 (digit strict 0 ∷ 0 ∷ []) strict ≡ (ok, [])
lone_digit_example = lone_digit strict-IsConfig 3 0 (omega arith) (omega arith)

decode_custom-bounds_example :
    let out = (decode_custom 2 (97 ∷ 71 ∷ 86 ∷ 115 ∷ 98 ∷ 0 ∷ []) loose).1 in
    length out ≤ 2 × length out ≤ estimate_decoded_size (strlen (97 ∷ 71 ∷ 86 ∷ 115 ∷ 98 ∷ 0 ∷ []))
decode_custom-bounds_example = decode_custom-bounds 2 (97 ∷ 71 ∷ 86 ∷ 115 ∷ 98 ∷ 0 ∷ []) loose

abbrev hello : List ℕ
hello = 104 ∷ 101 ∷ 108 ∷ 108 ∷ 111 ∷ []

hello-Bytes : Bytes hello
hello-Bytes = ground arith

hello_fits : needed strict (length hello) ≤ 9
unfolding encoded_size
hello_fits = omega arith

decode_custom-encode_custom_example :
    decode_custom 6 (encode_custom 9 hello strict).1 strict ≡ (ok, hello)
decode_custom-encode_custom_example =
    decode_custom-encode_custom strict strict-IsConfig (omega arith) hello hello-Bytes 9 6
      hello_fits (omega arith)

-- A padding character above 127 is not recognized, where char is signed.
decode_high_padding :
    decode_custom 6 (97 ∷ 71 ∷ 86 ∷ 200 ∷ 0 ∷ []) (record strict { padding_char = 200 })
    ≡ (fail, 104 ∷ 101 ∷ [])
unfolding decode_custom
decode_high_padding = refl
