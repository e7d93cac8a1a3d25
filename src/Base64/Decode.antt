-- ===== src/Base64/Decode.antt =====
-- The rounds of `avs_base64_decode_custom` of src/algorithm/avs_base64.c, and its bounds.
use avs_commons.Base64.{
  Config, Decoding, digit, memchr, isspace, is_char, push_digit, decode_char, decode_loop,
  decode_end, decode_custom, estimate_decoded_size,
}
use avs_commons.Common.{
  ℕ, ◌-◌, if-split, suc, false, ◌≡◌, ◌≢◌, refl, ◌<◌, ◌≤◌, List, [], ◌∷◌, ◌++◌, ◌==◌, ◌+◌, ◌*◌, ◌/◌,
  ◌%◌, ◌^◌, if◌then◌else◌, length, length-append, arith, some, none, Option, ltb, leb,
}
use avs_commons.Common.Word.{Status, ok, fail}

-- What a configuration has to be for texts to be read back: the 64 digits are told apart, and are
-- neither whitespace nor the padding nor the terminator.
pub record IsConfig (config : Config) : Type 0 where
  pub found : (d : ℕ) → d < 64 → memchr (digit config d) config.alphabet ≡ some d
  pub visible : (d : ℕ) → d < 64 → isspace (digit config d) ≡ false
  pub not_padding : (d : ℕ) → d < 64 → digit config d ≢ config.padding_char
  pub not_end : (d : ℕ) → d < 64 → digit config d ≢ 0
  pub visible_padding : isspace config.padding_char ≡ false

-- `bits` bits of the accumulator are still to be written, and hold `rest`; `out` has been written.
pub record At (s : Decoding) (bits rest : ℕ) (out : List ℕ) : Type 0 where
  pub bits_at : s.bits ≡ bits
  pub rest_at : s.accumulator % 2 ^ bits ≡ rest
  pub out_at : s.out ≡ out
  pub unpadded : s.padding ≡ 0

module _ {config : Config} (valid : IsConfig config) {size : ℕ} where
  pub decode_loop-digit :
      (s : Decoding) (d : ℕ) (cs : List ℕ)
      → d < 64
      → length s.out < size
      → s.padding ≡ 0
      → decode_loop config size s (digit config d ∷ cs)
        ≡ decode_loop config size (push_digit s d) cs
  unfolding decode_loop decode_char
  decode_loop-digit s d cs h room clean =
      ground (arith, valid.found d h, valid.visible d h, valid.not_padding d h, valid.not_end d h)

module _ {s : Decoding} {r : ℕ} {out : List ℕ} (d : ℕ) (h : d < 64) where
  pub push_first : At s 0 r out → At (push_digit s d) 6 d out
  unfolding push_digit
  push_first a = ground (arith, a.bits_at, a.rest_at, a.out_at, a.unpadded)

  -- The byte `x` is made up of the rest and of the digit.
  pub push_second :
      (x : ℕ)
      → At s 6 r out
      → x < 256
      → r * 4 + d / 16 ≡ x
      → At (push_digit s d) 4 (d % 16) (out ++ x ∷ [])
  unfolding push_digit
  push_second x a k e = ground (arith, a.bits_at, a.rest_at, a.out_at, a.unpadded)

  pub push_third :
      (x : ℕ)
      → At s 4 r out
      → x < 256
      → r * 16 + d / 4 ≡ x
      → At (push_digit s d) 2 (d % 4) (out ++ x ∷ [])
  unfolding push_digit
  push_third x a k e = ground (arith, a.bits_at, a.rest_at, a.out_at, a.unpadded)

  pub push_fourth :
      (x : ℕ) → At s 2 r out → x < 256 → r * 64 + d ≡ x → At (push_digit s d) 0 0 (out ++ x ∷ [])
  unfolding push_digit
  push_fourth x a k e = ground (arith, a.bits_at, a.rest_at, a.out_at, a.unpadded)

-- `strlen`
abbrev pub strlen : List ℕ → ℕ
strlen [] = 0
strlen (c ∷ cs) = if c == 0 then 0 else suc (strlen cs)

module _ (config : Config) (size : ℕ) where
  -- One round keeps to the buffer, and a digit yields six bits.
  record Grown (s s' : Decoding) : Type 0 where
    few_bits : s'.bits < 8
    in_buffer : length s'.out ≤ size
    six_bits : 8 * length s'.out + s'.bits ≤ 8 * length s.out + s.bits + 6

  push_digit-Grown :
      (s : Decoding) (d : ℕ) → s.bits < 8 → length s.out < size → Grown s (push_digit s d)
  unfolding push_digit
  push_digit-Grown s d few room = ground (
    arith,
    length-append s.out
        ((s.accumulator * 64 % 4294967296 + d) / 2 ^ ((s.bits + 6) % 256 - 8) % 256 ∷ []),
  )

  decode_char-Grown :
      (s : Decoding) (c : ℕ)
      → s.bits < 8
      → length s.out ≤ size
      → Grown s (decode_char config size s c).1
  unfolding decode_char
  decode_char-Grown s c few room =
      if-split P (leb size (length s.out)) (λ e. as_is)
        (λ e.
          if-split P (isspace c) (λ _. if-split P config.allow_whitespace (λ _. as_is) (λ _. as_is))
            (λ _.
              if-split P (is_char c config.padding_char)
                (λ _.
                  if-split P config.require_padding
                    (λ _. if-split P (ltb 2 (suc s.padding)) (λ _. padded) (λ _. padded))
                    (λ _. as_is))
                (λ _.
                  if-split P (ltb 0 s.padding) (λ _. as_is)
                    (λ _. digits (memchr c config.alphabet) (ground (arith, e))))))
    where
      P : Status × Decoding → Type 0
      P r = Grown s r.1

      padded : Grown s (record s { padding = suc s.padding })
      padded = ground arith

      as_is : Grown s s
      as_is = ground arith

      digits :
          (o : Option ℕ)
          → length s.out < size
          → P (elim o [ none ↦ (fail, s) | some d ↦ (ok, push_digit s d) ])
      digits none h = as_is
      digits (some d) h = push_digit-Grown s d few h

  decode_loop-bounds :
      (s : Decoding) (cs : List ℕ)
      → s.bits < 8
      → length s.out ≤ size
      → let r = (decode_loop config size s cs).1 in
        length r.out ≤ size × 8 * length r.out ≤ 8 * length s.out + s.bits + 6 * strlen cs
  unfolding decode_loop
  decode_loop-bounds s [] few room = (room, omega arith)
  decode_loop-bounds s (c ∷ cs) few room =
      let g = decode_char-Grown s c few room in
      ground (
        arith,
        g.few_bits,
        g.in_buffer,
        g.six_bits,
        decode_loop-bounds (decode_char config size s c).1 cs g.few_bits g.in_buffer,
      )

-- avs_base64_decode_custom, on success and on failure, writes within the buffer and no more bytes than
-- avs_base64_estimate_decoded_size tells for the length of the text.
pub decode_custom-bounds :
    (out_size : ℕ) (text : List ℕ) (config : Config)
    → let out = (decode_custom out_size text config).1 in
      length out ≤ out_size × length out ≤ estimate_decoded_size (strlen text)
unfolding decode_custom decode_end estimate_decoded_size
decode_custom-bounds out_size text config =
    let start : Decoding = record { accumulator = 0; bits = 0; out = []; padding = 0 } in
    ground (arith, decode_loop-bounds config out_size start text (ground arith) (ground arith))

-- With a configuration that tells its digits apart, padding required or not, a text of a single digit
-- is accepted, and decodes to nothing.
pub lone_digit :
    {config : Config}
    → IsConfig config
    → (out_size d : ℕ) → d < 64
    → 0 < out_size
    → decode_custom out_size (digit config d ∷ 0 ∷ []) config ≡ (ok, [])
unfolding decode_custom decode_end decode_loop push_digit
lone_digit {config = config} valid out_size d h room =
    let start : Decoding = record { accumulator = 0; bits = 0; out = []; padding = 0 } in
    ground (arith, decode_loop-digit valid {size = out_size} start d (0 ∷ []) h room refl)
