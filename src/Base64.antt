-- ===== src/Base64.antt =====
-- src/algorithm/avs_base64.c: the codec with a configurable alphabet. Characters and bytes are numbers
-- below 256, an output buffer is the list of what was written to it, and a C string ends with 0.
pub mod Encode
pub mod Decode
pub mod Padding
pub mod RoundTrip
mod Tests
use avs_commons.Common.{
  ℕ, zero, suc, Bool, true, false, not, ◌&&◌, ◌||◌, Option, none, some, List, [], ◌∷◌, ◌++◌, ◌==◌,
  ◌+◌, ◌-◌, ◌*◌, ◌/◌, ◌%◌, ◌^◌, ltb, leb, if◌then◌else◌, length, get_or,
}
use avs_commons.Common.Word.{Status, ok, fail}

-- `avs_base64_config_t`; the alphabet has 64 characters.
pub record Config : Type 0 where
  pub alphabet : List ℕ
  pub padding_char : ℕ
  pub allow_whitespace : Bool
  pub require_padding : Bool

abbrev pub digit : Config → ℕ → ℕ
digit config d = get_or config.alphabet d 0

-- `avs_base64_encoded_size`
pub encoded_size : ℕ → ℕ
encoded_size n = n / 3 * 4 + (if n % 3 == 0 then 0 else 4) + 1

pub encoded_size_without_padding : ℕ → ℕ
encoded_size_without_padding n = n / 3 * 4 + (if n % 3 == 0 then 0 else n % 3 + 1) + 1

-- In size_t the sum wraps around only for a length that no text in memory has.
pub estimate_decoded_size : ℕ → ℕ
estimate_decoded_size n = 3 * ((n + 3) / 4)

-- `check_base64_out_buffer_size`
pub check_out_buffer_size : ℕ → ℕ → Bool → Status
unfolding encoded_size encoded_size_without_padding
check_out_buffer_size buffer_size n use_padding =
    let size = if use_padding then encoded_size n else encoded_size_without_padding n in
    if leb size buffer_size then ok else fail

-- What is written once the input has ended after `i` bytes with the bits `sh` left over.
pub encode_rest : Config → ℕ → ℕ → List ℕ
encode_rest config i sh =
    if i % 3 == 1
    then digit config (sh * 16) ∷ []
    else if i % 3 == 2
    then digit config (sh * 4) ∷ []
    else []

-- The loop over the input; `sh` keeps the bits of the last byte that are not yet written.
pub encode_loop : Config → ℕ → ℕ → List ℕ → List ℕ
unfolding encode_rest
encode_loop config i sh [] = encode_rest config i sh
encode_loop config i sh (num ∷ input) =
    if i % 3 == 0
    then digit config (num / 4) ∷ encode_loop config (suc i) (num % 4) input
    else if i % 3 == 1
    then digit config (sh * 16 + num / 16) ∷ encode_loop config (suc i) (num % 16) input
    else (digit config (sh * 4 + num / 64)
        ∷ digit config (num % 64)
        ∷ encode_loop config (suc i) sh input)

-- `for (i = written; i % 4; ++i)`, with fuel; at most three rounds are run.
pub pad_loop : ℕ → ℕ → ℕ → List ℕ
pad_loop zero c i = []
pad_loop (suc fuel) c i = if i % 4 == 0 then [] else c ∷ pad_loop fuel c (suc i)

pub encode_text : Config → List ℕ → List ℕ
unfolding encode_loop pad_loop
encode_text config input =
    let text = encode_loop config 0 0 input in
    if config.padding_char == 0 then text else text ++ pad_loop 3 config.padding_char (length text)

-- `avs_base64_encode_custom`: the status, and what has been written to `out`.
pub encode_custom : ℕ → List ℕ → Config → Status × List ℕ
unfolding check_out_buffer_size encode_text
encode_custom out_length input config =
    elim (check_out_buffer_size out_length (length input) (not (config.padding_char == 0))) [
      | fail ↦ (fail, [])
      | ok ↦ (ok, encode_text config input ++ 0 ∷ [])
    ]

-- The C library's `isspace`, in the "C" locale.
unfoldable pub isspace : ℕ → Bool
isspace c = c == 32 || (leb 9 c && leb c 13)

-- `memchr` on the alphabet
pub memchr : ℕ → List ℕ → Option ℕ
memchr c [] = none
memchr c (x ∷ xs) =
    if x == c then some 0 else elim (memchr c xs) [ none ↦ none | some i ↦ some (suc i) ]

-- The local variables of `avs_base64_decode_custom`, with what was written to `out`.
pub record Decoding : Type 0 where
  pub accumulator : ℕ
  pub bits : ℕ
  pub out : List ℕ
  pub padding : ℕ

-- The accumulator has 32 bits and `bits` has 8. The index of a digit has 6 bits, those that the shift
-- has cleared, so that `|=` adds it.
pub push_digit : Decoding → ℕ → Decoding
push_digit s d =
    let accumulator = s.accumulator * 64 % 4294967296 + d in
    let bits = (s.bits + 6) % 256 in
    if leb 8 bits
    then record s {
      accumulator = accumulator;
      bits = bits - 8;
      out = s.out ++ accumulator / 2 ^ (bits - 8) % 256 ∷ [];
    }
    else record s { accumulator = accumulator; bits = bits }

-- Whether the int `ch` with the value of an unsigned char equals a plain `char` of the byte `c`, which is
-- signed: from 128 on it is negative.
abbrev pub is_char : ℕ → ℕ → Bool
is_char ch c = ltb c 128 && (ch == c)

-- One round of the loop, for the character `c`.
pub decode_char : Config → ℕ → Decoding → ℕ → Status × Decoding
unfolding push_digit memchr isspace
decode_char config out_size s c =
    if leb out_size (length s.out)
    then (fail, s)
    else if isspace c
    then if config.allow_whitespace then (ok, s) else (fail, s)
    else if is_char c config.padding_char
    then if config.require_padding
      then if ltb 2 (suc s.padding)
        then (fail, record s { padding = suc s.padding })
        else (ok, record s { padding = suc s.padding })
      else (ok, s)
    else if ltb 0 s.padding
    then (fail, s)
    else elim (memchr c config.alphabet) [ none ↦ (fail, s) | some d ↦ (ok, push_digit s d) ]

pub decode_loop : Config → ℕ → Decoding → List ℕ → Status × Decoding
unfolding decode_char
decode_loop config out_size s [] = (ok, s)
decode_loop config out_size s (c ∷ cs) =
    let r = decode_char config out_size s c in
    if c == 0
    then (ok, s)
    else elim r.0 [ fail ↦ (fail, r.1) | ok ↦ decode_loop config out_size r.1 cs ]

-- The check of the padding after the loop.
pub decode_end : Config → Status × Decoding → Status × Decoding
decode_end config (fail, s) = (fail, s)
decode_end config (ok, s) =
    if not (config.padding_char == 0)
      && config.require_padding
      && not (s.padding == (3 - length s.out % 3) % 3)
    then (fail, s)
    else (ok, s)

-- `avs_base64_decode_custom`: the status, and what has been written to `out`; on success,
-- `*out_bytes_decoded` is the length of it.
pub decode_custom : ℕ → List ℕ → Config → Status × List ℕ
unfolding decode_loop decode_end
decode_custom out_size b64_data config =
    let start : Decoding = record { accumulator = 0; bits = 0; out = []; padding = 0 } in
    let r = decode_end config (decode_loop config out_size start b64_data) in (r.0, r.1.out)
