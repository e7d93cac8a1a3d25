-- ===== src/Base64/Encode.antt =====
-- How much `avs_base64_encode_custom` of src/algorithm/avs_base64.c writes.
use avs_commons.Base64.{
  Config, encode_loop, encode_rest, encode_text, encode_custom, encoded_size,
  encoded_size_without_padding, check_out_buffer_size, pad_loop,
}
use avs_commons.Common.{
  ℕ, suc, ◌≡◌, ◌⊎◌, ◌<◌, ◌≤◌, List, [], ◌∷◌, ◌==◌, ◌+◌, ◌*◌, ◌/◌, ◌%◌, if◌then◌else◌, length,
  length-append, arith,
}
use avs_commons.Common.Word.{ok, fail}

pub length-encode_loop :
    (config : Config) (i sh : ℕ) (xs : List ℕ)
    → length (encode_loop config i sh xs) + i % 3 ≡ (4 * (i % 3 + length xs) + 2) / 3
unfolding encode_loop encode_rest
length-encode_loop config i sh [] = ground arith
length-encode_loop config i sh (x ∷ xs) = ground (
  arith,
  length-encode_loop config (suc i) (x % 4) xs,
  length-encode_loop config (suc i) (x % 16) xs,
  length-encode_loop config (suc i) sh xs,
)

length-pad_loop : (c i : ℕ) → length (pad_loop 3 c i) + i ≡ (i + 3) / 4 * 4
unfolding pad_loop
length-pad_loop c i = ground arith

abbrev pub needed : Config → ℕ → ℕ
needed config n =
    if config.padding_char == 0 then encoded_size_without_padding n else encoded_size n

length-encode_text :
    (config : Config) (xs : List ℕ) → length (encode_text config xs) + 1 ≡ needed config (length xs)
unfolding encode_text encoded_size encoded_size_without_padding
length-encode_text config xs =
    let text = encode_loop config 0 0 xs in
    ground (
      arith,
      length-encode_loop config 0 0 xs,
      length-pad_loop config.padding_char (length text),
      length-append text (pad_loop 3 config.padding_char (length text)),
    )

-- avs_base64_encode_custom fails, and writes nothing, exactly if the buffer is smaller than the size
-- that avs_base64_encoded_size (without padding: avs_base64_encoded_size_without_padding) promises;
-- else it writes exactly so many characters, the terminator included.
pub length-encode_custom :
    (out_length : ℕ) (xs : List ℕ) (config : Config)
    → (out_length < needed config (length xs) × encode_custom out_length xs config ≡ (fail, []))
      ⊎ (needed config (length xs) ≤ out_length
          × (encode_custom out_length xs config).0 ≡ ok
          × length (encode_custom out_length xs config).1 ≡ needed config (length xs))
unfolding encode_custom check_out_buffer_size
length-encode_custom out_length xs config =
    ground (arith, length-encode_text config xs, length-append (encode_text config xs) (0 ∷ []))
