-- ===== src/Url/Escape.antt =====
-- Percent-encoding in src/url/avs_url.c: avs_url_percent_encode, which writes to a stream, and
-- avs_url_percent_decode, which decodes a string in its place.
use avs_commons.Common.{
  ℕ, zero, suc, Bool, true, false, not, ◌&&◌, ◌||◌, Option, none, some, List, [], ◌∷◌, ◌++◌, ◌+◌,
  ◌*◌, ◌/◌, ◌%◌, ◌==◌, leb, if◌then◌else◌, length,
}
use avs_commons.Common.Strings.{contains, in_set, text}
use avs_commons.Hexlify.{hex_digit, char_to_value}
use avs_commons.Stream.{VTable, Err, success, is_ok, write}
use avs_commons.Url.{Outcome, fault, refused, fine, ◌>>=◌, byte_at, put_byte, isalnum, isxdigit}

-- What `"%%%02x"` prints of a byte.
unfoldable pub escape : ℕ → List ℕ
unfolding hex_digit
escape c = b'%' ∷ hex_digit (c / 16) ∷ hex_digit (c % 16) ∷ []

-- The test in `avs_url_percent_encode`; a character of the input is not 0.
unfoldable pub must_escape : List ℕ → ℕ → Bool
unfolding isalnum
must_escape unreserved c = leb 128 c || not (isalnum c || in_set unreserved c)

-- `if (avs_is_err(err)) return err;`
abbrev pub and_then : {S : Type 0} → Option (Err × S) → (S → Option (Err × S)) → Option (Err × S)
and_then none next = none
and_then (some r) next = elim (is_ok r.0) [ false ↦ some r | true ↦ next r.1 ]

module _ {S : Type 0} (v : VTable S) (unreserved : List ℕ) where
  -- `if (input - start > 0)` and the write of what lies between them.
  unfoldable pub write_run : S → List ℕ → Option (Err × S)
  write_run s run = if length run == 0 then some (success, s) else write v s run

  -- The loop; `run` is what lies between `start` and `input`.
  unfoldable pub encode_loop : List ℕ → List ℕ → S → Option (Err × S)
  unfolding write_run must_escape escape
  encode_loop [] run s = write_run s run
  encode_loop (c ∷ cs) run s = elim (must_escape unreserved c) [
    | false ↦ encode_loop cs (run ++ c ∷ []) s
    | true ↦
        and_then (write_run s run) λ p. and_then (write v p (escape c)) λ q. encode_loop cs [] q
  ]

  -- `avs_url_percent_encode`
  unfoldable pub percent_encode : S → List ℕ → Option (Err × S)
  unfolding encode_loop
  percent_encode s input = encode_loop input [] s

-- `strtoul` of two hexadecimal digits, base 16, as a char.
unfoldable pub hex_value : ℕ → ℕ → ℕ
unfolding char_to_value
hex_value h l = value_of h * 16 + value_of l
  where
    value_of : ℕ → ℕ
    value_of c = elim (char_to_value c) [ none ↦ 0 | some n ↦ n ]

-- A round of the loop of `avs_url_percent_decode`: the block, and `src` and `dst` as offsets, or what
-- is returned.
pub data Round : Type 0 where
  finished : List ℕ → ℕ → Round
  onward : List ℕ → ℕ → ℕ → Round

unfoldable pub decode_escape : List ℕ → ℕ → ℕ → Outcome Round
unfolding isxdigit hex_value
decode_escape block src dst = byte_at block (src + 1) >>= λ h.
    if isxdigit h
    then (byte_at block (src + 2) >>= λ l.
        if isxdigit l
        then (put_byte block dst (hex_value h l) >>= λ b. fine (onward b (src + 3) (dst + 1)))
        else refused)
    else refused

unfoldable pub decode_round : List ℕ → ℕ → ℕ → Outcome Round
unfolding decode_escape
decode_round block src dst = byte_at block src >>= λ c.
    if c == 0
    then (put_byte block dst 0 >>= λ b. fine (finished b dst))
    else if c == b'%'
    then decode_escape block src dst
    else (put_byte block dst c >>= λ b. fine (onward b (src + 1) (dst + 1)))

unfoldable pub decode_loop : ℕ → List ℕ → ℕ → ℕ → Outcome (List ℕ × ℕ)
unfolding decode_round
decode_loop zero block src dst = fault
decode_loop (suc fuel) block src dst = decode_round block src dst >>= λ r. elim r [
  | finished b n ↦ fine (b, n)
  | onward b s d ↦ decode_loop fuel b s d
]

-- `avs_url_percent_decode` of the string at the start of the block: the block and `*unescaped_length`.
-- Each round but the last advances `src` in the string.
unfoldable pub percent_decode : List ℕ → Outcome (List ℕ × ℕ)
unfolding decode_loop text
percent_decode block = elim (text block) [
  | none ↦ fault
  | some t ↦
      if contains t b'%' then decode_loop (length block) block 0 0 else fine (block, length t)
]

unfoldable pub prepare_string : List ℕ → Outcome (List ℕ)
unfolding percent_decode text
prepare_string block = percent_decode block >>= λ r. elim (text r.0) [
  | none ↦ fault
  | some t ↦ if r.1 == length t then fine r.0 else refused
]

-- `is_valid_escape_sequence` at the start of a string.
unfoldable pub is_valid_escape_sequence : List ℕ → Bool
unfolding isxdigit
is_valid_escape_sequence (c ∷ h ∷ l ∷ cs) = c == b'%' && (isxdigit h && isxdigit l)
is_valid_escape_sequence _ = false

-- The loop of `is_valid_url_part`. A valid escape sequence is three characters long.
unfoldable pub is_valid_url_part : (ℕ → Bool) → List ℕ → Bool
unfolding is_valid_escape_sequence isxdigit
is_valid_url_part valid [] = true
is_valid_url_part valid (c ∷ []) = valid c
is_valid_url_part valid (c ∷ h ∷ []) = valid c && valid h
is_valid_url_part valid (c ∷ h ∷ l ∷ cs) = elim (valid c) [
  | true ↦ is_valid_url_part valid (h ∷ l ∷ cs)
  | false ↦ elim (is_valid_escape_sequence (c ∷ h ∷ l ∷ cs)) [
    | true ↦ is_valid_url_part valid cs
    | false ↦ false
  ]
]
