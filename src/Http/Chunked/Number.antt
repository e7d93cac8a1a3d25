-- ===== src/Http/Chunked/Number.antt =====
-- The numbers of src/http/body_receivers/avs_chunked_body_receiver.c: `strtoul(line, &endptr, 16)` of C,
-- with an unsigned long of 64 bits.
use avs_commons.Common.{
  ℕ, Bool, true, false, not, ◌&&◌, ◌||◌, none, some, List, [], ◌∷◌, ◌==◌, ◌+◌, ◌-◌, ◌*◌, ◌%◌, leb,
  if◌then◌else◌,
}
use avs_commons.Base64.{isspace}
use avs_commons.Common.Word.{size_mod}
use avs_commons.Hexlify.{char_to_value}

-- The value, whether `errno` is set to ERANGE, and the text at `endptr`.
pub record Parsed : Type 0 where
  pub value : ℕ
  pub range_error : Bool
  pub rest : List ℕ

unfoldable pub skip_space : List ℕ → List ℕ
unfolding isspace
skip_space [] = []
skip_space (c ∷ cs) = let more = skip_space cs in if isspace c then more else c ∷ cs

-- Whether there is a minus sign, and the text behind the sign.
unfoldable pub take_sign : List ℕ → Bool × List ℕ
take_sign [] = (false, [])
take_sign (c ∷ cs) =
    if c == b'-' then (true, cs) else if c == b'+' then (false, cs) else (false, c ∷ cs)

unfoldable pub is_hex : ℕ → Bool
unfolding char_to_value
is_hex c = elim (char_to_value c) [ none ↦ false | some d ↦ true ]

-- A prefix `0x` counts if a digit is behind it.
unfoldable pub skip_prefix : List ℕ → List ℕ
unfolding is_hex
skip_prefix (z ∷ x ∷ d ∷ cs) =
    if z == b'0' && ((x == b'x' || x == b'X') && is_hex d) then d ∷ cs else z ∷ x ∷ d ∷ cs
skip_prefix t = t

-- The digits: the value, and whether it was too large at some point.
unfoldable pub digits_loop : List ℕ → ℕ → Bool → Parsed
unfolding char_to_value
digits_loop [] value over = record { value = value; range_error = over; rest = [] }
digits_loop (c ∷ cs) value over = elim (char_to_value c) [
  | none ↦ record { value = value; range_error = over; rest = c ∷ cs }
  | some d ↦ digits_loop cs (value * 16 + d) (over || leb size_mod (value * 16 + d))
]

unfoldable pub starts_hex : List ℕ → Bool
unfolding is_hex
starts_hex [] = false
starts_hex (c ∷ cs) = is_hex c

unfoldable pub strtoul : List ℕ → Parsed
unfolding skip_space take_sign skip_prefix digits_loop starts_hex
strtoul line =
    let s = take_sign (skip_space line) in
    let t = skip_prefix s.1 in
    let n = digits_loop t 0 false in
    if not (starts_hex t)
    then record { value = 0; range_error = false; rest = line }
    else if n.range_error
    then record { value = size_mod - 1; range_error = true; rest = n.rest }
    else record {
      value = if s.0 then (size_mod - n.value) % size_mod else n.value;
      range_error = false;
      rest = n.rest;
    }
