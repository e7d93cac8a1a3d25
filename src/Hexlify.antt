-- ===== src/Hexlify.antt =====
-- src/utils/avs_hexlify.c: bytes as hexadecimal digits and back. Characters and bytes are numbers below
-- 256; an output buffer is the list of what was written to it, and the pointers are not null.
pub mod RoundTrip
mod Tests
use avs_commons.Common.{
  ℕ, zero, suc, Bool, true, false, not, ◌&&◌, ◌||◌, Option, none, some, List, [], ◌∷◌, ◌++◌, ◌==◌,
  ltb, leb, ◌+◌, ◌-◌, ◌*◌, ◌/◌, ◌%◌, if◌then◌else◌, length, take, min,
}
use avs_commons.Common.Word.{Status, ok, fail}

-- `HEX[d]`
unfoldable pub hex_digit : ℕ → ℕ
hex_digit d = if ltb d 10 then 48 + d else 87 + d

-- The loop over the bytes.
pub hex_loop : List ℕ → List ℕ
unfolding hex_digit
hex_loop [] = []
hex_loop (b ∷ bs) = hex_digit (b / 16) ∷ hex_digit (b % 16) ∷ hex_loop bs

-- `avs_hexlify`: the status, `*out_bytes_hexlified`, and what was written to `out_hex`.
pub hexlify : ℕ → List ℕ → Status × (ℕ × List ℕ)
unfolding hex_loop
hexlify out_size input =
    let bytes_to_hexlify = min (length input) ((out_size - 1) / 2) in
    if out_size == 0
    then (fail, (0, []))
    else (ok, (bytes_to_hexlify, hex_loop (take bytes_to_hexlify input) ++ 0 ∷ []))

-- `none` stands for -1.
unfoldable pub char_to_value : ℕ → Option ℕ
char_to_value c =
    if leb 48 c && leb c 57
    then some (c - 48)
    else if leb 97 c && leb c 102
    then some (c - 97 + 10)
    else if leb 65 c && leb c 70
    then some (c - 65 + 10)
    else none

-- The shift by four bits clears the bits of the second value, so that `|` adds it.
pub hex_to_uint8 : ℕ → ℕ → Option ℕ
unfolding char_to_value
hex_to_uint8 a b = elim (char_to_value a) [
  | none ↦ none
  | some x ↦ elim (char_to_value b) [ none ↦ none | some y ↦ some (x * 16 + y) ]
]

-- The loop of `avs_unhexlify` for `n` bytes, with what it writes. The input has two characters for
-- each of them; a shorter one, which is not passed to it, ends the loop.
pub unhex_loop : ℕ → List ℕ → Status × List ℕ
unfolding hex_to_uint8
unhex_loop zero cs = (ok, [])
unhex_loop (suc n) [] = (fail, [])
unhex_loop (suc n) (a ∷ []) = (fail, [])
unhex_loop (suc n) (a ∷ b ∷ cs) =
    let rest = unhex_loop n cs in
    elim (hex_to_uint8 a b) [ none ↦ (fail, []) | some x ↦ (rest.0, x ∷ rest.1) ]

-- `avs_unhexlify` on an input of `length input` characters; on success `*out_bytes_written` is the
-- length of what was written.
pub unhexlify : ℕ → List ℕ → Status × List ℕ
unfolding unhex_loop
unhexlify out_size input =
    if not (length input % 2 == 0)
    then (fail, [])
    else unhex_loop (min (length input / 2) out_size) input
