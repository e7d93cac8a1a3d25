-- ===== src/Numbers.antt =====
-- The byte orders of src/utils/avs_numbers.c, on a little-endian target, and the memory of an integer.
-- The operands of each `|` have no bit in common, so that it is a sum; a cast to w bits is `% 2 ^ w`.
pub mod ByteOrder
mod Tests
use avs_commons.Common.{ℕ, zero, suc, List, [], ◌∷◌, ◌+◌, ◌*◌, ◌/◌, ◌%◌, ◌^◌}

-- `avs_convert_be16`
unfoldable pub convert_be16 : ℕ → ℕ
convert_be16 value = (value / 256 + value * 256) % 65536

-- `avs_convert_be32`; `value & 0xFF00` is the second byte of the value, in its place.
unfoldable pub convert_be32 : ℕ → ℕ
convert_be32 value =
    (value / 16777216
      + value / 65536 % 256 * 65536 / 256
      + value / 256 % 256 * 256 * 256
      + value * 16777216)
    % 4294967296

-- `avs_convert_be64`
unfoldable pub convert_be64 : ℕ → ℕ
convert_be64 value =
    (value / 72057594037927936
      + value / 281474976710656 % 256 * 281474976710656 / 1099511627776
      + value / 1099511627776 % 256 * 1099511627776 / 16777216
      + value / 4294967296 % 256 * 4294967296 / 256
      + value / 16777216 % 256 * 16777216 * 256
      + value / 65536 % 256 * 65536 * 16777216
      + value / 256 % 256 * 256 * 1099511627776
      + value * 72057594037927936)
    % 18446744073709551616

-- `avs_htonf` and its like; a float is the word that shares its union.
unfoldable pub htonf : ℕ → ℕ
unfolding convert_be32
htonf ieee = convert_be32 ieee

unfoldable pub htond : ℕ → ℕ
unfolding convert_be64
htond ieee = convert_be64 ieee

unfoldable pub ntohf : ℕ → ℕ
unfolding convert_be32
ntohf v = convert_be32 v

unfoldable pub ntohd : ℕ → ℕ
unfolding convert_be64
ntohd v = convert_be64 v

-- The bytes of an integer of `width` bytes where it lies in memory.
abbrev pub to_memory : ℕ → ℕ → List ℕ
to_memory zero value = []
to_memory (suc width) value = value % 256 ∷ to_memory width (value / 256)

abbrev pub from_memory : List ℕ → ℕ
from_memory [] = 0
from_memory (b ∷ bs) = b + 256 * from_memory bs
