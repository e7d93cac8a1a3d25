-- ===== src/Common/Word.antt =====
-- The machine words of the C code: `size_t` arithmetic, with its wrap-around written out.
use avs_commons.Common.{ℕ, ◌+◌, ◌-◌, ◌%◌, ◌^◌}

-- `SIZE_MAX + 1`, on a target with a 64-bit `size_t`.
abbrev pub size_mod : ℕ
size_mod = 2 ^ 64

abbrev pub add_size : ℕ → ℕ → ℕ
add_size a b = (a + b) % size_mod

abbrev pub sub_size : ℕ → ℕ → ℕ
sub_size a b = (a + size_mod - b) % size_mod

-- What an `int` result of the code says: 0 is `ok`, and -1 is `fail`.
pub data Status : Type 0 where
  ok fail : Status
