-- ===== src/Numbers/Tests.antt =====
-- Runs of src/utils/avs_numbers.c.
use avs_commons.Numbers.{convert_be16, convert_be32, convert_be64}
use avs_commons.Common.{◌≡◌, refl}

convert_be16-value : convert_be16 0x1234 ≡ 0x3412
unfolding convert_be16
convert_be16-value = refl

convert_be32-value : convert_be32 0x12345678 ≡ 0x78563412
unfolding convert_be32
convert_be32-value = refl

convert_be64-value : convert_be64 0x123456789ABCDEF0 ≡ 0xF0DEBC9A78563412
unfolding convert_be64
convert_be64-value = refl
