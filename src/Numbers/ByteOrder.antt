-- ===== src/Numbers/ByteOrder.antt =====
-- What src/utils/avs_numbers.c puts into memory has its most significant byte first.
use avs_commons.Numbers.{convert_be16, convert_be32, convert_be64, to_memory, from_memory}
use avs_commons.Common.{
  ℕ, zero, suc, List, [], ◌∷◌, ◌≡◌, refl, sym, ap, ◌∙◌, ◌<◌, ◌/◌, ◌%◌, ◌^◌, length, get_or, arith,
}

-- The last `width` digits of a number to the base 256, the most significant one first.
abbrev pub big_endian : ℕ → ℕ → List ℕ
big_endian zero value = []
big_endian (suc width) value = value / 256 ^ width % 256 ∷ big_endian width value

pub to_memory-convert_be16 : (x : ℕ) → x < 65536 → to_memory 2 (convert_be16 x) ≡ big_endian 2 x
unfolding convert_be16
to_memory-convert_be16 x h =
    let a : convert_be16 x % 256 ≡ x / 256 % 256 = omega (arith, h) in
    let b : convert_be16 x / 256 % 256 ≡ x / 1 % 256 = omega (arith, h) in rw a (rw b refl)

pub to_memory-convert_be32 :
    (x : ℕ) → x < 4294967296 → to_memory 4 (convert_be32 x) ≡ big_endian 4 x
unfolding convert_be32
to_memory-convert_be32 x h =
    let a : convert_be32 x % 256 ≡ x / 16777216 % 256 = omega (arith, h) in
    let b : convert_be32 x / 256 % 256 ≡ x / 65536 % 256 = omega (arith, h) in
    let c : convert_be32 x / 256 / 256 % 256 ≡ x / 256 % 256 = omega (arith, h) in
    let d : convert_be32 x / 256 / 256 / 256 % 256 ≡ x / 1 % 256 = omega (arith, h) in
    rw a (rw b (rw c (rw d refl)))

pub convert_be32-convert_be32 : (x : ℕ) → x < 4294967296 → convert_be32 (convert_be32 x) ≡ x
unfolding convert_be32
convert_be32-convert_be32 x h = omega (arith, h)

bound32 : (x : ℕ) → convert_be32 x < 4294967296
unfolding convert_be32
bound32 x = omega arith

bound : (x : ℕ) → convert_be64 x < 18446744073709551616
unfolding convert_be64
bound x = omega arith

pub to_memory-convert_be64 :
    (x : ℕ) → x < 18446744073709551616 → to_memory 8 (convert_be64 x) ≡ big_endian 8 x
unfolding convert_be64
to_memory-convert_be64 x h =
    let a : convert_be64 x % 256 ≡ x / 72057594037927936 % 256 = omega (arith, h) in
    let b : convert_be64 x / 256 % 256 ≡ x / 281474976710656 % 256 = omega (arith, h) in
    let c : convert_be64 x / 256 / 256 % 256 ≡ x / 1099511627776 % 256 = omega (arith, h) in
    let d : convert_be64 x / 256 / 256 / 256 % 256 ≡ x / 4294967296 % 256 = omega (arith, h) in
    let e : convert_be64 x / 256 / 256 / 256 / 256 % 256 ≡ x / 16777216 % 256 = omega (arith, h) in
    let f : convert_be64 x / 256 / 256 / 256 / 256 / 256 % 256 ≡ x / 65536 % 256 =
      omega (arith, h) in
    let g : convert_be64 x / 256 / 256 / 256 / 256 / 256 / 256 % 256 ≡ x / 256 % 256 =
      omega (arith, h) in
    let i : convert_be64 x / 256 / 256 / 256 / 256 / 256 / 256 / 256 % 256 ≡ x / 1 % 256 =
      omega (arith, h) in
    rw a (rw b (rw c (rw d (rw e (rw f (rw g (rw i refl)))))))

pub from_memory-to_memory : (width x : ℕ) → x < 256 ^ width → from_memory (to_memory width x) ≡ x
from_memory-to_memory zero x h = omega (arith, h)
from_memory-to_memory (suc width) x h =
    omega (arith, from_memory-to_memory width (x / 256) (omega (arith, h)))

-- Most significant first, and then least significant first.
big_endian-reversed :
    (x y : ℕ)
    → x < 18446744073709551616
    → y < 18446744073709551616
    → to_memory 8 y ≡ big_endian 8 x
    → big_endian 8 y ≡ to_memory 8 x
big_endian-reversed x y h k e =
    let at : (i : ℕ) → get_or (to_memory 8 y) i 0 ≡ get_or (big_endian 8 x) i 0 =
      λ i. ap (λ l. get_or l i 0) e in
    let a : y / 72057594037927936 % 256 ≡ x % 256 = omega (arith, at 7) in
    let b : y / 281474976710656 % 256 ≡ x / 256 % 256 = omega (arith, at 6) in
    let c : y / 1099511627776 % 256 ≡ x / 256 / 256 % 256 = omega (arith, at 5) in
    let d : y / 4294967296 % 256 ≡ x / 256 / 256 / 256 % 256 = omega (arith, at 4) in
    let f : y / 16777216 % 256 ≡ x / 256 / 256 / 256 / 256 % 256 = omega (arith, at 3) in
    let g : y / 65536 % 256 ≡ x / 256 / 256 / 256 / 256 / 256 % 256 = omega (arith, at 2) in
    let h : y / 256 % 256 ≡ x / 256 / 256 / 256 / 256 / 256 / 256 % 256 = omega (arith, at 1) in
    let i : y / 1 % 256 ≡ x / 256 / 256 / 256 / 256 / 256 / 256 / 256 % 256 = omega (arith, at 0) in
    rw a (rw b (rw c (rw d (rw f (rw g (rw h (rw i (refl))))))))

pub convert_be64-convert_be64 :
    (x : ℕ) → x < 18446744073709551616 → convert_be64 (convert_be64 x) ≡ x
convert_be64-convert_be64 x h =
    sym (from_memory-to_memory 8 (convert_be64 (convert_be64 x)) (bound (convert_be64 x)))
    ∙ ap from_memory (
        to_memory-convert_be64 (convert_be64 x) (bound x)
        ∙ big_endian-reversed x (convert_be64 x) h (bound x) (to_memory-convert_be64 x h))
    ∙ from_memory-to_memory 8 x h

-- What comes out of memory, with the most significant byte first.
pub convert_be16-big_endian : (x : ℕ) → x < 65536 → convert_be16 (from_memory (big_endian 2 x)) ≡ x
unfolding convert_be16
convert_be16-big_endian x h = omega (arith, h)

pub convert_be32-big_endian :
    (x : ℕ) → x < 4294967296 → convert_be32 (from_memory (big_endian 4 x)) ≡ x
convert_be32-big_endian x h =
    ap (λ l. convert_be32 (from_memory l)) (sym (to_memory-convert_be32 x h))
    ∙ ap convert_be32 (from_memory-to_memory 4 (convert_be32 x) (bound32 x))
    ∙ convert_be32-convert_be32 x h

pub convert_be64-big_endian :
    (x : ℕ) → x < 18446744073709551616 → convert_be64 (from_memory (big_endian 8 x)) ≡ x
convert_be64-big_endian x h =
    ap (λ l. convert_be64 (from_memory l)) (sym (to_memory-convert_be64 x h))
    ∙ ap convert_be64 (from_memory-to_memory 8 (convert_be64 x) (bound x))
    ∙ convert_be64-convert_be64 x h

pub length-big_endian : (width x : ℕ) → length (big_endian width x) ≡ width
length-big_endian zero x = refl
length-big_endian (suc width) x = ap suc (length-big_endian width x)

pub length-to_memory : (width x : ℕ) → length (to_memory width x) ≡ width
length-to_memory zero x = refl
length-to_memory (suc width) x = ap suc (length-to_memory width (x / 256))
