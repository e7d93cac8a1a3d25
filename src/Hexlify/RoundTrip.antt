-- ===== src/Hexlify/RoundTrip.antt =====
-- What `avs_hexlify` of src/utils/avs_hexlify.c writes, `avs_unhexlify` reads.
use avs_commons.Hexlify.{
  hex_digit, hex_loop, hexlify, char_to_value, hex_to_uint8, unhex_loop, unhexlify,
}
use avs_commons.Common.{
  ℕ, zero, suc, true, false, ◌≡◌, refl, ap, ◌∙◌, ◌<◌, ◌≤◌, ◌+◌, ◌-◌, ◌*◌, ◌/◌, ◌%◌, ◌==◌, some,
  List, [], ◌∷◌, ◌++◌, ◌⊎◌, length-append, length, take, min, arith,
}
use avs_commons.Common.Word.{ok, fail}

abbrev pub Bytes : List ℕ → Type 0
Bytes [] = Unit
Bytes (x ∷ xs) = x < 256 × Bytes xs

pub char_to_value-hex_digit : (d : ℕ) → d < 16 → char_to_value (hex_digit d) ≡ some d
unfolding char_to_value hex_digit
char_to_value-hex_digit d h = ground arith

hex_to_uint8-hex_digit :
    (b : ℕ) → b < 256 → hex_to_uint8 (hex_digit (b / 16)) (hex_digit (b % 16)) ≡ some b
unfolding hex_to_uint8
hex_to_uint8-hex_digit b h = ground (
  arith,
  char_to_value-hex_digit (b / 16) (omega (arith, h)),
  char_to_value-hex_digit (b % 16) (omega arith),
)

length-hex_loop : (bs : List ℕ) → length (hex_loop bs) ≡ 2 * length bs
unfolding hex_loop
length-hex_loop [] = refl
length-hex_loop (b ∷ bs) = omega (arith, length-hex_loop bs)

unhex_loop-hex_loop :
    (bs : List ℕ)
    → Bytes bs
    → (n : ℕ) → n ≤ length bs
    → unhex_loop n (hex_loop bs) ≡ (ok, take n bs)
unfolding unhex_loop hex_loop
unhex_loop-hex_loop bs h zero k = refl
unhex_loop-hex_loop [] h (suc n) k = absurd (omega (arith, k))
unhex_loop-hex_loop (b ∷ bs) h (suc n) k =
    rw (hex_to_uint8-hex_digit b h.0, unhex_loop)
      (ap (λ r. (r.0, b ∷ r.1)) (unhex_loop-hex_loop bs h.1 n (omega (arith, k))))

length-take_le : (n : ℕ) (xs : List ℕ) → n ≤ length xs → length (take n xs) ≡ n
length-take_le zero xs h = refl
length-take_le (suc n) [] h = absurd (omega (arith, h))
length-take_le (suc n) (x ∷ xs) h = ap suc (length-take_le n xs (omega (arith, h)))

take_whole : (xs : List ℕ) → take (length xs) xs ≡ xs
take_whole [] = refl
take_whole (x ∷ xs) = ap (λ l. x ∷ l) (take_whole xs)

-- For bytes that fit into the buffer with two characters each and the terminator, avs_hexlify tells that
-- it has written all of them, and avs_unhexlify of its text, into a buffer for at least as many bytes,
-- returns 0 and exactly the bytes.
pub unhexlify-hexlify :
    (xs : List ℕ)
    → Bytes xs
    → (out_size size : ℕ) → 2 * length xs < out_size
    → length xs ≤ size
    → (text : List ℕ) × ((hexlify out_size xs ≡ (ok, (length xs, text ++ 0 ∷ [])))
        × (unhexlify size text ≡ (ok, xs)))
unfolding hexlify unhexlify
unhexlify-hexlify xs h out_size size fits room = (hex_loop xs, (writes, reads))
  where
    count : min (length xs) ((out_size - 1) / 2) ≡ length xs
    count = omega arith

    some_room : (out_size == 0) ≡ false
    some_room = ground arith

    writes : hexlify out_size xs ≡ (ok, (length xs, hex_loop xs ++ 0 ∷ []))
    writes =
        rw (some_room, hexlify)
          (rw count (ap (λ l. (ok, (length xs, hex_loop l ++ 0 ∷ []))) (take_whole xs)))

    even : (length (hex_loop xs) % 2 == 0) ≡ true
    even = ground (arith, length-hex_loop xs)

    bytes : min (length (hex_loop xs) / 2) size ≡ length xs
    bytes = omega (arith, length-hex_loop xs)

    reads : unhexlify size (hex_loop xs) ≡ (ok, xs)
    reads =
        rw (even, unhexlify)
          (rw bytes (
            unhex_loop-hex_loop xs h (length xs) (omega arith) ∙ ap (λ l. (ok, l)) (take_whole xs)))

-- avs_hexlify fails exactly if the buffer is empty; else it writes two characters for each byte that it
-- tells, which are as many as there are and fit, and the terminator, all within the buffer.
pub hexlify-bounds :
    (out_size : ℕ) (xs : List ℕ)
    → ((out_size ≡ 0) × (hexlify out_size xs ≡ (fail, (0, []))))
      ⊎ ((0 < out_size)
          × (((hexlify out_size xs).0 ≡ ok)
              × (((hexlify out_size xs).1.0 ≡ min (length xs) ((out_size - 1) / 2))
                  × ((length (hexlify out_size xs).1.1 ≡ 2 * (hexlify out_size xs).1.0 + 1)
                      × (length (hexlify out_size xs).1.1 ≤ out_size)))))
unfolding hexlify
hexlify-bounds out_size xs =
    let n = min (length xs) ((out_size - 1) / 2) in
    ground (
      arith,
      length-append (hex_loop (take n xs)) (0 ∷ []),
      length-hex_loop (take n xs),
      length-take_le n xs (omega arith),
    )
