-- ===== src/Persistence/Signed.antt =====
-- The signed integers of src/persistence/avs_persistence.c.
use avs_commons.Persistence.{
  store_vtable, restore_vtable, Context, as_signed, to_word, of_word, u8, u16, u32, u64, i8, i16,
  i32, i64,
}
use avs_commons.Persistence.Codec.{IsCodec, Stored, Restored, map-Stored, map-Restored}
use avs_commons.Numbers.ByteOrder.{big_endian}
use avs_commons.Stream.{VTable, Err}
use avs_commons.Common.Int.{ℤ, pos, negsuc}
use avs_commons.Stream.Queue.{IsSource, IsSink}
use avs_commons.Common.{
  ℕ, suc, false, Option, ◌≡◌, refl, ap, ◌≤◌, ◌<◌, ◌+◌, List, [], some, ◌∷◌, ◌++◌, ltb, ◌-◌, arith,
}
use avs_commons.Persistence.Words.{u8-IsCodec, u16-IsCodec, u32-IsCodec, u64-IsCodec}

-- The values of a signed type of an even number of words.
unfoldable pub InRange : ℕ → ℤ → Type 0
InRange modulus (pos n) = n + n < modulus
InRange modulus (negsuc n) = suc n + suc n ≤ modulus

of_word-to_word : (m k : ℕ) (z : ℤ) → m ≡ k + k → InRange m z → of_word m (to_word m z) ≡ z
unfolding InRange
of_word-to_word m k (pos n) e h = ground (arith, e, h)
of_word-to_word m k (negsuc n) e h =
    let over : ltb (m - suc n + (m - suc n)) m ≡ false = ground (arith, h) in
    rw over (ap negsuc (omega (arith, h)))

to_word_bound : (m : ℕ) (z : ℤ) → InRange m z → to_word m z < m
unfolding InRange
to_word_bound m (pos n) h = omega (arith, h)
to_word_bound m (negsuc n) h = omega (arith, h)

-- A signed type is stored as the unsigned one that shares its memory.
signed-IsCodec :
    {S : Type 0} {Valid : S → Type 0} {content : S → List ℕ} (m k : ℕ) (encoding : ℕ → List ℕ)
    (f : Option Context → S → ℕ → Option (Err × (ℕ × S))) (blank : ℤ)
    → m ≡ k + k
    → IsCodec Valid content (to_word m blank) (λ x. x < m) encoding f
    → IsCodec Valid content blank
        (InRange m)
        (λ z. encoding (to_word m z))
        (λ ctx s z. as_signed m (f ctx s (to_word m z)))
signed-IsCodec m k encoding f blank even c = record {
  stores = λ s z h r.
      map-Stored (of_word m) (of_word-to_word m k z even r)
        (c.stores s (to_word m z) h (to_word_bound m z r));
  restores = λ s z rest h r e.
      map-Restored (of_word m) (of_word-to_word m k z even r)
        (c.restores s (to_word m z) rest h (to_word_bound m z r) e);
}

module _ {S : Type 0} {v : VTable S} {Valid : S → Type 0} {content : S → List ℕ}
    (source : IsSource v Valid content) (sink : IsSink v Valid content) (blank : ℤ) where
  pub i8-IsCodec : IsCodec Valid content blank (InRange 256) (λ z. to_word 256 z ∷ []) (i8 v)
  unfolding i8
  i8-IsCodec =
      signed-IsCodec 256 128 (λ x. x ∷ []) (u8 v) blank refl
        (u8-IsCodec source sink (to_word 256 blank))

  pub i16-IsCodec :
      IsCodec Valid content blank (InRange 65536) (λ z. big_endian 2 (to_word 65536 z)) (i16 v)
  unfolding i16
  i16-IsCodec =
      signed-IsCodec 65536 32768 (big_endian 2) (u16 v) blank refl
        (u16-IsCodec source sink (to_word 65536 blank))

  pub i32-IsCodec :
      IsCodec Valid content blank
        (InRange 4294967296)
        (λ z. big_endian 4 (to_word 4294967296 z))
        (i32 v)
  unfolding i32
  i32-IsCodec =
      signed-IsCodec 4294967296 2147483648 (big_endian 4) (u32 v) blank refl
        (u32-IsCodec source sink (to_word 4294967296 blank))

  pub i64-IsCodec :
      IsCodec Valid content blank
        (InRange 18446744073709551616)
        (λ z. big_endian 8 (to_word 18446744073709551616 z))
        (i64 v)
  unfolding i64
  i64-IsCodec =
      signed-IsCodec 18446744073709551616 9223372036854775808 (big_endian 8) (u64 v) blank refl
        (u64-IsCodec source sink (to_word 18446744073709551616 blank))

  -- A signed 64-bit integer, on a stream that is a queue of bytes: avs_persistence_i64 stores the eight
  -- bytes of its two's complement, the most significant one first, or as many of them as the stream takes
  -- before an error; and from these at the front of the stream it restores the same integer, and takes no
  -- more bytes.
  pub i64_round_trip :
      (s t : S) (z : ℤ) (rest : List ℕ)
      → Valid s
      → Valid t
      → InRange 18446744073709551616 z
      → content t ≡ big_endian 8 (to_word 18446744073709551616 z) ++ rest
      → Stored Valid content s z
          (big_endian 8 (to_word 18446744073709551616 z))
          (i64 v (some store_vtable) s z)
        × Restored Valid content z rest (i64 v (some restore_vtable) t blank)
  i64_round_trip s t z rest h k g e =
      (i64-IsCodec.stores s z h g, i64-IsCodec.restores t z rest k g e)
