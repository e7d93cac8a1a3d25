-- ===== src/Persistence/Words.antt =====
-- The integers, floats and blocks of a fixed size of src/persistence/avs_persistence.c.
use avs_commons.Persistence.{
  Context, store_vtable, restore_vtable, kept, u8, u16, u32, u64, bool, bytes, float, double,
}
use avs_commons.Persistence.Store.{
  persist_u16, persist_u32, persist_u64, persist_bool, persist_bytes,
}
use avs_commons.Persistence.Restore.{
  restore_u16, restore_u32, restore_u64, restore_bool, restore_bytes,
}
use avs_commons.Persistence.Codec.{IsCodec, write-Stored, read_reliably-Fetched, map-Stored}
use avs_commons.Numbers.{convert_be16, convert_be32, convert_be64, from_memory, to_memory}
use avs_commons.Numbers.ByteOrder.{
  big_endian, to_memory-convert_be16, to_memory-convert_be32, to_memory-convert_be64,
  length-big_endian, length-to_memory, convert_be16-big_endian, convert_be32-big_endian,
  convert_be64-big_endian,
}
use avs_commons.Stream.{VTable, Err, success, is_ok, write, read_reliably}
use avs_commons.Numbers.{htonf, htond, ntohf, ntohd}
use avs_commons.Persistence.Store.{persist_float, persist_double}
use avs_commons.Persistence.Restore.{restore_float, restore_double}
use avs_commons.Stream.Queue.{IsSource, IsSink}
use avs_commons.Common.{
  ◌>>=◌, ℕ, Option, some, ◌≡◌, refl, sym, ap, ◌∙◌, ◌<◌, List, [], ◌∷◌, ◌++◌, if◌then◌else◌, get_or,
  length, drop, drop_over, append-nil, arith,
}

module _ {S : Type 0} {v : VTable S} {Valid : S → Type 0} {content : S → List ℕ}
    (source : IsSource v Valid content) (sink : IsSink v Valid content) where
  -- What is stored and restored as one word, in the other byte order than it has in memory.
  word-IsCodec :
      (width : ℕ) (good : ℕ → Type 0) (convert : ℕ → ℕ)
      (f : Option Context → S → ℕ → Option (Err × (ℕ × S))) (blank : ℕ)
      → width < 9223372036854775808
      → ((x : ℕ) → good x → to_memory width (convert x) ≡ big_endian width x)
      → ((x : ℕ) → good x → convert (from_memory (big_endian width x)) ≡ x)
      → ((s : S) (x : ℕ)
          → f (some store_vtable) s x ≡ kept x (write v s (to_memory width (convert x))))
      → ((s : S)
          → f (some restore_vtable) s blank ≡ (
              read_reliably v s width >>= λ r.
              some (r.0, (if is_ok r.0 then convert (from_memory r.1.0) else blank, r.1.1))))
      → IsCodec Valid content blank good (big_endian width) f
  word-IsCodec width good convert f blank small to from store restore = record {
    stores = λ s x h k. rw (store s x) (
        write-Stored sink s x (to_memory width (convert x)) (big_endian width x) h
          (omega (arith, small, length-to_memory width (convert x))) (to x k));
    restores = λ s x rest h k e.
        let r = read_reliably-Fetched source s (big_endian width x) rest h e in
        record {
          after = r.after;
          returns =
              restore s
              ∙ ap
                  (λ n. read_reliably v s n >>= λ r.
                    some (r.0, (if is_ok r.0 then convert (from_memory r.1.0) else blank, r.1.1)))
                  (sym (length-big_endian width x))
              ∙ rw r.reads (ap (λ n. some (success, (n, r.after))) (from x k));
          left = r.left;
          after-Valid = r.after-Valid;
        };
  }

  pub u16-IsCodec :
      (blank : ℕ) → IsCodec Valid content blank (λ x. x < 65536) (big_endian 2) (u16 v)
  unfolding u16 persist_u16 restore_u16
  u16-IsCodec blank =
      word-IsCodec 2 (λ x. x < 65536) convert_be16 (u16 v) blank (omega arith)
        to_memory-convert_be16 convert_be16-big_endian (λ s x. refl) (λ s. refl)

  pub u32-IsCodec :
      (blank : ℕ) → IsCodec Valid content blank (λ x. x < 4294967296) (big_endian 4) (u32 v)
  unfolding u32 persist_u32 restore_u32
  u32-IsCodec blank =
      word-IsCodec 4 (λ x. x < 4294967296) convert_be32 (u32 v) blank (omega arith)
        to_memory-convert_be32 convert_be32-big_endian (λ s x. refl) (λ s. refl)

  pub u64-IsCodec :
      (blank : ℕ)
      → IsCodec Valid content blank (λ x. x < 18446744073709551616) (big_endian 8) (u64 v)
  unfolding u64 persist_u64 restore_u64
  u64-IsCodec blank =
      word-IsCodec 8 (λ x. x < 18446744073709551616) convert_be64 (u64 v) blank (omega arith)
        to_memory-convert_be64 convert_be64-big_endian (λ s x. refl) (λ s. refl)

  pub float-IsCodec :
      (blank : ℕ) → IsCodec Valid content blank (λ x. x < 4294967296) (big_endian 4) (float v)
  unfolding float persist_float restore_float htonf ntohf
  float-IsCodec blank =
      word-IsCodec 4 (λ x. x < 4294967296) convert_be32 (float v) blank (omega arith)
        to_memory-convert_be32 convert_be32-big_endian (λ s x. refl) (λ s. refl)

  pub double-IsCodec :
      (blank : ℕ)
      → IsCodec Valid content blank (λ x. x < 18446744073709551616) (big_endian 8) (double v)
  unfolding double persist_double restore_double htond ntohd
  double-IsCodec blank =
      word-IsCodec 8 (λ x. x < 18446744073709551616) convert_be64 (double v) blank (omega arith)
        to_memory-convert_be64 convert_be64-big_endian (λ s x. refl) (λ s. refl)

  pub bytes-IsCodec :
      (blank : List ℕ)
      → length blank < 9223372036854775808
      → IsCodec Valid content blank (λ l. length l ≡ length blank) (λ l. l) (bytes v)
  unfolding bytes persist_bytes restore_bytes
  bytes-IsCodec blank small = record {
    stores = λ s l h k. write-Stored sink s l l l h (omega (arith, small, k)) refl;
    restores = λ s l rest h k e.
        let r = read_reliably-Fetched source s l rest h e in
        record {
          after = r.after;
          returns =
              ap
                (λ n. read_reliably v s n >>= λ r.
                  some (r.0, (r.1.0 ++ drop (length r.1.0) blank, r.1.1)))
                (sym k)
              ∙ rw r.reads (
                  ap (λ x. some (success, (l ++ x, r.after)))
                    (drop_over blank (length l) (omega (arith, k)))
                  ∙ ap (λ x. some (success, (x, r.after))) (append-nil l));
          left = r.left;
          after-Valid = r.after-Valid;
        };
  }

  pub bool-IsCodec : (blank : ℕ) → IsCodec Valid content blank (λ x. x < 2) (λ x. x ∷ []) (bool v)
  unfolding bool persist_bool restore_bool
  bool-IsCodec blank = record {
    stores = λ s x h k. write-Stored sink s x (x ∷ []) (x ∷ []) h (omega arith) refl;
    restores = λ s x rest h k e.
        let r = read_reliably-Fetched source s (x ∷ []) rest h e in
        record {
          after = r.after;
          returns = rw r.reads refl;
          left = r.left;
          after-Valid = r.after-Valid;
        };
  }

  pub u8-IsCodec : (blank : ℕ) → IsCodec Valid content blank (λ x. x < 256) (λ x. x ∷ []) (u8 v)
  unfolding u8 bytes persist_bytes restore_bytes
  u8-IsCodec blank = record {
    stores = λ s x h k.
        map-Stored (λ l. get_or l 0 x) refl
          (write-Stored sink s (x ∷ []) (x ∷ []) (x ∷ []) h (omega arith) refl);
    restores = λ s x rest h k e.
        let r = read_reliably-Fetched source s (x ∷ []) rest h e in
        record {
          after = r.after;
          returns = rw r.reads refl;
          left = r.left;
          after-Valid = r.after-Valid;
        };
  }
