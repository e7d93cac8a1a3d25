-- ===== src/Persistence/Strings.antt =====
-- The strings of src/persistence/avs_persistence.c.
use avs_commons.Persistence.Blocks.{
  no_block, block, block_encoding, persist_sized_buffer-Writes, sized_buffer-Restored,
}
use avs_commons.Persistence.{store_vtable, restore_vtable, string}
use avs_commons.Persistence.Store.{persist_sized_buffer, persist_string, strlen}
use avs_commons.Persistence.Restore.{restore_string}
use avs_commons.Persistence.Codec.{Stored, Restored, IsCodec, kept-Stored}
use avs_commons.Stream.{VTable}
use avs_commons.Stream.Queue.{IsSource, IsSink}
use avs_commons.Stream.Copy.{Writes}
use avs_commons.Common.{
  ℕ, Bool, true, Option, none, some, ◌≡◌, refl, sym, ap, ◌∙◌, ◌<◌, ◌+◌, ◌-◌, ltb, List, [], ◌∷◌,
  ◌++◌, length, get_or, length-append, arith,
}

-- A string in a block of its own, with its null character at the end.
pub data IsText : Option (List ℕ) → Type 0 where
  no_text : IsText none
  text :
      (cs : List ℕ)
      → strlen (cs ++ 0 ∷ []) ≡ some (length cs)
      → length cs + 1 < 4294967296
      → IsText (some (cs ++ 0 ∷ []))

abbrev pub text_encoding : Option (List ℕ) → List ℕ
text_encoding none = block_encoding (none, 0)
text_encoding (some b) = block_encoding (some b, length b)

last_zero : (cs : List ℕ) → get_or (cs ++ 0 ∷ []) (length cs) 0 ≡ 0
last_zero [] = refl
last_zero (c ∷ cs) = last_zero cs

length-text : (cs : List ℕ) → length (cs ++ 0 ∷ []) ≡ length cs + 1
length-text cs = length-append cs (0 ∷ [])

-- A string is stored as a block.
persist_string-text :
    {S : Type 0} (v : VTable S) (s : S) (cs : List ℕ)
    → strlen (cs ++ 0 ∷ []) ≡ some (length cs)
    → persist_string v s (some (cs ++ 0 ∷ []))
      ≡ persist_sized_buffer v s (some (cs ++ 0 ∷ [])) (length (cs ++ 0 ∷ []))
unfolding persist_string
persist_string-text v s cs e =
    rw e (ap (persist_sized_buffer v s (some (cs ++ 0 ∷ []))) (sym (length-text cs)))

module _ {S : Type 0} {v : VTable S} {Valid : S → Type 0} {content : S → List ℕ}
    (source : IsSource v Valid content) (sink : IsSink v Valid content) (malloc : ℕ → Bool)
    (serves : (n : ℕ) → n < 4294967296 → malloc n ≡ true) where
  string-Stored :
      (s : S) (p : Option (List ℕ))
      → Valid s
      → IsText p
      → Stored Valid content s p (text_encoding p) (string v malloc (some store_vtable) s p)
  unfolding string persist_string
  string-Stored s p h no_text =
      kept-Stored sink s none (text_encoding none) (persist_sized_buffer v s none 0)
        (persist_sized_buffer-Writes sink s (none, 0) h no_block)
  string-Stored s p h (text cs e small) =
      let b : List ℕ = cs ++ 0 ∷ [] in
      let w =
        persist_sized_buffer-Writes sink s (some b, length b) h
          (block b (omega (arith, length-text cs)) (omega (arith, small, length-text cs))) in
      let stored : Writes sink s (text_encoding (some b)) (persist_string v s (some b)) =
        rw (persist_string-text v s cs e) w in
      kept-Stored sink s (some b) (text_encoding (some b)) (persist_string v s (some b)) stored

  string-Restored :
      (s : S) (p : Option (List ℕ)) (rest : List ℕ)
      → Valid s
      → IsText p
      → content s ≡ text_encoding p ++ rest
      → Restored Valid content p rest (string v malloc (some restore_vtable) s none)
  unfolding string restore_string
  string-Restored s p rest h no_text e =
      let r = sized_buffer-Restored source sink malloc serves s (none, 0) rest h no_block e in
      record {
        after = r.after;
        returns = rw r.returns refl;
        left = r.left;
        after-Valid = r.after-Valid;
      }
  string-Restored s p rest h (text cs z small) e =
      let b : List ℕ = cs ++ 0 ∷ [] in
      let size : length b ≡ length cs + 1 = length-text cs in
      let r =
        sized_buffer-Restored source sink malloc serves s (some b, length b) rest h
          (block b (omega (arith, size)) (omega (arith, small, size))) e in
      let some_bytes : ltb 0 (length b) ≡ true = ground (arith, size) in
      let last : get_or b (length b - 1) 0 ≡ 0 =
        ap (λ n. get_or b n 0) (omega (arith, size)) ∙ last_zero cs in
      record {
        after = r.after;
        returns = rw r.returns (rw some_bytes (rw last refl));
        left = r.left;
        after-Valid = r.after-Valid;
      }

  pub string-IsCodec : IsCodec Valid content none IsText text_encoding (string v malloc)
  string-IsCodec = record { stores = string-Stored; restores = string-Restored }

  -- A string of less than 2^32 bytes, or a null pointer; a stream that is a queue of bytes; memory that can
  -- be had. avs_persistence_string stores four bytes for the size and then the string with its null
  -- character, or as much of this as the stream takes before an error; and from all of this at the front of
  -- the stream it restores the same string, or null pointer, and takes no more bytes.
  pub string_round_trip :
      (s t : S) (p : Option (List ℕ)) (rest : List ℕ)
      → Valid s
      → Valid t
      → IsText p
      → content t ≡ text_encoding p ++ rest
      → Stored Valid content s p (text_encoding p) (string v malloc (some store_vtable) s p)
        × Restored Valid content p rest (string v malloc (some restore_vtable) t none)
  string_round_trip s t p rest h k g e = (string-Stored s p h g, string-Restored t p rest k g e)
