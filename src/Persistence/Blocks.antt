-- ===== src/Persistence/Blocks.antt =====
-- The sized buffers of src/persistence/avs_persistence.c.
use avs_commons.Persistence.{
  Context, store_vtable, restore_vtable, kept, bytes, sized_buffer, string,
}
use avs_commons.Persistence.Store.{persist_u32, persist_bytes, persist_sized_buffer}
use avs_commons.Persistence.Restore.{restore_u32, restore_bytes, restore_sized_buffer}
use avs_commons.Persistence.Codec.{
  Stored, Restored, IsCodec, appended_more, appended_stop, persist_u32-Writes, persist_bytes-Writes,
  kept-Stored,
}
use avs_commons.Persistence.Words.{u32-IsCodec, bytes-IsCodec}
use avs_commons.Persistence
use avs_commons.Numbers.ByteOrder.{big_endian}
use avs_commons.Stream.{VTable, success, is_ok}
use avs_commons.Stream.Queue.{IsSource, IsSink}
use avs_commons.Stream.Copy.{Writes}
use mathlib.Core.Bool.{false≢true}
use avs_commons.Common.{
  ◌>>=◌, ℕ, Bool, true, false, ◌&&◌, Option, none, some, ◌≡◌, refl, sym, ap, ◌∙◌, ◌<◌, ◌+◌, ◌%◌,
  ◌==◌, ltb, if◌then◌else◌, List, [], ◌++◌, length, length-append, take, take_all, append-nil,
  append_assoc, replicate, length-replicate, Bool-cases, inl, inr, arith,
}

-- A pointer and a size that fit together, as a restore leaves them; a size of 32 bits.
pub data IsBlock : Option (List ℕ) × ℕ → Type 0 where
  no_block : IsBlock (none, 0)
  block : (b : List ℕ) → 0 < length b → length b < 4294967296 → IsBlock (some b, length b)

abbrev pub payload : Option (List ℕ) → List ℕ
payload none = []
payload (some b) = b

abbrev pub block_encoding : Option (List ℕ) × ℕ → List ℕ
block_encoding p = big_endian 4 p.1 ++ payload p.0

take_whole : (b : List ℕ) → take (length b) b ≡ b
take_whole b = ap (take (length b)) (sym (append-nil b)) ∙ take_all b []

persist_sized_buffer-whole :
    {S : Type 0} (v : VTable S) (s : S) (b : List ℕ)
    → length b < 4294967296
    → persist_sized_buffer v s (some b) (length b) ≡ (
        persist_u32 v s (length b) >>= λ r.
        if is_ok r.0 && ltb 0 (length b) then persist_bytes v r.1 b else some (r.0, r.1))
unfolding persist_sized_buffer
persist_sized_buffer-whole v s b small =
    let whole : length b % 4294967296 ≡ length b = omega (arith, small) in
    let same : (length b == length b) ≡ true = ground arith in
    let inside : ltb (length b) (length b) ≡ false = ground arith in
    rw whole (rw same (rw inside (rw (take_whole b) refl)))

module _ {S : Type 0} {v : VTable S} {Valid : S → Type 0} {content : S → List ℕ} where
  pub persist_sized_buffer-Writes :
      (sink : IsSink v Valid content) (s : S) (p : Option (List ℕ) × ℕ)
      → Valid s
      → IsBlock p
      → Writes sink s (block_encoding p) (persist_sized_buffer v s p.0 p.1)
  unfolding persist_sized_buffer
  persist_sized_buffer-Writes sink s p h no_block =
      let w = persist_u32-Writes sink s 0 h (omega arith) in
      let never : (is_ok w.err && false) ≡ false = ground arith in
      record {
        err = w.err;
        count = w.count;
        after = w.after;
        writes = rw w.writes (rw never refl);
        few = w.few;
        appended = w.appended;
        complete = w.complete;
        after-Valid = w.after-Valid;
      }
  persist_sized_buffer-Writes sink s p h (block b some_bytes small) =
      let size = big_endian 4 (length b) in
      let w = persist_u32-Writes sink s (length b) h small in
      let more : ltb 0 (length b) ≡ true = ground (arith, some_bytes) in
      elim (Bool-cases (is_ok w.err)) [
        | inl ok ↦
            let q = persist_bytes-Writes sink w.after b w.after-Valid (omega (arith, small)) in
            record {
              err = q.err;
              count = length size + q.count;
              after = q.after;
              writes =
                  persist_sized_buffer-whole v s b small ∙ rw w.writes (rw ok (rw more q.writes));
              few = omega (arith, q.few, length-append size b);
              appended =
                  appended_more (content s) (content w.after) (content q.after) size b w.count
                    q.count w.appended (w.complete ok) q.appended;
              complete = λ o. omega (arith, q.complete o, length-append size b);
              after-Valid = q.after-Valid;
            }
        | inr bad ↦ record {
          err = w.err;
          count = w.count;
          after = w.after;
          writes = persist_sized_buffer-whole v s b small ∙ rw w.writes (rw bad refl);
          few = omega (arith, w.few, length-append size b);
          appended = appended_stop (content s) (content w.after) size b w.count w.appended w.few;
          complete = λ o. absurd (false≢true (sym bad ∙ o));
          after-Valid = w.after-Valid;
        }
      ]

  pub sized_buffer-Stored :
      (sink : IsSink v Valid content) (malloc : ℕ → Bool) (s : S) (p : Option (List ℕ) × ℕ)
      → Valid s
      → IsBlock p
      → Stored Valid content s p (block_encoding p) (sized_buffer v malloc (some store_vtable) s p)
  unfolding sized_buffer
  sized_buffer-Stored sink malloc s p h k =
      kept-Stored sink s p (block_encoding p) (persist_sized_buffer v s p.0 p.1)
        (persist_sized_buffer-Writes sink s p h k)

  module _ (source : IsSource v Valid content) (sink : IsSink v Valid content) (malloc : ℕ → Bool)
      (serves : (n : ℕ) → n < 4294967296 → malloc n ≡ true) where
    pub sized_buffer-Restored :
        (s : S) (p : Option (List ℕ) × ℕ) (rest : List ℕ)
        → Valid s
        → IsBlock p
        → content s ≡ block_encoding p ++ rest
        → Restored Valid content p rest (restore_sized_buffer v malloc s none 0)
    unfolding restore_sized_buffer Persistence.u32 bytes
    sized_buffer-Restored s p rest h no_block e =
        let r = (u32-IsCodec source sink 0).restores s 0 rest h (omega arith) e in
        let size : restore_u32 v s 0 ≡ some (success, (0, r.after)) = r.returns in
        record {
          after = r.after;
          returns = rw size refl;
          left = r.left;
          after-Valid = r.after-Valid;
        }
    sized_buffer-Restored s p rest h (block b some_bytes small) e =
        let r =
          (u32-IsCodec source sink 0).restores s (length b) (b ++ rest) h small
            (e ∙ append_assoc (big_endian 4 (length b)) b rest) in
        let zeros : List ℕ = replicate (length b) 0 in
        let same : length zeros ≡ length b = length-replicate (length b) 0 in
        let q =
          (bytes-IsCodec source sink zeros (omega (arith, small, same))).restores r.after b rest
            r.after-Valid (sym same) r.left in
        let size : restore_u32 v s 0 ≡ some (success, (length b, r.after)) = r.returns in
        let fetched : restore_bytes v r.after zeros ≡ some (success, (b, q.after)) = q.returns in
        let more : (length b == 0) ≡ false = ground (arith, some_bytes) in
        record {
          after = q.after;
          returns = rw size (rw more (rw (serves (length b) small) (rw fetched refl)));
          left = q.left;
          after-Valid = q.after-Valid;
        }

    pub sized_buffer-IsCodec :
        IsCodec Valid content (none, 0) IsBlock block_encoding (sized_buffer v malloc)
    unfolding sized_buffer
    sized_buffer-IsCodec = record {
      stores = sized_buffer-Stored sink malloc;
      restores = sized_buffer-Restored;
    }
