-- ===== src/Membuf.antt =====
-- src/stream/avs_stream_membuf.c: a stream on a growing block of memory. `buffer` are the bytes that the
-- block holds before `index_write`; what lies behind is not read. `realloc` is given whether the
-- allocator can serve a size. `none` as a result stands for a failed assertion or an access outside of
-- the block.
pub mod Queue
pub mod Write
mod Tests
use avs_commons.Common.{
  ◌>>=◌, ℕ, zero, suc, Bool, true, false, not, ◌&&◌, ◌||◌, Option, none, some, List, [], ◌∷◌, ◌++◌,
  ◌==◌, ltb, leb, ◌+◌, ◌-◌, ◌*◌, ◌%◌, if◌then◌else◌, length, take, drop, get_elem?,
}
use avs_commons.Stream.{
  Err, success, eof, errno, enomem, e2big, einval, is_ok, VTable, Extension, extension_offset,
  find_extension, enotsup,
}

abbrev pub extension_membuf : ℕ
extension_membuf = 0x4D454D42

-- `struct avs_stream_membuf_struct`
pub record Membuf : Type 0 where
  pub buffer : List ℕ
  pub buffer_size : ℕ
  pub index_write : ℕ
  pub index_read : ℕ

-- `avs_stream_membuf_create`, where the allocation succeeds.
unfoldable pub create : Membuf
create = record { buffer = []; buffer_size = 0; index_write = 0; index_read = 0 }

pub defragment : Membuf → Membuf
defragment s = if s.index_read == 0 then s else record s {
  buffer = drop s.index_read s.buffer;
  index_write = s.index_write - s.index_read;
  index_read = 0;
}

-- A block of no bytes may be a null pointer.
pub realloc_membuf : (ℕ → Bool) → Membuf → ℕ → Option (Err × Membuf)
realloc_membuf realloc s new_size =
    if not (s.index_read == 0 && leb s.index_write new_size)
    then none
    else if not (realloc new_size) && not (new_size == 0)
    then some (errno enomem, s)
    else some (success, record s { buffer_size = new_size })

-- The last part of `stream_membuf_write_some`, for the first `n` bytes.
pub put : Membuf → List ℕ → ℕ → Option (Err × (ℕ × Membuf))
put s bytes n =
    if ltb s.buffer_size (s.index_write + n)
    then none
    else some (
      success,
      (n, record s { buffer = s.buffer ++ take n bytes; index_write = s.index_write + n }),
    )

-- The second test of `stream_membuf_write_some`, on the defragmented stream.
pub grow_and_put : (ℕ → Bool) → Membuf → List ℕ → Option (Err × (ℕ × Membuf))
unfolding realloc_membuf put
grow_and_put realloc s bytes =
    let n = length bytes in
    let room = s.buffer_size - s.index_write in
    if ltb s.buffer_size (s.index_write + n)
    then (realloc_membuf realloc s ((2 * s.buffer_size + n) % 18446744073709551616) >>= λ r.
        if is_ok r.0
        then put r.1 bytes n
        else if room == 0
        then some (r.0, (0, r.1))
        else put r.1 bytes room)
    else put s bytes n

-- `stream_membuf_write_some`: the error, `*inout_data_length`, and the stream.
pub write_some : (ℕ → Bool) → Membuf → List ℕ → Option (Err × (ℕ × Membuf))
unfolding defragment grow_and_put
write_some realloc s bytes =
    if length bytes == 0
    then some (success, (0, s))
    else if ltb s.buffer_size (s.index_write + length bytes)
    then grow_and_put realloc (defragment s) bytes
    else grow_and_put realloc s bytes

-- `stream_membuf_read` into a buffer that is not null: the bytes, whether the message is finished, and the
-- stream.
pub read : Membuf → ℕ → Option (Err × (List ℕ × (Bool × Membuf)))
read s buffer_length =
    let bytes_left = s.index_write - s.index_read in
    let bytes_read = if ltb bytes_left buffer_length then bytes_left else buffer_length in
    let index_read = s.index_read + bytes_read in
    if not (leb s.index_read s.index_write)
    then none
    else some (
      success,
      (
        take bytes_read (drop s.index_read s.buffer),
        (
          bytes_read == bytes_left,
          if bytes_read == 0
              then s
              else if index_read == s.index_write
              then record s { buffer = []; index_read = 0; index_write = 0 }
              else record s { index_read = index_read },
        ),
      ),
    )

-- `stream_membuf_peek`
pub peek : Membuf → ℕ → Option (Err × (ℕ × Membuf))
peek s offset =
    if leb s.index_write (s.index_read + offset)
    then some (eof, (0, s))
    else get_elem? s.buffer (s.index_read + offset) >>= λ c. some (success, (c, s))

pub reset : Membuf → Membuf
reset s = record s { buffer = []; index_read = 0; index_write = 0 }

-- `stream_membuf_close`
pub close : Membuf → Membuf
close s = record { buffer = []; buffer_size = 0; index_write = 0; index_read = 0 }

-- `stream_membuf_offset`
pub offset : Membuf → Option (Err × (ℕ × Membuf))
offset s =
    let n = s.index_write - s.index_read in
    if not (leb s.index_read s.index_write)
    then none
    else if ltb 9223372036854775807 n
    then some (errno e2big, (0, s))
    else some (success, (n, s))

-- `stream_membuf_ensure_free_bytes`
pub ensure_free_bytes : (ℕ → Bool) → Membuf → ℕ → Option (Err × Membuf)
unfolding defragment realloc_membuf
ensure_free_bytes realloc s additional_size =
    let d = defragment s in
    if ltb (18446744073709551615 - d.index_write) additional_size
    then some (errno enomem, d)
    else if ltb d.buffer_size (d.index_write + additional_size)
    then realloc_membuf realloc d (d.index_write + additional_size)
    else some (success, d)

-- `stream_membuf_fit`
pub fit : (ℕ → Bool) → Membuf → Option (Err × Membuf)
unfolding defragment realloc_membuf
fit realloc s =
    let d = defragment s in
    if ltb d.index_write d.buffer_size
    then realloc_membuf realloc d d.index_write
    else some (success, d)

-- `stream_membuf_take_ownership`: the block and its size, and the empty stream. The result of `fit` is
-- ignored.
pub take_ownership : (ℕ → Bool) → Membuf → Option ((List ℕ × ℕ) × Membuf)
unfolding fit reset
take_ownership realloc s = fit realloc s >>= λ r.
    some ((r.1.buffer, r.1.buffer_size), reset (record r.1 { buffer = []; buffer_size = 0 }))

-- `_avs_stream_empty_finish_message`
pub empty_finish_message : Membuf → Option (Err × Membuf)
empty_finish_message s = some (success, s)

-- `membuf_stream_vtable`
unfoldable pub vtable : (ℕ → Bool) → VTable Membuf
unfolding write_some empty_finish_message read peek reset close offset ensure_free_bytes fit
    take_ownership
vtable realloc = record {
  write_some = some (write_some realloc);
  finish_message = some empty_finish_message;
  read = some read;
  peek = some peek;
  reset = some (λ s. some (success, reset s));
  close = some (λ s. some (success, close s));
  extension_list =
      (extension_offset, Extension.offset offset)
      ∷ (
        extension_membuf,
        Extension.membuf (ensure_free_bytes realloc) (fit realloc) (take_ownership realloc),
      )
      ∷ [];
}

-- `avs_stream_membuf_ensure_free_bytes`, which looks for the extension.
pub ensure_free_bytes_of : {S : Type 0} → VTable S → S → ℕ → Option (Err × S)
ensure_free_bytes_of v s n = elim (find_extension v extension_membuf) [
  | some (Extension.membuf ensure f t) ↦ ensure s n
  | _ ↦ some (errno enotsup, s)
]

-- `avs_stream_membuf_fit`
pub fit_of : {S : Type 0} → VTable S → S → Option (Err × S)
fit_of v s = elim (find_extension v extension_membuf) [
  | some (Extension.membuf ensure f t) ↦ f s
  | _ ↦ some (errno enotsup, s)
]

-- `avs_stream_membuf_take_ownership`; on failure, the block and its size are not set.
pub take_ownership_of : {S : Type 0} → VTable S → S → Option (Err × (Option (List ℕ × ℕ) × S))
take_ownership_of v s = elim (find_extension v extension_membuf) [
  | some (Extension.membuf ensure f t) ↦ t s >>= λ r. some (success, (some r.0, r.1))
  | _ ↦ some (errno enotsup, (none, s))
]
