-- ===== src/Blockbuf.antt =====
-- src/stream/avs_stream_inbuf.c and src/stream/avs_stream_outbuf.c: streams that read from a given block, and
-- write into one. `none` as a result stands for a failed assertion or an access outside of the block.
pub mod Sides
mod Tests
use avs_commons.Stream.{
  Err, success, eof, errno, ebadf, e2big, erange, VTable, Extension, extension_offset,
}
use avs_commons.Common.{
  ◌>>=◌, ℕ, Bool, true, false, Option, none, some, List, [], ◌∷◌, ◌==◌, ltb, leb, ◌+◌, ◌-◌, ◌%◌,
  if◌then◌else◌, length, take, drop, write_at, get_elem?,
}

-- `avs_stream_inbuf_t`; the block has `buffer_size` bytes.
pub record Inbuf : Type 0 where
  pub buffer : List ℕ
  pub buffer_size : ℕ
  pub buffer_offset : ℕ

-- `inbuf_stream_read` into a buffer that is not null. For no bytes it sets neither their number, which is
-- then that of none, nor whether the message is finished.
pub inbuf_read : Inbuf → ℕ → Option (Err × (List ℕ × (Bool × Inbuf)))
inbuf_read s buffer_length =
    let bytes_left = s.buffer_size - s.buffer_offset in
    let bytes_read = if ltb bytes_left buffer_length then bytes_left else buffer_length in
    if buffer_length == 0
    then some (success, ([], (false, s)))
    else if leb s.buffer_offset s.buffer_size
    then some (
      success,
      (
        take bytes_read (drop s.buffer_offset s.buffer),
        (
          leb s.buffer_size (s.buffer_offset + bytes_read),
          record s { buffer_offset = s.buffer_offset + bytes_read },
        ),
      ),
    )
    else none

pub inbuf_peek : Inbuf → ℕ → Option (Err × (ℕ × Inbuf))
inbuf_peek s offset =
    if leb s.buffer_size (s.buffer_offset + offset)
    then some (eof, (0, s))
    else get_elem? s.buffer (s.buffer_offset + offset) >>= λ c. some (success, (c, s))

-- `inbuf_stream_vtable`
unfoldable pub inbuf_vtable : VTable Inbuf
unfolding inbuf_read inbuf_peek
inbuf_vtable = record {
  write_some = none;
  finish_message = none;
  read = some inbuf_read;
  peek = some inbuf_peek;
  reset = none;
  close = none;
  extension_list = [];
}

-- `avs_stream_inbuf_set_buffer`
pub inbuf_set_buffer : List ℕ → ℕ → Inbuf
inbuf_set_buffer buffer buffer_size = record {
  buffer = buffer;
  buffer_size = buffer_size;
  buffer_offset = 0;
}

-- `avs_stream_outbuf_t`; the block has `buffer_size` bytes.
pub record Outbuf : Type 0 where
  pub block : List ℕ
  pub block_size : ℕ
  pub block_offset : ℕ
  pub message_finished : Bool

-- `outbuf_stream_write_some`
pub outbuf_write_some : Outbuf → List ℕ → Option (Err × (ℕ × Outbuf))
outbuf_write_some s bytes =
    let n =
      if ltb s.block_size ((s.block_offset + length bytes) % 18446744073709551616)
      then s.block_size - s.block_offset
      else length bytes in
    if s.message_finished
    then some (errno ebadf, (length bytes, s))
    else if ltb (length s.block) (s.block_offset + n)
    then none
    else some (
      success,
      (
        n,
        record s {
          block = write_at s.block s.block_offset (take n bytes);
          block_offset = s.block_offset + n;
        },
      ),
    )

pub outbuf_finish : Outbuf → Option (Err × Outbuf)
outbuf_finish s = some (success, record s { message_finished = true })

pub outbuf_reset : Outbuf → Option (Err × Outbuf)
outbuf_reset s = some (success, record s { message_finished = false; block_offset = 0 })

-- `outbuf_stream_offset`
pub outbuf_offset : Outbuf → Option (Err × (ℕ × Outbuf))
outbuf_offset s =
    if ltb 9223372036854775807 s.block_offset
    then some (errno e2big, (0, s))
    else some (success, (s.block_offset, s))

-- `outbuf_stream_vtable`
unfoldable pub outbuf_vtable : VTable Outbuf
unfolding outbuf_write_some outbuf_finish outbuf_reset outbuf_offset
outbuf_vtable = record {
  write_some = some outbuf_write_some;
  finish_message = some outbuf_finish;
  read = none;
  peek = none;
  reset = some outbuf_reset;
  close = none;
  extension_list = (extension_offset, Extension.offset outbuf_offset) ∷ [];
}

-- `avs_stream_outbuf_set_offset`
pub outbuf_set_offset : Outbuf → ℕ → Err × Outbuf
outbuf_set_offset s offset =
    if ltb s.block_offset offset
    then (errno erange, s)
    else (success, record s { block_offset = offset })

-- `avs_stream_outbuf_set_buffer`, which leaves `message_finished` as it is.
pub outbuf_set_buffer : Outbuf → List ℕ → ℕ → Outbuf
outbuf_set_buffer s buffer buffer_size = record s {
  block = buffer;
  block_size = buffer_size;
  block_offset = 0;
}
