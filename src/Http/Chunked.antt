-- ===== src/Http/Chunked.antt =====
-- src/http/body_receivers/avs_chunked_body_receiver.c: a body that is sent in chunks, each behind a line with
-- its length. What the code does without a bound, reading lines, has fuel; allocations are Boolean.
pub mod Number
pub mod Wire
pub mod Headline
pub mod Body
pub mod Whole
pub mod Reliably
pub mod Lost
use avs_commons.Common.{
  ◌>>=◌, ℕ, zero, suc, Bool, true, false, not, ◌&&◌, ◌||◌, Option, none, some, List, [], ◌∷◌, ◌==◌,
  ◌+◌, ◌-◌, leb, min, if◌then◌else◌, length,
}
use avs_commons.Common.Word.{sub_size}
use avs_commons.Http.Chunked.Number.{strtoul}
use avs_commons.Stream
use avs_commons.Stream.{
  VTable, Err, success, eof, errno, eio, enomem, eproto, erange, is_ok, is_eof, extension_nonblock,
  Extension,
}
use avs_commons.Stream.Line.{getline, peekline}

-- What may stand behind a number.
abbrev pub ends_number : List ℕ → Bool
ends_number [] = true
ends_number (c ∷ cs) = c == b';'

-- `read_chunk_size_getline_func_t`: a line into a buffer of some size, from a state of `P`.
module _ {P : Type 0} (getline_func : P → ℕ → Option (Err × (List ℕ × P))) (header_line : ℕ) where
  -- The first loop of `read_chunk_size`, with `value`.
  unfoldable pub headline_loop : ℕ → P → ℕ → Option (Err × (ℕ × P))
  unfolding strtoul
  headline_loop zero p value = none
  headline_loop (suc fuel) p value = getline_func p header_line >>= λ r.
      let n = strtoul r.1.0 in
      let again = headline_loop fuel r.1.1 value in
      let ignored = headline_loop fuel r.1.1 n.value in
      if not (is_ok r.0)
      then some (if is_eof r.0 then errno eproto else r.0, (value, r.1.1))
      else if length r.1.0 == 0
      then again
      else if n.range_error
      then some (errno erange, (n.value, r.1.1))
      else if ends_number n.rest
      then some (success, (n.value, r.1.1))
      else ignored

  -- The second, over the trailers.
  unfoldable pub trailer_loop : ℕ → P → Option (Err × P)
  trailer_loop zero p = none
  trailer_loop (suc fuel) p = getline_func p header_line >>= λ r.
      let more = trailer_loop fuel r.1.1 in
      if not (is_ok r.0) || (length r.1.0 == 0) then some (r.0, r.1.1) else more

  -- `read_chunk_size`; what `*out_value` is set to, if it is.
  unfoldable pub read_chunk_size : Bool → ℕ → P → Option (Err × (Option ℕ × P))
  unfolding headline_loop trailer_loop
  read_chunk_size malloc fuel p =
      if not malloc
      then some (errno enomem, (none, p))
      else (headline_loop fuel p 0 >>= λ r.
          if is_ok r.0 && (r.1.0 == 0)
          then (trailer_loop fuel r.1.1 >>= λ q. some (q.0, (some r.1.0, q.1)))
          else some (r.0, (some r.1.0, r.1.1)))

-- `chunked_receiver_t`, with the size of the buffer for lines.
pub record Chunked (S : Type 0) : Type 0 where
  pub backend : S
  pub header_line : ℕ
  pub chunk_left : ℕ
  pub finished : Bool

abbrev pub value_or : Option ℕ → ℕ → ℕ
value_or none n = n
value_or (some m) n = m

module _ {S : Type 0} (v : VTable S) (malloc : Bool) (fuel : ℕ) where
  -- `read_chunk_size_getline_reader`
  unfoldable pub getline_reader : S → ℕ → Option (Err × (List ℕ × S))
  getline_reader s n = getline v s n >>= λ r. some (r.0, (r.1.0, r.1.1.1))

  -- `read_chunk_size_getline_peeker`
  unfoldable pub getline_peeker : S × ℕ → ℕ → Option (Err × (List ℕ × (S × ℕ)))
  getline_peeker p n = peekline v p.0 p.1 n >>= λ r. some (r.0, (r.1.0, (r.1.1.1, r.1.1.0)))

  -- `chunked_read` with something left of the chunk. An error of the backend is not returned.
  unfoldable pub read_data : Chunked S → ℕ → Option (Err × (List ℕ × (Bool × Chunked S)))
  read_data s buffer_length = Stream.read v s.backend (min buffer_length s.chunk_left) >>= λ r.
      some (
        if is_ok r.0 && r.1.1.0 then errno eio else success,
        (
          r.1.0,
          (
            false,
            record s { backend = r.1.1.1; chunk_left = sub_size s.chunk_left (length r.1.0) },
          ),
        ),
      )

  -- The next chunk: the error, and the stream.
  unfoldable pub next_chunk : Chunked S → Option (Err × Chunked S)
  unfolding getline_reader read_chunk_size
  next_chunk s =
      if s.finished
      then some (success, s)
      else (read_chunk_size getline_reader s.header_line malloc fuel s.backend >>= λ r.
          let left = value_or r.1.0 s.chunk_left in
          some (
            r.0,
            record s { backend = r.1.1; chunk_left = left; finished = is_ok r.0 && (left == 0) },
          ))

  -- `chunked_read`
  unfoldable pub chunked_read : Chunked S → ℕ → Option (Err × (List ℕ × (Bool × Chunked S)))
  unfolding read_data next_chunk
  chunked_read s buffer_length =
      if s.chunk_left == 0
      then (next_chunk s >>= λ r.
          if not (is_ok r.0) || (r.1.finished || not (Stream.nonblock_read_ready v r.1.backend))
          then some (r.0, ([], (r.1.finished, r.1)))
          else read_data r.1 buffer_length)
      else read_data s buffer_length

  -- The loop of `chunked_peek`: the offset in the body, and in the stream behind it.
  unfoldable pub peek_loop : ℕ → S × ℕ → ℕ → ℕ → ℕ → Option (Err × (ℕ × S))
  unfolding getline_peeker read_chunk_size
  peek_loop zero p header_line offset chunk_left = none
  peek_loop (suc rounds) p header_line offset chunk_left =
      let look =
        read_chunk_size getline_peeker header_line malloc fuel (p.0, p.1 + chunk_left) >>= λ r.
        let size = value_or r.1.0 chunk_left in
        let rest = peek_loop rounds r.1.1 header_line (offset - chunk_left) size in
        if not (is_ok r.0)
        then some (r.0, (0, r.1.1.0))
        else if size == 0
        then some (eof, (0, r.1.1.0))
        else rest in
      if leb chunk_left offset then look else Stream.peek v p.0 (offset + p.1)

  -- `chunked_peek`
  unfoldable pub chunked_peek : Chunked S → ℕ → Option (Err × (ℕ × Chunked S))
  unfolding peek_loop
  chunked_peek s offset =
      if s.finished
      then some (eof, (0, s))
      else (peek_loop fuel (s.backend, 0) s.header_line offset s.chunk_left >>= λ r.
          some (r.0, (r.1.0, record s { backend = r.1.1 })))

  -- `chunked_nonblock_read_ready`
  pub chunked_nonblock_read_ready : Chunked S → Bool
  chunked_nonblock_read_ready s = Stream.nonblock_read_ready v s.backend

  -- `chunked_close`, where `setsock` takes the socket off the connection.
  pub chunked_close : (S → S) → Chunked S → Option (Err × Chunked S)
  chunked_close setsock s = Stream.cleanup v (setsock s.backend) >>= λ e.
      some (e, record s { backend = setsock s.backend })

  -- `chunked_receiver_vtable`
  unfoldable pub chunked_vtable : (S → S) → VTable (Chunked S)
  unfolding chunked_read chunked_peek chunked_close chunked_nonblock_read_ready
  chunked_vtable setsock = record {
    write_some = none;
    finish_message = none;
    read = some chunked_read;
    peek = some chunked_peek;
    reset = none;
    close = some (chunked_close setsock);
    extension_list =
        (extension_nonblock, Extension.nonblock (some chunked_nonblock_read_ready) none) ∷ [];
  }

-- `_avs_http_body_receiver_chunked_create`; `avs_calloc` clears the other fields.
unfoldable pub chunked_create : {S : Type 0} → Bool → S → ℕ → Option (Chunked S)
chunked_create malloc backend header_line =
    if malloc
    then some
        (record { backend = backend; header_line = header_line; chunk_left = 0; finished = false })
    else none
