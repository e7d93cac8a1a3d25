-- ===== src/Stream.antt =====
-- src/stream/avs_stream.c: the streams in front of their tables of operations, and what is made of them.
-- A stream is a value of `S`, which each call returns changed. `none` as a result stands for an access
-- out of bounds or a failed assertion in an operation, or for a loop that ran out of fuel.
pub mod Queue
pub mod Reliably
pub mod Copy
pub mod Line
use avs_commons.Common.{
  ◌>>=◌, ℕ, zero, suc, Bool, true, false, not, ◌&&◌, ◌||◌, Option, none, some, List, [], ◌∷◌, ◌++◌,
  ◌==◌, ltb, leb, ◌+◌, ◌-◌, if◌then◌else◌, length,
}

-- The codes of `avs_errno_t` that the modelled code uses.
pub data Errno : Type 0 where
  enotsup : Errno
  emsgsize : Errno
  einval : Errno
  enobufs : Errno
  enomem : Errno
  eio : Errno
  eoverflow : Errno
  ebadmsg : Errno
  ebadf : Errno
  e2big : Errno
  erange : Errno
  eproto : Errno

-- `avs_error_t`: AVS_OK, AVS_EOF, or a code.
pub data Err : Type 0 where
  success : Err
  eof : Err
  errno : Errno → Err

abbrev pub is_ok : Err → Bool
is_ok success = true
is_ok eof = false
is_ok (errno e) = false

abbrev pub is_eof : Err → Bool
is_eof success = false
is_eof eof = true
is_eof (errno e) = false

-- `avs_stream_v_table_extension_t`, of the kinds that the library defines.
pub data Extension (S : Type 0) : Type 0 where
  nonblock : Option (S → Bool) → Option (S → ℕ) → Extension S
  offset : (S → Option (Err × (ℕ × S))) → Extension S
  membuf :
      (S → ℕ → Option (Err × S))
      → (S → Option (Err × S))
      → (S → Option ((List ℕ × ℕ) × S))
      → Extension S

-- `avs_stream_v_table_t`: writing tells how many bytes it took, reading returns the bytes and whether the
-- message is finished. An operation may be missing; the list of extensions has no entry of id 0.
pub record VTable (S : Type 0) : Type 0 where
  pub write_some : Option (S → List ℕ → Option (Err × (ℕ × S)))
  pub finish_message : Option (S → Option (Err × S))
  pub read : Option (S → ℕ → Option (Err × (List ℕ × (Bool × S))))
  pub peek : Option (S → ℕ → Option (Err × (ℕ × S)))
  pub reset : Option (S → Option (Err × S))
  pub close : Option (S → Option (Err × S))
  pub extension_list : List (ℕ × Extension S)

abbrev pub extension_nonblock : ℕ
extension_nonblock = 0x4E424C4B

abbrev pub extension_offset : ℕ
extension_offset = 0x4F464653

module _ {S : Type 0} (v : VTable S) where
  -- `avs_stream_write_some`
  unfoldable pub write_some : S → List ℕ → Option (Err × (ℕ × S))
  write_some s buffer = elim v.write_some [
    | none ↦ some (errno enotsup, (length buffer, s))
    | some f ↦ f s buffer
  ]

  -- `avs_stream_write`
  unfoldable pub write : S → List ℕ → Option (Err × S)
  unfolding write_some
  write s buffer = write_some s buffer >>= λ r.
      if is_ok r.0 && not (r.1.0 == length buffer)
      then some (errno emsgsize, r.1.1)
      else some (r.0, r.1.1)

  unfoldable pub finish_message : S → Option (Err × S)
  finish_message s = elim v.finish_message [ none ↦ some (errno enotsup, s) | some f ↦ f s ]

  -- `avs_stream_read`
  unfoldable pub read : S → ℕ → Option (Err × (List ℕ × (Bool × S)))
  read s n = elim v.read [ none ↦ some (errno enotsup, ([], (false, s))) | some f ↦ f s n ]

  -- `avs_stream_peek`; the number is what `*out_value` is set to, which counts on success only.
  unfoldable pub peek : S → ℕ → Option (Err × (ℕ × S))
  peek s n = elim v.peek [ none ↦ some (errno enotsup, (0, s)) | some f ↦ f s n ]

  pub reset : S → Option (Err × S)
  reset s = elim v.reset [ none ↦ some (errno enotsup, s) | some f ↦ f s ]

  -- `avs_stream_cleanup` of a stream that is there: what `close` returned. The memory is given back.
  pub cleanup : S → Option Err
  cleanup s = elim v.close [ none ↦ some success | some f ↦ f s >>= λ r. some r.0 ]

  -- The loop of `avs_stream_read_reliably`: what has been put into the buffer, and whether the message
  -- was finished.
  unfoldable pub read_loop : ℕ → S → ℕ → List ℕ → Bool → Option (Err × (List ℕ × S))
  unfolding read
  read_loop zero s buffer_length bytes finished = none
  read_loop (suc fuel) s buffer_length bytes finished =
      let more : Option (Err × (List ℕ × S)) = read s (buffer_length - length bytes) >>= λ r.
      let rest = read_loop fuel r.1.1.1 buffer_length (bytes ++ r.1.0) r.1.1.0 in
      if is_ok r.0 then rest else some (r.0, (bytes, r.1.1.1)) in
      if ltb (length bytes) buffer_length && not finished
      then more
      else some (if length bytes == buffer_length then success else eof, (bytes, s))

  -- `avs_stream_read_reliably`: the error, and what has been put into the buffer. Each round but the last
  -- reads a byte, for a stream that keeps to the interface.
  unfoldable pub read_reliably : S → ℕ → Option (Err × (List ℕ × S))
  unfolding read_loop
  read_reliably s buffer_length = read_loop (suc (suc buffer_length)) s buffer_length [] false

  -- `avs_stream_getch`: the error, the character if one was read, and whether the message is finished.
  unfoldable pub getch : S → Option (Err × (Option ℕ × (Bool × S)))
  unfolding read
  getch s = read s 1 >>= λ r. elim r.1.0 [
    | [] ↦ some (if is_ok r.0 then eof else r.0, (none, r.1.1))
    | c ∷ cs ↦ some (r.0, (some c, r.1.1))
  ]

  -- The loop of `avs_stream_ignore_to_end`.
  unfoldable pub ignore_to_end : ℕ → S → Option (Err × S)
  unfolding getch
  ignore_to_end zero s = none
  ignore_to_end (suc fuel) s = getch s >>= λ r.
      let rest = ignore_to_end fuel r.1.1.1 in
      if is_ok r.0 then rest else some (if is_eof r.0 then success else r.0, r.1.1.1)

  -- The loop of `avs_stream_v_table_find_extension`.
  pub find_in : ℕ → List (ℕ × Extension S) → Option (Extension S)
  find_in id [] = none
  find_in id (e ∷ es) = if e.0 == id then some e.1 else find_in id es

  unfoldable pub find_extension : ℕ → Option (Extension S)
  unfolding find_in
  find_extension id = find_in id v.extension_list

  -- `avs_stream_nonblock_read_ready`; what is found under an id is of its kind.
  unfoldable pub nonblock_read_ready : S → Bool
  unfolding find_extension
  nonblock_read_ready s = elim (find_extension extension_nonblock) [
    | some (nonblock (some ready) w) ↦ ready s
    | _ ↦ false
  ]

  pub nonblock_write_ready : S → ℕ
  unfolding find_extension
  nonblock_write_ready s = elim (find_extension extension_nonblock) [
    | some (nonblock r (some ready)) ↦ ready s
    | _ ↦ 0
  ]

  -- `avs_stream_offset`
  pub offset_of : S → Option (Err × (ℕ × S))
  unfolding find_extension
  offset_of s = elim (find_extension extension_offset) [
    | some (offset f) ↦ f s
    | _ ↦ some (errno enotsup, (0, s))
  ]

-- `avs_stream_copy`, with fuel for its rounds; the buffer has 512 bytes.
unfoldable pub copy : {S T : Type 0} → VTable S → VTable T → ℕ → T → S → Option (Err × (T × S))
unfolding read write
copy v w zero output input = none
copy v w (suc fuel) output input = read v input 512 >>= λ r. elim r.0 [
  | success ↦ (if length r.1.0 == 0 then some (success, output) else write w output r.1.0) >>= λ q.
      let rest = copy v w fuel q.1 r.1.1.1 in
      if not (is_ok q.0)
      then some (q.0, (q.1, r.1.1.1))
      else if r.1.1.0
      then some (success, (q.1, r.1.1.1))
      else if length r.1.0 == 0
      then some (errno einval, (q.1, r.1.1.1))
      else rest
  | e ↦ some (e, (output, r.1.1.1))
]

-- `vsnprintf`: the text of the format with its arguments, or none for a negative result. The memory is
-- given as whether an allocation of a size succeeds.
module _ {S : Type 0} (v : VTable S) (malloc : ℕ → Bool) (text : Option (List ℕ)) where
  -- `try_write_fv` with a buffer of some size: the error, the size that is asked for, and the stream.
  pub try_write_fv : S → ℕ → Option (Err × (ℕ × S))
  unfolding write
  try_write_fv s size = elim text [
    | none ↦ some (errno eio, (size, s))
    | some t ↦
        if leb size (length t)
        then some (errno enobufs, (length t + 1, s))
        else write v s t >>= λ r. some (r.0, (size, r.1))
  ]

  pub try_heap_write_fv : S → ℕ → Option (Err × (ℕ × S))
  unfolding try_write_fv
  try_heap_write_fv s size =
      if malloc size then try_write_fv s size else some (errno enomem, (size, s))

  -- The loop of `avs_stream_write_fv`, with fuel.
  pub write_fv_loop : ℕ → ℕ → Err → ℕ → S → Option (Err × S)
  unfolding try_heap_write_fv
  write_fv_loop zero previous_size err size s = none
  write_fv_loop (suc fuel) previous_size err size s = elim err [
    | errno enobufs ↦
        let more : Option (Err × S) =
          try_heap_write_fv s size >>= λ r. write_fv_loop fuel size r.0 r.1.0 r.1.1 in
        if ltb previous_size size then more else some (errno enobufs, s)
    | e ↦ some (e, s)
  ]

  -- `avs_stream_write_fv`, whose first buffer has 512 bytes; three rounds of the loop are enough.
  unfoldable pub write_fv : S → Option (Err × S)
  unfolding write_fv_loop try_write_fv
  write_fv s = try_write_fv s 512 >>= λ r. write_fv_loop 3 0 r.0 r.1.0 r.1.1
