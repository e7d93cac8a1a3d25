-- ===== src/Http/ContentLength.antt =====
-- src/http/body_receivers/avs_content_length.c: a body of a length told in the headers. The stream of the
-- connection is a state of `S` with its table of operations.
pub mod Whole
pub mod Short
use avs_commons.Common.{
  ◌>>=◌, ℕ, Bool, true, false, not, ◌&&◌, Option, none, some, List, [], ◌∷◌, ◌==◌, leb, ltb, min,
  if◌then◌else◌, length,
}
use avs_commons.Common.Word.{sub_size}
use avs_commons.Stream
use avs_commons.Stream.{VTable, Err, success, eof, errno, eio, is_ok, extension_nonblock, Extension}

-- `content_length_receiver_t`
pub record ContentLength (S : Type 0) : Type 0 where
  pub backend : S
  pub content_left : ℕ

-- The bytes are taken off what is left.
unfoldable pub take_off : {S : Type 0} → ContentLength S → ℕ → S → ContentLength S
take_off s count backend = record {
  backend = backend;
  content_left = sub_size s.content_left count;
}

-- What `content_length_read` returns, after it has read.
unfoldable pub end_read :
    {S : Type 0} → Err → List ℕ → Bool → ContentLength S → Err × (List ℕ × (Bool × ContentLength S))
end_read err bytes backend_finished s = (
  if is_ok err && (backend_finished && ltb 0 s.content_left) then errno eio else err,
  (bytes, (s.content_left == 0, s)),
)

module _ {S : Type 0} (v : VTable S) where
  -- `content_length_read`
  unfoldable pub content_length_read :
      ContentLength S → ℕ → Option (Err × (List ℕ × (Bool × ContentLength S)))
  unfolding take_off end_read
  content_length_read s buffer_length =
      let bytes_to_read = min buffer_length s.content_left in
      if bytes_to_read == 0
      then some (end_read success [] false s)
      else (Stream.read v s.backend bytes_to_read >>= λ r.
          some (end_read r.0 r.1.0 r.1.1.0 (take_off s (length r.1.0) r.1.1.1)))

  -- `content_length_nonblock_read_ready`
  pub content_length_nonblock_read_ready : ContentLength S → Bool
  content_length_nonblock_read_ready s =
      if s.content_left == 0 then true else Stream.nonblock_read_ready v s.backend

  -- `content_length_peek`
  unfoldable pub content_length_peek : ContentLength S → ℕ → Option (Err × (ℕ × ContentLength S))
  content_length_peek s offset =
      if leb s.content_left offset
      then some (eof, (0, s))
      else (Stream.peek v s.backend offset >>= λ r.
          some (r.0, (r.1.0, record s { backend = r.1.1 })))

  -- `content_length_close`, where `setsock` takes the socket off the connection.
  pub content_length_close : (S → S) → ContentLength S → Option (Err × ContentLength S)
  content_length_close setsock s = Stream.cleanup v (setsock s.backend) >>= λ e.
      some (e, record s { backend = setsock s.backend })

  -- `content_length_receiver_vtable`
  unfoldable pub content_length_vtable : (S → S) → VTable (ContentLength S)
  unfolding content_length_read content_length_peek content_length_close
      content_length_nonblock_read_ready
  content_length_vtable setsock = record {
    write_some = none;
    finish_message = none;
    read = some content_length_read;
    peek = some content_length_peek;
    reset = none;
    close = some (content_length_close setsock);
    extension_list =
        (extension_nonblock, Extension.nonblock (some content_length_nonblock_read_ready) none)
        ∷ [];
  }

-- `_avs_http_body_receiver_content_length_create`, with the allocation as a test.
unfoldable pub content_length_create : {S : Type 0} → Bool → S → ℕ → Option (ContentLength S)
content_length_create malloc backend content_length =
    if malloc then some (record { backend = backend; content_left = content_length }) else none
