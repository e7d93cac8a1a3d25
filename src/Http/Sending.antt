-- ===== src/Http/Sending.antt =====
-- src/http/avs_chunked.c: a chunk is sent over any stream of a connection.
pub mod Number
pub mod Message
pub mod RoundTrip
use avs_commons.Common.{
  ◌>>=◌, ℕ, zero, suc, Option, some, List, [], ◌∷◌, ◌++◌, ◌+◌, ◌/◌, ◌%◌, ltb, if◌then◌else◌, length,
}
use avs_commons.Url.Escape.{and_then}
use avs_commons.Stream
use avs_commons.Stream.{VTable, Err, is_ok}

-- A digit of `%lX`.
unfoldable pub upper_digit : ℕ → ℕ
upper_digit d = if ltb d 10 then 48 + d else 55 + d

-- `%lX` of C, with at most so many digits.
unfoldable pub upper_hex : ℕ → ℕ → List ℕ
unfolding upper_digit
upper_hex zero n = []
upper_hex (suc k) n =
    let front = upper_hex k (n / 16) in
    if ltb n 16 then upper_digit n ∷ [] else front ++ (upper_digit (n % 16) ∷ [])

-- `size_buf` in `http_send_single_chunk`.
unfoldable pub size_line : ℕ → List ℕ
unfolding upper_hex
size_line buffer_length = upper_hex 16 buffer_length ++ (13 ∷ 10 ∷ [])

-- The writes of `http_send_single_chunk`; what the stream of HTTP notes down of an error is left out.
unfoldable pub http_send_single_chunk : {S : Type 0} → VTable S → S → List ℕ → Option (Err × S)
unfolding size_line
http_send_single_chunk v backend buffer =
    and_then (Stream.write v backend (size_line (length buffer))) λ a.
      and_then (Stream.write v a buffer)
        λ b. and_then (Stream.write v b (13 ∷ 10 ∷ [])) λ c. Stream.finish_message v c

-- A message in chunks, each but the last from a call of `_avs_http_chunked_send`; the empty one ends it.
unfoldable pub send_chunks : {S : Type 0} → VTable S → S → List (List ℕ) → Option (Err × S)
unfolding http_send_single_chunk
send_chunks v backend [] = http_send_single_chunk v backend []
send_chunks v backend (d ∷ ds) =
    and_then (http_send_single_chunk v backend d) λ q. send_chunks v q ds
