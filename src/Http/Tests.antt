-- ===== src/Http/Tests.antt =====
-- Runs of src/http/body_receivers over a stream in memory, and the witnesses.
use avs_commons.Common.{
  ℕ, Bool, true, false, none, some, ◌≡◌, refl, ◌≤◌, ◌<◌, ltb, List, [], ◌∷◌, drop, arith,
}
use avs_commons.Http.Chunked.{Chunked, chunked_create, chunked_read, chunked_peek, chunked_vtable}
use avs_commons.Http.Chunked.Body.{IsReady, within}
use avs_commons.Http.Chunked.Lost.{IsBroken, chunked_read-hides_errors}
use avs_commons.Http.Chunked.Number.{strtoul}
use avs_commons.Http.Chunked.Reliably.{Collects, read_loop-chunked_read}
use avs_commons.Http.Chunked.Wire.{
  IsHeadline, Starts, no_more, Chunks, in_data, blank, headline, last,
}
use avs_commons.Http.ContentLength.{
  ContentLength, content_length_create, content_length_read, content_length_peek,
  content_length_vtable,
}
use avs_commons.Http.ContentLength.Short.{IsShort, ReadsShort, content_length_read-ReadsShort}
use avs_commons.Http.ContentLength.Whole.{IsWhole, body, content_length-IsSource}
use avs_commons.Membuf.{Membuf, create, vtable}
use avs_commons.Http.Sending.{send_chunks, upper_hex}
use avs_commons.Http.Sending.Message.{joined_chunks, no_chunks, one_chunk, CanFinish}
use avs_commons.Http.Sending.RoundTrip.{new_receiver, send_chunks-chunked_read}
use avs_commons.Membuf.Write.{Serves, Membuf-IsSink}
use avs_commons.Membuf.Queue.{contents, IsValid, Membuf-IsSource, Membuf-CanPeek}
use avs_commons.Stream
use avs_commons.Stream.{VTable, Err, success, eof, errno, eio, read_loop}
use avs_commons.Stream.Line.{getline, peekline}
use avs_commons.Stream.Line.Terminated.{plain_nil, plain_cons, crlf}
use avs_commons.Stream.Queue.{IsSource}

abbrev memory_served : ℕ → Bool
memory_served n = ltb n 40

abbrev memory : VTable Membuf
memory = vtable memory_served

-- 3, abc, 0, and then a byte that is not of the message.
abbrev wire : List ℕ
wire = 51 ∷ 13 ∷ 10 ∷ 97 ∷ 98 ∷ 99 ∷ 13 ∷ 10 ∷ 48 ∷ 13 ∷ 10 ∷ 13 ∷ 10 ∷ 120 ∷ []

abbrev connection : Membuf
connection = record { buffer = wire; buffer_size = 20; index_write = 14; index_read = 0 }

connection-IsValid : IsValid connection
connection-IsValid = record {
  ordered = omega arith;
  filled = refl;
  fits = omega arith;
  in_memory = omega arith;
}

abbrev receiver : Chunked Membuf
receiver = record { backend = connection; header_line = 8; chunk_left = 0; finished = false }

chunked_create_lem : chunked_create true connection 8 ≡ some receiver
unfolding chunked_create
chunked_create_lem = refl

empty_line : (more : List ℕ) → Starts 8 (13 ∷ 10 ∷ more) [] more
empty_line more = record {
  plain = plain_nil;
  fits = omega arith;
  end = 13 ∷ 10 ∷ [];
  is_end = crlf;
  splits = refl;
}

digit_line : (c : ℕ) (more : List ℕ) → 14 ≤ c → Starts 8 (c ∷ 13 ∷ 10 ∷ more) (c ∷ []) more
digit_line c more k = record {
  plain = plain_cons c [] (ground (arith, k)) (ground (arith, k)) (ground (arith, k)) plain_nil;
  fits = omega arith;
  end = 13 ∷ 10 ∷ [];
  is_end = crlf;
  splits = refl;
}

three-IsHeadline : IsHeadline (51 ∷ []) 3
unfolding strtoul
three-IsHeadline = record {
  no_error = refl;
  value_is = refl;
  whole = refl;
  not_empty = omega arith;
}

zero-IsHeadline : IsHeadline (48 ∷ []) 0
unfolding strtoul
zero-IsHeadline = record { no_error = refl; value_is = refl; whole = refl; not_empty = omega arith }

wire-Chunks : Chunks 8 (120 ∷ []) 0 wire (97 ∷ 98 ∷ 99 ∷ [])
wire-Chunks =
    headline (51 ∷ []) (drop 3 wire) 3 refl (digit_line 51 (drop 3 wire) (omega arith))
      three-IsHeadline (omega arith) (omega arith)
      (in_data (97 ∷ 98 ∷ 99 ∷ []) (drop 6 wire) [] (omega arith) refl refl refl (
        blank (drop 8 wire) refl (empty_line (drop 8 wire)) (
          last (48 ∷ []) (drop 11 wire) refl (digit_line 48 (drop 11 wire) (omega arith))
            zero-IsHeadline (no_more (empty_line (120 ∷ []))) refl)))

contents-connection : contents connection ≡ wire
unfolding contents
contents-connection = refl

receiver-IsReady :
    IsReady
      (Membuf-IsSource memory_served)
      (Membuf-CanPeek memory_served)
      30
      (120 ∷ [])
      receiver
      (97 ∷ 98 ∷ 99 ∷ [])
unfolding contents
receiver-IsReady = record {
  backend-Valid = connection-IsValid;
  enough = omega arith;
  waits = within refl wire-Chunks (omega arith);
}

read_loop-chunked_read_example :
    Collects
      (Membuf-IsSource memory_served)
      (Membuf-CanPeek memory_served)
      30
      (120 ∷ [])
      (λ p. p)
      receiver
      5
      []
      (97 ∷ 98 ∷ 99 ∷ [])
      (read_loop (chunked_vtable memory true 30 (λ p. p)) 20 receiver 5 [] false)
unfolding contents
read_loop-chunked_read_example =
    read_loop-chunked_read (Membuf-IsSource memory_served) (Membuf-CanPeek memory_served) 30
      (120 ∷ []) (λ p. p) receiver 5 20 receiver-IsReady (omega arith)

-- A stream in memory does not tell whether it is ready, so that the headline and the bytes are two reads.
abbrev opened : Chunked Membuf
opened = record receiver { backend = record connection { index_read = 3 }; chunk_left = 3 }

chunked_read-receiver :
    chunked_read memory true 30 receiver 2 ≡ some (success, ([], (false, opened)))
unfolding chunked_read vtable strtoul getline Stream.nonblock_read_ready
chunked_read-receiver = refl

chunked_read-opened :
    chunked_read memory true 30 opened 2
    ≡ some (
      success,
      (
        97 ∷ 98 ∷ [],
        (false, record opened { backend = record connection { index_read = 5 }; chunk_left = 1 }),
      ),
    )
unfolding chunked_read vtable Stream.read
chunked_read-opened = refl

chunked_read-end :
    chunked_read memory true 30
      (record receiver { backend = record connection { index_read = 6 } })
      2
    ≡ some (
      success,
      (
        [],
        (
          true,
          record receiver { backend = record connection { index_read = 13 }; finished = true },
        ),
      ),
    )
unfolding chunked_read vtable strtoul getline
chunked_read-end = refl

chunked_peek-receiver : chunked_peek memory true 30 receiver 1 ≡ some (success, (98, receiver))
unfolding chunked_peek vtable strtoul peekline
chunked_peek-receiver = refl

-- A connection that was lost.
abbrev broken : VTable ℕ
broken = record {
  write_some = none;
  finish_message = none;
  read = some (λ p n. some (errno eio, ([], (false, p))));
  peek = none;
  reset = none;
  close = none;
  extension_list = [];
}

abbrev in_chunk : Chunked ℕ
in_chunk = record { backend = 7; header_line = 8; chunk_left = 5; finished = false }

broken-IsBroken : IsBroken broken 7
unfolding Stream.read
broken-IsBroken = record { err = errno eio; is_error = refl; finished = false; reads = λ n. refl }

chunked_read-hides_errors_example :
    ((n : ℕ) → chunked_read broken true 9 in_chunk n ≡ some (success, ([], (false, in_chunk))))
    × ((rounds n : ℕ)
        → 0 < n
        → read_loop (chunked_vtable broken true 9 (λ p. p)) rounds in_chunk n [] false ≡ none)
chunked_read-hides_errors_example =
    chunked_read-hides_errors broken 9 (λ p. p) in_chunk broken-IsBroken (omega arith) (omega arith)

-- A body of a length told in front.
abbrev two_bytes : ContentLength Membuf
two_bytes = record { backend = connection; content_left = 2 }

content_length_create_lem : content_length_create true connection 2 ≡ some two_bytes
unfolding content_length_create
content_length_create_lem = refl

content_length_read-two_bytes :
    content_length_read memory two_bytes 5
    ≡ some (
      success,
      (
        51 ∷ 13 ∷ [],
        (true, record { backend = record connection { index_read = 2 }; content_left = 0 }),
      ),
    )
unfolding content_length_read vtable Stream.read
content_length_read-two_bytes = refl

content_length_peek-two_bytes : content_length_peek memory two_bytes 2 ≡ some (eof, (0, two_bytes))
unfolding content_length_peek
content_length_peek-two_bytes = refl

content_length-IsSource_example :
    IsSource
      (content_length_vtable memory (λ p. p))
      (IsWhole (Membuf-IsSource memory_served))
      (body (Membuf-IsSource memory_served))
content_length-IsSource_example = content_length-IsSource (Membuf-IsSource memory_served) (λ p. p)

two_bytes-IsWhole : IsWhole (Membuf-IsSource memory_served) two_bytes
unfolding contents
two_bytes-IsWhole = record {
  backend-Valid = connection-IsValid;
  there = omega arith;
  is_size = omega arith;
}

-- More than the connection has.
abbrev too_many : ContentLength Membuf
too_many = record { backend = connection; content_left = 30 }

too_many-IsShort : IsShort (Membuf-IsSource memory_served) too_many
unfolding contents
too_many-IsShort = record {
  backend-Valid = connection-IsValid;
  missing = omega arith;
  is_size = omega arith;
}

content_length_read-too_many :
    content_length_read memory too_many 20
    ≡ some (
      errno eio,
      (
        wire,
        (
          false,
          record {
            backend = record { buffer = []; buffer_size = 20; index_write = 0; index_read = 0 };
            content_left = 16;
          },
        ),
      ),
    )
unfolding content_length_read vtable Stream.read
content_length_read-too_many = refl

content_length_read-ReadsShort_example :
    ReadsShort (Membuf-IsSource memory_served) too_many 20 (content_length_read memory too_many 20)
content_length_read-ReadsShort_example =
    content_length_read-ReadsShort (Membuf-IsSource memory_served) too_many 20 too_many-IsShort
      (omega arith)

-- Two chunks, sent into memory.
abbrev chunks : List (List ℕ)
chunks = (97 ∷ 98 ∷ []) ∷ (99 ∷ []) ∷ []

abbrev filled_memory : Membuf
filled_memory = record {
  buffer =
      50 ∷ 13 ∷ 10 ∷ 97 ∷ 98 ∷ 13 ∷ 10 ∷ 49 ∷ 13 ∷ 10 ∷ 99 ∷ 13 ∷ 10 ∷ 48 ∷ 13 ∷ 10 ∷ 13 ∷ 10 ∷ [];
  buffer_size = 19;
  index_write = 18;
  index_read = 0;
}

send_chunks-create : send_chunks memory create chunks ≡ some (success, filled_memory)
unfolding send_chunks vtable upper_hex Stream.write create Stream.finish_message
send_chunks-create = refl

memory_served-Serves : Serves memory_served
unfolding Serves
memory_served-Serves n e = ground (arith, e)

memory-CanFinish : CanFinish memory IsValid contents
unfolding vtable Stream.finish_message
memory-CanFinish = record {
  err = λ s. success;
  after = λ s. s;
  finishes = λ s h. refl;
  keeps = λ s h. refl;
  after-Valid = λ s h. h;
}

empty-IsValid : IsValid create
unfolding create
empty-IsValid = record {
  ordered = omega arith;
  filled = refl;
  fits = omega arith;
  in_memory = omega arith;
}

filled_memory-IsValid : IsValid filled_memory
filled_memory-IsValid = record {
  ordered = omega arith;
  filled = refl;
  fits = omega arith;
  in_memory = omega arith;
}

send_chunks-chunked_read_example :
    Collects
      (Membuf-IsSource memory_served)
      (Membuf-CanPeek memory_served)
      30
      []
      (λ p. p)
      (new_receiver filled_memory 20)
      5
      []
      (joined_chunks chunks)
      (read_loop
        (chunked_vtable memory true 30 (λ p. p))
        20
        (new_receiver filled_memory 20)
        5
        []
        false)
unfolding contents create
send_chunks-chunked_read_example =
    send_chunks-chunked_read (Membuf-IsSink memory_served memory_served-Serves) memory-CanFinish
      (Membuf-IsSource memory_served) (Membuf-CanPeek memory_served) create filled_memory chunks
      success filled_memory [] 20 30 5 20 (λ p. p) empty-IsValid refl
      (one_chunk (97 ∷ 98 ∷ []) ((99 ∷ []) ∷ []) (omega arith) (omega arith)
        (one_chunk (99 ∷ []) [] (omega arith) (omega arith) no_chunks))
      send_chunks-create refl filled_memory-IsValid refl (omega arith) (omega arith) (omega arith)
