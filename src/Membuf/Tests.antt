-- ===== src/Membuf/Tests.antt =====
-- Runs of src/stream/avs_stream_membuf.c, and of src/stream/avs_stream.c over it, and the witnesses.
use avs_commons.Membuf.{
  Membuf, create, write_some, peek, close, offset, fit, take_ownership, vtable,
  ensure_free_bytes_of,
}
use avs_commons.Membuf.Queue.{contents, IsValid, Membuf-IsSource, Membuf-CanPeek}
use avs_commons.Membuf.Write.{Serves, write_some-WritesTo, Membuf-IsSink}
use avs_commons.Stream
use avs_commons.Stream.{
  Err, success, eof, errno, enomem, enotsup, enobufs, read_reliably, getch, ignore_to_end, copy,
  write_fv, VTable,
}
use avs_commons.Stream.Queue.{WritesTo}
use avs_commons.Stream.Line.{getline, peekline}
use avs_commons.Stream.Line.Terminated.{plain_nil, plain_cons, crlf}
use avs_commons.Stream.Line.Streams.{getline_lem}
use avs_commons.Stream.Reliably.{read_reliably_lem}
use avs_commons.Stream.Copy.{Copies, copy-Copies}
use avs_commons.Common.{
  ℕ, Bool, true, false, ◌≡◌, refl, some, [], ◌∷◌, ltb, leb, length, take, drop, replicate,
  if◌then◌else◌, arith,
}

abbrev small_heap : ℕ → Bool
small_heap n = ltb n 6

abbrev half_read : Membuf
half_read = record { buffer = 5 ∷ 6 ∷ 7 ∷ []; buffer_size = 3; index_write = 3; index_read = 1 }

abbrev small_stream : VTable Membuf
small_stream = vtable small_heap

write_some-create :
    write_some small_heap create (5 ∷ 6 ∷ 7 ∷ [])
    ≡ some (success, (3, record half_read { index_read = 0 }))
unfolding write_some create
write_some-create = refl

-- The block cannot grow, so that only one byte is written, in the place of the byte that was read.
write_some-half_read :
    write_some small_heap half_read (8 ∷ 9 ∷ [])
    ≡ some (success, (1, record half_read { buffer = 6 ∷ 7 ∷ 8 ∷ []; index_read = 0 }))
unfolding write_some
write_some-half_read = refl

peek-half_read : peek half_read 1 ≡ some (success, (7, half_read))
unfolding peek
peek-half_read = refl

offset-half_read : offset half_read ≡ some (success, (2, half_read))
unfolding offset
offset-half_read = refl

fit-half_read :
    fit small_heap half_read
    ≡ some
        (success, record { buffer = 6 ∷ 7 ∷ []; buffer_size = 2; index_write = 2; index_read = 0 })
unfolding fit
fit-half_read = refl

take_ownership-half_read :
    take_ownership small_heap half_read ≡ some ((6 ∷ 7 ∷ [], 2), close half_read)
unfolding take_ownership close
take_ownership-half_read = refl

-- The function in front finds the extension.
ensure_free_bytes_of-half_read :
    ensure_free_bytes_of small_stream half_read 3
    ≡ some
        (success, record { buffer = 6 ∷ 7 ∷ []; buffer_size = 5; index_write = 2; index_read = 0 })
unfolding ensure_free_bytes_of Stream.find_extension vtable
ensure_free_bytes_of-half_read = refl

getch-half_read :
    getch small_stream half_read
    ≡ some (success, (some 6, (false, record half_read { index_read = 2 })))
unfolding getch vtable
getch-half_read = refl

ignore_to_end-half_read :
    ignore_to_end small_stream 4 half_read
    ≡ some (success, record { buffer = []; buffer_size = 3; index_write = 0; index_read = 0 })
unfolding ignore_to_end vtable
ignore_to_end-half_read = refl

-- A text that is longer than the first buffer goes through the heap.
write_fv-long :
    write_fv (vtable (λ n. true)) (λ n. true) (some (replicate 600 65)) create
    ≡ some (
      success,
      record { buffer = replicate 600 65; buffer_size = 600; index_write = 600; index_read = 0 },
    )
unfolding write_fv vtable create
write_fv-long = refl

half_read-IsValid : IsValid half_read
half_read-IsValid = record {
  ordered = omega arith;
  filled = refl;
  fits = omega arith;
  in_memory = omega arith;
}

small_heap-Serves : Serves small_heap
unfolding Serves
small_heap-Serves n e = ground (arith, e)

read_reliably_example :
    (after : Membuf) × ((read_reliably small_stream half_read 5
        ≡ some (
          if leb 5 (length (contents half_read)) then success else eof,
          (take 5 (contents half_read), after),
        ))
      × ((contents after ≡ drop 5 (contents half_read)) × IsValid after))
read_reliably_example = read_reliably_lem (Membuf-IsSource small_heap) half_read 5 half_read-IsValid

copy-Copies_example :
    Copies
      (Membuf-IsSource small_heap)
      (Membuf-IsSink small_heap small_heap-Serves)
      half_read
      half_read
      (copy small_stream small_stream 4 half_read half_read)
unfolding contents
copy-Copies_example =
    copy-Copies (Membuf-IsSource small_heap) (Membuf-IsSink small_heap small_heap-Serves) 4
      half_read half_read (omega arith) half_read-IsValid half_read-IsValid

-- The block cannot grow.
write_some-WritesTo_example : WritesTo small_stream IsValid contents half_read (8 ∷ 9 ∷ [])
write_some-WritesTo_example =
    write_some-WritesTo small_heap small_heap-Serves half_read (8 ∷ 9 ∷ []) half_read-IsValid
      (omega arith)

-- "hi", a carriage return and a line feed, and "x".
abbrev two_lines : Membuf
two_lines = record {
  buffer = 104 ∷ 105 ∷ 13 ∷ 10 ∷ 120 ∷ [];
  buffer_size = 5;
  index_write = 5;
  index_read = 0;
}

two_lines-IsValid : IsValid two_lines
two_lines-IsValid = record {
  ordered = omega arith;
  filled = refl;
  fits = omega arith;
  in_memory = omega arith;
}

peekline-two_lines :
    peekline small_stream two_lines 0 3 ≡ some (success, (104 ∷ 105 ∷ [], (4, two_lines)))
unfolding peekline vtable
peekline-two_lines = refl

-- The line does not fit.
getline-short :
    getline small_stream two_lines 2
    ≡ some (errno enobufs, (104 ∷ [], (false, record two_lines { index_read = 1 })))
unfolding getline vtable
getline-short = refl

getline_example :
    ((f : Bool) × ((after : Membuf) × ((getline small_stream two_lines 3
            ≡ some (success, (104 ∷ 105 ∷ [], (f, after))))
          × (contents after ≡ 120 ∷ []))))
    × ((next : ℕ) × ((peekline small_stream two_lines 0 3
            ≡ some (success, (104 ∷ 105 ∷ [], (next, two_lines))))
          × (drop next (contents two_lines) ≡ 120 ∷ [])))
unfolding contents
getline_example =
    getline_lem (Membuf-IsSource small_heap) (Membuf-CanPeek small_heap) two_lines 3
      (104 ∷ 105 ∷ []) (13 ∷ 10 ∷ []) (120 ∷ []) two_lines-IsValid (omega arith)
      (plain_cons 104 (105 ∷ []) refl refl refl (plain_cons 105 [] refl refl refl plain_nil)) crlf
      refl
