-- ===== src/Membuf/Write.antt =====
-- Writes to the stream of src/stream/avs_stream_membuf.c: the block moves and grows, the queue does not.
use avs_commons.Membuf.{Membuf, defragment, realloc_membuf, put, grow_and_put, write_some, vtable}
use avs_commons.Membuf.Queue.{contents, IsValid}
use avs_commons.Stream
use avs_commons.Stream.{Err, success, errno, enomem, is_ok, VTable}
use avs_commons.Stream.Queue.{WritesTo, wrote, refused, IsSink}
use avs_commons.Common.{
  ℕ, Bool, true, false, ◌&&◌, Option, some, ◌≡◌, refl, sym, ap, ◌∙◌, ◌≤◌, ◌<◌, ◌+◌, ◌-◌, ◌*◌, ◌%◌,
  ◌==◌, ltb, leb, List, ◌++◌, length, length-append, length-take, length-drop, take, drop-append,
  append-nil, Bool-cases, if-split, inl, inr, ◌⊎◌, arith,
}

-- What a write did, with its result.
data Outcome (s : Membuf) (bytes : List ℕ) (result : Option (Err × (ℕ × Membuf))) : Type 0 where
  put_in :
      (n : ℕ) (after : Membuf)
      → result ≡ some (success, (n, after))
      → n ≤ length bytes
      → contents after ≡ contents s ++ take n bytes
      → IsValid after
      → Outcome s bytes result
  left_out :
      (e : Err) (n : ℕ) (after : Membuf)
      → is_ok e ≡ false
      → result ≡ some (e, (n, after))
      → contents after ≡ contents s
      → IsValid after
      → Outcome s bytes result

put-Outcome :
    (s : Membuf) (bytes : List ℕ) (n : ℕ)
    → IsValid s
    → n ≤ length bytes
    → s.index_write + n ≤ s.buffer_size
    → Outcome s bytes (put s bytes n)
unfolding put contents
put-Outcome s bytes n h few room =
    let inside : ltb s.buffer_size (s.index_write + n) ≡ false = ground (arith, room) in
    put_in n (record s { buffer = s.buffer ++ take n bytes; index_write = s.index_write + n })
      (rw inside refl) few
      (drop-append s.index_read s.buffer (take n bytes) (omega (arith, h.filled, h.ordered)))
      (record {
        ordered = omega (arith, h.ordered);
        filled =
            omega
              (arith, length-append s.buffer (take n bytes), length-take n bytes, few, h.filled);
        fits = room;
        in_memory = h.in_memory;
      })

-- A move of the bytes to the front changes nothing that can be read.
record Moved (s : Membuf) : Type 0 where
  at_front : (defragment s).index_read ≡ 0
  same : contents (defragment s) ≡ contents s
  valid : IsValid (defragment s)
  size_kept : (defragment s).buffer_size ≡ s.buffer_size

defragment-Moved : (s : Membuf) → IsValid s → Moved s
unfolding defragment contents
defragment-Moved s h = elim (Bool-cases (s.index_read == 0)) [
  | inl e ↦ record {
    at_front = rw e (ground (arith, e));
    same = rw e refl;
    valid = rw e h;
    size_kept = rw e refl;
  }
  | inr e ↦ record {
    at_front = rw e refl;
    same = rw e refl;
    valid = rw e (record {
      ordered = omega arith;
      filled = omega (arith, length-drop s.index_read s.buffer, h.filled);
      fits = omega (arith, h.fits);
      in_memory = h.in_memory;
    });
    size_kept = rw e refl;
  }
]

-- What an allocator serves is less than a quarter of the address space.
unfoldable pub Serves : (ℕ → Bool) → Type 0
Serves realloc = (n : ℕ) → realloc n ≡ true → n < 4611686018427387904

module _ (realloc : ℕ → Bool) (serves : Serves realloc) where
  -- The new size is not one that wraps around.
  realloc_membuf-cases :
      (s : Membuf) (n : ℕ)
      → s.index_read ≡ 0
      → s.index_write ≤ s.buffer_size
      → s.buffer_size < s.index_write + n
      → s.buffer_size < 4611686018427387904
      → n < 9223372036854775808
      → ((2 * s.buffer_size + n < 4611686018427387904)
          × (realloc_membuf realloc s ((2 * s.buffer_size + n) % 18446744073709551616)
              ≡ some (success, record s { buffer_size = 2 * s.buffer_size + n })))
        ⊎ (realloc_membuf realloc s ((2 * s.buffer_size + n) % 18446744073709551616)
            ≡ some (errno enomem, s))
  unfolding realloc_membuf Serves
  realloc_membuf-cases s n front fits full memory small =
      let m = 2 * s.buffer_size + n in
      let whole : m % 18446744073709551616 ≡ m = omega (arith, memory, small) in
      let here : (s.index_read == 0 && leb s.index_write m) ≡ true = ground (arith, front, fits) in
      let some_size : (m == 0) ≡ false = ground (arith, fits, full) in
      rw whole (elim (Bool-cases (realloc m)) [
        | inl e ↦ inl (serves m e, rw here (rw e refl))
        | inr e ↦ inr (rw here (rw e (rw some_size refl)))
      ])

  resized :
      (s : Membuf) (m : ℕ)
      → IsValid s
      → s.buffer_size ≤ m
      → m < 4611686018427387904
      → IsValid (record s { buffer_size = m })
  resized s m h more memory = record {
    ordered = h.ordered;
    filled = h.filled;
    fits = omega (arith, h.fits, more);
    in_memory = memory;
  }

  resized-Outcome :
      (s : Membuf) (m : ℕ) (bytes : List ℕ) (result : Option (Err × (ℕ × Membuf)))
      → Outcome (record s { buffer_size = m }) bytes result
      → Outcome s bytes result
  unfolding contents
  resized-Outcome s m bytes result (put_in n after e few c valid) = put_in n after e few c valid
  resized-Outcome s m bytes result (left_out x n after bad e c valid) =
      left_out x n after bad e c valid

  grow_and_put-Outcome :
      (s : Membuf) (bytes : List ℕ)
      → IsValid s
      → length bytes < 9223372036854775808
      → (s.index_read ≡ 0) ⊎ (s.index_write + length bytes ≤ s.buffer_size)
      → Outcome s bytes (grow_and_put realloc s bytes)
  unfolding grow_and_put
  grow_and_put-Outcome s bytes h small front =
      if-split (Outcome s bytes) (ltb s.buffer_size (s.index_write + length bytes))
        (λ e.
          let n = length bytes in
          let full : s.buffer_size < s.index_write + n = ground (arith, e) in
          let first : s.index_read ≡ 0 = omega (arith, front, full) in
          elim (realloc_membuf-cases s n first h.fits full h.in_memory small) [
            | inl r ↦ rw r.1 (
                resized-Outcome s (2 * s.buffer_size + n) bytes
                  (put (record s { buffer_size = 2 * s.buffer_size + n }) bytes n)
                  (put-Outcome (record s { buffer_size = 2 * s.buffer_size + n }) bytes n
                    (resized s (2 * s.buffer_size + n) h (omega arith) r.0) (omega arith)
                    (omega (arith, h.fits))))
            | inr r ↦ rw r (
                if-split (Outcome s bytes) (s.buffer_size - s.index_write == 0)
                  (λ _. left_out (errno enomem) 0 s refl refl refl h)
                  (λ _.
                    put-Outcome s bytes (s.buffer_size - s.index_write) h
                      (omega (arith, full, h.fits)) (omega (arith, h.fits))))
          ])
        (λ e. put-Outcome s bytes (length bytes) h (omega arith) (ground (arith, e)))

  Moved-Outcome :
      (s : Membuf) (bytes : List ℕ) (result : Option (Err × (ℕ × Membuf)))
      → Moved s
      → Outcome (defragment s) bytes result
      → Outcome s bytes result
  Moved-Outcome s bytes result m (put_in n after e few c valid) =
      put_in n after e few (c ∙ ap (λ l. l ++ take n bytes) m.same) valid
  Moved-Outcome s bytes result m (left_out x n after bad e c valid) =
      left_out x n after bad e (c ∙ m.same) valid

  write_some-Outcome :
      (s : Membuf) (bytes : List ℕ)
      → IsValid s
      → length bytes < 9223372036854775808
      → Outcome s bytes (write_some realloc s bytes)
  unfolding write_some
  write_some-Outcome s bytes h small =
      if-split (Outcome s bytes) (length bytes == 0)
        (λ _. put_in 0 s refl (omega arith) (sym (append-nil (contents s))) h)
        (λ _.
          if-split (Outcome s bytes) (ltb s.buffer_size (s.index_write + length bytes))
            (λ _.
              let m = defragment-Moved s h in
              Moved-Outcome s bytes (grow_and_put realloc (defragment s) bytes) m
                (grow_and_put-Outcome (defragment s) bytes m.valid small (inl m.at_front)))
            (λ e. grow_and_put-Outcome s bytes h small (inr (ground (arith, e)))))

  -- A write to a well-formed stream in memory, through its table of operations, of less than half the
  -- address space, with an allocator that serves less than a quarter of it: it ends without a fault; it puts
  -- some front of the bytes behind what waits, or returns an error and changes nothing that waits; the
  -- stream stays well-formed.
  pub write_some-WritesTo :
      (s : Membuf) (bytes : List ℕ)
      → IsValid s
      → length bytes < 9223372036854775808
      → WritesTo (vtable realloc) IsValid contents s bytes
  unfolding Stream.write_some vtable
  write_some-WritesTo s bytes h small = elim (write_some-Outcome s bytes h small) [
    | put_in n after e few c valid ↦ wrote n after e few c valid
    | left_out x n after bad e c valid ↦ refused x n after bad e c valid
  ]

  -- A stream in memory takes what is written to its end, or leaves out the rest.
  pub Membuf-IsSink : IsSink (vtable realloc) IsValid contents
  Membuf-IsSink = record { writes_to = write_some-WritesTo }
