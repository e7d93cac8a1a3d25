-- ===== src/Blockbuf/Sides.antt =====
-- Both streams keep to the interface of Stream: one is a source and the other a sink of a queue of bytes.
use avs_commons.Blockbuf.{Inbuf, inbuf_vtable, Outbuf, outbuf_vtable}
use avs_commons.Stream
use avs_commons.Stream.{Err, success, errno, ebadf}
use avs_commons.Stream.Queue.{ReadsTo, IsSource, WritesTo, wrote, refused, IsSink}
use avs_commons.Common.{
  ℕ, zero, suc, true, false, ◌≡◌, refl, sym, ap, ◌∙◌, ◌≤◌, ◌<◌, ◌+◌, ◌-◌, ◌%◌, ◌==◌, ltb, leb, min,
  Option, some, ◌++◌, if◌then◌else◌, List, length, take, drop, length-take, length-drop,
  length-write_at, drop-drop, drop_over, take-write_at_append, write_at, Bool-cases, inl, inr,
  arith,
}

unfoldable pub unread : Inbuf → List ℕ
unread s = drop s.buffer_offset s.buffer

pub record InbufIsValid (s : Inbuf) : Type 0 where
  pub whole : length s.buffer ≡ s.buffer_size
  pub inside : s.buffer_offset ≤ s.buffer_size

-- A read from a block takes the first bytes that have not been read, as many as are asked for or are there,
-- and tells whether these were all, if it reads any.
pub inbuf_read-ReadsTo :
    (s : Inbuf) (n : ℕ) → InbufIsValid s → ReadsTo inbuf_vtable InbufIsValid unread s n
unfolding Stream.read inbuf_vtable unread
inbuf_read-ReadsTo s zero h = record {
  count = 0;
  finished = false;
  after = s;
  reads = refl;
  few = omega arith;
  there = omega arith;
  rest = refl;
  ends = λ e. absurd (ground (arith, e));
  goes_on = λ e k. absurd (omega (arith, k));
  after-Valid = h;
}
inbuf_read-ReadsTo s (suc m) h =
    let left = s.buffer_size - s.buffer_offset in
    let k = if ltb left (suc m) then left else suc m in
    let few : k ≤ left = ground arith in
    let all : length (drop s.buffer_offset s.buffer) ≡ left =
      omega (arith, length-drop s.buffer_offset s.buffer, h.whole) in
    let inside : leb s.buffer_offset s.buffer_size ≡ true = ground (arith, h.inside) in
    let more : (suc m == 0) ≡ false = ground arith in
    record {
      count = k;
      finished = leb s.buffer_size (s.buffer_offset + k);
      after = record s { buffer_offset = s.buffer_offset + k };
      reads = rw more (rw inside refl);
      few = ground arith;
      there = omega (arith, few, all);
      rest = sym (drop-drop k s.buffer_offset s.buffer);
      ends = λ e. drop_over s.buffer (s.buffer_offset + k) (ground (arith, e, h.whole));
      goes_on = λ e p. ground (arith, e, h.inside);
      after-Valid = record { whole = h.whole; inside = omega (arith, few, h.inside) };
    }

pub Inbuf-IsSource : IsSource inbuf_vtable InbufIsValid unread
Inbuf-IsSource = record { reads_to = inbuf_read-ReadsTo }

unfoldable pub written : Outbuf → List ℕ
written s = take s.block_offset s.block

pub record OutbufIsValid (s : Outbuf) : Type 0 where
  pub whole : length s.block ≡ s.block_size
  pub inside : s.block_offset ≤ s.block_size
  pub in_memory : s.block_size < 9223372036854775808

abbrev pub room : Outbuf → ℕ
room s = s.block_size - s.block_offset

-- A write, by whether the message has been finished.
pub data Fills (s : Outbuf) (bytes : List ℕ) (result : Option (Err × (ℕ × Outbuf))) : Type 0 where
  closed :
      s.message_finished ≡ true
      → result ≡ some (errno ebadf, (length bytes, s))
      → Fills s bytes result
  filled :
      (after : Outbuf)
      → s.message_finished ≡ false
      → result ≡ some (success, (min (length bytes) (room s), after))
      → written after ≡ written s ++ take (min (length bytes) (room s)) bytes
      → room after ≡ room s - length bytes
      → after.message_finished ≡ false
      → OutbufIsValid after
      → Fills s bytes result

-- A write of less than half the address space into a block: if the message was finished it returns
-- AVS_EBADF and changes nothing; and otherwise it returns AVS_OK and puts the first bytes behind what is
-- written, just as many as there is room for, if not all; it stays inside the block, which keeps its size.
pub outbuf_write_some-Fills :
    (s : Outbuf) (bytes : List ℕ)
    → OutbufIsValid s
    → length bytes < 9223372036854775808
    → Fills s bytes (Stream.write_some outbuf_vtable s bytes)
unfolding Stream.write_some outbuf_vtable written
outbuf_write_some-Fills s bytes h small =
    let sum : (s.block_offset + length bytes) % 18446744073709551616
        ≡ s.block_offset + length bytes =
      omega (arith, small, h.inside, h.in_memory) in
    let n = min (length bytes) (room s) in
    let n_is : (if ltb s.block_size (s.block_offset + length bytes)
          then s.block_size - s.block_offset
          else length bytes)
        ≡ n =
      ground (arith, h.inside) in
    let few : n ≤ length bytes = omega arith in
    let fits : s.block_offset + n ≤ s.block_size = omega (arith, h.inside) in
    let full : length (take n bytes) ≡ n = omega (arith, length-take n bytes, few) in
    let inside : ltb (length s.block) (s.block_offset + n) ≡ false =
      ground (arith, fits, h.whole) in
    elim (Bool-cases s.message_finished) [
      | inl q ↦ closed q (rw q refl)
      | inr q ↦
          filled
            (record s {
              block = write_at s.block s.block_offset (take n bytes);
              block_offset = s.block_offset + n;
            })
            q (rw q (rw sum (rw n_is (rw inside refl))))
            (ap (λ k. take (s.block_offset + k) (write_at s.block s.block_offset (take n bytes)))
                (sym full)
              ∙ take-write_at_append s.block s.block_offset (take n bytes)
                  (omega (arith, full, fits, h.whole)))
            (omega (arith, h.inside)) q
            (record {
              whole = length-write_at s.block s.block_offset (take n bytes) ∙ h.whole;
              inside = fits;
              in_memory = h.in_memory;
            })
    ]

outbuf_write_some-WritesTo :
    (s : Outbuf) (bytes : List ℕ)
    → OutbufIsValid s
    → length bytes < 9223372036854775808
    → WritesTo outbuf_vtable OutbufIsValid written s bytes
outbuf_write_some-WritesTo s bytes h small = elim (outbuf_write_some-Fills s bytes h small) [
  | closed q e ↦ refused (errno ebadf) (length bytes) s refl e refl h
  | filled after q e added r open_end valid ↦
      wrote (min (length bytes) (room s)) after e (omega arith) added valid
]

pub Outbuf-IsSink : IsSink outbuf_vtable OutbufIsValid written
Outbuf-IsSink = record { writes_to = outbuf_write_some-WritesTo }
