-- ===== src/Membuf/Queue.antt =====
-- The stream of src/stream/avs_stream_membuf.c as a queue of bytes.
use avs_commons.Membuf.{Membuf, read, peek, vtable}
use avs_commons.Stream
use avs_commons.Stream.{success}
use avs_commons.Stream.Queue.{ReadsTo, IsSource, CanPeek}
use avs_commons.Common.{
  some, ◌<◌, ℕ, Bool, true, ◌≡◌, refl, sym, ap, ◌∙◌, ◌≤◌, ◌+◌, ◌-◌, ◌==◌, List, [], length, drop,
  length-drop, drop-drop, drop_over, get_elem?, get_elem?-drop, get_elem?-lt, false, ltb, leb,
  if◌then◌else◌, if-split, arith,
}

-- The bytes that wait to be read.
unfoldable pub contents : Membuf → List ℕ
contents s = drop s.index_read s.buffer

pub record IsValid (s : Membuf) : Type 0 where
  pub ordered : s.index_read ≤ s.index_write
  pub filled : length s.buffer ≡ s.index_write
  pub fits : s.index_write ≤ s.buffer_size
  pub in_memory : s.buffer_size < 4611686018427387904

length-contents : (s : Membuf) → IsValid s → length (contents s) ≡ s.index_write - s.index_read
unfolding contents
length-contents s h = omega (arith, length-drop s.index_read s.buffer, h.filled)

-- What `read` leaves behind after `k` bytes.
abbrev advanced : Membuf → ℕ → Membuf
advanced s k =
    if k == 0
    then s
    else if s.index_read + k == s.index_write
    then record s { buffer = []; index_read = 0; index_write = 0 }
    else record s { index_read = s.index_read + k }

contents-advanced :
    (s : Membuf) (k : ℕ)
    → IsValid s
    → k ≤ s.index_write - s.index_read
    → contents (advanced s k) ≡ drop k (contents s)
unfolding contents
contents-advanced s k h room =
    if-split (λ r. contents r ≡ drop k (contents s)) (k == 0)
      (λ e. ap (λ n. drop n (contents s)) (nothing e))
      (λ _.
        if-split (λ r. contents r ≡ drop k (contents s)) (s.index_read + k == s.index_write)
          (λ e. sym (drop_over (contents s) k (ground (arith, e, length-contents s h))))
          (λ _. sym (drop-drop k s.index_read s.buffer)))
  where
    nothing : (k == 0) ≡ true → 0 ≡ k
    nothing e = ground (arith, e)

advanced-IsValid :
    (s : Membuf) (k : ℕ) → IsValid s → k ≤ s.index_write - s.index_read → IsValid (advanced s k)
advanced-IsValid s k h room =
    if-split IsValid (k == 0) (λ _. h)
      (λ _.
        if-split IsValid (s.index_read + k == s.index_write)
          (λ _. record {
            ordered = omega arith;
            filled = refl;
            fits = omega arith;
            in_memory = h.in_memory;
          })
          (λ _. record {
            ordered = omega (arith, h.ordered, room);
            filled = h.filled;
            fits = h.fits;
            in_memory = h.in_memory;
          }))

-- A read of a well-formed stream in memory, through its table of operations, returns the first bytes that
-- wait, as many as are asked for or are there, and tells whether these are all; it leaves the others in a
-- well-formed stream.
pub read-ReadsTo :
    (realloc : ℕ → Bool) (s : Membuf) (n : ℕ)
    → IsValid s
    → ReadsTo (vtable realloc) IsValid contents s n
unfolding Stream.read vtable read contents
read-ReadsTo realloc s n h = record {
  count = k;
  finished = k == left;
  after = advanced s k;
  reads = rw inside refl;
  few = ground arith;
  there = omega (arith, few, all);
  rest = contents-advanced s k h few;
  ends = λ e. contents-advanced s k h few ∙ drop_over (contents s) k (ground (arith, e, all));
  goes_on = λ e h. ground (arith, e);
  after-Valid = advanced-IsValid s k h few;
}
  where
    left : ℕ
    left = s.index_write - s.index_read

    k : ℕ
    k = if ltb left n then left else n

    all : length (contents s) ≡ left
    all = length-contents s h

    few : k ≤ left
    few = ground arith

    inside : leb s.index_read s.index_write ≡ true
    inside = ground (arith, h.ordered)

-- The stream gives back what waits, from the front.
pub Membuf-IsSource : (realloc : ℕ → Bool) → IsSource (vtable realloc) IsValid contents
Membuf-IsSource realloc = record { reads_to = read-ReadsTo realloc }

peek_lem :
    (s : Membuf) (k c : ℕ)
    → IsValid s
    → get_elem? (contents s) k ≡ some c
    → peek s k ≡ some (success, (c, s))
unfolding peek contents
peek_lem s k c h e =
    let place : get_elem? s.buffer (s.index_read + k) ≡ some c =
      sym (get_elem?-drop s.index_read k s.buffer) ∙ e in
    let inside : leb s.index_write (s.index_read + k) ≡ false =
      ground (arith, get_elem?-lt s.buffer (s.index_read + k) c place, h.filled) in
    rw inside (rw place refl)

pub Membuf-CanPeek : (realloc : ℕ → Bool) → CanPeek (vtable realloc) IsValid contents
unfolding vtable Stream.peek
Membuf-CanPeek realloc = record { peeks = peek_lem }
