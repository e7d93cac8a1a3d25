-- ===== src/Buffer.antt =====
-- src/buffer/avs_buffer.c: a byte queue in one block of memory that is moved to its front on demand.
-- A pointer into `data.data` is its offset from there; a function that updates `*buffer` returns the
-- new buffer behind its status.
pub mod Queue
pub mod Contents
pub mod Refine
mod Tests
use avs_commons.Common.{
  ℕ, ◌+◌, ◌%◌, Bool, true, false, Option, none, some, List, [], ◌∷◌, ltb, ◌==◌, if◌then◌else◌,
  length, drop, slice, write_at, replicate, not,
}
use avs_commons.Common.Word.{add_size, sub_size, Status, ok, fail}

-- `struct avs_buffer_struct`; `block` is the memory from `data.data` on.
pub record Buffer : Type 0 where
  pub capacity : ℕ
  pub block : List ℕ
  pub begin : ℕ
  pub end : ℕ

pub data_size : Buffer → ℕ
data_size b = sub_size b.end b.begin

pub capacity : Buffer → ℕ
capacity b = b.capacity

pub space_left : Buffer → ℕ
unfolding data_size
space_left b = sub_size b.capacity (data_size b)

space_left_without_moving : Buffer → ℕ
space_left_without_moving b = sub_size b.capacity b.end

-- The bytes that `avs_buffer_data` points to, `avs_buffer_data_size` of them.
pub contents : Buffer → List ℕ
unfolding data_size
contents b = slice b.begin (data_size b) b.block

pub reset : Buffer → Buffer
reset b = record b { begin = 0; end = 0 }

-- `malloc n` is a block of memory, or none; `header` is `offsetof(avs_buffer_t, data)`.
pub create : (ℕ → Option (List ℕ)) → ℕ → ℕ → Option Buffer
unfolding reset
create malloc header capacity = elim (malloc (add_size header capacity)) [
  | none ↦ none
  | some memory ↦
      some (reset (record { capacity = capacity; block = drop header memory; begin = 0; end = 0 }))
]

pub defragment : Buffer → Buffer
unfolding data_size
defragment b =
    let used = data_size b in
    if b.begin == 0
    then b
    else record b { block = write_at b.block 0 (slice b.begin used b.block); end = used; begin = 0 }

-- The offset that `avs_buffer_raw_insert_ptr` returns, and the buffer that it leaves.
pub raw_insert_ptr : Buffer → ℕ × Buffer
unfolding defragment
raw_insert_ptr b = ((defragment b).end, defragment b)

pub consume_bytes : Buffer → ℕ → Status × Buffer
unfolding data_size
consume_bytes b n =
    if ltb (data_size b) n then (fail, b) else (ok, record b { begin = b.begin + n })

-- `if (n > space_left_without_moving(buffer)) { defragment_buffer(buffer); }`
pub make_room : Buffer → ℕ → Buffer
unfolding space_left_without_moving defragment
make_room b n = if ltb (space_left_without_moving b) n then defragment b else b

-- A copy to `end`, with `end` moved behind it.
pub put_end : Buffer → List ℕ → Buffer
put_end b xs = record b { block = write_at b.block b.end xs; end = b.end + length xs }

pub append_bytes : Buffer → List ℕ → Status × Buffer
unfolding space_left make_room put_end
append_bytes b xs =
    if ltb (space_left b) (length xs) then (fail, b) else (ok, put_end (make_room b (length xs)) xs)

pub advance_ptr : Buffer → ℕ → Status × Buffer
unfolding space_left make_room
advance_ptr b n =
    let b' = make_room b n in
    if ltb (space_left b) n then (fail, b) else (ok, record b' { end = b'.end + n })

-- `memset` stores the low byte of `value`.
pub fill_bytes : Buffer → ℕ → ℕ → Status × Buffer
unfolding space_left make_room put_end
fill_bytes b value n =
    if ltb (space_left b) n
    then (fail, b)
    else (ok, put_end (make_room b n) (replicate n (value % 256)))
