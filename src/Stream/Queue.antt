-- ===== src/Stream/Queue.antt =====
-- What a stream of src/stream/avs_stream.c promises to the code on top of it: it is a queue of bytes.
-- `content` is what waits to be read, `Valid` an invariant of the implementation.
use avs_commons.Stream.{VTable, Err, success, is_ok, read, write_some, peek}
use avs_commons.Common.{
  ℕ, Bool, true, false, some, ◌≡◌, ◌≤◌, ◌<◌, List, [], ◌++◌, length, take, drop, get_elem?,
}

-- One read, of `count` bytes from the front, which may be fewer than are asked for.
pub record ReadsTo {S : Type 0} (v : VTable S) (Valid : S → Type 0) (content : S → List ℕ) (s : S)
    (n : ℕ) : Type 0 where
  pub count : ℕ
  pub finished : Bool
  pub after : S
  pub reads : read v s n ≡ some (success, (take count (content s), (finished, after)))
  pub few : count ≤ n
  pub there : count ≤ length (content s)
  pub rest : content after ≡ drop count (content s)
  pub ends : finished ≡ true → content after ≡ []
  pub goes_on : finished ≡ false → 0 < n → 0 < count
  pub after-Valid : Valid after

-- Reads take bytes from the front; one that does not finish the message makes progress.
pub record IsSource {S : Type 0} (v : VTable S) (Valid : S → Type 0) (content : S → List ℕ)
    : Type 0 where
  pub reads_to : (s : S) (n : ℕ) → Valid s → ReadsTo v Valid content s n

-- One write, of the first `n` bytes, or an error that writes nothing.
pub data WritesTo {S : Type 0} (v : VTable S) (Valid : S → Type 0) (content : S → List ℕ) (s : S)
    (bytes : List ℕ) : Type 0 where
  wrote :
      (n : ℕ) (after : S)
      → write_some v s bytes ≡ some (success, (n, after))
      → n ≤ length bytes
      → content after ≡ content s ++ take n bytes
      → Valid after
      → WritesTo v Valid content s bytes
  refused :
      (e : Err) (n : ℕ) (after : S)
      → is_ok e ≡ false
      → write_some v s bytes ≡ some (e, (n, after))
      → content after ≡ content s
      → Valid after
      → WritesTo v Valid content s bytes

-- A buffer takes less than half the address space.
pub record IsSink {S : Type 0} (v : VTable S) (Valid : S → Type 0) (content : S → List ℕ)
    : Type 0 where
  pub writes_to :
      (s : S) (bytes : List ℕ)
      → Valid s
      → length bytes < 9223372036854775808
      → WritesTo v Valid content s bytes

-- A look ahead shows what a read would take, and changes nothing.
pub record CanPeek {S : Type 0} (v : VTable S) (Valid : S → Type 0) (content : S → List ℕ)
    : Type 0 where
  pub peeks :
      (s : S) (k c : ℕ)
      → Valid s
      → get_elem? (content s) k ≡ some c
      → peek v s k ≡ some (success, (c, s))
