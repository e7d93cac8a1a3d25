-- ===== src/Http/Chunked/Lost.antt =====
-- What chunked_read of src/http/body_receivers/avs_chunked_body_receiver.c makes of an error of the connection.
use avs_commons.Common.{
  ℕ, zero, suc, Bool, true, false, none, some, ◌≡◌, refl, ap, ◌∙◌, ◌<◌, ◌+◌, ◌==◌, min, List, [],
  length, append-nil, arith,
}
use avs_commons.Common.Word.{size_mod, sub_size}
use avs_commons.Http.Chunked.{Chunked, read_data, chunked_read, chunked_vtable}
use avs_commons.Http.Chunked.Whole.{chunked_read_within}
use avs_commons.Http.Chunked.Reliably.{read_is}
use avs_commons.Stream
use avs_commons.Stream.{VTable, Err, success, is_ok, read_loop}
use avs_commons.Stream.Reliably.{read_loop-step}

-- Every read of `p` fails, takes no bytes, and leaves it as it is.
pub record IsBroken {S : Type 0} (v : VTable S) (p : S) : Type 0 where
  pub err : Err
  pub is_error : is_ok err ≡ false
  pub finished : Bool
  pub reads : (n : ℕ) → Stream.read v p n ≡ some (err, ([], (finished, p)))

module _ {S : Type 0} (v : VTable S) (fuel : ℕ) (setsock : S → S) (s : Chunked S)
    (broken : IsBroken v s.backend) (some_left : 0 < s.chunk_left)
    (small : s.chunk_left < size_mod) where
  nothing_off : sub_size s.chunk_left 0 ≡ s.chunk_left
  nothing_off = omega (arith, small)

  read_data-hides : (n : ℕ) → read_data v true fuel s n ≡ some (success, ([], (false, s)))
  unfolding read_data
  read_data-hides n = rw (broken.reads (min n s.chunk_left)) (
      rw broken.is_error
        (ap (λ (k : ℕ). some (success, ([], (false, record s { chunk_left = k })))) nothing_off))

  chunked_read-hides : (n : ℕ) → chunked_read v true fuel s n ≡ some (success, ([], (false, s)))
  chunked_read-hides n =
      let left : (s.chunk_left == 0) ≡ false = ground (arith, some_left) in
      chunked_read_within v fuel s n left ∙ read_data-hides n

  read_loop_stuck :
      (rounds n : ℕ) (bytes : List ℕ)
      → 0 < n
      → read_loop (chunked_vtable v true fuel setsock) rounds s (length bytes + n) bytes false
        ≡ none
  unfolding read_loop
  read_loop_stuck zero n bytes k = refl
  read_loop_stuck (suc rounds) n bytes k =
      read_loop-step (chunked_vtable v true fuel setsock) rounds s n bytes [] false s k
        (read_is v fuel setsock s n ∙ chunked_read-hides n)
      ∙ ap
          (λ (l : List ℕ).
            read_loop (chunked_vtable v true fuel setsock) rounds s (length bytes + n) l false)
          (append-nil bytes)
      ∙ read_loop_stuck rounds n bytes k

-- Within a chunk, with a connection of which every read fails: chunked_read returns AVS_OK, no bytes, and
-- leaves the receiver as it is, and the loop of avs_stream_read_reliably, asked for at least one byte, has
-- no number of rounds in which it ends.
pub chunked_read-hides_errors :
    {S : Type 0} (v : VTable S) (fuel : ℕ) (setsock : S → S) (s : Chunked S)
    → IsBroken v s.backend
    → 0 < s.chunk_left
    → s.chunk_left < size_mod
    → ((n : ℕ) → chunked_read v true fuel s n ≡ some (success, ([], (false, s))))
      × ((rounds n : ℕ)
          → 0 < n
          → read_loop (chunked_vtable v true fuel setsock) rounds s n [] false ≡ none)
chunked_read-hides_errors v fuel setsock s broken some_left small = (
  chunked_read-hides v fuel setsock s broken some_left small,
  λ rounds n k.
      ap (λ (l : ℕ). read_loop (chunked_vtable v true fuel setsock) rounds s l [] false)
        (omega arith)
      ∙ read_loop_stuck v fuel setsock s broken some_left small rounds n [] k,
)
