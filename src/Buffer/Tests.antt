-- ===== src/Buffer/Tests.antt =====
-- Concrete runs of avs_buffer.c, and the theorems at concrete inputs.
use avs_commons.Common.{
  ℕ, ◌≡◌, refl, Option, none, some, List, [], ◌∷◌, arith, length, replicate, ltb, if◌then◌else◌,
  length-replicate,
}
use avs_commons.Common.Word.{ok, fail}
use avs_commons.Buffer.{Buffer, contents, reset, consume_bytes, append_bytes, fill_bytes}
use avs_commons.Buffer.Contents.{IsValid}
use avs_commons.Buffer.Queue
use avs_commons.Buffer.Queue.{Op, consume, append, fill, clear}
use avs_commons.Buffer.Refine.{run, run_refines}

-- Six bytes of memory; the bytes 7 and 8 stand at its end.
abbrev at_end : Buffer
at_end = record { capacity = 6; block = 1 ∷ 2 ∷ 3 ∷ 4 ∷ 7 ∷ 8 ∷ []; begin = 4; end = 6 }

at_end-IsValid : IsValid at_end
at_end-IsValid = omega arith

-- The bytes are moved to the front, since there is no room behind them.
append_moves :
    append_bytes at_end (9 ∷ 9 ∷ [])
    ≡ (ok, record { capacity = 6; block = 7 ∷ 8 ∷ 9 ∷ 9 ∷ 7 ∷ 8 ∷ []; begin = 0; end = 4 })
unfolding append_bytes
append_moves = refl

append_too_much : append_bytes at_end (1 ∷ 2 ∷ 3 ∷ 4 ∷ 5 ∷ []) ≡ (fail, at_end)
unfolding append_bytes
append_too_much = refl

abbrev script : List Op
script = append (5 ∷ 6 ∷ []) ∷ consume 3 ∷ fill 257 5 ∷ consume 9 ∷ fill 0 1 ∷ clear ∷ []

run-script :
    run script at_end
    ≡ (ok, 7 ∷ 8 ∷ 5 ∷ 6 ∷ [])
      ∷ (ok, 6 ∷ [])
      ∷ (ok, 6 ∷ 1 ∷ 1 ∷ 1 ∷ 1 ∷ 1 ∷ [])
      ∷ (fail, 6 ∷ 1 ∷ 1 ∷ 1 ∷ 1 ∷ 1 ∷ [])
      ∷ (fail, 6 ∷ 1 ∷ 1 ∷ 1 ∷ 1 ∷ 1 ∷ [])
      ∷ (ok, [])
      ∷ []
unfolding run append_bytes consume_bytes fill_bytes reset contents
run-script = refl

run_refines_example : run script at_end ≡ Queue.run 6 script (contents at_end)
run_refines_example = run_refines script at_end-IsValid

-- An allocator with one hundred bytes of zeros.
abbrev small_heap : ℕ → Option (List ℕ)
small_heap n = if ltb 100 n then none else some (replicate n 0)

small_heap-sized : (n : ℕ) (memory : List ℕ) → small_heap n ≡ some memory → length memory ≡ n
small_heap-sized n memory e = ground (arith, length-replicate {A = ℕ} n 0)
