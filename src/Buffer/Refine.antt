-- ===== src/Buffer/Refine.antt =====
-- The buffer of avs_buffer.c keeps its invariant, and behaves as the bounded queue of its contents.
use avs_commons.Common.{
  Option-cases, inl, inr, ℕ, ◌+◌, ◌%◌, ◌≤◌, ◌<◌, ◌≡◌, refl, ap, ◌∙◌, Option, some, List, [], ◌∷◌,
  ◌++◌, arith, length, write_at, replicate, length-write_at, length-replicate, length-drop,
}
use avs_commons.Common.Word.{add_size, Status, ok, size_mod}
use avs_commons.Buffer.{
  Buffer, space_left, space_left_without_moving, contents, reset, create, defragment,
  raw_insert_ptr, consume_bytes, make_room, put_end, append_bytes, advance_ptr, fill_bytes,
}
use avs_commons.Buffer.Contents.{
  IsValid, data_size-eq, length-contents, space_left-add-length, Moved, defragment-Moved,
  end-defragment, put_end-IsValid, contents-put_end, store-Stored, skip-IsValid, contents-skip,
  contents-reset,
}
use avs_commons.Buffer.Queue
use avs_commons.Buffer.Queue.{Op, consume, append, fill, clear}

-- One call of a client.
unfoldable pub step : Buffer → Op → Status × Buffer
step b (consume n) = consume_bytes b n
step b (append xs) = append_bytes b xs
step b (fill v n) = fill_bytes b v n
step b clear = (ok, reset b)

-- A call returns what the queue's call returns, leaves the buffer holding what the queue holds, and
-- keeps the invariant and the capacity.
pub record Refines (b : Buffer) (op : Op) : Type 0 where
  pub status : (step b op).0 ≡ (Queue.step b.capacity op (contents b)).0
  pub bytes : contents (step b op).1 ≡ (Queue.step b.capacity op (contents b)).1
  pub valid : IsValid (step b op).1
  pub cap : (step b op).1.capacity ≡ b.capacity

consume-Refines : {b : Buffer} (n : ℕ) → IsValid b → Refines b (consume n)
unfolding step Queue.step consume_bytes
consume-Refines {b} n v =
    ground (arith, data_size-eq v, length-contents v, skip-IsValid n v, contents-skip n v)

-- The two calls that store bytes, from the same lemma.
append-Refines : {b : Buffer} (xs : List ℕ) → IsValid b → Refines b (append xs)
unfolding step Queue.step append_bytes
append-Refines {b} xs v =
    ground (arith, space_left-add-length v, store-Stored (length xs) xs v refl)

fill-Refines : {b : Buffer} (x n : ℕ) → IsValid b → Refines b (fill x n)
unfolding step Queue.step fill_bytes
fill-Refines {b} x n v =
    let xs : List ℕ = replicate n (x % 256) in
    ground (arith, space_left-add-length v, store-Stored n xs v (length-replicate n (x % 256)))

clear-Refines : {b : Buffer} → IsValid b → Refines b clear
unfolding step Queue.step reset
clear-Refines {b} v = ground (arith, contents-reset b)

-- Each call of a client returns what the bounded queue's call returns, leaves the buffer holding what
-- the queue holds, and keeps the invariant and the capacity.
pub step-Refines : {b : Buffer} (op : Op) → IsValid b → Refines b op
step-Refines (consume n) v = consume-Refines n v
step-Refines (append xs) v = append-Refines xs v
step-Refines (fill x n) v = fill-Refines x n v
step-Refines clear v = clear-Refines v

-- What each call of a client returns, and the bytes that can be read after it.
unfoldable pub run : List Op → Buffer → List (Status × List ℕ)
unfolding step
run [] b = []
run (op ∷ ops) b = ((step b op).0, contents (step b op).1) ∷ run ops (step b op).1

-- No sequence of calls tells a valid buffer from the bounded queue of its contents.
pub run_refines :
    (ops : List Op) {b : Buffer} → IsValid b → run ops b ≡ Queue.run b.capacity ops (contents b)
unfolding run Queue.run
run_refines [] v = refl
run_refines (op ∷ ops) {b} v =
    let r = step-Refines op v in rw (run_refines ops r.valid, r.cap, r.bytes, r.status)

-- A new buffer is valid and empty, if the allocator gives the size that it was asked for and that
-- size does not wrap.
pub create-IsValid :
    (malloc : ℕ → Option (List ℕ)) (header cap : ℕ) {b : Buffer}
    → ((n : ℕ) (memory : List ℕ) → malloc n ≡ some memory → length memory ≡ n)
    → header + cap < size_mod
    → create malloc header cap ≡ some b
    → IsValid b × (contents b ≡ []) × (b.capacity ≡ cap)
unfolding create reset contents
create-IsValid malloc header cap {b} sized fits e =
    elim (Option-cases (malloc (add_size header cap))) [
      | inl n ↦ cc (n)
      | inr (m, p) ↦ ground (arith, sized (add_size header cap) m p, length-drop header m)
    ]

-- With room behind `end`, `avs_buffer_advance_ptr` moves `end` and nothing else.
advance_ptr-fits :
    {b : Buffer} (n : ℕ)
    → IsValid b
    → b.end + n ≤ b.capacity
    → advance_ptr b n ≡ (ok, record b { end = b.end + n })
unfolding advance_ptr make_room space_left_without_moving
advance_ptr-fits {b} n v h = ground (arith, space_left-add-length v, length-contents v)

-- Writing at most the space that is left to the pointer of `avs_buffer_raw_insert_ptr`, and then
-- calling `avs_buffer_advance_ptr`, succeeds, appends what was written, and keeps the invariant.
pub advance_ptr-raw_insert_ptr :
    {b : Buffer} (xs : List ℕ)
    → IsValid b
    → length xs ≤ space_left b
    → let (p, b') = raw_insert_ptr b in
      let (s, b'') = advance_ptr (record b' { block = write_at b'.block p xs }) (length xs) in
      (s ≡ ok) × (contents b'' ≡ contents b ++ xs) × IsValid b''
unfolding raw_insert_ptr put_end
advance_ptr-raw_insert_ptr {b} xs v h =
    rw (advance_ptr-fits (length xs) written room) (refl, bytes, valid)
  where
    b' : Buffer
    b' = defragment b

    m : Moved b b'
    m = defragment-Moved v

    room : b'.end + length xs ≤ b'.capacity
    room = omega (arith, end-defragment v, m.cap, space_left-add-length v)

    written : IsValid (record b' { block = write_at b'.block b'.end xs })
    written = let w = m.valid in omega (arith, length-write_at b'.block b'.end xs)

    bytes : contents (put_end b' xs) ≡ contents b ++ xs
    bytes = contents-put_end xs m.valid room ∙ ap (λ q. q ++ xs) m.same

    valid : IsValid (put_end b' xs)
    valid = put_end-IsValid xs m.valid room
