-- ===== src/Buffer/Contents.antt =====
-- The invariant of `avs_buffer_t`, and what the moves inside the block of memory do to the bytes
-- that can be read.
use avs_commons.Common.{
  Bool-cases, inl, inr, ltb, ◌==◌, ℕ, ◌+◌, ◌-◌, ◌≤◌, ◌<◌, ◌≡◌, refl, ap, sym, ◌∙◌, List, [], ◌++◌,
  arith, length, drop, slice, write_at, length-write_at, length-slice, slice-write_at_self,
  slice-write_at_append, drop-slice,
}
use avs_commons.Common.Word.{sub_size, size_mod}
use avs_commons.Buffer.{
  Buffer, data_size, space_left, space_left_without_moving, contents, reset, defragment, make_room,
  put_end,
}

-- The pointers are in order and inside the block, which fits in memory.
pub record IsValid (b : Buffer) : Type 0 where
  pub ordered : b.begin ≤ b.end
  pub inside : b.end ≤ b.capacity
  pub whole : length b.block ≡ b.capacity
  pub small : b.capacity < size_mod

pub data_size-eq : {b : Buffer} → IsValid b → data_size b ≡ b.end - b.begin
unfolding data_size
data_size-eq v = omega arith

pub contents-eq :
    {b : Buffer} (n : ℕ) → IsValid b → b.begin + n ≡ b.end → contents b ≡ slice b.begin n b.block
unfolding contents
contents-eq {b} n v e = ap (λ k. slice b.begin k b.block) (omega (arith, data_size-eq v))

pub length-contents : {b : Buffer} → IsValid b → length (contents b) ≡ b.end - b.begin
length-contents {b} v =
    rw (contents-eq (b.end - b.begin) v (omega arith))
      (length-slice b.begin (b.end - b.begin) b.block (omega arith))

-- What is left and what is stored make up the capacity.
pub space_left-add-length :
    {b : Buffer} → IsValid b → space_left b + length (contents b) ≡ b.capacity
unfolding space_left
space_left-add-length v = omega (arith, data_size-eq v, length-contents v)

-- `b'` holds what `b` holds, at another place perhaps.
pub record Moved (b b' : Buffer) : Type 0 where
  pub valid : IsValid b'
  pub same : contents b' ≡ contents b
  pub cap : b'.capacity ≡ b.capacity

-- The buffer behind the branch of `defragment_buffer` that moves the bytes `q`.
abbrev front : Buffer → ℕ → List ℕ → Buffer
front b n q = record b { block = write_at b.block 0 q; end = n; begin = 0 }

pub front-Moved :
    {b : Buffer} (n : ℕ) (q : List ℕ)
    → IsValid b
    → contents b ≡ q
    → length q ≡ n
    → Moved b (front b n q)
front-Moved {b} n q v e l = record {
  valid = valid;
  same =
      contents-eq (length q) valid (omega arith)
      ∙ slice-write_at_self b.block 0 q (omega (arith, fits))
      ∙ sym e;
  cap = refl;
}
  where
    fits : length q ≡ b.end - b.begin
    fits = ap length (sym e) ∙ length-contents v

    valid : IsValid (front b n q)
    valid = omega (arith, fits, length-write_at b.block 0 q)

pub stay : {b : Buffer} → IsValid b → Moved b b
stay v = record { valid = v; same = refl; cap = refl }

pub defragment-Moved : {b : Buffer} → IsValid b → Moved b (defragment b)
unfolding defragment
defragment-Moved {b} v = elim (Bool-cases (b.begin == 0)) [
  | inl e ↦ rw e (stay v)
  | inr e ↦ rw e (
      front-Moved (data_size b) _ v (unfold contents in refl)
        (unfold contents in omega (arith, data_size-eq v, length-contents v)))
]

pub end-defragment : {b : Buffer} → IsValid b → (defragment b).end ≡ length (contents b)
unfolding defragment
end-defragment {b} v = ground (arith, data_size-eq v, length-contents v)

-- Behind `make_room` the bytes that were asked for fit behind `end`.
pub make_room-Moved :
    {b : Buffer} (n : ℕ)
    → IsValid b
    → n + length (contents b) ≤ b.capacity
    → Moved b (make_room b n) × ((make_room b n).end + n ≤ b.capacity)
unfolding make_room space_left_without_moving
make_room-Moved {b} n v h = elim (Bool-cases (ltb (sub_size b.capacity b.end) n)) [
  | inl e ↦ rw e (defragment-Moved v, omega (arith, end-defragment v))
  | inr e ↦ rw e (stay v, ground arith)
]

-- A copy to `end` appends to the contents.
pub put_end-IsValid :
    {b : Buffer} (xs : List ℕ) → IsValid b → b.end + length xs ≤ b.capacity → IsValid (put_end b xs)
unfolding put_end
put_end-IsValid {b} xs v h = omega (arith, length-write_at b.block b.end xs)

pub contents-put_end :
    {b : Buffer} (xs : List ℕ)
    → IsValid b
    → b.end + length xs ≤ b.capacity
    → contents (put_end b xs) ≡ contents b ++ xs
unfolding put_end
contents-put_end {b} xs v h =
    let n = b.end - b.begin in
    let e : b.begin + n ≡ b.end = omega arith in
    contents-eq (n + length xs) (put_end-IsValid xs v h) (omega arith)
    ∙ ap (λ k. slice b.begin (n + length xs) (write_at b.block k xs)) (sym e)
    ∙ slice-write_at_append b.block b.begin n xs (omega arith)
    ∙ ap (λ l. l ++ xs) (sym (contents-eq n v e))

-- `xs` was put behind what `b` holds.
pub record Stored (b : Buffer) (xs : List ℕ) (b' : Buffer) : Type 0 where
  pub valid : IsValid b'
  pub bytes : contents b' ≡ contents b ++ xs
  pub cap : b'.capacity ≡ b.capacity

pub store-Stored :
    {b : Buffer} (n : ℕ) (xs : List ℕ)
    → IsValid b
    → length xs ≡ n
    → n + length (contents b) ≤ b.capacity
    → Stored b xs (put_end (make_room b n) xs)
unfolding put_end
store-Stored {b} n xs v l h =
    let (m, fits) = make_room-Moved n v h in
    record {
      valid = put_end-IsValid xs m.valid (omega (arith, m.cap));
      bytes = contents-put_end xs m.valid (omega (arith, m.cap)) ∙ ap (λ q. q ++ xs) m.same;
      cap = m.cap;
    }

-- Moving `begin` on drops the oldest bytes.
abbrev pub skip : Buffer → ℕ → Buffer
skip b n = record b { begin = b.begin + n }

pub skip-IsValid : {b : Buffer} (n : ℕ) → IsValid b → n ≤ length (contents b) → IsValid (skip b n)
skip-IsValid n v h = omega (arith, length-contents v)

pub contents-skip :
    {b : Buffer} (n : ℕ)
    → IsValid b
    → n ≤ length (contents b)
    → contents (skip b n) ≡ drop n (contents b)
contents-skip {b} n v h =
    let k = b.end - b.begin in
    contents-eq (k - n) (skip-IsValid n v h) (omega (arith, length-contents v))
    ∙ sym (drop-slice n b.begin k b.block)
    ∙ ap (drop n) (sym (contents-eq k v (omega arith)))

pub contents-reset : (b : Buffer) → contents (reset b) ≡ []
unfolding contents reset
contents-reset b = refl
