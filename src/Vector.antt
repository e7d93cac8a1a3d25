-- ===== src/Vector.antt =====
-- src/vector/avs_vector.c: growing arrays. An element is a value of `A` and takes `elem_size` bytes;
-- two elements are exchanged as wholes, where the code exchanges them byte by byte. `slots` are the
-- elements at the start of the block, `bytes` is what was asked of the allocator. `size_t` has 64 bits.
-- `none` as a result stands for a failed assertion or an access outside of the block.
pub mod Grow
pub mod Exchange
pub mod Remove
mod Tests
use avs_commons.Common.{
  ◌>>=◌, ℕ, zero, suc, Bool, true, false, not, ◌&&◌, ◌||◌, Option, none, some, List, [], ◌∷◌, ◌++◌,
  ◌==◌, ltb, leb, ◌+◌, ◌-◌, ◌*◌, ◌%◌, if◌then◌else◌, length, get_elem?, set, take, drop, write_at,
}
use avs_commons.Common.Word.{Status, ok, fail}

-- `struct avs_vector_desc_struct`
pub record Vector {ℓ} (A : Type ℓ) : Type ℓ where
  pub size : ℕ
  pub capacity : ℕ
  pub elem_size : ℕ
  pub slots : List A
  pub bytes : ℕ

module _ {ℓ} {A : Type ℓ} where
  -- `avs_vector_new__`, where the allocation succeeds.
  pub new : ℕ → Vector A
  new elem_size = record { size = 0; capacity = 0; elem_size = elem_size; slots = []; bytes = 0 }

  pub at : Vector A → ℕ → Option A
  at v index = if leb v.size index then none else get_elem? v.slots index

  pub back : Vector A → Option A
  back v = if v.size == 0 then none else get_elem? v.slots (v.size - 1)

  -- The element that is returned stays behind the end, where the next push overwrites it.
  pub pop : Vector A → Option A × Vector A
  unfolding back
  pop v = (
    back v,
    record v { size = if v.size == 0 then 0 else v.size - 1; slots = take (v.size - 1) v.slots },
  )

  -- `vector_swap_internal`
  pub swap : Vector A → ℕ → ℕ → Option (Vector A)
  swap v i j =
      if not (ltb i v.size && ltb j v.size)
      then none
      else if i == j
      then some v
      else get_elem? v.slots i >>= λ a.
          get_elem? v.slots j >>= λ b. some (record v { slots = set (set v.slots i b) j a })

  -- The loop of `vector_reverse_range_internal`, with fuel.
  pub reverse_loop : ℕ → Vector A → ℕ → ℕ → Option (Vector A)
  unfolding swap
  reverse_loop zero v beg end = none
  reverse_loop (suc fuel) v beg end =
      if beg == end || beg == end - 1
      then some v
      else swap v beg (end - 1) >>= λ v'. reverse_loop fuel v' (suc beg) (end - 1)

  -- At most `end` rounds are run.
  pub reverse_range : Vector A → ℕ → ℕ → Option (Vector A)
  unfolding reverse_loop
  reverse_range v beg end = if leb end beg then some v else reverse_loop (suc end) v beg end

  pub reverse : Vector A → Option (Vector A)
  unfolding reverse_range
  reverse v = reverse_range v 0 v.size

  -- `realloc` is given whether the allocator can serve a size; it keeps what fits of the block.
  pub ensure_capacity : (ℕ → Bool) → Vector A → ℕ → Status × Vector A
  ensure_capacity realloc v num_elements =
      let new_capacity = num_elements * v.elem_size % 18446744073709551616 in
      if not (realloc new_capacity) then (fail, v) else (
        ok,
        record v {
          capacity = num_elements;
          slots = take num_elements v.slots;
          bytes = new_capacity;
        },
      )

  -- `avs_vector_reserve__`
  pub reserve : (ℕ → Bool) → Vector A → ℕ → Status × Vector A
  unfolding ensure_capacity
  reserve realloc v num_elements = ensure_capacity realloc v num_elements

  -- `memcpy` of the element behind the last one, and `++size`.
  pub store : Vector A → A → Option (Vector A)
  store v x =
      if leb ((v.size + 1) * v.elem_size) v.bytes
      then some (record v { size = v.size + 1; slots = take v.size v.slots ++ x ∷ [] })
      else none

  -- `avs_vector_push__`; the difference of capacity and size is 0 exactly if they are equal.
  pub push : (ℕ → Bool) → Vector A → A → Option (Status × Vector A)
  unfolding reserve store
  push realloc v x =
      let r = reserve realloc v (if v.size == 0 then 1 else 2 * v.size % 18446744073709551616) in
      if v.capacity == v.size
      then elim r.0 [ fail ↦ some (fail, v) | ok ↦ store r.1 x >>= λ v'. some (ok, v') ]
      else store v x >>= λ v'. some (ok, v')

  -- The three copies through `tmp` that bring the element at `index` to the end: out of the block, of the
  -- elements behind it by one place down, and back behind them. At the last index nothing is moved.
  pub rotate : Vector A → ℕ → Option (Vector A)
  rotate v index =
      let count = v.size - index - 1 in
      let moved = write_at v.slots index (take count (drop (suc index) v.slots)) in
      if leb v.size index
      then none
      else get_elem? v.slots index >>= λ tmp. some (record v { slots = set moved (v.size - 1) tmp })

  -- The loop without memory for `tmp`: `count` exchanges with the next element, from `i` on.
  pub bubble : ℕ → Vector A → ℕ → Option (Vector A)
  unfolding swap
  bubble zero v i = some v
  bubble (suc count) v i = swap v i (suc i) >>= λ v'. bubble count v' (suc i)

  -- `avs_vector_remove__`; `memory` is whether there is memory for `tmp`.
  pub remove : Vector A → ℕ → Bool → Option (Option A × Vector A)
  unfolding pop rotate bubble
  remove v index memory =
      if v.size == 0
      then some (none, v)
      else (if memory then rotate v index else bubble (v.size - 1 - index) v index) >>= λ v'.
          some (pop v')

  -- `avs_vector_fit__`
  pub fit : (ℕ → Bool) → Vector A → Status × Vector A
  fit malloc v =
      if v.size == 0 || v.size == v.capacity
      then (ok, v)
      else if not (malloc (v.size * v.elem_size))
      then (fail, v)
      else (
        ok,
        record v { capacity = v.size; slots = take v.size v.slots; bytes = v.size * v.elem_size },
      )
