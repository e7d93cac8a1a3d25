-- ===== src/Persistence/Store.antt =====
-- The half of src/persistence/avs_persistence.c that stores. A value in memory is given by its bytes; a
-- pointer is an option. `none` as a result stands for an access through a null pointer or out of bounds.
use avs_commons.Stream.{VTable, Err, success, errno, eoverflow, is_ok, write}
use avs_commons.Numbers.{convert_be16, convert_be32, convert_be64, htonf, htond, to_memory}
use avs_commons.Common.{
  ◌>>=◌, ℕ, zero, suc, not, ◌&&◌, Option, none, some, List, [], ◌∷◌, ◌==◌, ltb, ◌+◌, ◌%◌,
  if◌then◌else◌, length, take,
}

-- The C library's `strlen`, of a string that ends inside of its block.
abbrev pub strlen : List ℕ → Option ℕ
strlen [] = none
strlen (zero ∷ cs) = some 0
strlen (suc c ∷ cs) = strlen cs >>= λ n. some (suc n)

module _ {S A : Type 0} (handler : S → Option A → Option (Err × (Option A × S))) where
  -- The loop of `persist_list`. A handler that takes its element away breaks the list.
  unfoldable pub persist_each : S → List A → Option (Err × (List A × S))
  persist_each s [] = some (success, ([], s))
  persist_each s (a ∷ rest_of) = handler s (some a) >>= λ r. r.1.0 >>= λ b.
      let rest = persist_each r.1.1 rest_of in
      if is_ok r.0
      then (rest >>= λ q. some (q.0, (b ∷ q.1.0, q.1.1)))
      else some (r.0, (b ∷ rest_of, r.1.1))

module _ {S : Type 0} (v : VTable S) where
  unfoldable pub persist_bool : S → ℕ → Option (Err × S)
  unfolding write
  persist_bool s value = write v s (value ∷ [])

  -- `persist_bytes`, of all bytes of the buffer.
  unfoldable pub persist_bytes : S → List ℕ → Option (Err × S)
  unfolding write
  persist_bytes s buffer = write v s buffer

  unfoldable pub persist_u16 : S → ℕ → Option (Err × S)
  unfolding write convert_be16
  persist_u16 s value = write v s (to_memory 2 (convert_be16 value))

  unfoldable pub persist_u32 : S → ℕ → Option (Err × S)
  unfolding write convert_be32
  persist_u32 s value = write v s (to_memory 4 (convert_be32 value))

  unfoldable pub persist_u64 : S → ℕ → Option (Err × S)
  unfolding write convert_be64
  persist_u64 s value = write v s (to_memory 8 (convert_be64 value))

  unfoldable pub persist_float : S → ℕ → Option (Err × S)
  unfolding write htonf
  persist_float s value = write v s (to_memory 4 (htonf value))

  unfoldable pub persist_double : S → ℕ → Option (Err × S)
  unfolding write htond
  persist_double s value = write v s (to_memory 8 (htond value))

  -- `persist_sized_buffer`: the first `size` bytes of a block.
  unfoldable pub persist_sized_buffer : S → Option (List ℕ) → ℕ → Option (Err × S)
  unfolding persist_u32 persist_bytes
  persist_sized_buffer s block size =
      let size32 = size % 4294967296 in
      if not (size32 == size)
      then some (errno eoverflow, s)
      else (persist_u32 s size32 >>= λ r.
          if is_ok r.0 && ltb 0 size32
          then (block >>= λ b.
              if ltb (length b) size then none else persist_bytes r.1 (take size b))
          else some (r.0, r.1))

  unfoldable pub persist_string : S → Option (List ℕ) → Option (Err × S)
  unfolding persist_sized_buffer
  persist_string s block = elim block [
    | none ↦ persist_sized_buffer s none 0
    | some b ↦ strlen b >>= λ n. persist_sized_buffer s (some b) (n + 1)
  ]

  module _ {A : Type 0} (handler : S → Option A → Option (Err × (Option A × S))) where
    unfoldable pub persist_list : S → List A → Option (Err × (List A × S))
    unfolding persist_u32 persist_each
    persist_list s list =
        let count32 = length list % 4294967296 in
        if not (length list == count32)
        then some (errno eoverflow, (list, s))
        else (persist_u32 s count32 >>= λ r.
            if is_ok r.0 then persist_each handler r.1 list else some (r.0, (list, r.1)))
