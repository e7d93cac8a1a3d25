-- ===== src/Persistence/Restore.antt =====
-- The half of src/persistence/avs_persistence.c that restores. What a pointer points to is given and
-- returned; `none` as a result stands for a failed assertion. `malloc` tells whether the allocator can
-- serve a size.
use avs_commons.Stream.{VTable, Err, success, errno, enomem, ebadmsg, is_ok, read_reliably}
use avs_commons.Numbers.{convert_be16, convert_be32, convert_be64, ntohf, ntohd, from_memory}
use avs_commons.Common.{
  ◌>>=◌, ℕ, zero, suc, Bool, not, ◌&&◌, Option, none, some, List, [], ◌∷◌, ◌++◌, ◌==◌, ltb, ◌-◌,
  if◌then◌else◌, length, drop, replicate, get_or,
}

-- What `AVS_LIST_INSERT` at the end makes of a list, with an element that may be missing.
abbrev pub with_element : {A : Type 0} → List A → Option A → List A
with_element list none = list
with_element list (some a) = list ++ a ∷ []

module _ {S A : Type 0} (handler : S → Option A → Option (Err × (Option A × S))) where
  -- The loop of `restore_list`, with what is in the list already.
  unfoldable pub restore_each : ℕ → S → List A → Option (Err × (List A × S))
  restore_each zero s list = some (success, (list, s))
  restore_each (suc count) s list = handler s none >>= λ r.
      let more = with_element list r.1.0 in
      let rest = restore_each count r.1.1 more in
      if is_ok r.0 then rest else some (r.0, (more, r.1.1))

module _ {S : Type 0} (v : VTable S) where
  -- `restore_bool`: what is read takes the place of the byte.
  unfoldable pub restore_bool : S → ℕ → Option (Err × (ℕ × S))
  unfolding read_reliably
  restore_bool s out = read_reliably v s 1 >>= λ r. some (r.0, (get_or r.1.0 0 out, r.1.1))

  -- `restore_bytes`: what is read takes the place of the first bytes of the buffer.
  unfoldable pub restore_bytes : S → List ℕ → Option (Err × (List ℕ × S))
  unfolding read_reliably
  restore_bytes s buffer = read_reliably v s (length buffer) >>= λ r.
      some (r.0, (r.1.0 ++ drop (length r.1.0) buffer, r.1.1))

  -- `restore_u16` with a pointer that is not null.
  unfoldable pub restore_u16 : S → ℕ → Option (Err × (ℕ × S))
  unfolding read_reliably convert_be16
  restore_u16 s out = read_reliably v s 2 >>= λ r.
      some (r.0, (if is_ok r.0 then convert_be16 (from_memory r.1.0) else out, r.1.1))

  unfoldable pub restore_u32 : S → ℕ → Option (Err × (ℕ × S))
  unfolding read_reliably convert_be32
  restore_u32 s out = read_reliably v s 4 >>= λ r.
      some (r.0, (if is_ok r.0 then convert_be32 (from_memory r.1.0) else out, r.1.1))

  unfoldable pub restore_u64 : S → ℕ → Option (Err × (ℕ × S))
  unfolding read_reliably convert_be64
  restore_u64 s out = read_reliably v s 8 >>= λ r.
      some (r.0, (if is_ok r.0 then convert_be64 (from_memory r.1.0) else out, r.1.1))

  unfoldable pub restore_float : S → ℕ → Option (Err × (ℕ × S))
  unfolding read_reliably ntohf
  restore_float s out = read_reliably v s 4 >>= λ r.
      some (r.0, (if is_ok r.0 then ntohf (from_memory r.1.0) else out, r.1.1))

  unfoldable pub restore_double : S → ℕ → Option (Err × (ℕ × S))
  unfolding read_reliably ntohd
  restore_double s out = read_reliably v s 8 >>= λ r.
      some (r.0, (if is_ok r.0 then ntohd (from_memory r.1.0) else out, r.1.1))

  module _ (malloc : ℕ → Bool) where
    -- `restore_sized_buffer`: the block and its size. What a new block holds is not read; zeros stand for
    -- it.
    unfoldable pub restore_sized_buffer :
        S → Option (List ℕ) → ℕ → Option (Err × ((Option (List ℕ) × ℕ) × S))
    unfolding restore_u32 restore_bytes
    restore_sized_buffer s (some block) size = none
    restore_sized_buffer s none (suc size) = none
    restore_sized_buffer s none zero = restore_u32 s 0 >>= λ r.
        let size32 = r.1.0 in
        if not (is_ok r.0)
        then some (r.0, ((none, 0), r.1.1))
        else if size32 == 0
        then some (success, ((none, 0), r.1.1))
        else if not (malloc size32)
        then some (errno enomem, ((none, 0), r.1.1))
        else (restore_bytes r.1.1 (replicate size32 0) >>= λ q.
            if is_ok q.0
            then some (q.0, ((some q.1.0, size32), q.1.1))
            else some (q.0, ((none, 0), q.1.1)))

    unfoldable pub restore_string : S → Option (List ℕ) → Option (Err × (Option (List ℕ) × S))
    unfolding restore_sized_buffer
    restore_string s block = restore_sized_buffer s block 0 >>= λ r.
        let size = r.1.0.1 in
        if not (is_ok r.0)
        then some (r.0, (r.1.0.0, r.1.1))
        else if ltb 0 size
        then (r.1.0.0 >>= λ b.
            if not (get_or b (size - 1) 0 == 0)
            then some (errno ebadmsg, (none, r.1.1))
            else some (success, (some b, r.1.1)))
        else some (success, (r.1.0.0, r.1.1))

  module _ {A : Type 0} (handler : S → Option A → Option (Err × (Option A × S))) where
    -- `restore_list`; `cleanup` is whether that function is given.
    unfoldable pub restore_list : Bool → S → List A → Option (Err × (List A × S))
    unfolding restore_u32 restore_each
    restore_list cleanup s (a ∷ rest_of) = none
    restore_list cleanup s [] = restore_u32 s 0 >>= λ r.
        (if is_ok r.0 then restore_each handler r.1.0 r.1.1 [] else some (r.0, ([], r.1.1)))
        >>= λ q. if not (is_ok q.0) && cleanup then some (q.0, ([], q.1.1)) else some q
