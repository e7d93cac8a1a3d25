-- ===== src/Persistence.antt =====
-- src/persistence/avs_persistence.c: one function for each type, which stores or restores by its context.
-- A context is one of the two tables of the code; a null pointer is `none`. The functions return the
-- value behind the pointer as they leave it, and the stream.
mod Store
mod Restore
pub mod Collections
mod Codec
mod Words
mod Signed
mod Blocks
mod Strings
mod Lists
mod Handlers
mod Magic
mod Tests
use avs_commons.Persistence.Store.{
  persist_bool, persist_bytes, persist_u16, persist_u32, persist_u64, persist_float, persist_double,
  persist_sized_buffer, persist_string, persist_list, strlen,
}
use avs_commons.Persistence.Restore.{
  restore_bool, restore_bytes, restore_u16, restore_u32, restore_u64, restore_float, restore_double,
  restore_sized_buffer, restore_string, restore_list,
}
use avs_commons.Stream.{VTable, Err, success, errno, ebadf, einval, enomem, ebadmsg, is_ok}
use avs_commons.Common.{
  ◌>>=◌, ℕ, zero, suc, Bool, true, false, not, ◌&&◌, ◌||◌, Option, none, some, List, [], ◌∷◌, ◌==◌,
  ltb, ◌+◌, ◌-◌, ◌%◌, if◌then◌else◌, length, replicate, take, get_or,
}
use avs_commons.Common.Int.{ℤ, pos, negsuc}

-- `avs_persistence_context_t`
pub data Context : Type 0 where
  store_vtable restore_vtable : Context

-- `avs_persistence_direction_t`
pub data Direction : Type 0 where
  unknown storing restoring : Direction

-- `avs_persistence_direction`
pub direction : Option Context → Direction
direction none = unknown
direction (some store_vtable) = storing
direction (some restore_vtable) = restoring

-- What is stored stays as it is.
abbrev pub kept : {S A : Type 0} → A → Option (Err × S) → Option (Err × (A × S))
kept a result = result >>= λ r. some (r.0, (a, r.1))

-- A signed integer as the unsigned one that shares its memory; `modulus` is 2 to the width.
abbrev pub to_word : ℕ → ℤ → ℕ
to_word modulus (pos n) = n
to_word modulus (negsuc n) = modulus - suc n

abbrev pub of_word : ℕ → ℕ → ℤ
of_word modulus n = if ltb (n + n) modulus then pos n else negsuc (modulus - suc n)

abbrev pub as_signed : {S : Type 0} → ℕ → Option (Err × (ℕ × S)) → Option (Err × (ℤ × S))
as_signed modulus result = result >>= λ r. some (r.0, (of_word modulus r.1.0, r.1.1))

-- Whether two blocks of one length are alike: `memcmp` gives 0.
abbrev pub same_bytes : List ℕ → List ℕ → Bool
same_bytes [] [] = true
same_bytes [] (y ∷ ys) = false
same_bytes (x ∷ xs) [] = false
same_bytes (x ∷ xs) (y ∷ ys) = (x == y) && same_bytes xs ys

-- The loop of `avs_persistence_version`.
pub is_supported : ℕ → List ℕ → Bool
is_supported version [] = false
is_supported version (x ∷ xs) = (version == x) || is_supported version xs

module _ {S : Type 0} (v : VTable S) where
  pub u16 : Option Context → S → ℕ → Option (Err × (ℕ × S))
  unfolding persist_u16 restore_u16
  u16 none s value = some (errno ebadf, (value, s))
  u16 (some store_vtable) s value = kept value (persist_u16 v s value)
  u16 (some restore_vtable) s value = restore_u16 v s value

  pub u32 : Option Context → S → ℕ → Option (Err × (ℕ × S))
  unfolding persist_u32 restore_u32
  u32 none s value = some (errno ebadf, (value, s))
  u32 (some store_vtable) s value = kept value (persist_u32 v s value)
  u32 (some restore_vtable) s value = restore_u32 v s value

  pub u64 : Option Context → S → ℕ → Option (Err × (ℕ × S))
  unfolding persist_u64 restore_u64
  u64 none s value = some (errno ebadf, (value, s))
  u64 (some store_vtable) s value = kept value (persist_u64 v s value)
  u64 (some restore_vtable) s value = restore_u64 v s value

  pub bytes : Option Context → S → List ℕ → Option (Err × (List ℕ × S))
  unfolding persist_bytes restore_bytes
  bytes none s buffer = some (errno ebadf, (buffer, s))
  bytes (some store_vtable) s buffer = kept buffer (persist_bytes v s buffer)
  bytes (some restore_vtable) s buffer = restore_bytes v s buffer

  -- `avs_persistence_u8`, which hands one byte to `handle_bytes`.
  pub u8 : Option Context → S → ℕ → Option (Err × (ℕ × S))
  unfolding bytes
  u8 ctx s value = bytes ctx s (value ∷ []) >>= λ r. some (r.0, (get_or r.1.0 0 value, r.1.1))

  pub i8 : Option Context → S → ℤ → Option (Err × (ℤ × S))
  unfolding u8
  i8 ctx s value = as_signed 256 (u8 ctx s (to_word 256 value))

  pub i16 : Option Context → S → ℤ → Option (Err × (ℤ × S))
  unfolding u16
  i16 ctx s value = as_signed 65536 (u16 ctx s (to_word 65536 value))

  pub i32 : Option Context → S → ℤ → Option (Err × (ℤ × S))
  unfolding u32
  i32 ctx s value = as_signed 4294967296 (u32 ctx s (to_word 4294967296 value))

  pub i64 : Option Context → S → ℤ → Option (Err × (ℤ × S))
  unfolding u64
  i64 ctx s value = as_signed 18446744073709551616 (u64 ctx s (to_word 18446744073709551616 value))

  -- `avs_persistence_bool`, with the byte of the value.
  pub bool : Option Context → S → ℕ → Option (Err × (ℕ × S))
  unfolding persist_bool restore_bool
  bool none s value = some (errno ebadf, (value, s))
  bool (some store_vtable) s value = kept value (persist_bool v s value)
  bool (some restore_vtable) s value = restore_bool v s value

  pub float : Option Context → S → ℕ → Option (Err × (ℕ × S))
  unfolding persist_float restore_float
  float none s value = some (errno ebadf, (value, s))
  float (some store_vtable) s value = kept value (persist_float v s value)
  float (some restore_vtable) s value = restore_float v s value

  pub double : Option Context → S → ℕ → Option (Err × (ℕ × S))
  unfolding persist_double restore_double
  double none s value = some (errno ebadf, (value, s))
  double (some store_vtable) s value = kept value (persist_double v s value)
  double (some restore_vtable) s value = restore_double v s value

  -- `avs_persistence_version`
  pub version : Option Context → S → ℕ → List ℕ → Option (Err × (ℕ × S))
  unfolding u8 is_supported
  version ctx s version_number supported_versions = u8 ctx s version_number >>= λ r. elim ctx [
    | some restore_vtable ↦
        if not (is_ok r.0)
        then some r
        else if is_supported r.1.0 supported_versions
        then some (success, r.1)
        else some (errno ebadmsg, r.1)
    | _ ↦ some r
  ]

  module _ (malloc : ℕ → Bool) where
    -- `avs_persistence_sized_buffer`: a pointer to a block, and its size.
    pub sized_buffer :
        Option Context → S → Option (List ℕ) × ℕ → Option (Err × ((Option (List ℕ) × ℕ) × S))
    unfolding persist_sized_buffer restore_sized_buffer
    sized_buffer none s p = some (errno ebadf, (p, s))
    sized_buffer (some store_vtable) s p = kept p (persist_sized_buffer v s p.0 p.1)
    sized_buffer (some restore_vtable) s p = restore_sized_buffer v malloc s p.0 p.1

    pub string : Option Context → S → Option (List ℕ) → Option (Err × (Option (List ℕ) × S))
    unfolding persist_string restore_string
    string none s p = some (errno ebadf, (p, s))
    string (some store_vtable) s p = kept p (persist_string v s p)
    string (some restore_vtable) s p = restore_string v malloc s p

    -- `avs_persistence_magic`; the new block of a restore is not read before it is written.
    pub magic : Option Context → S → List ℕ → Option (Err × S)
    unfolding direction bytes
    magic ctx s marker = if length marker == 0 then some (success, s) else elim (direction ctx) [
      | storing ↦ bytes ctx s marker >>= λ r. some (r.0, r.1.1)
      | _ ↦
          if not (malloc (length marker))
          then some (errno enomem, s)
          else (bytes ctx s (replicate (length marker) 0) >>= λ r.
              if is_ok r.0 && not (same_bytes r.1.0 marker)
              then some (errno ebadmsg, r.1.1)
              else some (r.0, r.1.1))
    ]

    -- `avs_persistence_magic_string`
    pub magic_string : Option Context → S → List ℕ → Option (Err × S)
    unfolding magic
    magic_string ctx s text = strlen text >>= λ n. magic ctx s (take n text)
