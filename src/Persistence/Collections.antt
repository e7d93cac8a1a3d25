-- ===== src/Persistence/Collections.antt =====
-- The lists of src/persistence/avs_persistence.c. `cleanup` is whether that function is given; a handler
-- gets the pointer to its element, and returns it.
use avs_commons.Persistence.{Context, store_vtable, restore_vtable}
use avs_commons.Persistence.Store.{persist_list}
use avs_commons.Persistence.Restore.{restore_list}
use avs_commons.Stream.{VTable, Err, errno, ebadf, einval}
use avs_commons.Common.{◌>>=◌, ℕ, Bool, Option, none, some, List, [], ◌∷◌, if◌then◌else◌}

-- `avs_persistence_custom_allocated_list`
unfoldable pub custom_allocated_list :
    {S A : Type 0}
    → VTable S
    → (Option Context → S → Option A → Option (Err × (Option A × S)))
    → Bool
    → Option Context
    → S
    → Option (List A)
    → Option (Err × (Option (List A) × S))
unfolding persist_list restore_list
custom_allocated_list v handler cleanup ctx s none = some (errno ebadf, (none, s))
custom_allocated_list v handler cleanup none s list_ptr = some (errno ebadf, (list_ptr, s))
custom_allocated_list v handler cleanup (some restore_vtable) s (some (a ∷ rest_of)) =
    some (errno einval, (some (a ∷ rest_of), s))
custom_allocated_list v handler cleanup (some store_vtable) s (some list) =
    persist_list v (handler (some store_vtable)) s list >>= λ r. some (r.0, (some r.1.0, r.1.1))
custom_allocated_list v handler cleanup (some restore_vtable) s (some []) =
    restore_list v (handler (some restore_vtable)) cleanup s [] >>= λ r.
    some (r.0, (some r.1.0, r.1.1))

-- `persistence_list_handler`: `blank` is a new element, where the allocator serves its size. When it does
-- not, the code goes on.
unfoldable pub list_handler :
    {S A : Type 0}
    → (ℕ → Bool)
    → ℕ
    → A
    → (Option Context → S → Option A → Option (Err × (Option A × S)))
    → Option Context
    → S
    → Option A
    → Option (Err × (Option A × S))
list_handler calloc element_size blank handler ctx s (some a) = handler ctx s (some a)
list_handler calloc element_size blank handler ctx s none =
    if calloc element_size then handler ctx s (some blank) else handler ctx s none

-- `avs_persistence_list`
unfoldable pub list :
    {S A : Type 0}
    → VTable S
    → (ℕ → Bool)
    → ℕ
    → A
    → (Option Context → S → Option A → Option (Err × (Option A × S)))
    → Bool
    → Option Context
    → S
    → Option (List A)
    → Option (Err × (Option (List A) × S))
unfolding custom_allocated_list list_handler
list v calloc element_size blank handler cleanup ctx s list_ptr =
    custom_allocated_list v (list_handler calloc element_size blank handler) cleanup ctx s list_ptr
