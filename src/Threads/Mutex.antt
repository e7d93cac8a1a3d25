-- ===== src/Threads/Mutex.antt =====
-- src/compat/threading/atomic_spinlock/avs_atomic_spinlock_mutex.c: a mutex is its flag, true while it is
-- locked. The functions are given by their atomic operations.
use avs_commons.Common.Word.{Status, ok, fail}
use avs_commons.Common.{ℕ, Bool, true, false, Option, none, some, if◌then◌else◌}

-- C's `atomic_flag_test_and_set` and `atomic_flag_clear`: what the flag was, and the flag.
abbrev pub test_and_set : Bool → Bool × Bool
test_and_set flag = (flag, true)

-- `avs_mutex_unlock`
abbrev pub unlock : Bool → Bool
unlock locked = false

-- `_avs_mutex_init`
abbrev pub init_mutex : Bool → Bool
init_mutex locked = unlock locked

-- `avs_mutex_create`: the status, and the pointer behind `out_mutex`. `calloc` is whether there is memory.
abbrev pub create_mutex : Bool → Option Bool → Option (Status × Option Bool)
create_mutex calloc (some locked) = none
create_mutex calloc none = if calloc then some (ok, some (init_mutex false)) else some (fail, none)

-- One round of the loop of `avs_mutex_lock`: whether it is the last, and the flag.
abbrev pub lock_round : Bool → Bool × Bool
lock_round locked = let r = test_and_set locked in (if r.0 then false else true, r.1)

-- `avs_mutex_try_lock`
abbrev pub try_lock : Bool → ℕ × Bool
try_lock locked = let r = test_and_set locked in (if r.0 then 1 else 0, r.1)

-- `_avs_mutex_destroy`: no mutex that is locked.
abbrev pub destroy_mutex : Bool → Option Bool
destroy_mutex locked = let r = test_and_set locked in if r.0 then none else some r.1

-- `avs_mutex_cleanup`: the pointer is null afterwards.
abbrev pub cleanup_mutex : Option Bool → Option (Option Bool)
cleanup_mutex none = some none
cleanup_mutex (some locked) = elim (destroy_mutex locked) [ none ↦ none | some l ↦ some none ]
