-- ===== src/Threads/InitOnce.antt =====
-- src/compat/threading/atomic_spinlock/avs_atomic_spinlock_init_once.c: any number of threads that call
-- `avs_init_once` on one handle, any number of times.
pub mod Once
pub mod Progress
mod Tests
use avs_commons.Threads.{System, act, run, Reach, start, later}
use avs_commons.Common.{ℕ, zero, suc, Bool, true, false, not, ◌&&◌, if◌then◌else◌}
use avs_commons.Common.Int.{ℤ, pos, negsuc}

-- `enum init_state`
pub data InitState : Type 0 where
  not_started in_progress initialized : InitState

abbrev pub is_done : InitState → Bool
is_done not_started = false
is_done in_progress = false
is_done initialized = true

abbrev pub same_state : InitState → InitState → Bool
same_state not_started not_started = true
same_state in_progress in_progress = true
same_state initialized initialized = true
same_state not_started in_progress = false
same_state not_started initialized = false
same_state in_progress not_started = false
same_state in_progress initialized = false
same_state initialized not_started = false
same_state initialized in_progress = false

-- C's `atomic_compare_exchange_weak`, which may fail for no reason: whether it succeeded, the variable, and
-- what `expected` becomes.
abbrev pub compare_exchange_weak :
    Bool → InitState → InitState → InitState → Bool × (InitState × InitState)
compare_exchange_weak spurious state expected desired =
    if same_state state expected && not spurious
    then (true, (desired, expected))
    else (false, (state, state))

-- Where a thread is: not in a call, in the loop, in `func`, before the store of its result, or behind the
-- return with a result.
pub data Pc : Type 0 where
  outside : Pc
  trying : Pc
  running : Pc
  storing : ℤ → Pc
  returned : ℤ → Pc

-- Whether the exchange fails for no reason, and what `func` returns.
pub record Event : Type 0 where
  pub spurious : Bool
  pub result : ℤ

abbrev pub is_zero : ℤ → Bool
is_zero (pos zero) = true
is_zero (pos (suc n)) = false
is_zero (negsuc n) = false

-- `avs_init_once`, from one atomic operation to the next.
unfoldable pub step : ℕ → Event → InitState → Pc → InitState × Pc
step thread e state outside = (state, trying)
step thread e state trying =
    let r = compare_exchange_weak e.spurious state not_started in_progress in
    (
      r.1.0,
      if not r.0 && not (is_done r.1.1)
          then trying
          else if not (is_done r.1.1)
          then running
          else returned (pos 0),
    )
step thread e state running = (state, storing e.result)
step thread e state (storing result) =
    (if is_zero result then initialized else not_started, returned result)
step thread e state (returned result) = (state, outside)

-- The handle is not started, and no thread has called.
abbrev pub init : System InitState Pc
init = record { shared = not_started; pc = λ i. outside }

-- The state that says that a thread is at work.
abbrev pub is_busy : InitState → Bool
is_busy not_started = false
is_busy in_progress = true
is_busy initialized = false

-- Between the exchange and the store.
abbrev pub at_work : Pc → Bool
at_work outside = false
at_work trying = false
at_work running = true
at_work (storing result) = true
at_work (returned result) = false

abbrev pub has_succeeded : Pc → Bool
has_succeeded outside = false
has_succeeded trying = false
has_succeeded running = false
has_succeeded (storing result) = false
has_succeeded (returned result) = is_zero result
