-- ===== src/Threads/Condvar.antt =====
-- src/compat/threading/atomic_spinlock/avs_atomic_spinlock_condvar.c: any number of threads that use one
-- mutex and one condition variable, from one atomic operation to the next. What happens to the list of
-- waiters under its mutex is done one node at a time. A waiter's node is on the stack of its thread, and
-- has the number of the thread.
pub mod Steps
pub mod Holder
pub mod Members
pub mod Flags
pub mod Walk
pub mod Wakeup
mod Tests
use avs_commons.Threads.{System, update}
use avs_commons.Threads.Mutex.{test_and_set, unlock, lock_round, init_mutex, destroy_mutex}
use avs_commons.Common.Word.{Status, ok, fail}
use avs_commons.Common.{
  ℕ, Bool, true, false, not, ◌&&◌, Option, none, some, List, [], ◌∷◌, ◌==◌, if◌then◌else◌,
}

-- `struct avs_condvar`, the mutex that its users lock, and the flags of the nodes.
pub record Shared : Type 0 where
  pub locked : Bool
  pub waiters_mutex : Bool
  pub first_waiter : List ℕ
  pub waiting : ℕ → Bool

-- Where a thread is. It is `holding` the mutex or not; `linking` and what comes before and after it are in
-- `insert_new_waiter`, `removing` in `remove_waiter`; the argument of these is the last value of the flag.
-- `notifying` has the rest of the list; the argument of these is whether the thread holds the mutex.
pub data Pc : Type 0 where
  outside : Pc
  locking : Pc
  holding : Pc
  insert_locking : Pc
  clearing : Pc
  setting : Pc
  linking : Pc
  insert_unlocking : Pc
  wait_unlocking : Pc
  spinning : Pc
  relocking : Bool → Pc
  remove_locking : Bool → Pc
  removing : Bool → Pc
  remove_unlocking : Bool → Pc
  waited : Bool → Pc
  notify_locking : Bool → Pc
  notifying : List ℕ → Bool → Pc
  notify_unlocking : Bool → Pc

-- What the thread does next where it may choose, and whether there is a deadline and it is over.
pub data Call : Type 0 where
  call_lock call_unlock call_wait call_notify_all : Call

pub record Event : Type 0 where
  pub call : Call
  pub use_deadline : Bool
  pub over : Bool

-- The loop of `remove_waiter`, which detaches the node.
abbrev pub unlink : List ℕ → ℕ → List ℕ
unlink [] i = []
unlink (j ∷ rest) i = let others = unlink rest i in if j == i then rest else j ∷ others

abbrev pub resumed : Bool → Pc
resumed false = outside
resumed true = holding

-- What a thread that holds the mutex or not does next; it only unlocks, and only waits with, a mutex that
-- it holds, and it locks the mutex only if it does not hold it: other calls are left out, as no step. `avs_condvar_wait` first asserts that the mutex is locked, by setting its flag.
unfoldable pub start_call : Call → Shared → Bool → Shared × Pc
start_call call_lock s false = (s, locking)
start_call call_lock s true = (s, holding)
start_call call_unlock s false = (s, outside)
start_call call_unlock s true = (record s { locked = unlock s.locked }, outside)
start_call call_wait s false = (s, outside)
start_call call_wait s true = (record s { locked = (test_and_set s.locked).1 }, insert_locking)
start_call call_notify_all s held = (s, notify_locking held)

-- `avs_mutex_lock`, `avs_mutex_unlock`, `avs_condvar_wait` and `avs_condvar_notify_all`.
unfoldable pub step : ℕ → Event → Shared → Pc → Shared × Pc
unfolding start_call
step i e s outside = start_call e.call s false
step i e s locking =
    let r = lock_round s.locked in (record s { locked = r.1 }, if r.0 then holding else locking)
step i e s holding = start_call e.call s true
step i e s insert_locking =
    let r = lock_round s.waiters_mutex in
    (record s { waiters_mutex = r.1 }, if r.0 then clearing else insert_locking)
step i e s clearing = (record s { waiting = update s.waiting i false }, setting)
step i e s setting =
    (record s { waiting = update s.waiting i (test_and_set (s.waiting i)).1 }, linking)
step i e s linking = (record s { first_waiter = i ∷ s.first_waiter }, insert_unlocking)
step i e s insert_unlocking = (record s { waiters_mutex = unlock s.waiters_mutex }, wait_unlocking)
step i e s wait_unlocking = (record s { locked = unlock s.locked }, spinning)
step i e s spinning =
    let r = test_and_set (s.waiting i) in
    (
      record s { waiting = update s.waiting i r.1 },
      if r.0 && not (e.use_deadline && e.over) then spinning else relocking r.0,
    )
step i e s (relocking flag_value) =
    let r = lock_round s.locked in
    (record s { locked = r.1 }, if r.0 then remove_locking flag_value else relocking flag_value)
step i e s (remove_locking flag_value) =
    let r = lock_round s.waiters_mutex in
    (
      record s { waiters_mutex = r.1 },
      if r.0 then removing flag_value else remove_locking flag_value,
    )
step i e s (removing flag_value) =
    (record s { first_waiter = unlink s.first_waiter i }, remove_unlocking flag_value)
step i e s (remove_unlocking flag_value) =
    (record s { waiters_mutex = unlock s.waiters_mutex }, waited flag_value)
step i e s (waited flag_value) = (s, holding)
step i e s (notify_locking held) =
    let r = lock_round s.waiters_mutex in
    (
      record s { waiters_mutex = r.1 },
      if r.0 then notifying s.first_waiter held else notify_locking held,
    )
step i e s (notifying [] held) = (s, notify_unlocking held)
step i e s (notifying (j ∷ rest) held) =
    (record s { waiting = update s.waiting j false }, notifying rest held)
step i e s (notify_unlocking held) =
    (record s { waiters_mutex = unlock s.waiters_mutex }, resumed held)

-- After `avs_mutex_create` and `avs_condvar_create`.
abbrev pub init : System Shared Pc
init = record {
  shared = record {
    locked = false;
    waiters_mutex = false;
    first_waiter = [];
    waiting = λ i. false;
  };
  pc = λ i. outside;
}

-- `avs_condvar_create`: the status, and the new mutex and list. `calloc` is whether there is memory.
abbrev pub create_condvar : Bool → Option (Bool × List ℕ) → Option (Status × Option (Bool × List ℕ))
create_condvar calloc (some c) = none
create_condvar calloc none =
    if calloc then some (ok, some (init_mutex false, [])) else some (fail, none)

-- `avs_condvar_cleanup`, with its assertion that no thread waits.
abbrev pub cleanup_condvar : Option (Bool × List ℕ) → Option (Option (Bool × List ℕ))
cleanup_condvar none = some none
cleanup_condvar (some (waiters_mutex, (i ∷ rest))) = none
cleanup_condvar (some (waiters_mutex, [])) = elim (destroy_mutex waiters_mutex) [
  | none ↦ none
  | some l ↦ some none
]
