-- ===== src/Threads/Condvar/Tests.antt =====
-- Runs of a mutex and a condition variable, and the witnesses: the thread 1 waits, the thread 2 notifies.
use avs_commons.Threads.{System, run, start}
use avs_commons.Threads.Exclusion.{Reach-run}
use avs_commons.Threads.Condvar.{
  Shared, Pc, spinning, relocking, waited, Event, call_lock, call_wait, call_notify_all, step,
  start_call, init, cleanup_condvar,
}
use avs_commons.Threads.Condvar.Holder.{one_holder}
use avs_commons.Threads.Condvar.Wakeup.{notify_all_wakes}
use avs_commons.Threads.Mutex.{try_lock, cleanup_mutex}
use avs_commons.Common.{ℕ, true, false, none, some, List, [], ◌∷◌, ◌++◌, ◌≡◌, refl, replicate}

abbrev locks : Event
locks = record { call = call_lock; use_deadline = false; over = false }

abbrev waits : Event
waits = record { call = call_wait; use_deadline = false; over = false }

abbrev late : Event
late = record { call = call_wait; use_deadline = true; over = true }

abbrev notifies : Event
notifies = record { call = call_notify_all; use_deadline = false; over = false }

abbrev waiting : List (ℕ × Event)
waiting = replicate 2 (1, locks) ++ replicate 7 (1, waits)

abbrev notified : List (ℕ × Event)
notified = waiting ++ replicate 4 (2, notifies)

-- In the loop, the other thread with the list still locked.
abbrev told : System Shared Pc
told = run step notified init

waits-spinning : (run step waiting init).pc 1 ≡ spinning
unfolding step start_call
waits-spinning = refl

-- The wait ends with the result for a notification, or for a timeout.
waits-notified : (run step ((2, notifies) ∷ replicate 5 (1, waits)) told).pc 1 ≡ waited false
unfolding step start_call
waits-notified = refl

waits-timeout : (run step (replicate 5 (1, late)) (run step waiting init)).pc 1 ≡ waited true
unfolding step start_call
waits-timeout = refl

create_condvar-cleanup_condvar : cleanup_condvar (some (false, [])) ≡ some none
create_condvar-cleanup_condvar = refl

try_lock-locked : try_lock true ≡ (1, true)
try_lock-locked = refl

create_mutex-cleanup_mutex : cleanup_mutex (some false) ≡ some none
create_mutex-cleanup_mutex = refl

one_holder_example :
    (◌≡◌ {A = ℕ} 1 1) × ((run step (replicate 2 (1, locks)) init).shared.locked ≡ true)
unfolding step start_call
one_holder_example =
    one_holder (run step (replicate 2 (1, locks)) init) 1 1
      (Reach-run step (replicate 2 (1, locks)) init start) refl refl

notify_all_wakes_example :
    (told.shared.waiting 1 ≡ false)
    × ((run step ((1, waits) ∷ []) (run step ((2, notifies) ∷ []) told)).pc 1 ≡ relocking false)
unfolding step start_call
notify_all_wakes_example =
    notify_all_wakes told 2 1 false ((2, notifies) ∷ []) waits (Reach-run step notified init start)
      refl refl refl
