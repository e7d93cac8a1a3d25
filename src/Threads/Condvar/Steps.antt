-- ===== src/Threads/Condvar/Steps.antt =====
-- What each step of a thread does to the two mutexes and to the list of waiters.
use avs_commons.Threads.Mutex.{lock_round}
use avs_commons.Threads.Exclusion.{Effect, quiet, enter, inside, leave, TakesTurns}
use avs_commons.Threads.Condvar.{
  Shared, Pc, outside, locking, holding, insert_locking, clearing, setting, linking,
  insert_unlocking, wait_unlocking, spinning, relocking, remove_locking, removing, remove_unlocking,
  waited, notify_locking, notifying, notify_unlocking, Call, call_lock, call_unlock, call_wait,
  call_notify_all, step, start_call, resumed,
}
use mathlib.Core.Bool.{false≢true}
use avs_commons.Common.{
  Bool, true, false, not, ◌&&◌, [], ◌∷◌, ◌≡◌, refl, sym, inl, inr, if◌then◌else◌, Bool-cases,
}

-- The threads that have locked the mutex of the users.
abbrev pub owns_mutex : Pc → Bool
owns_mutex outside = false
owns_mutex locking = false
owns_mutex holding = true
owns_mutex insert_locking = true
owns_mutex clearing = true
owns_mutex setting = true
owns_mutex linking = true
owns_mutex insert_unlocking = true
owns_mutex wait_unlocking = true
owns_mutex spinning = false
owns_mutex (relocking f) = false
owns_mutex (remove_locking f) = true
owns_mutex (removing f) = true
owns_mutex (remove_unlocking f) = true
owns_mutex (waited f) = true
owns_mutex (notify_locking held) = held
owns_mutex (notifying l held) = held
owns_mutex (notify_unlocking held) = held

-- The threads that have locked the mutex of the list.
abbrev pub owns_waiters : Pc → Bool
owns_waiters outside = false
owns_waiters locking = false
owns_waiters holding = false
owns_waiters insert_locking = false
owns_waiters clearing = true
owns_waiters setting = true
owns_waiters linking = true
owns_waiters insert_unlocking = true
owns_waiters wait_unlocking = false
owns_waiters spinning = false
owns_waiters (relocking f) = false
owns_waiters (remove_locking f) = false
owns_waiters (removing f) = true
owns_waiters (remove_unlocking f) = true
owns_waiters (waited f) = false
owns_waiters (notify_locking held) = false
owns_waiters (notifying l held) = true
owns_waiters (notify_unlocking held) = true

start_call-TakesTurns :
    (c : Call) (s : Shared) (held : Bool)
    → (held ≡ true → s.locked ≡ true)
    → Effect s.locked held (start_call c s held).0.locked (owns_mutex (start_call c s held).1)
unfolding start_call
start_call-TakesTurns call_lock s false h = quiet refl refl refl
start_call-TakesTurns call_lock s true h = inside refl refl refl
start_call-TakesTurns call_unlock s false h = quiet refl refl refl
start_call-TakesTurns call_unlock s true h = leave refl refl refl
start_call-TakesTurns call_wait s false h = quiet refl refl refl
start_call-TakesTurns call_wait s true h = inside refl refl (sym (h refl))
start_call-TakesTurns call_notify_all s false h = quiet refl refl refl
start_call-TakesTurns call_notify_all s true h = inside refl refl refl

-- What holds the mutex or not, before and after a step that does nothing to it.
unchanged : (b held : Bool) → Effect b held b held
unchanged b false = quiet refl refl refl
unchanged b true = inside refl refl refl

resumed-owns : (b held : Bool) → Effect b held b (owns_mutex (resumed held))
resumed-owns b false = quiet refl refl refl
resumed-owns b true = inside refl refl refl

-- A round of `avs_mutex_lock`, from `p` to `q`.
lock_round-Effect :
    (owns : Pc → Bool) (p q : Pc) (b : Bool)
    → owns p ≡ false
    → owns q ≡ true
    → Effect b (owns p) (lock_round b).1 (owns (if (lock_round b).0 then q else p))
lock_round-Effect owns p q false e f = enter refl f refl
lock_round-Effect owns p q true e f = quiet e e refl

pub mutex-TakesTurns : TakesTurns step (λ s. s.locked) owns_mutex
unfolding step TakesTurns
mutex-TakesTurns i e s outside h = start_call-TakesTurns e.call s false (λ q. absurd (false≢true q))
mutex-TakesTurns i e s locking h = lock_round-Effect owns_mutex locking holding s.locked refl refl
mutex-TakesTurns i e s holding h = start_call-TakesTurns e.call s true h
mutex-TakesTurns i e s insert_locking h = elim (Bool-cases s.waiters_mutex) [
  | inl q ↦ rw q (inside refl refl refl)
  | inr q ↦ rw q (inside refl refl refl)
]
mutex-TakesTurns i e s clearing h = inside refl refl refl
mutex-TakesTurns i e s setting h = inside refl refl refl
mutex-TakesTurns i e s linking h = inside refl refl refl
mutex-TakesTurns i e s insert_unlocking h = inside refl refl refl
mutex-TakesTurns i e s wait_unlocking h = leave refl refl refl
mutex-TakesTurns i e s spinning h =
    elim (Bool-cases (s.waiting i && not (e.use_deadline && e.over))) [
      | inl q ↦ rw q (quiet refl refl refl)
      | inr q ↦ rw q (quiet refl refl refl)
    ]
mutex-TakesTurns i e s (relocking f) h =
    lock_round-Effect owns_mutex (relocking f) (remove_locking f) s.locked refl refl
mutex-TakesTurns i e s (remove_locking f) h = elim (Bool-cases s.waiters_mutex) [
  | inl q ↦ rw q (inside refl refl refl)
  | inr q ↦ rw q (inside refl refl refl)
]
mutex-TakesTurns i e s (removing f) h = inside refl refl refl
mutex-TakesTurns i e s (remove_unlocking f) h = inside refl refl refl
mutex-TakesTurns i e s (waited f) h = inside refl refl refl
mutex-TakesTurns i e s (notify_locking held) h = elim (Bool-cases s.waiters_mutex) [
  | inl q ↦ rw q (unchanged s.locked held)
  | inr q ↦ rw q (unchanged s.locked held)
]
mutex-TakesTurns i e s (notifying [] held) h = unchanged s.locked held
mutex-TakesTurns i e s (notifying (j ∷ rest) held) h = unchanged s.locked held
mutex-TakesTurns i e s (notify_unlocking held) h = resumed-owns s.locked held

-- The other mutex.
start_call-owns_waiters :
    (c : Call) (s : Shared) (held : Bool)
    → Effect s.waiters_mutex false
        (start_call c s held).0.waiters_mutex
        (owns_waiters (start_call c s held).1)
unfolding start_call
start_call-owns_waiters call_lock s false = quiet refl refl refl
start_call-owns_waiters call_lock s true = quiet refl refl refl
start_call-owns_waiters call_unlock s false = quiet refl refl refl
start_call-owns_waiters call_unlock s true = quiet refl refl refl
start_call-owns_waiters call_wait s false = quiet refl refl refl
start_call-owns_waiters call_wait s true = quiet refl refl refl
start_call-owns_waiters call_notify_all s held = quiet refl refl refl

resumed-owns_waiters : (b held : Bool) → Effect b true false (owns_waiters (resumed held))
resumed-owns_waiters b false = leave refl refl refl
resumed-owns_waiters b true = leave refl refl refl

pub waiters-TakesTurns : TakesTurns step (λ s. s.waiters_mutex) owns_waiters
unfolding step TakesTurns
waiters-TakesTurns i e s outside h = start_call-owns_waiters e.call s false
waiters-TakesTurns i e s locking h = elim (Bool-cases s.locked) [
  | inl q ↦ rw q (quiet refl refl refl)
  | inr q ↦ rw q (quiet refl refl refl)
]
waiters-TakesTurns i e s holding h = start_call-owns_waiters e.call s true
waiters-TakesTurns i e s insert_locking h =
    lock_round-Effect owns_waiters insert_locking clearing s.waiters_mutex refl refl
waiters-TakesTurns i e s clearing h = inside refl refl refl
waiters-TakesTurns i e s setting h = inside refl refl refl
waiters-TakesTurns i e s linking h = inside refl refl refl
waiters-TakesTurns i e s insert_unlocking h = leave refl refl refl
waiters-TakesTurns i e s wait_unlocking h = quiet refl refl refl
waiters-TakesTurns i e s spinning h =
    elim (Bool-cases (s.waiting i && not (e.use_deadline && e.over))) [
      | inl q ↦ rw q (quiet refl refl refl)
      | inr q ↦ rw q (quiet refl refl refl)
    ]
waiters-TakesTurns i e s (relocking f) h = elim (Bool-cases s.locked) [
  | inl q ↦ rw q (quiet refl refl refl)
  | inr q ↦ rw q (quiet refl refl refl)
]
waiters-TakesTurns i e s (remove_locking f) h =
    lock_round-Effect owns_waiters (remove_locking f) (removing f) s.waiters_mutex refl refl
waiters-TakesTurns i e s (removing f) h = inside refl refl refl
waiters-TakesTurns i e s (remove_unlocking f) h = leave refl refl refl
waiters-TakesTurns i e s (waited f) h = quiet refl refl refl
waiters-TakesTurns i e s (notify_locking held) h =
    lock_round-Effect owns_waiters (notify_locking held) (notifying s.first_waiter held)
      s.waiters_mutex refl refl
waiters-TakesTurns i e s (notifying [] held) h = inside refl refl refl
waiters-TakesTurns i e s (notifying (j ∷ rest) held) h = inside refl refl refl
waiters-TakesTurns i e s (notify_unlocking held) h = resumed-owns_waiters s.waiters_mutex held
