-- ===== src/Threads/Condvar/Holder.antt =====
-- The two mutexes exclude, for threads that unlock only what they have locked.
use avs_commons.Threads.{System, Reach}
use avs_commons.Threads.Exclusion.{Exclusive, Reach-Exclusive}
use avs_commons.Threads.Condvar.{Shared, Pc, step, init}
use avs_commons.Threads.Condvar.Steps.{owns_mutex, mutex-TakesTurns}
use mathlib.Core.Bool.{false≢true}
use avs_commons.Common.{ℕ, true, ◌≡◌}

init-Exclusive : Exclusive step (λ s. s.locked) owns_mutex init
init-Exclusive = record {
  unique = λ i j p q. absurd (false≢true p);
  taken = λ i p. absurd (false≢true p);
  owner = λ p. absurd (false≢true p);
}

-- In every state that threads can reach, at most one of them holds the mutex that avs_mutex_lock locks,
-- be it from there or from the end of avs_condvar_wait, and while one does the flag of the mutex is set.
pub one_holder :
    (s : System Shared Pc) (i j : ℕ)
    → Reach step init s
    → owns_mutex (s.pc i) ≡ true
    → owns_mutex (s.pc j) ≡ true
    → (i ≡ j) × (s.shared.locked ≡ true)
one_holder s i j r p q =
    let h = Reach-Exclusive step (λ s. s.locked) owns_mutex mutex-TakesTurns init-Exclusive r in
    (h.unique i j p q, h.taken i p)
