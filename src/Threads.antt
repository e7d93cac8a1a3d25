-- ===== src/Threads.antt =====
-- src/compat/threading/atomic_spinlock: threads that share one atomic variable. Each step of a thread does
-- at most one atomic operation; any thread may take the next step. What a step depends on besides the
-- variable and the thread, which has a number, is its event.
pub mod InitOnce
pub mod Mutex
pub mod Condvar
pub mod Exclusion
use avs_commons.Common.{ℕ, List, [], ◌∷◌, ◌==◌, if◌then◌else◌}

abbrev pub update : {A : Type 0} → (ℕ → A) → ℕ → A → ℕ → A
update f i a j = if i == j then a else f j

-- The shared variable, and where each thread is.
pub record System (Shared Pc : Type 0) : Type 0 where
  pub shared : Shared
  pub pc : ℕ → Pc

module _ {Event Shared Pc : Type 0} (step : ℕ → Event → Shared → Pc → Shared × Pc) where
  abbrev pub act : ℕ → Event → System Shared Pc → System Shared Pc
  act i e s = let r = step i e s.shared (s.pc i) in record { shared = r.0; pc = update s.pc i r.1 }

  -- A schedule: which thread takes each step, and the event.
  abbrev pub run : List (ℕ × Event) → System Shared Pc → System Shared Pc
  run [] s = s
  run ((i, e) ∷ rest) s = run rest (act i e s)

  pub data Reach (init : System Shared Pc) : System Shared Pc → Type 0 where
    start : Reach init init
    later : {s : System Shared Pc} (i : ℕ) (e : Event) → Reach init s → Reach init (act i e s)
