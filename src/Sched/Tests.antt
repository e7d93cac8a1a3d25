-- ===== src/Sched/Tests.antt =====
-- Runs of avs_sched.c, and the theorems at concrete inputs.
use avs_commons.Common.{
  ℕ, suc, ◌≡◌, ◌≢◌, ◌≤◌, length, ◌↔◌, refl, true, false, Option, none, some, [], ◌∷◌, ◌==◌,
  if◌then◌else◌, arith,
}
use avs_commons.Common.Int.{pos}
use avs_commons.Common.Word.{Status, ok, fail}
use avs_commons.Time.{Duration, invalid, valid, less, add}
use avs_commons.Sched.{
  Job, Sched, update, find, sched_at, sched_time, leap_time, fetch_job, run_loop, cleanup,
  take_handle, schedule_job,
}
use avs_commons.Sched.Inv.{IsValid, handle_of}
use avs_commons.Sched.Schedule.{sched_at-IsValid}
use avs_commons.Sched.Run.{IsTame, NoneDue, count_due, run_loop_done, cleanup_done}
use avs_commons.Sched.Leap.{Later, same, scheduled, leap_time_stops}

abbrev at : ℕ → Duration
at n = record { seconds = pos n; nanoseconds = pos 0 }

-- A callback is a number here; job 1 has the handle 7, job 2 has none.
abbrev first : Job ℕ
first = record { id = 1; instant = at 10; handle = some 7; clb = 100 }

abbrev second : Job ℕ
second = record { id = 2; instant = at 20; handle = none; clb = 200 }

abbrev handle_7 : ℕ → Option ℕ
handle_7 h = if h == 7 then some 1 else none

abbrev two_jobs : Sched ℕ
two_jobs = record { jobs = first ∷ second ∷ []; handles = handle_7; shutting_down = false }

two_jobs-IsValid : IsValid two_jobs
unfolding handle_of find less valid
two_jobs-IsValid = record {
  sorted = ((refl, tt), (tt, tt));
  valid_times = (refl, (refl, tt));
  distinct = ((refl, tt), (tt, tt));
  linked = λ h id. ground arith;
}

-- A third job at the instant of the first goes behind that, and takes over its handle.
at_test :
    sched_at two_jobs (some 7) (at 10) (some 300) (some 3)
    ≡ some (
      ok,
      record {
        jobs = record { id = 3; instant = at 10; handle = some 7; clb = 300 } ∷ second ∷ [];
        handles = update handle_7 7 (some 3);
        shutting_down = false;
      },
    )
unfolding sched_at take_handle schedule_job find less valid
at_test = refl

run_test :
    run_loop (λ (c : ℕ) s. s) (at 15) 5 two_jobs
    ≡ some (record two_jobs { jobs = second ∷ []; handles = update handle_7 7 none })
unfolding run_loop less valid
run_test = refl

-- A callback that does nothing.
abbrev idle : ℕ → Sched ℕ → Sched ℕ
idle c s = s

idle-IsTame : (now : Duration) → IsTame idle now
idle-IsTame now = record { keeps = λ c s v. v; no_more = λ c s. omega arith }

abbrev callback : Option ℕ
callback = some 300

abbrev address : Option ℕ
address = some 3

fresh_3 : (id : ℕ) → address ≡ some id → find id two_jobs.jobs ≡ none
unfolding find
fresh_3 id e = ground arith

sched_at-IsValid_example :
    (r : Status × Sched ℕ) × (sched_at two_jobs (some 7) (at 10) callback address ≡ some r)
    × IsValid r.1
    × ((r.0 ≡ ok) ↔ (
        (callback ≢ none)
        × (valid (at 10) ≡ true)
        × (address ≢ none)
        × (two_jobs.shutting_down ≡ false)))
    × ((h : ℕ) → r.0 ≡ ok → some 7 ≡ some h → sched_time r.1 (some h) ≡ at 10)
    × (r.0 ≡ fail → r.1 ≡ two_jobs)
sched_at-IsValid_example =
    sched_at-IsValid {s = two_jobs} (some 7) (at 10) callback address two_jobs-IsValid fresh_3

run_loop_done_example :
    (s' : Sched ℕ) × (run_loop idle (at 15) 2 two_jobs ≡ some s')
    × IsValid s'
    × NoneDue (at 15) s'.jobs
unfolding count_due less valid
run_loop_done_example =
    run_loop_done idle (at 15) (idle-IsTame (at 15)) 2 two_jobs two_jobs-IsValid (omega arith)

cleanup_done_example :
    (s' : Sched ℕ) × (cleanup idle (at 15) (suc (count_due (at 15) two_jobs.jobs)) two_jobs
      ≡ some s')
    × (s'.jobs ≡ [])
    × ((h : ℕ) → s'.handles h ≡ none)
cleanup_done_example = cleanup_done idle (at 15) (idle-IsTame (at 15)) two_jobs two_jobs-IsValid

-- A job that is scheduled after the leap, and is due, waits behind the two that are never due.
abbrev never_due : Sched ℕ
never_due = record two_jobs {
  jobs =
      record first { instant = invalid }
      ∷ record second { instant = invalid }
      ∷ record { id = 3; instant = at 5; handle = none; clb = 300 }
      ∷ [];
}

Later-never_due : Later (leap_time two_jobs invalid).1 never_due
unfolding leap_time sched_at take_handle schedule_job less valid add
Later-never_due =
    scheduled (leap_time two_jobs invalid).1 never_due never_due none (at 5) (some 300) (some 3) ok
      (λ h e. absurd (ground (arith, e))) refl (same never_due)

leap_time_stops_example :
    ((leap_time two_jobs invalid).0 ≡ ok)
    × (fetch_job never_due (at 100) ≡ some (none, never_due))
    × (length two_jobs.jobs ≤ length never_due.jobs)
unfolding valid
leap_time_stops_example =
    leap_time_stops two_jobs never_due invalid (at 100) refl (omega arith) Later-never_due
