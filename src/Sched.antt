-- ===== src/Sched.antt =====
-- src/sched/avs_sched.c: a list of jobs ordered by their instants, and handles by which the client
-- reaches them. One scheduler, used by one thread at a time: the mutexes are held over each call.
-- A pointer to a job, or to a handle variable, is a number; `handles` is what the handle variables
-- hold. `none` as a result means that an assertion of the code fails; logging is left out.
pub mod Order
pub mod Inv
pub mod Keep
pub mod Schedule
pub mod Run
pub mod Leap
mod Tests
use avs_commons.Common.{
  ◌>>=◌, ℕ, zero, suc, Bool, true, false, not, Option, none, some, List, [], ◌∷◌, map, ◌==◌,
  if◌then◌else◌,
}
use avs_commons.Common.Word.{Status, ok, fail}
use avs_commons.Time.{Duration, invalid, valid, less, add}

-- `struct avs_sched_job_struct`; `C` is a callback with its data.
pub record Job (C : Type 0) : Type 0 where
  pub id : ℕ
  pub instant : Duration
  pub handle : Option ℕ
  pub clb : C

-- `struct avs_sched_struct`, with the handle variables of its clients.
pub record Sched (C : Type 0) : Type 0 where
  pub jobs : List (Job C)
  pub handles : ℕ → Option ℕ
  pub shutting_down : Bool

-- `*h = v`
abbrev pub update : (ℕ → Option ℕ) → ℕ → Option ℕ → ℕ → Option ℕ
update f h v k = if h == k then v else f k

-- The handles that `avs_sched_cleanup` resets while it clears the list.
pub clear_handles : {C : Type 0} → List (Job C) → (ℕ → Option ℕ) → ℕ → Option ℕ
clear_handles [] f = f
clear_handles (j ∷ js) f = clear_handles js (elim j.handle [ none ↦ f | some h ↦ update f h none ])

module _ {C : Type 0} where
  pub time_of_next : Sched C → Duration
  time_of_next s = elim s.jobs [ [] ↦ invalid | j ∷ js ↦ j.instant ]

  -- `AVS_LIST_FIND_PTR`: the job with this address, if it is on the list.
  pub find : ℕ → List (Job C) → Option (Job C)
  find id [] = none
  find id (j ∷ js) = if j.id == id then some j else find id js

  -- `AVS_LIST_DETACH` and `AVS_LIST_DELETE` at the place that `AVS_LIST_FIND_PTR` found.
  pub remove : ℕ → List (Job C) → List (Job C)
  remove id [] = []
  remove id (j ∷ js) = if j.id == id then js else j ∷ remove id js

  pub insert_job : Job C → List (Job C) → List (Job C)
  insert_job job [] = job ∷ []
  insert_job job (j ∷ js) =
      if not (less job.instant j.instant) then j ∷ insert_job job js else job ∷ j ∷ js

  -- `schedule_job`
  pub schedule_job : Sched C → Job C → Sched C
  unfolding insert_job
  schedule_job s job = record s { jobs = insert_job job s.jobs }

  -- `*handle_ptr = NULL` for the first job; the assertion is that the handle points to it.
  pub release_handle : Sched C → Job C → Option (Sched C)
  release_handle s j = elim j.handle [
    | none ↦ some s
    | some h ↦ elim (s.handles h) [
      | none ↦ none
      | some id ↦ if id == j.id then some (record s { handles = update s.handles h none }) else none
    ]
  ]

  pub fetch_from : Sched C → Duration → List (Job C) → Option (Option (Job C) × Sched C)
  unfolding release_handle
  fetch_from s deadline [] = some (none, s)
  fetch_from s deadline (j ∷ js) =
      if less j.instant deadline
      then (release_handle s j >>= λ s'.
          some (some (record j { handle = none }), record s' { jobs = js }))
      else some (none, s)

  -- `fetch_job`: the first job, if its instant lies before the deadline.
  pub fetch_job : Sched C → Duration → Option (Option (Job C) × Sched C)
  unfolding fetch_from
  fetch_job s deadline = fetch_from s deadline s.jobs

  -- The part of `sched_at_locked` on `out_handle`: a job that it points to is cancelled.
  pub take_handle : Sched C → Option ℕ → ℕ → Option (Sched C)
  unfolding find remove
  take_handle s none id = some s
  take_handle s (some h) id = elim (s.handles h) [
    | none ↦ some (record s { handles = update s.handles h (some id) })
    | some old ↦ elim (find old s.jobs) [
      | none ↦ none
      | some j ↦
          some (record s { jobs = remove old s.jobs; handles = update s.handles h (some id) })
    ]
  ]

  -- `memory` is the address of the new list element, or none if the allocation fails.
  pub sched_at_locked : Sched C → Option ℕ → Duration → C → Option ℕ → Option (Status × Sched C)
  sched_at_locked s out_handle instant clb none = some (fail, s)
  sched_at_locked s out_handle instant clb (some id) =
      if s.shutting_down
      then some (fail, s)
      else take_handle s out_handle id >>= λ s'. some (
        ok,
        schedule_job s' (record { id = id; instant = instant; handle = out_handle; clb = clb }),
      )

  -- `avs_sched_at_impl__`; a missing callback is a null pointer.
  pub sched_at : Sched C → Option ℕ → Duration → Option C → Option ℕ → Option (Status × Sched C)
  unfolding sched_at_locked
  sched_at s out_handle instant none memory = some (fail, s)
  sched_at s out_handle instant (some clb) memory =
      if not (valid instant)
      then some (fail, s)
      else sched_at_locked s out_handle instant clb memory

  -- What `avs_sched_del`, `avs_sched_detach` and `avs_resched_at_impl__` find out first: the job behind
  -- the handle, asserted to be on the list and to have this handle.
  pub job_of : Sched C → ℕ → Option (Option (Job C))
  unfolding find
  job_of s h = elim (s.handles h) [
    | none ↦ some none
    | some id ↦ elim (find id s.jobs) [
      | none ↦ none
      | some j ↦ elim j.handle [ none ↦ none | some k ↦ if k == h then some (some j) else none ]
    ]
  ]

  -- A handle pointer that the client passes may be null.
  -- `avs_sched_time`: the instant of the job behind the handle.
  pub sched_time : Sched C → Option ℕ → Duration
  unfolding find
  sched_time s none = invalid
  sched_time s (some h) = elim (s.handles h >>= λ id. find id s.jobs) [
    | none ↦ invalid
    | some j ↦ j.instant
  ]

  pub sched_del : Sched C → Option ℕ → Option (Sched C)
  unfolding job_of remove
  sched_del s none = some s
  sched_del s (some h) = job_of s h >>= λ found. elim found [
    | none ↦ some s
    | some j ↦ some (record s { jobs = remove j.id s.jobs; handles = update s.handles h none })
  ]

  -- The job stays where it is, without its handle.
  pub drop_handle : ℕ → List (Job C) → List (Job C)
  drop_handle id [] = []
  drop_handle id (j ∷ js) =
      if j.id == id then record j { handle = none } ∷ js else j ∷ drop_handle id js

  pub sched_detach : Sched C → Option ℕ → Option (Sched C)
  unfolding job_of drop_handle
  sched_detach s none = some s
  sched_detach s (some h) = job_of s h >>= λ found. elim found [
    | none ↦ some s
    | some j ↦ some (record s { jobs = drop_handle j.id s.jobs; handles = update s.handles h none })
  ]

  pub resched_at : Sched C → Option ℕ → Duration → Option (Status × Sched C)
  unfolding job_of remove schedule_job
  resched_at s none instant = some (fail, s)
  resched_at s (some h) instant =
      if not (valid instant)
      then some (fail, s)
      else job_of s h >>= λ found. elim found [
        | none ↦ some (fail, s)
        | some j ↦ some (
          ok,
          schedule_job (record s { jobs = remove j.id s.jobs }) (record j { instant = instant }),
        )
      ]

  pub move : Duration → Job C → Job C
  move diff j = record j { instant = add j.instant diff }

  -- `avs_sched_leap_time`, with the test as it stands in the code.
  pub leap_time : Sched C → Duration → Status × Sched C
  unfolding move
  leap_time s diff =
      if valid diff then (fail, s) else (ok, record s { jobs = map (move diff) s.jobs })

  -- The loop of `avs_sched_run`, with fuel; `exec` is what a callback does to the scheduler.
  -- The assertions that a detached job is alone and of this scheduler hold by the form of the model.
  pub run_loop : (C → Sched C → Sched C) → Duration → ℕ → Sched C → Option (Sched C)
  unfolding fetch_job
  run_loop exec now zero s = none
  run_loop exec now (suc fuel) s = fetch_job s now >>= λ r. elim r.0 [
    | none ↦ some r.1
    | some j ↦ run_loop exec now fuel (exec j.clb r.1)
  ]

  -- `avs_sched_cleanup`
  pub cleanup : (C → Sched C → Sched C) → Duration → ℕ → Sched C → Option (Sched C)
  unfolding run_loop clear_handles
  cleanup exec now fuel s = run_loop exec now fuel (record s { shutting_down = true }) >>= λ s'.
      some (record s' { jobs = []; handles = clear_handles s'.jobs s'.handles })
