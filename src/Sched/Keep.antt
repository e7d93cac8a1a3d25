-- ===== src/Sched/Keep.antt =====
-- Every call of the scheduler keeps the invariant, and none of its assertions fails.
use avs_commons.Common.{
  ◌≢◌, map, ℕ, ◌≡◌, ◌↔◌, inl, inr, refl, true, Option, none, some, List, [], ◌∷◌, ◌==◌,
  if◌then◌else◌, arith, Bool-cases, Option-cases,
}
use avs_commons.Common.Word.{Status, ok, fail}
use avs_commons.Time.{Duration, valid}
use avs_commons.Sched.{
  Job, Sched, update, find, remove, drop_handle, schedule_job, job_of, sched_time, sched_del,
  sched_detach, resched_at,
}
use avs_commons.Sched.Order.{
  AllJobs-insert_job, AllJobs-remove, AllJobs-drop_handle, insert_job-Sorted, remove-Sorted,
  drop_handle-Sorted,
}
use avs_commons.Sched.Inv.{
  handle_of, IsValid, absent_find, find-insert_job, find-remove, insert_job-Distinct,
  remove-Distinct, drop_handle-Distinct, handle_of-insert_job, handle_of-remove,
  handle_of-drop_handle, linked_job, handle_of_absent, handle_of_found,
}

module _ {C : Type 0} where
  -- A job leaves the list, and its handle is reset.
  pub unlink-IsValid :
      {s : Sched C} (id h : ℕ)
      → IsValid s
      → s.handles h ≡ some id
      → IsValid (record s { jobs = remove id s.jobs; handles = update s.handles h none })
  unlink-IsValid {s} id h v e = record {
    sorted = remove-Sorted id s.jobs v.sorted;
    valid_times = AllJobs-remove (λ j. valid j.instant ≡ true) id s.jobs v.valid_times;
    distinct = remove-Distinct id s.jobs v.distinct;
    linked =
        λ k i. ground (arith, handle_of-remove i id s.jobs v.distinct, v.linked k i, v.linked h id);
  }

  -- A job without a handle leaves the list.
  pub cut-IsValid :
      {s : Sched C} (id : ℕ)
      → IsValid s
      → handle_of id s.jobs ≡ none
      → IsValid (record s { jobs = remove id s.jobs })
  cut-IsValid {s} id v e = record {
    sorted = remove-Sorted id s.jobs v.sorted;
    valid_times = AllJobs-remove (λ j. valid j.instant ≡ true) id s.jobs v.valid_times;
    distinct = remove-Distinct id s.jobs v.distinct;
    linked = λ k i. ground (arith, handle_of-remove i id s.jobs v.distinct, v.linked k i);
  }

  -- A new job joins the list, with a handle that was not set, or with none.
  pub join-IsValid :
      {s : Sched C} (job : Job C)
      → IsValid s
      → find job.id s.jobs ≡ none
      → valid job.instant ≡ true
      → job.handle ≡ none
      → IsValid (schedule_job s job)
  unfolding schedule_job
  join-IsValid {s} job v f t n = record {
    sorted = insert_job-Sorted job s.jobs v.sorted;
    valid_times = AllJobs-insert_job (λ j. valid j.instant ≡ true) job s.jobs t v.valid_times;
    distinct = insert_job-Distinct job s.jobs (absent_find job.id s.jobs f) v.distinct;
    linked = λ k i. ground (
      arith,
      handle_of-insert_job i job s.jobs f,
      handle_of_absent job.id s.jobs f,
      v.linked k i,
    );
  }

  pub link-IsValid :
      {s : Sched C} (job : Job C) (h : ℕ)
      → IsValid s
      → find job.id s.jobs ≡ none
      → valid job.instant ≡ true
      → job.handle ≡ some h
      → s.handles h ≡ none
      → IsValid (schedule_job (record s { handles = update s.handles h (some job.id) }) job)
  unfolding schedule_job
  link-IsValid {s} job h v f t n e = record {
    sorted = insert_job-Sorted job s.jobs v.sorted;
    valid_times = AllJobs-insert_job (λ j. valid j.instant ≡ true) job s.jobs t v.valid_times;
    distinct = insert_job-Distinct job s.jobs (absent_find job.id s.jobs f) v.distinct;
    linked = λ k i. ground (
      arith,
      handle_of-insert_job i job s.jobs f,
      handle_of_absent job.id s.jobs f,
      v.linked k i,
    );
  }

  drop-IsValid :
      {s : Sched C} (id h : ℕ)
      → IsValid s
      → s.handles h ≡ some id
      → IsValid (record s { jobs = drop_handle id s.jobs; handles = update s.handles h none })
  drop-IsValid {s} id h v e = record {
    sorted = drop_handle-Sorted id s.jobs v.sorted;
    valid_times =
        AllJobs-drop_handle (λ j. valid j.instant ≡ true) id s.jobs (λ j p. p) v.valid_times;
    distinct = drop_handle-Distinct id s.jobs v.distinct;
    linked = λ k i. ground (arith, handle_of-drop_handle i id s.jobs, v.linked k i, v.linked h id);
  }

  instants-drop_handle :
      (id : ℕ) (js : List (Job C))
      → map (λ (j : Job C). j.instant) (drop_handle id js) ≡ map (λ (j : Job C). j.instant) js
  unfolding drop_handle
  instants-drop_handle id [] = refl
  instants-drop_handle id (j ∷ js) = ground (arith, instants-drop_handle id js)

  -- What the calls that take a handle find: nothing, or the job that has it. The assertions hold.
  pub data Found (s : Sched C) (h : ℕ) : Type 0 where
    unset : s.handles h ≡ none → job_of s h ≡ some none → Found s h
    job :
        (j : Job C)
        → s.handles h ≡ some j.id
        → find j.id s.jobs ≡ some j
        → j.handle ≡ some h
        → job_of s h ≡ some (some j)
        → Found s h

  job_of-Found : {s : Sched C} (h : ℕ) → IsValid s → Found s h
  unfolding job_of
  job_of-Found {s} h v = elim (Option-cases (s.handles h)) [
    | inl e ↦ unset e (rw (e, job_of))
    | inr (id, e) ↦
        let (j, f, g, i) = linked_job h id v e in
        job j (rw (i, e)) (rw (i, f)) g (ground (arith, f, g))
  ]

  -- The call returns, and leaves a valid scheduler.
  abbrev pub Keeps : Option (Sched C) → Type 0
  Keeps r = (s' : Sched C) × (r ≡ some s') × IsValid s'

  -- `avs_sched_del` returns and keeps the invariant; the handle is no longer set, and no other handle
  -- changes.
  pub sched_del-IsValid :
      {s : Sched C} (h : ℕ)
      → IsValid s
      → (s' : Sched C) × (sched_del s (some h) ≡ some s')
        × IsValid s'
        × ((k : ℕ) → s'.handles k ≡ (if h == k then none else s.handles k))
  unfolding sched_del
  sched_del-IsValid {s} h v = elim (job_of-Found h v) [
    | unset e q ↦ (s, rw q, v, λ k. ground arith)
    | job j e f g q ↦ (
      record s { jobs = remove j.id s.jobs; handles = update s.handles h none },
      rw q,
      unlink-IsValid j.id h v e,
      λ k. refl,
    )
  ]

  -- `avs_sched_detach` returns and keeps the invariant; the handle is no longer set, and the jobs keep
  -- their order and instants.
  pub sched_detach-IsValid :
      {s : Sched C} (h : ℕ)
      → IsValid s
      → (s' : Sched C) × (sched_detach s (some h) ≡ some s')
        × IsValid s'
        × (s'.handles h ≡ none)
        × (map (λ (j : Job C). j.instant) s'.jobs ≡ map (λ (j : Job C). j.instant) s.jobs)
  unfolding sched_detach
  sched_detach-IsValid {s} h v = elim (job_of-Found h v) [
    | unset e q ↦ (s, rw q, v, e, refl)
    | job j e f g q ↦ (
      record s { jobs = drop_handle j.id s.jobs; handles = update s.handles h none },
      rw q,
      drop-IsValid j.id h v e,
      ground arith,
      instants-drop_handle j.id s.jobs,
    )
  ]

  resched-IsValid :
      {s : Sched C} (j : Job C) (t : Duration)
      → IsValid s
      → find j.id s.jobs ≡ some j
      → valid t ≡ true
      → IsValid (schedule_job (record s { jobs = remove j.id s.jobs }) (record j { instant = t }))
  unfolding schedule_job
  resched-IsValid {s} j t v f e =
      let job = record j { instant = t } in
      let rest : find j.id (remove j.id s.jobs) ≡ none =
        ground (arith, find-remove j.id j.id s.jobs v.distinct) in
      record {
        sorted = insert_job-Sorted job _ (remove-Sorted j.id s.jobs v.sorted);
        valid_times =
            AllJobs-insert_job (λ k. valid k.instant ≡ true) job _ e
              (AllJobs-remove (λ k. valid k.instant ≡ true) j.id s.jobs v.valid_times);
        distinct =
            insert_job-Distinct job _ (absent_find j.id _ rest)
              (remove-Distinct j.id s.jobs v.distinct);
        linked = λ k i. ground (
          arith,
          handle_of-insert_job i job (remove j.id s.jobs) rest,
          handle_of-remove i j.id s.jobs v.distinct,
          handle_of_found j.id s.jobs f,
          v.linked k i,
        );
      }

  sched_time-resched :
      {s : Sched C} (j : Job C) (h : ℕ) (t : Duration)
      → IsValid s
      → s.handles h ≡ some j.id
      → find j.id s.jobs ≡ some j
      → sched_time
          (schedule_job (record s { jobs = remove j.id s.jobs }) (record j { instant = t }))
          (some h)
        ≡ t
  unfolding sched_time schedule_job
  sched_time-resched {s} j h t v e f =
      let rest : find j.id (remove j.id s.jobs) ≡ none =
        ground (arith, find-remove j.id j.id s.jobs v.distinct) in
      ground (arith, e, find-insert_job j.id (record j { instant = t }) (remove j.id s.jobs) rest)

  -- `avs_resched_at_impl__` returns and keeps the invariant. It succeeds exactly for a valid instant and
  -- a handle that is set, and then the job behind the handle has that instant; else nothing changes.
  pub resched_at-IsValid :
      {s : Sched C} (h : ℕ) (t : Duration)
      → IsValid s
      → (r : Status × Sched C) × (resched_at s (some h) t ≡ some r)
        × IsValid r.1
        × ((r.0 ≡ ok) ↔ ((valid t ≡ true) × (s.handles h ≢ none)))
        × (r.0 ≡ ok → sched_time r.1 (some h) ≡ t)
        × (r.0 ≡ fail → r.1 ≡ s)
  unfolding resched_at
  resched_at-IsValid {s} h t v = elim (Bool-cases (valid t)) [
    | inr w ↦ ((fail, s), rw w, v, ground arith, (λ x. cc), λ x. refl)
    | inl w ↦ elim (job_of-Found h v) [
      | unset e q ↦ ((fail, s), rw (w, q), v, ground arith, (λ x. cc), λ x. refl)
      | job j e f g q ↦ (
        (ok, schedule_job (record s { jobs = remove j.id s.jobs }) (record j { instant = t })),
        rw (w, q),
        resched-IsValid j t v f w,
        ground arith,
        (λ x. sched_time-resched j h t v e f),
        λ x. cc,
      )
    ]
  ]
