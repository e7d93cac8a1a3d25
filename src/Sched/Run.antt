-- ===== src/Sched/Run.antt =====
-- `avs_sched_run` and `avs_sched_cleanup`: which jobs are executed, and that the loop ends.
use avs_commons.Common.{
  ℕ, zero, suc, ◌+◌, ◌≤◌, ◌<◌, ◌≡◌, ◌⊎◌, inl, inr, refl, ◌∙◌, Bool, true, false, Option, none, some,
  List, [], ◌∷◌, if◌then◌else◌, arith, Bool-cases, Option-cases,
}
use avs_commons.Time.{Duration, less}
use avs_commons.Sched.{
  Job, Sched, update, find, remove, fetch_job, run_loop, cleanup, clear_handles,
}
use avs_commons.Sched.Order.{InOrder, InOrder-less, AllJobs, AllJobs-map, Sorted, AllValid}
use avs_commons.Sched.Inv.{handle_of, IsValid, handle_of_found}
use avs_commons.Sched.Keep.{unlink-IsValid, cut-IsValid}

module _ {C : Type 0} where
  -- No job on the list lies before `now`.
  abbrev pub NoneDue : Duration → List (Job C) → Type 0
  NoneDue now = AllJobs (λ j. less j.instant now ≡ false)

  -- The list is sorted, so it is enough to look at its first job.
  Sorted-NoneDue :
      (now : Duration) (j : Job C) (js : List (Job C))
      → Sorted (j ∷ js)
      → AllValid (j ∷ js)
      → less j.instant now ≡ false
      → NoneDue now (j ∷ js)
  Sorted-NoneDue now j js h v e = (
    e,
    AllJobs-map (λ k. less k.instant now ≡ false) {Q = λ k. InOrder j.instant k.instant} js
        (λ k p. InOrder-less j.instant k.instant now v.0 p e) h.0,
  )

  -- What `fetch_job` does: it detaches the first job if that is due, and else no job is due.
  data Fetched (s : Sched C) (now : Duration) : Type 0 where
    idle : NoneDue now s.jobs → fetch_job s now ≡ some (none, s) → Fetched s now
    due :
        (j : Job C) (js : List (Job C)) (s' : Sched C)
        → s.jobs ≡ j ∷ js
        → less j.instant now ≡ true
        → s'.jobs ≡ js
        → s'.shutting_down ≡ s.shutting_down
        → IsValid s'
        → fetch_job s now ≡ some (some (record j { handle = none }), s')
        → Fetched s now

  remove-head : (j : Job C) (js : List (Job C)) → remove j.id (j ∷ js) ≡ js
  unfolding remove
  remove-head j js = ground arith

  handle_of-head : (j : Job C) (js : List (Job C)) → handle_of j.id (j ∷ js) ≡ j.handle
  handle_of-head j js = handle_of_found j.id (j ∷ js) {j = j} (unfold find in ground arith)

  module _ (f : ℕ → Option ℕ) (d : Bool) where
    abbrev with_jobs : List (Job C) → Sched C
    with_jobs js = record { jobs = js; handles = f; shutting_down = d }

    fetch_due :
        (now : Duration) (j : Job C) (js : List (Job C))
        → IsValid (with_jobs (j ∷ js))
        → less j.instant now ≡ true
        → Fetched (with_jobs (j ∷ js)) now
    unfolding fetch_job
    fetch_due now j js v e = elim (Option-cases j.handle) [
      | inl n ↦
          due j js (with_jobs js) refl e refl refl
            (rw (remove-head j js) at (cut-IsValid j.id v (handle_of-head j js ∙ n)))
            (ground (arith, e, n))
      | inr (h, n) ↦
          let g : f h ≡ some j.id = (v.linked h j.id).1 (handle_of-head j js ∙ n) in
          due j js (record { jobs = js; handles = update f h none; shutting_down = d }) refl e refl
            refl (rw (remove-head j js) at (unlink-IsValid j.id h v g)) (ground (arith, e, n, g))
    ]

    fetch_cases :
        (now : Duration) (js : List (Job C)) → IsValid (with_jobs js) → Fetched (with_jobs js) now
    unfolding fetch_job
    fetch_cases now [] v = idle tt refl
    fetch_cases now (j ∷ js) v = elim (Bool-cases (less j.instant now)) [
      | inl e ↦ fetch_due now j js v e
      | inr e ↦ idle (Sorted-NoneDue now j js v.sorted v.valid_times e) (rw e)
    ]

  fetch_job-Fetched : {s : Sched C} (now : Duration) → IsValid s → Fetched s now
  fetch_job-Fetched {s} now v = fetch_cases s.handles s.shutting_down now s.jobs v

  -- How many jobs lie before `now`.
  unfoldable pub count_due : Duration → List (Job C) → ℕ
  count_due now [] = 0
  count_due now (j ∷ js) = (if less j.instant now then 1 else 0) + count_due now js

  count_fetched :
      (s s₁ : Sched C) (now : Duration) (j : Job C) (js : List (Job C))
      → s.jobs ≡ j ∷ js
      → s₁.jobs ≡ js
      → less j.instant now ≡ true
      → count_due now s.jobs ≡ suc (count_due now s₁.jobs)
  unfolding count_due
  count_fetched s s₁ now j js e f l = ground (arith, e, f, l)

  -- A callback that keeps the invariant, and schedules no job before `now`.
  pub record IsTame (exec : C → Sched C → Sched C) (now : Duration) : Type 0 where
    pub keeps : (c : C) (s : Sched C) → IsValid s → IsValid (exec c s)
    pub no_more : (c : C) (s : Sched C) → count_due now (exec c s).jobs ≤ count_due now s.jobs

  -- With as many rounds as there are jobs before `now`, and one more, the loop of `avs_sched_run` ends;
  -- then no job before `now` is left, the invariant holds, and no assertion failed.
  pub run_loop_done :
      (exec : C → Sched C → Sched C) (now : Duration)
      → IsTame exec now
      → (fuel : ℕ) (s : Sched C) → IsValid s
      → count_due now s.jobs < fuel
      → (s' : Sched C) × (run_loop exec now fuel s ≡ some s') × IsValid s' × NoneDue now s'.jobs
  unfolding run_loop
  run_loop_done exec now t zero s v h = absurd (omega arith)
  run_loop_done exec now t (suc fuel) s v h = elim (fetch_job-Fetched now v) [
    | idle n e ↦ (s, rw e, v, n)
    | due j js s₁ e l e₁ d w q ↦
        let (s', r, w', n) =
          run_loop_done exec now t fuel (exec j.clb s₁) (t.keeps j.clb s₁ w)
            (omega (arith, t.no_more j.clb s₁, count_fetched s s₁ now j js e e₁ l)) in
        (s', rw q r, w', n)
  ]

  -- A job on the list has this handle.
  abbrev HasHandle : ℕ → List (Job C) → Type 0
  HasHandle h [] = ⊥
  HasHandle h (j ∷ js) = (j.handle ≡ some h) ⊎ HasHandle h js

  handle_of-HasHandle : (h id : ℕ) (js : List (Job C)) → handle_of id js ≡ some h → HasHandle h js
  unfolding handle_of find
  handle_of-HasHandle h id [] e = cc
  handle_of-HasHandle h id (j ∷ js) e = ground (arith, handle_of-HasHandle h id js)

  clear_handles_lem :
      (js : List (Job C)) (f : ℕ → Option ℕ) (h : ℕ)
      → (f h ≡ none) ⊎ HasHandle h js
      → clear_handles js f h ≡ none
  unfolding clear_handles
  clear_handles_lem [] f h (inl e) = e
  clear_handles_lem [] f h (inr e) = absurd e
  clear_handles_lem (j ∷ js) f h e = elim (Option-cases j.handle) [
    | inl n ↦ rw n (clear_handles_lem js f h (ground (arith, e)))
    | inr (k, n) ↦ rw n (clear_handles_lem js (update f k none) h (ground arith))
  ]

  -- `avs_sched_cleanup` ends under the same conditions on the callbacks, and leaves no job and no
  -- handle that is set.
  pub cleanup_done :
      (exec : C → Sched C → Sched C) (now : Duration)
      → IsTame exec now
      → (s : Sched C) → IsValid s
      → (s' : Sched C) × (cleanup exec now (suc (count_due now s.jobs)) s ≡ some s')
        × (s'.jobs ≡ [])
        × ((h : ℕ) → s'.handles h ≡ none)
  unfolding cleanup
  cleanup_done exec now t s v =
      let (s', r, w, n) =
        run_loop_done exec now t (suc (count_due now s.jobs)) (record s { shutting_down = true })
          (record {
            sorted = v.sorted;
            valid_times = v.valid_times;
            distinct = v.distinct;
            linked = v.linked;
          })
          (omega arith) in
      (
        record s' { jobs = []; handles = clear_handles s'.jobs s'.handles },
        rw r,
        refl,
        λ h. clear_handles_lem s'.jobs s'.handles h (elim (Option-cases (s'.handles h)) [
          | inl e ↦ inl e
          | inr (id, e) ↦ inr (handle_of-HasHandle h id s'.jobs ((w.linked h id).0 e))
        ]),
      )
