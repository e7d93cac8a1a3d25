-- ===== src/Sched/Inv.antt =====
-- The invariant of the scheduler, and the lookup of jobs by address.
use avs_commons.Common.{
  ◌>>=◌, ℕ, ◌≡◌, ◌↔◌, inl, inr, refl, false, Option, none, some, List, [], ◌∷◌, ◌==◌, if◌then◌else◌,
  arith, Bool-cases, Option-cases,
}
use avs_commons.Time.{less}
use avs_commons.Sched.{Job, Sched, find, remove, insert_job, drop_handle}
use avs_commons.Sched.Order.{
  AllJobs, Sorted, AllValid, AllJobs-insert_job, AllJobs-remove, AllJobs-drop_handle,
}

module _ {C : Type 0} where
  -- No job is on the list twice.
  abbrev pub Distinct : List (Job C) → Type 0
  Distinct [] = Unit
  Distinct (j ∷ js) = AllJobs (λ k. (j.id == k.id) ≡ false) js × Distinct js

  -- The handle of the job with this address.
  unfoldable pub handle_of : ℕ → List (Job C) → Option ℕ
  handle_of id js = elim (find id js) [ none ↦ none | some j ↦ j.handle ]

  -- A handle variable holds a job exactly if that job is on the list and has this handle.
  pub record IsValid (s : Sched C) : Type 0 where
    pub sorted : Sorted s.jobs
    pub valid_times : AllValid s.jobs
    pub distinct : Distinct s.jobs
    pub linked : (h id : ℕ) → (s.handles h ≡ some id) ↔ (handle_of id s.jobs ≡ some h)

  pub find_absent :
      (id : ℕ) (js : List (Job C)) → AllJobs (λ k. (id == k.id) ≡ false) js → find id js ≡ none
  unfolding find
  find_absent id [] h = refl
  find_absent id (j ∷ js) h = ground (arith, find_absent id js h.1)

  pub absent_find :
      (id : ℕ) (js : List (Job C)) → find id js ≡ none → AllJobs (λ k. (id == k.id) ≡ false) js
  unfolding find
  absent_find id [] h = tt
  absent_find id (j ∷ js) h = ground (arith, absent_find id js)

  pub find-id : (id : ℕ) (js : List (Job C)) (j : Job C) → find id js ≡ some j → j.id ≡ id
  unfolding find
  find-id id [] j h = cc
  find-id id (k ∷ js) j h = ground (arith, find-id id js j)

  pub find-insert_job :
      (k : ℕ) (job : Job C) (js : List (Job C))
      → find job.id js ≡ none
      → find k (insert_job job js) ≡ (if job.id == k then some job else find k js)
  unfolding find insert_job
  find-insert_job k job [] h = refl
  find-insert_job k job (j ∷ js) h = ground (arith, find-insert_job k job js)

  pub find-remove :
      (k id : ℕ) (js : List (Job C))
      → Distinct js
      → find k (remove id js) ≡ (if id == k then none else find k js)
  unfolding find remove
  find-remove k id [] h = ground arith
  find-remove k id (j ∷ js) h = ground (arith, find-remove k id js h.1, find_absent j.id js h.0)

  pub find-drop_handle :
      (k id : ℕ) (js : List (Job C))
      → find k (drop_handle id js)
        ≡ (if id == k then (find k js >>= λ j. some (record j { handle = none })) else find k js)
  unfolding find drop_handle
  find-drop_handle k id [] = ground arith
  find-drop_handle k id (j ∷ js) = ground (arith, find-drop_handle k id js)

  pub insert_job-Distinct :
      (job : Job C) (js : List (Job C))
      → AllJobs (λ k. (job.id == k.id) ≡ false) js
      → Distinct js
      → Distinct (insert_job job js)
  unfolding insert_job
  insert_job-Distinct job [] f h = (tt, tt)
  insert_job-Distinct job (j ∷ js) f h = elim (Bool-cases (less job.instant j.instant)) [
    | inl e ↦ rw e (f, h)
    | inr e ↦ rw e (
      AllJobs-insert_job (λ k. (j.id == k.id) ≡ false) job js (ground (arith, f.0)) h.0,
      insert_job-Distinct job js f.1 h.1,
    )
  ]

  pub remove-Distinct : (id : ℕ) (js : List (Job C)) → Distinct js → Distinct (remove id js)
  unfolding remove
  remove-Distinct id [] h = tt
  remove-Distinct id (j ∷ js) h = elim (Bool-cases (j.id == id)) [
    | inl e ↦ rw e h.1
    | inr e ↦
        rw e (AllJobs-remove (λ k. (j.id == k.id) ≡ false) id js h.0, remove-Distinct id js h.1)
  ]

  pub drop_handle-Distinct :
      (id : ℕ) (js : List (Job C)) → Distinct js → Distinct (drop_handle id js)
  unfolding drop_handle
  drop_handle-Distinct id [] h = tt
  drop_handle-Distinct id (j ∷ js) h = elim (Bool-cases (j.id == id)) [
    | inl e ↦ rw e h
    | inr e ↦ rw e (
      AllJobs-drop_handle (λ k. (j.id == k.id) ≡ false) id js (λ k p. p) h.0,
      drop_handle-Distinct id js h.1,
    )
  ]

  -- Where the handle of a job is found, behind each change of the list.
  pub handle_of-insert_job :
      (k : ℕ) (job : Job C) (js : List (Job C))
      → find job.id js ≡ none
      → handle_of k (insert_job job js) ≡ (if job.id == k then job.handle else handle_of k js)
  unfolding handle_of
  handle_of-insert_job k job js f = ground (arith, find-insert_job k job js f)

  pub handle_of-remove :
      (k id : ℕ) (js : List (Job C))
      → Distinct js
      → handle_of k (remove id js) ≡ (if id == k then none else handle_of k js)
  unfolding handle_of
  handle_of-remove k id js h = ground (arith, find-remove k id js h)

  pub handle_of-drop_handle :
      (k id : ℕ) (js : List (Job C))
      → handle_of k (drop_handle id js) ≡ (if id == k then none else handle_of k js)
  unfolding handle_of
  handle_of-drop_handle k id js = ground (arith, find-drop_handle k id js)

  -- A handle that is set leads to a job that has it.
  pub linked_job :
      {s : Sched C} (h id : ℕ)
      → IsValid s
      → s.handles h ≡ some id
      → (j : Job C) × (find id s.jobs ≡ some j) × (j.handle ≡ some h) × (j.id ≡ id)
  unfolding handle_of
  linked_job {s} h id v e = elim (Option-cases (find id s.jobs)) [
    | inl n ↦ ground (arith, (v.linked h id).0)
    | inr (j, p) ↦ (j, p, ground (arith, (v.linked h id).0 e), find-id id s.jobs j p)
  ]

  pub handle_of_absent : (id : ℕ) (js : List (Job C)) → find id js ≡ none → handle_of id js ≡ none
  unfolding handle_of
  handle_of_absent id js e = rw (e, handle_of)

  pub handle_of_found :
      (id : ℕ) (js : List (Job C)) {j : Job C} → find id js ≡ some j → handle_of id js ≡ j.handle
  unfolding handle_of
  handle_of_found id js e = rw (e, handle_of)
