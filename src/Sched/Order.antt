-- ===== src/Sched/Order.antt =====
-- The order of the list of jobs: sorted by instants, and first in first out among equal ones.
use avs_commons.Common.{
  none, ℕ, ◌≡◌, inl, inr, refl, ap, true, false, List, [], ◌∷◌, ◌++◌, ◌==◌, arith, Bool-cases,
}
use avs_commons.Time.{Duration, valid, less}
use avs_commons.Sched.{Job, remove, insert_job, drop_handle}

-- `a` does not lie after `b`.
abbrev pub InOrder : Duration → Duration → Type 0
InOrder a b = less b a ≡ false

less-InOrder : (a b : Duration) → less a b ≡ true → InOrder a b
unfolding less
less-InOrder a b h = ground arith

less-InOrder-trans : (a b c : Duration) → less a b ≡ true → InOrder b c → InOrder a c
unfolding less
less-InOrder-trans a b c h k = ground arith

less-trans_InOrder :
    (a b c : Duration) → valid c ≡ true → less a b ≡ true → InOrder b c → less a c ≡ true
unfolding less
less-trans_InOrder a b c v h k = ground arith

pub InOrder-less : (a b c : Duration) → valid a ≡ true → InOrder a b → InOrder c a → InOrder c b
unfolding less
InOrder-less a b c v h k = ground arith

module _ {C : Type 0} where
  abbrev pub AllJobs : (Job C → Type 0) → List (Job C) → Type 0
  AllJobs P [] = Unit
  AllJobs P (j ∷ js) = P j × AllJobs P js

  -- Each job is in order with all that follow it.
  abbrev pub Sorted : List (Job C) → Type 0
  Sorted [] = Unit
  Sorted (j ∷ js) = AllJobs (λ k. InOrder j.instant k.instant) js × Sorted js

  abbrev pub AllValid : List (Job C) → Type 0
  AllValid = AllJobs (λ j. valid j.instant ≡ true)

module _ {C : Type 0} (P : Job C → Type 0) where
  pub AllJobs-insert_job :
      (job : Job C) (js : List (Job C)) → P job → AllJobs P js → AllJobs P (insert_job job js)
  unfolding insert_job
  AllJobs-insert_job job [] p h = (p, tt)
  AllJobs-insert_job job (j ∷ js) p h = elim (Bool-cases (less job.instant j.instant)) [
    | inl e ↦ rw e (p, h)
    | inr e ↦ rw e (h.0, AllJobs-insert_job job js p h.1)
  ]

  pub AllJobs-remove : (id : ℕ) (js : List (Job C)) → AllJobs P js → AllJobs P (remove id js)
  unfolding remove
  AllJobs-remove id [] h = tt
  AllJobs-remove id (j ∷ js) h = elim (Bool-cases (j.id == id)) [
    | inl e ↦ rw e h.1
    | inr e ↦ rw e (h.0, AllJobs-remove id js h.1)
  ]

  pub AllJobs-drop_handle :
      (id : ℕ) (js : List (Job C))
      → ((j : Job C) → P j → P (record j { handle = none }))
      → AllJobs P js
      → AllJobs P (drop_handle id js)
  unfolding drop_handle
  AllJobs-drop_handle id [] keep h = tt
  AllJobs-drop_handle id (j ∷ js) keep h = elim (Bool-cases (j.id == id)) [
    | inl e ↦ rw e (keep j h.0, h.1)
    | inr e ↦ rw e (h.0, AllJobs-drop_handle id js keep h.1)
  ]

  pub AllJobs-map :
      {Q : Job C → Type 0} (js : List (Job C))
      → ((j : Job C) → Q j → P j)
      → AllJobs Q js
      → AllJobs P js
  AllJobs-map [] f h = tt
  AllJobs-map (j ∷ js) f h = (f j h.0, AllJobs-map js f h.1)

module _ {C : Type 0} where
  pub insert_job-Sorted : (job : Job C) (js : List (Job C)) → Sorted js → Sorted (insert_job job js)
  unfolding insert_job
  insert_job-Sorted job [] h = (tt, tt)
  insert_job-Sorted job (j ∷ js) h = elim (Bool-cases (less job.instant j.instant)) [
    | inl e ↦ rw e (
      (
        less-InOrder job.instant j.instant e,
        AllJobs-map (λ k. InOrder job.instant k.instant) {Q = λ k. InOrder j.instant k.instant} js
            (λ k. less-InOrder-trans job.instant j.instant k.instant e) h.0,
      ),
      h,
    )
    | inr e ↦ rw e (
      AllJobs-insert_job (λ k. InOrder j.instant k.instant) job js e h.0,
      insert_job-Sorted job js h.1,
    )
  ]

  pub remove-Sorted : (id : ℕ) (js : List (Job C)) → Sorted js → Sorted (remove id js)
  unfolding remove
  remove-Sorted id [] h = tt
  remove-Sorted id (j ∷ js) h = elim (Bool-cases (j.id == id)) [
    | inl e ↦ rw e h.1
    | inr e ↦
        rw e (AllJobs-remove (λ k. InOrder j.instant k.instant) id js h.0, remove-Sorted id js h.1)
  ]

  pub drop_handle-Sorted : (id : ℕ) (js : List (Job C)) → Sorted js → Sorted (drop_handle id js)
  unfolding drop_handle
  drop_handle-Sorted id [] h = tt
  drop_handle-Sorted id (j ∷ js) h = elim (Bool-cases (j.id == id)) [
    | inl e ↦ rw e h
    | inr e ↦ rw e (
      AllJobs-drop_handle (λ k. InOrder j.instant k.instant) id js (λ k p. p) h.0,
      drop_handle-Sorted id js h.1,
    )
  ]

  later :
      (job j : Job C) (js : List (Job C))
      → less job.instant j.instant ≡ true
      → AllJobs (λ k. InOrder j.instant k.instant) js
      → AllValid js
      → AllJobs (λ k. less job.instant k.instant ≡ true) js
  later job j [] e h v = tt
  later job j (k ∷ js) e h v =
      (less-trans_InOrder job.instant j.instant k.instant v.0 e h.0, later job j js e h.1 v.1)

  -- `schedule_job` puts a job behind all the jobs that are not later than it, and before the rest,
  -- which are all later: jobs of one instant run in the order in which they were scheduled.
  pub insert_job-split :
      (job : Job C) (js : List (Job C))
      → Sorted js
      → AllValid js
      → (xs : List (Job C)) × (ys : List (Job C)) × (js ≡ xs ++ ys)
        × (insert_job job js ≡ xs ++ (job ∷ ys))
        × AllJobs (λ k. InOrder k.instant job.instant) xs
        × AllJobs (λ k. less job.instant k.instant ≡ true) ys
  unfolding insert_job
  insert_job-split job [] h v = ([], [], refl, refl, tt, tt)
  insert_job-split job (j ∷ js) h v = elim (Bool-cases (less job.instant j.instant)) [
    | inl e ↦ ([], j ∷ js, refl, rw e, tt, (e, later job j js e h.0 v.1))
    | inr e ↦
        let (xs, ys, p, q, a, b) = insert_job-split job js h.1 v.1 in
        (j ∷ xs, ys, ap (λ l. j ∷ l) p, rw (e, q), (e, a), b)
  ]
