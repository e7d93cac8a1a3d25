-- ===== src/Sched/Schedule.antt =====
-- `avs_sched_at_impl__`: a job is scheduled, in place of the job of its handle.
use avs_commons.Common.{
  ℕ, ◌≡◌, ◌≢◌, ◌↔◌, inl, inr, refl, true, false, Option, none, some, arith, Bool-cases,
  Option-cases,
}
use mathlib.Core.Path.{fun_ext}
use avs_commons.Common.Word.{Status, ok, fail}
use avs_commons.Time.{Duration, valid}
use avs_commons.Sched.{
  Job, Sched, update, find, remove, schedule_job, take_handle, sched_at, sched_time,
}
use avs_commons.Sched.Inv.{IsValid, find-insert_job, find-remove, linked_job}
use avs_commons.Sched.Keep.{unlink-IsValid, join-IsValid, link-IsValid}

update-update :
    (f : ℕ → Option ℕ) (h : ℕ) (a b : Option ℕ) → update (update f h a) h b ≡ update f h b
update-update f h a b = fun_ext λ k. ground arith

module _ {C : Type 0} where
  sched_time-schedule :
      (s : Sched C) (job : Job C) (h : ℕ)
      → find job.id s.jobs ≡ none
      → s.handles h ≡ some job.id
      → sched_time (schedule_job s job) (some h) ≡ job.instant
  unfolding sched_time schedule_job
  sched_time-schedule s job h f e = ground (arith, find-insert_job job.id job s.jobs f)

  -- The scheduler behind `take_handle` and `schedule_job`.
  record Scheduled (s : Sched C) (job : Job C) (r : Option (Sched C)) : Type 0 where
    mid : Sched C
    taken : r ≡ some mid
    stays : IsValid (schedule_job mid job)
    time : (h : ℕ) → job.handle ≡ some h → sched_time (schedule_job mid job) (some h) ≡ job.instant

  replace-IsValid :
      {s : Sched C} (job : Job C) (h old : ℕ)
      → IsValid s
      → find job.id (remove old s.jobs) ≡ none
      → valid job.instant ≡ true
      → job.handle ≡ some h
      → s.handles h ≡ some old
      → IsValid (
          schedule_job
            (record s { jobs = remove old s.jobs; handles = update s.handles h (some job.id) })
            job)
  replace-IsValid {s} job h old v f t e u =
      rw (update-update s.handles h none (some job.id)) at
        (link-IsValid job h (unlink-IsValid old h v u) f t e (ground arith))

  take_handle-Scheduled :
      {s : Sched C} (job : Job C)
      → IsValid s
      → find job.id s.jobs ≡ none
      → valid job.instant ≡ true
      → Scheduled s job (take_handle s job.handle job.id)
  unfolding take_handle
  take_handle-Scheduled {s} job v f t = elim (Option-cases job.handle) [
    | inl e ↦ record {
      mid = s;
      taken = rw (e, take_handle);
      stays = join-IsValid job v f t e;
      time = λ h p. cc;
    }
    | inr (h, e) ↦ elim (Option-cases (s.handles h)) [
      | inl u ↦
          let s' = record s { handles = update s.handles h (some job.id) } in
          record {
            mid = s';
            taken = rw (e, u, take_handle);
            stays = link-IsValid job h v f t e u;
            time = λ k p. sched_time-schedule s' job k f (ground arith);
          }
      | inr (old, u) ↦
          let (j, g, k, i) = linked_job h old v u in
          let js = remove old s.jobs in
          let s' = record s { jobs = js; handles = update s.handles h (some job.id) } in
          let f' : find job.id js ≡ none =
            ground (arith, find-remove job.id old s.jobs v.distinct) in
          record {
            mid = s';
            taken = rw (e, u, g, take_handle);
            stays = replace-IsValid job h old v f' t e u;
            time = λ k p. sched_time-schedule s' job k f' (ground arith);
          }
    ]
  ]

  sched_at-ok :
      (s mid : Sched C) (out : Option ℕ) (id : ℕ) (t : Duration) (c : C)
      → valid t ≡ true
      → s.shutting_down ≡ false
      → take_handle s out id ≡ some mid
      → sched_at s out t (some c) (some id)
        ≡ some (ok, schedule_job mid (record { id = id; instant = t; handle = out; clb = c }))
  unfolding sched_at
  sched_at-ok s mid out id t c w d e = ground (arith, w, d, e)

  -- `avs_sched_at_impl__`, given an address that is not on the list, returns and keeps the invariant.
  -- It succeeds exactly with a callback, a valid instant, memory for the job, and a scheduler that is
  -- not shutting down; then a handle that was passed leads to a job with that instant. A failure
  -- changes nothing.
  pub sched_at-IsValid :
      {s : Sched C} (out : Option ℕ) (t : Duration) (clb : Option C) (memory : Option ℕ)
      → IsValid s
      → ((id : ℕ) → memory ≡ some id → find id s.jobs ≡ none)
      → (r : Status × Sched C) × (sched_at s out t clb memory ≡ some r)
        × IsValid r.1
        × ((r.0 ≡ ok)
            ↔ ((clb ≢ none) × (valid t ≡ true) × (memory ≢ none) × (s.shutting_down ≡ false)))
        × ((h : ℕ) → r.0 ≡ ok → out ≡ some h → sched_time r.1 (some h) ≡ t)
        × (r.0 ≡ fail → r.1 ≡ s)
  unfolding sched_at
  sched_at-IsValid {s} out t none memory v fresh =
      ((fail, s), refl, v, ground arith, (λ h x. cc), λ x. refl)
  sched_at-IsValid {s} out t (some c) none v fresh =
      ((fail, s), ground arith, v, ground arith, (λ h x. cc), λ x. refl)
  sched_at-IsValid {s} out t (some c) (some id) v fresh = elim (Bool-cases (valid t)) [
    | inr w ↦ ((fail, s), rw w, v, ground arith, (λ h x. cc), λ x. refl)
    | inl w ↦ elim (Bool-cases s.shutting_down) [
      | inl d ↦ ((fail, s), rw (w, d), v, ground arith, (λ h x. cc), λ x. refl)
      | inr d ↦
          let job : Job C = record { id = id; instant = t; handle = out; clb = c } in
          let m = take_handle-Scheduled job v (fresh id refl) w in
          (
            (ok, schedule_job m.mid job),
            sched_at-ok s m.mid out id t c w d m.taken,
            m.stays,
            ground arith,
            (λ h x. m.time h),
            λ x. cc,
          )
    ]
  ]
