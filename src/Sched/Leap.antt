-- ===== src/Sched/Leap.antt =====
-- `avs_sched_leap_time`, whose test of its argument is the wrong way round: what an accepted call does to the
-- scheduler.
use avs_commons.Common.{
  ◌>>=◌, ℕ, zero, suc, Option, ◌≡◌, refl, sym, ap, ◌∙◌, ◌≤◌, ◌<◌, false, none, some, List, [], ◌∷◌,
  length, map, arith, Bool-cases, if-split, inl, inr,
}
use mathlib.Core.Path.{subst}
use avs_commons.Common.Word.{Status, ok, fail}
use avs_commons.Time.{Duration, valid, less, add}
use avs_commons.Sched.{
  Job, Sched, insert_job, update, schedule_job, take_handle, sched_at_locked, sched_at, move,
  leap_time, fetch_from, fetch_job, run_loop,
}

add-invalid : (t diff : Duration) → valid diff ≡ false → valid (add t diff) ≡ false
unfolding add valid
add-invalid t diff e = ground arith

less-invalid : (a b : Duration) → valid a ≡ false → less a b ≡ false
unfolding less
less-invalid a b e = rw e refl

less-invalid_right : (a b : Duration) → valid b ≡ false → less a b ≡ false
unfolding less
less-invalid_right a b e = ground (arith, e)

module _ {C : Type 0} where
  -- What may happen to a scheduler afterwards: jobs are scheduled, without a handle or with one that is not
  -- set; jobs are run; and time leaps.
  pub data Later : Sched C → Sched C → Type 0 where
    same : (s : Sched C) → Later s s
    scheduled :
        (s t u : Sched C) (out_handle : Option ℕ) (instant : Duration) (clb : Option C)
        (memory : Option ℕ) (status : Status)
        → ((h : ℕ) → out_handle ≡ some h → s.handles h ≡ none)
        → sched_at s out_handle instant clb memory ≡ some (status, t)
        → Later t u
        → Later s u
    ran :
        (s t u : Sched C) (exec : C → Sched C → Sched C) (now : Duration) (fuel : ℕ)
        → run_loop exec now fuel s ≡ some t
        → Later t u
        → Later s u
    leapt : (s u : Sched C) (diff : Duration) → Later (leap_time s diff).1 u → Later s u

  -- At the front is a job without a valid instant, and there are so many.
  record IsStuck (s : Sched C) (count : ℕ) : Type 0 where
    front : Job C
    others : List (Job C)
    jobs_are : s.jobs ≡ front ∷ others
    never : valid front.instant ≡ false
    many : count ≤ length s.jobs

  length-insert_job :
      (job : Job C) (js : List (Job C)) → length (insert_job job js) ≡ suc (length js)
  unfolding insert_job
  length-insert_job job [] = refl
  length-insert_job job (j ∷ js) = elim (Bool-cases (less job.instant j.instant)) [
    | inl e ↦ rw e refl
    | inr e ↦ rw e (ap (λ (n : ℕ). suc n) (length-insert_job job js))
  ]

  length-moved : (diff : Duration) (js : List (Job C)) → length (map (move diff) js) ≡ length js
  length-moved diff [] = refl
  length-moved diff (j ∷ js) = ap (λ (n : ℕ). suc n) (length-moved diff js)

  fetch_stuck :
      (s : Sched C) (count : ℕ) (now : Duration)
      → IsStuck s count
      → fetch_job s now ≡ some (none, s)
  unfolding fetch_job fetch_from
  fetch_stuck s count now h = rw h.jobs_are (rw (less-invalid h.front.instant now h.never) refl)

  schedule-IsStuck :
      (s : Sched C) (count : ℕ) (job : Job C) → IsStuck s count → IsStuck (schedule_job s job) count
  unfolding schedule_job
  schedule-IsStuck s count job h = record {
    front = h.front;
    others = insert_job job h.others;
    jobs_are = ap (insert_job job) h.jobs_are ∙ behind;
    never = h.never;
    many = omega (arith, h.many, length-insert_job job s.jobs);
  }
    where
      behind : insert_job job (h.front ∷ h.others) ≡ h.front ∷ insert_job job h.others
      behind = rw (less-invalid_right job.instant h.front.instant h.never, insert_job) refl

  -- The result of scheduling.
  record Stays (count : ℕ) (result : Option (Status × Sched C)) : Type 0 where
    status : Status
    after : Sched C
    result_is : result ≡ some (status, after)
    after-IsStuck : IsStuck after count

  refused_stuck : {s : Sched C} {count : ℕ} → IsStuck s count → Stays count (some (fail, s))
  refused_stuck {s} h = record { status = fail; after = s; result_is = refl; after-IsStuck = h }

  take-IsStuck :
      (s : Sched C) (count : ℕ) (out_handle : Option ℕ) (id : ℕ)
      → ((h : ℕ) → out_handle ≡ some h → s.handles h ≡ none)
      → IsStuck s count
      → (t : Sched C) × (take_handle s out_handle id ≡ some t) × IsStuck t count
  unfolding take_handle
  take-IsStuck s count none id free h = (s, refl, h)
  take-IsStuck s count (some k) id free h = (
    record s { handles = update s.handles k (some id) },
    rw (free k refl, take_handle) refl,
    record {
      front = h.front;
      others = h.others;
      jobs_are = h.jobs_are;
      never = h.never;
      many = h.many;
    },
  )

  sched_at_stuck :
      (s : Sched C) (count : ℕ) (out_handle : Option ℕ) (instant : Duration) (clb : Option C)
      (memory : Option ℕ)
      → ((h : ℕ) → out_handle ≡ some h → s.handles h ≡ none)
      → IsStuck s count
      → Stays count (sched_at s out_handle instant clb memory)
  unfolding sched_at sched_at_locked
  sched_at_stuck s count out_handle instant none memory free h = refused_stuck h
  sched_at_stuck s count out_handle instant (some clb) memory free h =
      elim (Bool-cases (valid instant)) [
        | inr e ↦ rw e (refused_stuck h)
        | inl e ↦ rw e (locked memory)
      ]
    where
      locked : (memory : Option ℕ) → Stays count (sched_at_locked s out_handle instant clb memory)
      locked none = refused_stuck h
      locked (some id) =
          if-split (Stays count) s.shutting_down (λ _. refused_stuck h)
            (λ _.
              let (t, q, k) = take-IsStuck s count out_handle id free h in
              let job : Job C = record {
                id = id;
                instant = instant;
                handle = out_handle;
                clb = clb;
              } in
              record {
                status = ok;
                after = schedule_job t job;
                result_is = rw q refl;
                after-IsStuck = schedule-IsStuck t count job k;
              })

  after_is :
      {status status' : Status} {t t' : Sched C}
      → ◌≡◌ {A = Option (Status × Sched C)} (some (status, t)) (some (status', t'))
      → t ≡ t'
  after_is {status} {status'} {t} e =
      ap (λ (o : Option (Status × Sched C)). elim o [ none ↦ t | some p ↦ p.1 ]) e

  run_stuck :
      (s t : Sched C) (count : ℕ) (exec : C → Sched C → Sched C) (now : Duration) (fuel : ℕ)
      → run_loop exec now fuel s ≡ some t
      → IsStuck s count
      → s ≡ t
  unfolding run_loop
  run_stuck s t count exec now zero e h = absurd (ground (arith, e))
  run_stuck s t count exec now (suc fuel) e h =
      ap (λ (o : Option (Sched C)). elim o [ none ↦ s | some q ↦ q ])
        (sym (ap (λ o. o >>= running) (fetch_stuck s count now h)) ∙ e)
    where
      running : Option (Job C) × Sched C → Option (Sched C)
      running r = elim r.0 [ none ↦ some r.1 | some j ↦ run_loop exec now fuel (exec j.clb r.1) ]

  leap-IsStuck :
      (s : Sched C) (count : ℕ) (diff : Duration)
      → IsStuck s count
      → IsStuck (leap_time s diff).1 count
  unfolding leap_time
  leap-IsStuck s count diff h = elim (Bool-cases (valid diff)) [
    | inl e ↦ rw e h
    | inr e ↦ rw e record {
      front = move diff h.front;
      others = map (move diff) h.others;
      jobs_are = ap (map (move diff)) h.jobs_are;
      never = add-invalid h.front.instant diff e;
      many = omega (arith, h.many, length-moved diff s.jobs);
    }
  ]

  stays-IsStuck : (s t : Sched C) (count : ℕ) → Later s t → IsStuck s count → IsStuck t count
  stays-IsStuck s t count (same u) h = h
  stays-IsStuck s t count (scheduled a b c out_handle instant clb memory status free e next) h =
      let r = sched_at_stuck s count out_handle instant clb memory free h in
      stays-IsStuck b t count next
        (subst (λ (u : Sched C). IsStuck u count) (after_is (sym r.result_is ∙ e)) r.after-IsStuck)
  stays-IsStuck s t count (ran a b c exec now fuel e next) h =
      stays-IsStuck b t count next
        (subst (λ (u : Sched C). IsStuck u count) (run_stuck s b count exec now fuel e h) h)
  stays-IsStuck s t count (leapt a c diff next) h =
      stays-IsStuck (leap_time s diff).1 t count next (leap-IsStuck s count diff h)

  first-IsStuck :
      (s : Sched C) (diff : Duration)
      → valid diff ≡ false
      → 0 < length s.jobs
      → IsStuck (leap_time s diff).1 (length s.jobs)
  unfolding leap_time
  first-IsStuck s diff e some_job = rw e (go s.jobs refl)
    where
      go :
          (js : List (Job C))
          → s.jobs ≡ js
          → IsStuck (record s { jobs = map (move diff) s.jobs }) (length s.jobs)
      go [] k = absurd (omega (arith, some_job, ap (λ (l : List (Job C)). length l) k))
      go (j ∷ js) k = record {
        front = move diff j;
        others = map (move diff) js;
        jobs_are = ap (map (move diff)) k;
        never = add-invalid j.instant diff e;
        many = omega (arith, length-moved diff s.jobs);
      }

  -- With at least one job waiting, avs_sched_leap_time accepts each invalid amount of time; and whatever is
  -- done afterwards of scheduling more jobs, without a handle or with one that is not set, of running the
  -- scheduler, and of leaping time again: no job is fetched, whatever the time, and no fewer jobs wait.
  pub leap_time_stops :
      (s t : Sched C) (diff now : Duration)
      → valid diff ≡ false
      → 0 < length s.jobs
      → Later (leap_time s diff).1 t
      → ((leap_time s diff).0 ≡ ok)
        × (fetch_job t now ≡ some (none, t))
        × (length s.jobs ≤ length t.jobs)
  unfolding leap_time
  leap_time_stops s t diff now e some_job later =
      let h =
        stays-IsStuck (leap_time s diff).1 t (length s.jobs) later
          (first-IsStuck s diff e some_job) in
      (rw (e, leap_time) refl, fetch_stuck t (length s.jobs) now h, h.many)
