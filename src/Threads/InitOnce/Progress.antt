-- ===== src/Threads/InitOnce/Progress.antt =====
-- No call of `avs_init_once` is stuck.
use avs_commons.Threads.{System, act, run, Reach}
use avs_commons.Threads.Exclusion.{Reach-Exclusive, act_self, act_other}
use avs_commons.Threads.InitOnce.{
  InitState, not_started, in_progress, initialized, Pc, outside, trying, running, storing, returned,
  Event, step, init, is_busy, at_work,
}
use avs_commons.Threads.InitOnce.Once.{step-TakesTurns, init-Exclusive}
use mathlib.Core.Bool.{false≢true}
use avs_commons.Common.{
  ℕ, zero, suc, true, false, List, [], ◌∷◌, ◌≡◌, refl, sym, ap, ◌∙◌, ◌⊎◌, inl, inr, ◌==◌,
  Bool-cases, arith,
}
use avs_commons.Common.Int.{ℤ, pos, negsuc}

-- A schedule after which the thread has returned.
pub record CanReturn (i : ℕ) (s : System InitState Pc) : Type 0 where
  pub schedule : List (ℕ × Event)
  pub result : ℤ
  pub returns : (run step schedule s).pc i ≡ returned result

-- The exchange does not fail for no reason, and the function succeeds.
abbrev lucky : Event
lucky = record { spurious = false; result = pos 0 }

after_step : (i j : ℕ) (s : System InitState Pc) → CanReturn i (act step j lucky s) → CanReturn i s
after_step i j s c = record {
  schedule = (j, lucky) ∷ c.schedule;
  result = c.result;
  returns = c.returns;
}

at :
    (i : ℕ) (s : System InitState Pc) (p : Pc)
    → s.pc i ≡ p
    → (act step i lucky s).pc i ≡ (step i lucky s.shared p).1
at i s p e = act_self step i lucky s ∙ ap (λ p. (step i lucky s.shared p).1) e

returned_now : (i : ℕ) (s : System InitState Pc) (r : ℤ) → s.pc i ≡ returned r → CanReturn i s
returned_now i s r e = record { schedule = []; result = r; returns = e }

from_running : (i : ℕ) (s : System InitState Pc) → s.pc i ≡ running → CanReturn i s
unfolding step
from_running i s e =
    let t = act step i lucky s in
    after_step i i s (
      after_step i i t
        (returned_now i (act step i lucky t) (pos 0) (at i t (storing (pos 0)) (at i s running e))))

free_state : (x : InitState) → is_busy x ≡ false → (x ≡ not_started) ⊎ (x ≡ initialized)
free_state not_started e = inl refl
free_state in_progress e = absurd (false≢true (sym e))
free_state initialized e = inr refl

-- Where no thread is at work, the next attempt takes the handle, or finds it initialized.
from_free :
    (i : ℕ) (s : System InitState Pc) → s.pc i ≡ trying → is_busy s.shared ≡ false → CanReturn i s
unfolding step
from_free i s e f =
    let t = act step i lucky s in
    elim (free_state s.shared f) [
      | inl q ↦
          after_step i i s
            (from_running i t (at i s trying e ∙ ap (λ x. (step i lucky x trying).1) q))
      | inr q ↦
          after_step i i s
            (returned_now i t (pos 0) (at i s trying e ∙ ap (λ x. (step i lucky x trying).1) q))
    ]

after_store :
    (i : ℕ) (e : Event) (s : InitState) (r : ℤ) → is_busy (step i e s (storing r)).0 ≡ false
unfolding step
after_store i e s (pos zero) = refl
after_store i e s (pos (suc n)) = refl
after_store i e s (negsuc n) = refl

module _ (i j : ℕ) (s : System InitState Pc) (e : s.pc i ≡ trying) (d : (j == i) ≡ false) where
  from_storing : (r : ℤ) → s.pc j ≡ storing r → CanReturn i s
  from_storing r f =
      let t = act step j lucky s in
      after_step i j s (
        from_free i t (act_other step j lucky s i d ∙ e)
          (ap (λ p. is_busy (step j lucky s.shared p).0) f ∙ after_store j lucky s.shared r))

working : (p : Pc) → at_work p ≡ true → (p ≡ running) ⊎ ((r : ℤ) × (p ≡ storing r))
working outside e = absurd (false≢true e)
working trying e = absurd (false≢true e)
working running e = inl refl
working (storing r) e = inr (r, refl)
working (returned r) e = absurd (false≢true e)

from_work :
    (i j : ℕ) (s : System InitState Pc)
    → s.pc i ≡ trying
    → (j == i) ≡ false
    → at_work (s.pc j) ≡ true
    → CanReturn i s
unfolding step
from_work i j s e d w = elim (working (s.pc j) w) [
  | inl f ↦
      let t = act step j lucky s in
      after_step i j s
        (from_storing i j t (act_other step j lucky s i d ∙ e) d (pos 0) (at j s running f))
  | inr f ↦ from_storing i j s e d f.0 f.1
]

-- From every state that threads can reach, a thread that is in the loop of avs_init_once can return: there
-- is a continuation after which it has.
pub can_return :
    (s : System InitState Pc) (i : ℕ) → Reach step init s → s.pc i ≡ trying → CanReturn i s
can_return s i r e = elim (Bool-cases (is_busy s.shared)) [
  | inl b ↦
      let o = (Reach-Exclusive step is_busy at_work step-TakesTurns init-Exclusive r).owner b in
      elim (Bool-cases (o.0 == i)) [
        | inl q ↦
            let same : o.0 ≡ i = ground (arith, q) in
            absurd (false≢true (sym (ap (λ j. at_work (s.pc j)) same ∙ ap at_work e) ∙ o.1))
        | inr q ↦ from_work i o.0 s e q o.1
      ]
  | inr f ↦ from_free i s e f
]
