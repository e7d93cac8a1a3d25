-- ===== src/Threads/InitOnce/Once.antt =====
-- What `avs_init_once` promises to all its callers.
use avs_commons.Threads.{System, act, run, Reach, start, later}
use avs_commons.Threads.Exclusion.{
  quiet, enter, inside, leave, Exclusive, TakesTurns, Reach-Exclusive, update-cases, Reach-run,
}
use avs_commons.Threads.InitOnce.{
  InitState, not_started, in_progress, initialized, Pc, outside, trying, running, storing, returned,
  Event, step, init, is_busy, at_work, has_succeeded, is_done,
}
use mathlib.Core.Bool.{false≢true}
use avs_commons.Common.{
  ℕ, zero, suc, true, false, List, [], ◌∷◌, ◌≡◌, refl, sym, ap, ◌∙◌, inl, inr, Bool-cases,
}
use avs_commons.Common.Int.{pos, negsuc}

pub step-TakesTurns : TakesTurns step is_busy at_work
unfolding step TakesTurns
step-TakesTurns i e s outside h = quiet refl refl refl
step-TakesTurns i e not_started trying h = elim (Bool-cases e.spurious) [
  | inl q ↦ rw q (quiet refl refl refl)
  | inr q ↦ rw q (enter refl refl refl)
]
step-TakesTurns i e in_progress trying h = quiet refl refl refl
step-TakesTurns i e initialized trying h = quiet refl refl refl
step-TakesTurns i e s running h = inside refl refl refl
step-TakesTurns i e s (storing (pos zero)) h = leave refl refl refl
step-TakesTurns i e s (storing (pos (suc n))) h = leave refl refl refl
step-TakesTurns i e s (storing (negsuc n)) h = leave refl refl refl
step-TakesTurns i e s (returned r) h = quiet refl refl refl

pub init-Exclusive : Exclusive step is_busy at_work init
init-Exclusive = record {
  unique = λ i j p q. absurd (false≢true p);
  taken = λ i p. absurd (false≢true p);
  owner = λ p. absurd (false≢true p);
}

-- In every state that threads can reach, at most one of them is between the exchange and the store of its
-- result, and so in the function that it was given, and while one is the handle says so.
pub one_at_work :
    (s : System InitState Pc) (i j : ℕ)
    → Reach step init s
    → at_work (s.pc i) ≡ true
    → at_work (s.pc j) ≡ true
    → (i ≡ j) × (s.shared ≡ in_progress)
one_at_work s i j r p q =
    let h = Reach-Exclusive step is_busy at_work step-TakesTurns init-Exclusive r in
    (h.unique i j p q, only s.shared (h.taken i p))
  where
    only : (x : InitState) → is_busy x ≡ true → x ≡ in_progress
    only not_started e = absurd (false≢true e)
    only in_progress e = refl
    only initialized e = absurd (false≢true e)

-- A step of a thread that may be at work only if the handle says so: what is initialized stays so, and a
-- thread that ends with 0 leaves it initialized.
stays :
    (i : ℕ) (e : Event) (s : InitState) (p : Pc)
    → (at_work p ≡ true → is_busy s ≡ true)
    → is_done s ≡ true
    → is_done (step i e s p).0 ≡ true
unfolding step
stays i e not_started p h d = absurd (false≢true d)
stays i e in_progress p h d = absurd (false≢true d)
stays i e initialized outside h d = refl
stays i e initialized trying h d = refl
stays i e initialized running h d = refl
stays i e initialized (storing r) h d = absurd (false≢true (h refl))
stays i e initialized (returned r) h d = refl

succeeds :
    (i : ℕ) (e : Event) (s : InitState) (p : Pc)
    → has_succeeded (step i e s p).1 ≡ true
    → is_done (step i e s p).0 ≡ true
unfolding step
succeeds i e s outside d = absurd (false≢true d)
succeeds i e not_started trying d = elim (Bool-cases e.spurious) [
  | inl q ↦ absurd (false≢true (sym (rw q refl) ∙ d))
  | inr q ↦ absurd (false≢true (sym (rw q refl) ∙ d))
]
succeeds i e in_progress trying d = absurd (false≢true d)
succeeds i e initialized trying d = refl
succeeds i e s running d = absurd (false≢true d)
succeeds i e s (storing (pos zero)) d = refl
succeeds i e s (storing (pos (suc n))) d = absurd (false≢true d)
succeeds i e s (storing (negsuc n)) d = absurd (false≢true d)
succeeds i e s (returned r) d = absurd (false≢true d)

success_is_done :
    {s : System InitState Pc} (i : ℕ)
    → Reach step init s
    → has_succeeded (s.pc i) ≡ true
    → is_done s.shared ≡ true
success_is_done i start p = absurd (false≢true p)
success_is_done i (later {s = s} j e r) p =
    let h = Reach-Exclusive step is_busy at_work step-TakesTurns init-Exclusive r in
    elim (update-cases s.pc j (step j e s.shared (s.pc j)).1 i) [
      | inl c ↦ succeeds j e s.shared (s.pc j) (sym (ap has_succeeded c.1) ∙ p)
      | inr c ↦
          stays j e s.shared (s.pc j) (h.taken j)
            (success_is_done i r (sym (ap has_succeeded c.1) ∙ p))
    ]

done_stays :
    (l : List (ℕ × Event)) (s : System InitState Pc)
    → Reach step init s
    → is_done s.shared ≡ true
    → is_done (run step l s).shared ≡ true
done_stays [] s r d = d
done_stays ((i, e) ∷ rest) s r d =
    let h = Reach-Exclusive step is_busy at_work step-TakesTurns init-Exclusive r in
    done_stays rest (act step i e s) (later i e r) (stays i e s.shared (s.pc i) (h.taken i) d)

-- When a call in a state that threads can reach has returned 0, the handle is initialized, and in every
-- continuation it stays so, and no thread is in the function that it was given, or at the store of its
-- result, again.
pub once :
    (s : System InitState Pc) (i : ℕ) (l : List (ℕ × Event)) (j : ℕ)
    → Reach step init s
    → s.pc i ≡ returned (pos 0)
    → ((run step l s).shared ≡ initialized) × (at_work ((run step l s).pc j) ≡ false)
once s i l j r p =
    let d = done_stays l s r (success_is_done i r (ap has_succeeded p)) in
    let h =
      Reach-Exclusive step is_busy at_work step-TakesTurns init-Exclusive (Reach-run step l s r) in
    (
      only_done (run step l s).shared d,
      elim (Bool-cases (at_work ((run step l s).pc j))) [
        | inl w ↦ absurd (false≢true (not_both (run step l s).shared d ∙ h.taken j w))
        | inr w ↦ w
      ],
    )
  where
    only_done : (x : InitState) → is_done x ≡ true → x ≡ initialized
    only_done not_started e = absurd (false≢true e)
    only_done in_progress e = absurd (false≢true e)
    only_done initialized e = refl

    not_both : (x : InitState) → is_done x ≡ true → false ≡ is_busy x
    not_both not_started e = refl
    not_both in_progress e = absurd (false≢true e)
    not_both initialized e = refl
