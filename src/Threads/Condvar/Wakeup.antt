-- ===== src/Threads/Condvar/Wakeup.antt =====
-- What `avs_condvar_notify_all` promises to the threads that wait.
use avs_commons.Threads.{System, act, run, Reach, start, later}
use avs_commons.Threads.Exclusion.{
  Exclusive, clash, Reach-Exclusive, update-cases, act_self, act_other,
}
use avs_commons.Threads.Condvar.{
  Shared, Pc, outside, locking, holding, insert_locking, clearing, setting, linking,
  insert_unlocking, wait_unlocking, spinning, relocking, remove_locking, removing, remove_unlocking,
  waited, notify_locking, notifying, notify_unlocking, Event, step, init,
}
use avs_commons.Threads.Condvar.Steps.{owns_waiters, waiters-TakesTurns}
use avs_commons.Threads.Condvar.Members.{count, queued, times, waiters_lem}
use mathlib.Core.Bool.{false≢true}
use avs_commons.Common.{
  ℕ, ◌<◌, Bool, true, false, not, ◌&&◌, some, List, [], ◌∷◌, ◌≡◌, refl, sym, ap, ◌∙◌, inl, inr,
  ◌==◌, Bool-cases, arith,
}
use avs_commons.Threads.Condvar.Flags.{in_wait, flag_of_other, step-FlagEffect, own_step}
use avs_commons.Threads.Condvar.Walk.{remaining, Walk, begin, passed, end, step-Walk, none_left}

remaining-owns :
    (p : Pc) (l : List ℕ) → remaining p ≡ some l → (owns_waiters p ≡ true) × (in_wait p ≡ false)
remaining-owns outside l h = none_left h refl
remaining-owns locking l h = none_left h refl
remaining-owns holding l h = none_left h refl
remaining-owns insert_locking l h = none_left h refl
remaining-owns clearing l h = none_left h refl
remaining-owns setting l h = none_left h refl
remaining-owns linking l h = none_left h refl
remaining-owns insert_unlocking l h = none_left h refl
remaining-owns wait_unlocking l h = none_left h refl
remaining-owns spinning l h = none_left h refl
remaining-owns (relocking f) l h = none_left h refl
remaining-owns (remove_locking f) l h = none_left h refl
remaining-owns (removing f) l h = none_left h refl
remaining-owns (remove_unlocking f) l h = none_left h refl
remaining-owns (waited f) l h = none_left h refl
remaining-owns (notify_locking held) l h = none_left h refl
remaining-owns (notifying r held) l h = (refl, refl)
remaining-owns (notify_unlocking held) l h = (refl, refl)

in_wait-queued : (p : Pc) → in_wait p ≡ true → times (queued p) ≡ 1
in_wait-queued outside h = absurd (false≢true h)
in_wait-queued locking h = absurd (false≢true h)
in_wait-queued holding h = absurd (false≢true h)
in_wait-queued insert_locking h = absurd (false≢true h)
in_wait-queued clearing h = absurd (false≢true h)
in_wait-queued setting h = absurd (false≢true h)
in_wait-queued linking h = absurd (false≢true h)
in_wait-queued insert_unlocking h = absurd (false≢true h)
in_wait-queued wait_unlocking h = refl
in_wait-queued spinning h = refl
in_wait-queued (relocking f) h = absurd (false≢true h)
in_wait-queued (remove_locking f) h = absurd (false≢true h)
in_wait-queued (removing f) h = absurd (false≢true h)
in_wait-queued (remove_unlocking f) h = absurd (false≢true h)
in_wait-queued (waited f) h = absurd (false≢true h)
in_wait-queued (notify_locking held) h = absurd (false≢true h)
in_wait-queued (notifying r held) h = absurd (false≢true h)
in_wait-queued (notify_unlocking held) h = absurd (false≢true h)

init-Exclusive : Exclusive step (λ s. s.waiters_mutex) owns_waiters init
init-Exclusive = record {
  unique = λ i j p q. absurd (false≢true p);
  taken = λ i p. absurd (false≢true p);
  owner = λ p. absurd (false≢true p);
}

-- During a walk, the thread that waits with its flag set is still ahead.
Ahead : System Shared Pc → Type 0
Ahead s =
    (k i : ℕ) (rest : List ℕ)
    → remaining (s.pc k) ≡ some rest
    → in_wait (s.pc i) ≡ true
    → s.shared.waiting i ≡ true
    → 0 < count rest i

walker :
    (t : System Shared Pc) (k i : ℕ) (flags_after : ℕ → Bool) (rest : List ℕ)
    → Reach step init t
    → Ahead t
    → Walk t.shared.first_waiter t.shared.waiting flags_after (remaining (t.pc k)) rest
    → in_wait (t.pc i) ≡ true
    → flags_after i ≡ true
    → 0 < count rest i
unfolding Ahead
walker t k i flags rest r h (begin e f) w q =
    omega (arith, ap (λ l. count l i) e, waiters_lem t i r, in_wait-queued (t.pc i) w)
walker t k i flags rest r h (passed j e f) w q = elim (update-cases t.shared.waiting j false i) [
  | inl c ↦ absurd (false≢true (sym c.1 ∙ sym (ap (λ f. f i) f) ∙ q))
  | inr c ↦
      let ahead = h k i (j ∷ rest) e w (sym c.1 ∙ sym (ap (λ f. f i) f) ∙ q) in
      let here : count (j ∷ rest) i ≡ count rest i = rw c.0 refl in omega (arith, ahead, here)
]
walker t k i flags rest r h (end e f) w q = h k i rest e w (sym (ap (λ f. f i) f) ∙ q)

Reach-Ahead : (s : System Shared Pc) → Reach step init s → Ahead s
unfolding Ahead
Reach-Ahead s start k i rest e w q = absurd (false≢true w)
Reach-Ahead s (later {s = t} j v r) k i rest e w q =
    let h = Reach-Ahead t r in
    let next = step j v t.shared (t.pc j) in
    elim (update-cases t.pc j next.1 k) [
      | inl c ↦
          let left : remaining next.1 ≡ some rest = sym (ap remaining c.1) ∙ e in
          elim (update-cases t.pc j next.1 i) [
            | inl d ↦ clash (sym (ap in_wait d.1) ∙ w) (remaining-owns next.1 rest left).1
            | inr d ↦
                walker t j i next.0.waiting rest r h (step-Walk j v t.shared (t.pc j) rest left)
                  (sym (ap in_wait d.1) ∙ w) q
          ]
      | inr c ↦
          let left : remaining (t.pc k) ≡ some rest = sym (ap remaining c.1) ∙ e in
          elim (update-cases t.pc j next.1 i) [
            | inl d ↦
                elim (own_step j v t.shared (t.pc j) (sym (ap in_wait d.1) ∙ w)
                  (ap next.0.waiting d.0 ∙ q)) [
                    | inl o ↦ omega (arith, h k j rest left o.0 o.1, ap (count rest) d.0)
                    | inr o ↦
                        let hx =
                          Reach-Exclusive step (λ s. s.waiters_mutex) owns_waiters
                            waiters-TakesTurns init-Exclusive r in
                        absurd (
                          ground
                            (arith, c.0, hx.unique j k o (remaining-owns (t.pc k) rest left).0))
                  ]
            | inr d ↦ h k i rest left (sym (ap in_wait d.1) ∙ w) (
                flag_of_other j i t.shared.waiting next.0.waiting
                  (step-FlagEffect j v t.shared (t.pc j)) d.0 q)
          ]
    ]

-- None of the steps is one of the thread.
abbrev pub absent : ℕ → List (ℕ × Event) → Bool
absent i [] = true
absent i ((j, e) ∷ rest) = not (j == i) && absent i rest

-- A flag that is clear stays clear, and the thread stays in the loop, until it looks.
stays_clear :
    (i : ℕ) (l : List (ℕ × Event)) (s : System Shared Pc)
    → absent i l ≡ true
    → s.pc i ≡ spinning
    → s.shared.waiting i ≡ false
    → ((run step l s).pc i ≡ spinning) × ((run step l s).shared.waiting i ≡ false)
stays_clear i [] s h p f = (p, f)
stays_clear i ((j, e) ∷ rest) s h p f =
    let next = step j e s.shared (s.pc j) in
    let d : (j == i) ≡ false = ground (arith, h) in
    stays_clear i rest (act step j e s) (ground (arith, h)) (act_other step j e s i d ∙ p)
      (elim (Bool-cases (next.0.waiting i)) [
        | inl q ↦
            clash
              (flag_of_other j i s.shared.waiting next.0.waiting
                (step-FlagEffect j e s.shared (s.pc j)) d q)
              f
        | inr q ↦ q
      ])

-- In a state that threads can reach in which avs_condvar_notify_all is about to unlock the list of waiters,
-- no flag is set of a thread in the loop of avs_condvar_wait; and whatever the other threads do next, the
-- next look of such a thread at its flag ends its loop, with the value for which avs_condvar_wait returns 0
-- and not AVS_CONDVAR_TIMEOUT. So no notification is lost.
pub notify_all_wakes :
    (s : System Shared Pc) (k i : ℕ) (held : Bool) (l : List (ℕ × Event)) (e : Event)
    → Reach step init s
    → s.pc k ≡ notify_unlocking held
    → s.pc i ≡ spinning
    → absent i l ≡ true
    → (s.shared.waiting i ≡ false)
      × ((run step ((i, e) ∷ []) (run step l s)).pc i ≡ relocking false)
unfolding step Ahead
notify_all_wakes s k i held l e r p w h =
    let clear : s.shared.waiting i ≡ false = elim (Bool-cases (s.shared.waiting i)) [
      | inl q ↦ absurd (omega (arith, Reach-Ahead s r k i [] (ap remaining p) (ap in_wait w) q))
      | inr q ↦ q
    ] in
    let t = run step l s in
    let c = stays_clear i l s h w clear in
    (clear, act_self step i e t ∙ ap (λ p. (step i e t.shared p).1) c.0 ∙ rw c.1 refl)
