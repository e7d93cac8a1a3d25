-- ===== src/Threads/Condvar/Flags.antt =====
-- What each step of a thread does to the flags of the waiters' nodes.
use avs_commons.Threads.{update}
use avs_commons.Threads.Exclusion.{clash, update-cases}
use avs_commons.Threads.Condvar.{
  Shared, Pc, outside, locking, holding, insert_locking, clearing, setting, linking,
  insert_unlocking, wait_unlocking, spinning, relocking, remove_locking, removing, remove_unlocking,
  waited, notify_locking, notifying, notify_unlocking, Call, call_lock, call_unlock, call_wait,
  call_notify_all, Event, step, start_call,
}
use avs_commons.Threads.Condvar.Steps.{owns_waiters}
use mathlib.Core.Bool.{false≢true}
use avs_commons.Common.{
  ℕ, Bool, true, false, [], ◌∷◌, ◌≡◌, refl, sym, ap, ◌∙◌, ◌⊎◌, inl, inr, ◌==◌, if◌then◌else◌,
  Bool-cases,
}

-- In `avs_condvar_wait`, with its node in the list, and no look at the flag that ended the loop yet.
abbrev pub in_wait : Pc → Bool
in_wait outside = false
in_wait locking = false
in_wait holding = false
in_wait insert_locking = false
in_wait clearing = false
in_wait setting = false
in_wait linking = false
in_wait insert_unlocking = false
in_wait wait_unlocking = true
in_wait spinning = true
in_wait (relocking f) = false
in_wait (remove_locking f) = false
in_wait (removing f) = false
in_wait (remove_unlocking f) = false
in_wait (waited f) = false
in_wait (notify_locking held) = false
in_wait (notifying l held) = false
in_wait (notify_unlocking held) = false

-- What a step of the thread `j` does to the flags.
pub data FlagEffect (j : ℕ) (flags flags_after : ℕ → Bool) : Type 0 where
  same_flags : flags_after ≡ flags → FlagEffect j flags flags_after
  own_flag : (b : Bool) → flags_after ≡ update flags j b → FlagEffect j flags flags_after
  cleared : (k : ℕ) → flags_after ≡ update flags k false → FlagEffect j flags flags_after

start_call-FlagEffect :
    (j : ℕ) (c : Call) (s : Shared) (held : Bool)
    → FlagEffect j s.waiting (start_call c s held).0.waiting
unfolding start_call
start_call-FlagEffect j call_lock s false = same_flags refl
start_call-FlagEffect j call_lock s true = same_flags refl
start_call-FlagEffect j call_unlock s false = same_flags refl
start_call-FlagEffect j call_unlock s true = same_flags refl
start_call-FlagEffect j call_wait s false = same_flags refl
start_call-FlagEffect j call_wait s true = same_flags refl
start_call-FlagEffect j call_notify_all s held = same_flags refl

pub step-FlagEffect :
    (j : ℕ) (e : Event) (s : Shared) (p : Pc) → FlagEffect j s.waiting (step j e s p).0.waiting
unfolding step
step-FlagEffect j e s outside = start_call-FlagEffect j e.call s false
step-FlagEffect j e s locking = same_flags refl
step-FlagEffect j e s holding = start_call-FlagEffect j e.call s true
step-FlagEffect j e s insert_locking = same_flags refl
step-FlagEffect j e s clearing = own_flag false refl
step-FlagEffect j e s setting = own_flag true refl
step-FlagEffect j e s linking = same_flags refl
step-FlagEffect j e s insert_unlocking = same_flags refl
step-FlagEffect j e s wait_unlocking = same_flags refl
step-FlagEffect j e s spinning = own_flag true refl
step-FlagEffect j e s (relocking f) = same_flags refl
step-FlagEffect j e s (remove_locking f) = same_flags refl
step-FlagEffect j e s (removing f) = same_flags refl
step-FlagEffect j e s (remove_unlocking f) = same_flags refl
step-FlagEffect j e s (waited f) = same_flags refl
step-FlagEffect j e s (notify_locking held) = same_flags refl
step-FlagEffect j e s (notifying [] held) = same_flags refl
step-FlagEffect j e s (notifying (k ∷ rest) held) = cleared k refl
step-FlagEffect j e s (notify_unlocking held) = same_flags refl

-- The flag of another thread is only ever cleared.
pub flag_of_other :
    (j i : ℕ) (flags flags_after : ℕ → Bool)
    → FlagEffect j flags flags_after
    → (j == i) ≡ false
    → flags_after i ≡ true
    → flags i ≡ true
flag_of_other j i flags after (same_flags e) d h = sym (ap (λ f. f i) e) ∙ h
flag_of_other j i flags after (own_flag b e) d h = sym (ap (λ f. f i) e ∙ rw d refl) ∙ h
flag_of_other j i flags after (cleared k e) d h = elim (update-cases flags k false i) [
  | inl c ↦ absurd (false≢true (sym c.1 ∙ sym (ap (λ f. f i) e) ∙ h))
  | inr c ↦ sym c.1 ∙ sym (ap (λ f. f i) e) ∙ h
]

start_call_not_waiting :
    (c : Call) (s : Shared) (held : Bool) → in_wait (start_call c s held).1 ≡ false
unfolding start_call
start_call_not_waiting call_lock s false = refl
start_call_not_waiting call_lock s true = refl
start_call_not_waiting call_unlock s false = refl
start_call_not_waiting call_unlock s true = refl
start_call_not_waiting call_wait s false = refl
start_call_not_waiting call_wait s true = refl
start_call_not_waiting call_notify_all s held = refl

neither :
    (b : Bool) (p q : Pc)
    → in_wait p ≡ false
    → in_wait q ≡ false
    → in_wait (if b then q else p) ≡ false
neither false p q e f = e
neither true p q e f = f

-- A thread that waits after its step with its flag set did so before, or had locked the list.
pub own_step :
    (i : ℕ) (e : Event) (s : Shared) (p : Pc)
    → in_wait (step i e s p).1 ≡ true
    → (step i e s p).0.waiting i ≡ true
    → ((in_wait p ≡ true) × (s.waiting i ≡ true)) ⊎ (owns_waiters p ≡ true)
unfolding step
own_step i e s outside w h = clash w (start_call_not_waiting e.call s false)
own_step i e s locking w h =
    clash w (neither (if s.locked then false else true) locking holding refl refl)
own_step i e s holding w h = clash w (start_call_not_waiting e.call s true)
own_step i e s insert_locking w h =
    clash w (neither (if s.waiters_mutex then false else true) insert_locking clearing refl refl)
own_step i e s clearing w h = inr refl
own_step i e s setting w h = inr refl
own_step i e s linking w h = inr refl
own_step i e s insert_unlocking w h = inr refl
own_step i e s wait_unlocking w h = inl (refl, h)
own_step i e s spinning w h = elim (Bool-cases (s.waiting i)) [
  | inl q ↦ inl (refl, q)
  | inr q ↦ absurd (false≢true (sym (rw q refl) ∙ w))
]
own_step i e s (relocking f) w h =
    clash w (neither (if s.locked then false else true) (relocking f) (remove_locking f) refl refl)
own_step i e s (remove_locking f) w h =
    clash w
      (neither (if s.waiters_mutex then false else true) (remove_locking f) (removing f) refl refl)
own_step i e s (removing f) w h = inr refl
own_step i e s (remove_unlocking f) w h = inr refl
own_step i e s (waited f) w h = absurd (false≢true w)
own_step i e s (notify_locking held) w h = clash w (
    neither (if s.waiters_mutex then false else true) (notify_locking held)
      (notifying s.first_waiter held) refl refl)
own_step i e s (notifying l held) w h = inr refl
own_step i e s (notify_unlocking held) w h = inr refl
