-- ===== src/Threads/Condvar/Walk.antt =====
-- The walk of `avs_condvar_notify_all` over the list of waiters.
use avs_commons.Threads.{update}
use avs_commons.Threads.Condvar.{
  Shared, Pc, outside, locking, holding, insert_locking, clearing, setting, linking,
  insert_unlocking, wait_unlocking, spinning, relocking, remove_locking, removing, remove_unlocking,
  waited, notify_locking, notifying, notify_unlocking, Call, call_lock, call_unlock, call_wait,
  call_notify_all, Event, step, start_call,
}
use mathlib.Core.Bool.{false≢true}
use avs_commons.Common.{
  ℕ, Bool, true, false, not, ◌&&◌, Option, none, some, List, [], ◌∷◌, ◌≡◌, refl, sym, ap, ◌∙◌, inl,
  inr, if◌then◌else◌, Bool-cases,
}

-- What is left of the list for the thread that walks over it.
abbrev pub remaining : Pc → Option (List ℕ)
remaining outside = none
remaining locking = none
remaining holding = none
remaining insert_locking = none
remaining clearing = none
remaining setting = none
remaining linking = none
remaining insert_unlocking = none
remaining wait_unlocking = none
remaining spinning = none
remaining (relocking f) = none
remaining (remove_locking f) = none
remaining (removing f) = none
remaining (remove_unlocking f) = none
remaining (waited f) = none
remaining (notify_locking held) = none
remaining (notifying l held) = some l
remaining (notify_unlocking held) = some []

-- A step of the thread that walks over the list, which has `rest` left afterwards.
pub data Walk (list : List ℕ) (flags flags_after : ℕ → Bool) (before : Option (List ℕ))
    (rest : List ℕ) : Type 0 where
  begin : rest ≡ list → flags_after ≡ flags → Walk list flags flags_after before rest
  passed :
      (k : ℕ)
      → before ≡ some (k ∷ rest)
      → flags_after ≡ update flags k false
      → Walk list flags flags_after before rest
  end : before ≡ some rest → flags_after ≡ flags → Walk list flags flags_after before rest

pub some_inj : {A : Type 0} {a b : A} → some a ≡ some b → a ≡ b
some_inj {a = a} e = ap (λ o. elim o [ none ↦ a | some x ↦ x ]) e

pub none_left : {A : Type 0} {o : Option (List ℕ)} {l : List ℕ} → o ≡ some l → o ≡ none → A
none_left e f = absurd (false≢true (ap has_some (sym f ∙ e)))
  where
    has_some : Option (List ℕ) → Bool
    has_some none = false
    has_some (some x) = true

start_call_no_walk :
    (c : Call) (s : Shared) (held : Bool) → remaining (start_call c s held).1 ≡ none
unfolding start_call
start_call_no_walk call_lock s false = refl
start_call_no_walk call_lock s true = refl
start_call_no_walk call_unlock s false = refl
start_call_no_walk call_unlock s true = refl
start_call_no_walk call_wait s false = refl
start_call_no_walk call_wait s true = refl
start_call_no_walk call_notify_all s held = refl

no_walk :
    (b : Bool) (p q : Pc)
    → remaining p ≡ none
    → remaining q ≡ none
    → remaining (if b then q else p) ≡ none
no_walk false p q e f = e
no_walk true p q e f = f

pub step-Walk :
    (k : ℕ) (e : Event) (s : Shared) (p : Pc) (rest : List ℕ)
    → remaining (step k e s p).1 ≡ some rest
    → Walk s.first_waiter s.waiting (step k e s p).0.waiting (remaining p) rest
unfolding step
step-Walk k e s outside rest h = none_left h (start_call_no_walk e.call s false)
step-Walk k e s locking rest h =
    none_left h (no_walk (if s.locked then false else true) locking holding refl refl)
step-Walk k e s holding rest h = none_left h (start_call_no_walk e.call s true)
step-Walk k e s insert_locking rest h =
    none_left h
      (no_walk (if s.waiters_mutex then false else true) insert_locking clearing refl refl)
step-Walk k e s clearing rest h = none_left h refl
step-Walk k e s setting rest h = none_left h refl
step-Walk k e s linking rest h = none_left h refl
step-Walk k e s insert_unlocking rest h = none_left h refl
step-Walk k e s wait_unlocking rest h = none_left h refl
step-Walk k e s spinning rest h = none_left h (
    no_walk (s.waiting k && not (e.use_deadline && e.over)) (relocking (s.waiting k)) spinning refl
      refl)
step-Walk k e s (relocking f) rest h =
    none_left h
      (no_walk (if s.locked then false else true) (relocking f) (remove_locking f) refl refl)
step-Walk k e s (remove_locking f) rest h =
    none_left h
      (no_walk (if s.waiters_mutex then false else true) (remove_locking f) (removing f) refl refl)
step-Walk k e s (removing f) rest h = none_left h refl
step-Walk k e s (remove_unlocking f) rest h = none_left h refl
step-Walk k e s (waited f) rest h = none_left h refl
step-Walk k e s (notify_locking held) rest h = elim (Bool-cases s.waiters_mutex) [
  | inl q ↦ none_left h (rw q refl)
  | inr q ↦ begin (sym (some_inj (sym (rw q refl) ∙ h))) refl
]
step-Walk k e s (notifying [] held) rest h = end h refl
step-Walk k e s (notifying (j ∷ l) held) rest h =
    passed j (ap (λ r. some (j ∷ r)) (some_inj h)) refl
step-Walk k e s (notify_unlocking false) rest h = none_left h refl
step-Walk k e s (notify_unlocking true) rest h = none_left h refl
