-- ===== src/Threads/Condvar/Members.antt =====
-- The list of waiters has the nodes of the threads that wait, each once.
use avs_commons.Threads.{System, Reach, start, later}
use avs_commons.Threads.Exclusion.{update-cases}
use avs_commons.Threads.Condvar.{
  Shared, Pc, outside, locking, holding, insert_locking, clearing, setting, linking,
  insert_unlocking, wait_unlocking, spinning, relocking, remove_locking, removing, remove_unlocking,
  waited, notify_locking, notifying, notify_unlocking, Call, call_lock, call_unlock, call_wait,
  call_notify_all, Event, step, start_call, init, unlink,
}
use avs_commons.Common.{
  ℕ, suc, ◌-◌, Bool, true, false, not, ◌&&◌, List, [], ◌∷◌, ◌≡◌, refl, sym, ap, ◌∙◌, inl, inr, ◌==◌,
  if◌then◌else◌, Bool-cases, arith,
}

-- How often a node is in the list.
abbrev pub count : List ℕ → ℕ → ℕ
count [] i = 0
count (j ∷ rest) i = let n = count rest i in if j == i then suc n else n

-- From the link of its node until it is detached.
abbrev pub queued : Pc → Bool
queued outside = false
queued locking = false
queued holding = false
queued insert_locking = false
queued clearing = false
queued setting = false
queued linking = false
queued insert_unlocking = true
queued wait_unlocking = true
queued spinning = true
queued (relocking f) = true
queued (remove_locking f) = true
queued (removing f) = true
queued (remove_unlocking f) = false
queued (waited f) = false
queued (notify_locking held) = false
queued (notifying l held) = false
queued (notify_unlocking held) = false

abbrev pub times : Bool → ℕ
times false = 0
times true = 1

count-detach_self : (l : List ℕ) (i : ℕ) → count (unlink l i) i ≡ count l i - 1
count-detach_self [] i = refl
count-detach_self (j ∷ rest) i = elim (Bool-cases (j == i)) [
  | inl e ↦ rw e (omega arith)
  | inr e ↦ rw e (rw e (count-detach_self rest i))
]

count-detach_other : (l : List ℕ) (i k : ℕ) → (i == k) ≡ false → count (unlink l i) k ≡ count l k
count-detach_other [] i k d = refl
count-detach_other (j ∷ rest) i k d = elim (Bool-cases (j == i)) [
  | inl e ↦ let other : (j == k) ≡ false = ground (arith, e, d) in rw e (rw other refl)
  | inr e ↦ rw e (ap (λ n. if j == k then suc n else n) (count-detach_other rest i k d))
]

-- What a step of the thread `i` does to the list and to itself.
data ListEffect (i : ℕ) (list : List ℕ) (was : Bool) (list_after : List ℕ) (is : Bool)
    : Type 0 where
  same_list : list_after ≡ list → is ≡ was → ListEffect i list was list_after is
  linked : list_after ≡ i ∷ list → was ≡ false → is ≡ true → ListEffect i list was list_after is
  detached :
      list_after ≡ unlink list i → was ≡ true → is ≡ false → ListEffect i list was list_after is

start_call-ListEffect :
    (i : ℕ) (c : Call) (s : Shared) (held : Bool)
    → ListEffect i s.first_waiter false
        (start_call c s held).0.first_waiter
        (queued (start_call c s held).1)
unfolding start_call
start_call-ListEffect i call_lock s false = same_list refl refl
start_call-ListEffect i call_lock s true = same_list refl refl
start_call-ListEffect i call_unlock s false = same_list refl refl
start_call-ListEffect i call_unlock s true = same_list refl refl
start_call-ListEffect i call_wait s false = same_list refl refl
start_call-ListEffect i call_wait s true = same_list refl refl
start_call-ListEffect i call_notify_all s held = same_list refl refl

-- A test between two states of which both are queued, or neither.
same_choice :
    (i : ℕ) (l : List ℕ) (b : Bool) (p q : Pc) (was : Bool)
    → queued p ≡ was
    → queued q ≡ was
    → ListEffect i l was l (queued (if b then q else p))
same_choice i l false p q was e f = same_list refl e
same_choice i l true p q was e f = same_list refl f

step-ListEffect :
    (i : ℕ) (e : Event) (s : Shared) (p : Pc)
    → ListEffect i s.first_waiter (queued p) (step i e s p).0.first_waiter (queued (step i e s p).1)
unfolding step
step-ListEffect i e s outside = start_call-ListEffect i e.call s false
step-ListEffect i e s locking =
    same_choice i s.first_waiter (if s.locked then false else true) locking holding false refl refl
step-ListEffect i e s holding = start_call-ListEffect i e.call s true
step-ListEffect i e s insert_locking =
    same_choice i s.first_waiter (if s.waiters_mutex then false else true) insert_locking clearing
      false refl refl
step-ListEffect i e s clearing = same_list refl refl
step-ListEffect i e s setting = same_list refl refl
step-ListEffect i e s linking = linked refl refl refl
step-ListEffect i e s insert_unlocking = same_list refl refl
step-ListEffect i e s wait_unlocking = same_list refl refl
step-ListEffect i e s spinning =
    same_choice i s.first_waiter (s.waiting i && not (e.use_deadline && e.over))
      (relocking (s.waiting i)) spinning true refl refl
step-ListEffect i e s (relocking f) =
    same_choice i s.first_waiter (if s.locked then false else true) (relocking f) (remove_locking f)
      true refl refl
step-ListEffect i e s (remove_locking f) =
    same_choice i s.first_waiter (if s.waiters_mutex then false else true) (remove_locking f)
      (removing f) true refl refl
step-ListEffect i e s (removing f) = detached refl refl refl
step-ListEffect i e s (remove_unlocking f) = same_list refl refl
step-ListEffect i e s (waited f) = same_list refl refl
step-ListEffect i e s (notify_locking held) =
    same_choice i s.first_waiter (if s.waiters_mutex then false else true) (notify_locking held)
      (notifying s.first_waiter held) false refl refl
step-ListEffect i e s (notifying [] held) = same_list refl refl
step-ListEffect i e s (notifying (j ∷ rest) held) = same_list refl refl
step-ListEffect i e s (notify_unlocking false) = same_list refl refl
step-ListEffect i e s (notify_unlocking true) = same_list refl refl

mine :
    (i : ℕ) (l m : List ℕ) (was is : Bool)
    → ListEffect i l was m is
    → count l i ≡ times was
    → count m i ≡ times is
mine i l m was is (same_list e f) h = ap (λ x. count x i) e ∙ h ∙ ap times (sym f)
mine i l m was is (linked e f g) h =
    let self : (i == i) ≡ true = ground arith in
    ap (λ x. count x i) e ∙ rw self (ap suc (h ∙ ap times f) ∙ ap times (sym g))
mine i l m was is (detached e f g) h =
    ap (λ x. count x i) e
    ∙ count-detach_self l i
    ∙ ap (λ n. n - 1) (h ∙ ap times f)
    ∙ ap times (sym g)

others :
    (i j : ℕ) (l m : List ℕ) (was is : Bool)
    → ListEffect i l was m is
    → (i == j) ≡ false
    → count m j ≡ count l j
others i j l m was is (same_list e f) d = ap (λ x. count x j) e
others i j l m was is (linked e f g) d = ap (λ x. count x j) e ∙ rw d refl
others i j l m was is (detached e f g) d = ap (λ x. count x j) e ∙ count-detach_other l i j d

-- In every state that threads can reach, the list of waiters has the node of each thread exactly once from
-- the link of the node in avs_condvar_wait until it is detached, and else not at all. So remove_waiter, when
-- it looks for a node, always finds it.
pub waiters_lem :
    (s : System Shared Pc) (i : ℕ)
    → Reach step init s
    → count s.shared.first_waiter i ≡ times (queued (s.pc i))
waiters_lem s i start = refl
waiters_lem s i (later {s = t} j e r) =
    let next = step j e t.shared (t.pc j) in
    let effect = step-ListEffect j e t.shared (t.pc j) in
    elim (update-cases t.pc j next.1 i) [
      | inl c ↦
          ap (count next.0.first_waiter) (sym c.0)
          ∙ mine j t.shared.first_waiter next.0.first_waiter (queued (t.pc j)) (queued next.1)
              effect (waiters_lem t j r)
          ∙ ap (λ p. times (queued p)) (sym c.1)
      | inr c ↦
          others j i t.shared.first_waiter next.0.first_waiter (queued (t.pc j)) (queued next.1)
            effect c.0
          ∙ waiters_lem t i r
          ∙ ap (λ p. times (queued p)) (sym c.1)
    ]
