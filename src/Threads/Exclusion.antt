-- ===== src/Threads/Exclusion.antt =====
-- Threads that take turns at one shared variable: the argument that the mutex and the one-time
-- initialisation have in common.
use avs_commons.Threads.{System, update, act, run, Reach, start, later}
use mathlib.Core.Bool.{false≢true}
use avs_commons.Common.{
  ℕ, Bool, true, false, List, [], ◌∷◌, ◌≡◌, refl, sym, ap, ◌∙◌, ◌⊎◌, inl, inr, ◌==◌, Bool-cases,
  arith,
}

pub update-cases :
    {A : Type 0} (f : ℕ → A) (i : ℕ) (a : A) (j : ℕ)
    → ((i ≡ j) × (update f i a j ≡ a)) ⊎ (((i == j) ≡ false) × (update f i a j ≡ f j))
update-cases f i a j = elim (Bool-cases (i == j)) [
  | inl e ↦ inl (ground (arith, e), rw e refl)
  | inr e ↦ inr (e, rw e refl)
]

pub update_same : {A : Type 0} (f : ℕ → A) (i : ℕ) (a : A) → update f i a i ≡ a
update_same f i a = let e : (i == i) ≡ true = ground arith in rw e refl

-- What a step does to the variable, that is `busy` or not, and to the thread, that owns it or not.
pub data Effect (busy owned busy_after owned_after : Bool) : Type 0 where
  quiet :
      owned ≡ false
      → owned_after ≡ false
      → busy_after ≡ busy
      → Effect busy owned busy_after owned_after
  enter :
      busy ≡ false
      → owned_after ≡ true
      → busy_after ≡ true
      → Effect busy owned busy_after owned_after
  inside :
      owned ≡ true
      → owned_after ≡ true
      → busy_after ≡ busy
      → Effect busy owned busy_after owned_after
  leave :
      owned ≡ true
      → owned_after ≡ false
      → busy_after ≡ false
      → Effect busy owned busy_after owned_after

pub clash : {A : Type 0} {b : Bool} → b ≡ true → b ≡ false → A
clash e f = absurd (false≢true (sym f ∙ e))

module _ {Event Shared Pc : Type 0} (step : ℕ → Event → Shared → Pc → Shared × Pc)
    (busy : Shared → Bool) (owns : Pc → Bool) where
  -- The variable is busy while a thread owns it, and no two do.
  pub record Exclusive (s : System Shared Pc) : Type 0 where
    pub unique : (i j : ℕ) → owns (s.pc i) ≡ true → owns (s.pc j) ≡ true → i ≡ j
    pub taken : (i : ℕ) → owns (s.pc i) ≡ true → busy s.shared ≡ true
    pub owner : busy s.shared ≡ true → (i : ℕ) × (owns (s.pc i) ≡ true)

  module _ (i : ℕ) (e : Event) (s : System Shared Pc) (h : Exclusive s)
      (effect : Effect
        (busy s.shared)
        (owns (s.pc i))
        (busy (step i e s.shared (s.pc i)).0)
        (owns (step i e s.shared (s.pc i)).1)) where
    next : Pc
    next = (step i e s.shared (s.pc i)).1

    -- If the thread owns the variable after its step, no other has owned it before.
    alone : owns next ≡ true → (j : ℕ) → owns (s.pc j) ≡ true → i ≡ j
    unfolding next
    alone o j k = elim effect [
      | quiet p q r ↦ clash o q
      | enter p q r ↦ clash (h.taken j k) p
      | inside p q r ↦ h.unique i j p k
      | leave p q r ↦ clash o q
    ]

    -- Another thread that owns the variable keeps it.
    others :
        (j : ℕ)
        → (i == j) ≡ false
        → owns (s.pc j) ≡ true
        → busy (step i e s.shared (s.pc i)).0 ≡ true
    others j d k = elim effect [
      | quiet p q r ↦ r ∙ h.taken j k
      | enter p q r ↦ r
      | inside p q r ↦ r ∙ h.taken j k
      | leave p q r ↦ absurd (ground (arith, d, h.unique i j p k))
    ]

    mine : owns next ≡ true → busy (step i e s.shared (s.pc i)).0 ≡ true
    unfolding next
    mine o = elim effect [
      | quiet p q r ↦ clash o q
      | enter p q r ↦ r
      | inside p q r ↦ r ∙ h.taken i p
      | leave p q r ↦ clash o q
    ]

    still :
        busy (step i e s.shared (s.pc i)).0 ≡ true → (j : ℕ) × (owns (update s.pc i next j) ≡ true)
    unfolding next
    still b = elim effect [
      | quiet p q r ↦
          let k = h.owner (sym r ∙ b) in
          (
            k.0,
            elim (update-cases s.pc i next k.0) [
              | inl c ↦ clash (ap (λ j. owns (s.pc j)) c.0 ∙ k.1) p
              | inr c ↦ ap owns c.1 ∙ k.1
            ],
          )
      | enter p q r ↦ (i, ap owns (update_same s.pc i next) ∙ q)
      | inside p q r ↦ (i, ap owns (update_same s.pc i next) ∙ q)
      | leave p q r ↦ clash b r
    ]

    pub act-Exclusive : Exclusive (act step i e s)
    unfolding next
    act-Exclusive = record {
      unique = λ j k p q. elim (update-cases s.pc i next j) [
        | inl c ↦ elim (update-cases s.pc i next k) [
          | inl d ↦ sym c.0 ∙ d.0
          | inr d ↦ sym c.0 ∙ alone (sym (ap owns c.1) ∙ p) k (sym (ap owns d.1) ∙ q)
        ]
        | inr c ↦ elim (update-cases s.pc i next k) [
          | inl d ↦ sym (alone (sym (ap owns d.1) ∙ q) j (sym (ap owns c.1) ∙ p)) ∙ d.0
          | inr d ↦ h.unique j k (sym (ap owns c.1) ∙ p) (sym (ap owns d.1) ∙ q)
        ]
      ];
      taken = λ j p. elim (update-cases s.pc i next j) [
        | inl c ↦ mine (sym (ap owns c.1) ∙ p)
        | inr c ↦ others j c.0 (sym (ap owns c.1) ∙ p)
      ];
      owner = still;
    }

  -- Each step that a thread can take has such an effect.
  unfoldable pub TakesTurns : Type 0
  TakesTurns =
      (i : ℕ) (e : Event) (s : Shared) (p : Pc)
      → (owns p ≡ true → busy s ≡ true)
      → Effect (busy s) (owns p) (busy (step i e s p).0) (owns (step i e s p).1)

  pub Reach-Exclusive :
      {init s : System Shared Pc} → TakesTurns → Exclusive init → Reach step init s → Exclusive s
  unfolding TakesTurns
  Reach-Exclusive t h start = h
  Reach-Exclusive t h (later {s = s} i e r) =
      let k = Reach-Exclusive t h r in act-Exclusive i e s k (t i e s.shared (s.pc i) (k.taken i))

-- What one step leaves of the threads, and that each schedule is a way to reach a state.
module _ {Event Shared Pc : Type 0} (step : ℕ → Event → Shared → Pc → Shared × Pc) where
  pub act_self :
      (i : ℕ) (e : Event) (s : System Shared Pc)
      → (act step i e s).pc i ≡ (step i e s.shared (s.pc i)).1
  act_self i e s = update_same s.pc i (step i e s.shared (s.pc i)).1

  pub act_other :
      (j : ℕ) (e : Event) (s : System Shared Pc) (i : ℕ)
      → (j == i) ≡ false
      → (act step j e s).pc i ≡ s.pc i
  act_other j e s i d = rw d refl

  pub Reach-run :
      {init : System Shared Pc} (l : List (ℕ × Event)) (s : System Shared Pc)
      → Reach step init s
      → Reach step init (run step l s)
  Reach-run [] s r = r
  Reach-run ((i, e) ∷ rest) s r = Reach-run rest (act step i e s) (later i e r)
