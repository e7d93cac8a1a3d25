-- ===== src/ListOps/Merge.antt =====
-- The merge of two sorted lists, `avs_list_merge__` of src/list/avs_list.c: order and stability.
use avs_commons.ListOps.{pass, merge}
use avs_commons.Common.{
  Bool, true, false, ◌≡◌, refl, sym, ap, ◌∙◌, ◌⊎◌, inl, inr, List, [], ◌∷◌, ◌++◌, append_assoc,
  append-nil, if◌then◌else◌, Bool-cases,
}
use mathlib.Core.Bool.{false≢true}
use mathlib.Core.List.{Perm, perm_middle}
use mathlib.Core.List.Perm
use avs_commons.Common.Int.{ℤ, pos, leb_ℤ}

module _ {ℓ} {A : Type ℓ} where
  abbrev pub All : (A → Type 0) → List A → Type 0
  All P [] = Unit
  All P (x ∷ xs) = P x × All P xs

  pub All-map : {P Q : A → Type 0} → ((x : A) → P x → Q x) → (xs : List A) → All P xs → All Q xs
  All-map f [] h = tt
  All-map f (x ∷ xs) h = (f x h.0, All-map f xs h.1)

  All-append : (P : A → Type 0) (xs ys : List A) → All P xs → All P ys → All P (xs ++ ys)
  All-append P [] ys h k = k
  All-append P (x ∷ xs) ys h k = (h.0, All-append P xs ys h.1 k)

  All-left : (P : A → Type 0) (xs ys : List A) → All P (xs ++ ys) → All P xs
  All-left P [] ys h = tt
  All-left P (x ∷ xs) ys h = (h.0, All-left P xs ys h.1)

  All-right : (P : A → Type 0) (xs ys : List A) → All P (xs ++ ys) → All P ys
  All-right P [] ys h = h
  All-right P (x ∷ xs) ys h = All-right P xs ys h.1

  abbrev pub keep : (A → Bool) → List A → List A
  keep q [] = []
  keep q (x ∷ xs) = if q x then x ∷ keep q xs else keep q xs

  pub keep-append : (q : A → Bool) (xs ys : List A) → keep q (xs ++ ys) ≡ keep q xs ++ keep q ys
  keep-append q [] ys = refl
  keep-append q (x ∷ xs) ys = elim (Bool-cases (q x)) [
    | inl e ↦ rw e (ap (λ l. x ∷ l) (keep-append q xs ys))
    | inr e ↦ rw e (keep-append q xs ys)
  ]

  keep-none : (q : A → Bool) (xs : List A) → All (λ x. q x ≡ false) xs → keep q xs ≡ []
  keep-none q [] h = refl
  keep-none q (x ∷ xs) h = rw h.0 (keep-none q xs h.1)

module _ {ℓ} {A : Type ℓ} (comparator : A → A → ℤ) where
  -- `a` may stand before `b`: the comparator's result is not positive.
  abbrev pub Le : A → A → Type 0
  Le a b = leb_ℤ (comparator a b) (pos 0) ≡ true

  abbrev pub Sorted : List A → Type 0
  Sorted [] = Unit
  Sorted (x ∷ xs) = All (Le x) xs × Sorted xs

  -- What a comparator has to be.
  pub record IsOrder : Type ℓ where
    pub total : (a b : A) → Le a b ⊎ Le b a
    pub trans : (a b c : A) → Le a b → Le b c → Le a c

  Sorted-right : (xs ys : List A) → Sorted (xs ++ ys) → Sorted ys
  Sorted-right [] ys h = h
  Sorted-right (x ∷ xs) ys h = Sorted-right xs ys h.1

  Sorted-left : (xs ys : List A) → Sorted (xs ++ ys) → Sorted xs
  Sorted-left [] ys h = tt
  Sorted-left (x ∷ xs) ys h = (All-left (Le x) xs ys h.0, Sorted-left xs ys h.1)

  pass-append :
      (s : A) (target : List A)
      → (pass comparator s target).0 ++ (pass comparator s target).1 ≡ target
  unfolding pass
  pass-append s [] = refl
  pass-append s (t ∷ target) = elim (Bool-cases (leb_ℤ (comparator t s) (pos 0))) [
    | inl e ↦ rw e (ap (λ l. t ∷ l) (pass-append s target))
    | inr e ↦ rw e refl
  ]

  pass-All : (s : A) (target : List A) → All (λ t. Le t s) (pass comparator s target).0
  unfolding pass
  pass-All s [] = tt
  pass-All s (t ∷ target) = elim (Bool-cases (leb_ℤ (comparator t s) (pos 0))) [
    | inl e ↦ rw e (e, pass-All s target)
    | inr e ↦ rw e tt
  ]

module _ {ℓ} {A : Type ℓ} (comparator : A → A → ℤ) (order : IsOrder comparator) where
  -- What the loop stops at, and all that follows, does not come before the element.
  pass-Later :
      (s : A) (target : List A)
      → Sorted comparator target
      → All (λ t. leb_ℤ (comparator t s) (pos 0) ≡ false) (pass comparator s target).1
  unfolding pass
  pass-Later s [] h = tt
  pass-Later s (t ∷ target) h = elim (Bool-cases (leb_ℤ (comparator t s) (pos 0))) [
    | inl e ↦ rw e (pass-Later s target h.1)
    | inr e ↦ rw e (e, All-map (later e) target h.0)
  ]
    where
      later :
          leb_ℤ (comparator t s) (pos 0) ≡ false
          → (x : A) → Le comparator t x
          → leb_ℤ (comparator x s) (pos 0) ≡ false
      later e x k = elim (Bool-cases (leb_ℤ (comparator x s) (pos 0))) [
        | inl m ↦ absurd (false≢true (sym e ∙ order.trans t x s k m))
        | inr m ↦ m
      ]

  Later-Le : (s x : A) → leb_ℤ (comparator x s) (pos 0) ≡ false → Le comparator s x
  Later-Le s x h = elim (order.total s x) [ inl k ↦ k | inr k ↦ absurd (false≢true (sym h ∙ k)) ]

  pub merge-All :
      (P : A → Type 0) (target source : List A)
      → All P target
      → All P source
      → All P (merge comparator target source)
  unfolding merge
  merge-All P target [] h k = h
  merge-All P target (s ∷ source) h k =
      let r = pass comparator s target in
      let split : All P (r.0 ++ r.1) = rw (pass-append comparator s target) h in
      All-append P r.0 _ (All-left P r.0 r.1 split)
        (k.0, merge-All P r.1 source (All-right P r.0 r.1 split) k.1)

  Sorted-append :
      (s : A) (xs ys : List A)
      → Sorted comparator xs
      → All (λ x. Le comparator x s) xs
      → All (Le comparator s) ys
      → Sorted comparator ys
      → Sorted comparator (xs ++ s ∷ ys)
  Sorted-append s [] ys hx below hs hy = (hs, hy)
  Sorted-append s (x ∷ xs) ys hx below hs hy = (
    All-append (Le comparator x) xs (s ∷ ys) hx.0
        (below.0, All-map (λ y. order.trans x s y below.0) ys hs),
    Sorted-append s xs ys hx.1 below.1 hs hy,
  )

  -- For a comparator that is a total preorder, avs_list_merge__ merges two sorted lists into a sorted one.
  pub merge-Sorted :
      (target source : List A)
      → Sorted comparator target
      → Sorted comparator source
      → Sorted comparator (merge comparator target source)
  unfolding merge
  merge-Sorted target [] h k = h
  merge-Sorted target (s ∷ source) h k =
      let r = pass comparator s target in
      let split : Sorted comparator (r.0 ++ r.1) = rw (pass-append comparator s target) h in
      let rest = Sorted-right comparator r.0 r.1 split in
      Sorted-append s r.0 _ (Sorted-left comparator r.0 r.1 split) (pass-All comparator s target)
        (merge-All (Le comparator s) r.1 source (All-map (Later-Le s) r.1 (pass-Later s target h))
          k.0)
        (merge-Sorted r.1 source rest k.1)

  -- Elements that `q` picks and of which each may stand before each keep their order: those of the
  -- target come first.
  pub keep-merge :
      (q : A → Bool)
      → ((a b : A) → q a ≡ true → q b ≡ true → Le comparator a b)
      → (target source : List A) → Sorted comparator target
      → keep q (merge comparator target source) ≡ keep q target ++ keep q source
  unfolding merge
  keep-merge q same target [] h = sym (append-nil (keep q target))
  keep-merge q same target (s ∷ source) h =
      let p = (pass comparator s target).0 in
      let r = (pass comparator s target).1 in
      let split : Sorted comparator (p ++ r) = rw (pass-append comparator s target) h in
      let more = keep-merge q same r source (Sorted-right comparator p r split) in
      keep-append q p (s ∷ merge comparator r source)
      ∙ ap (λ l. keep q p ++ l) (behind more)
      ∙ sym (append_assoc (keep q p) (keep q r) (keep q (s ∷ source)))
      ∙ ap (λ l. l ++ keep q (s ∷ source))
          (sym (keep-append q p r) ∙ ap (keep q) (pass-append comparator s target))
    where
      unpicked : q s ≡ true → (x : A) → leb_ℤ (comparator x s) (pos 0) ≡ false → q x ≡ false
      unpicked e x k = elim (Bool-cases (q x)) [
        | inl m ↦ absurd (false≢true (sym k ∙ same x s m e))
        | inr m ↦ m
      ]

      behind :
          keep q (merge comparator (pass comparator s target).1 source)
            ≡ keep q (pass comparator s target).1 ++ keep q source
          → keep q (s ∷ merge comparator (pass comparator s target).1 source)
            ≡ keep q (pass comparator s target).1 ++ keep q (s ∷ source)
      behind more = elim (Bool-cases (q s)) [
        | inl e ↦
            let none =
              keep-none q (pass comparator s target).1
                (All-map (unpicked e) (pass comparator s target).1 (pass-Later s target h)) in
            rw e (
              ap (λ l. s ∷ l) (more ∙ ap (λ l. l ++ keep q source) none)
              ∙ ap (λ l. l ++ s ∷ keep q source) (sym none))
        | inr e ↦ rw e more
      ]

module _ {ℓ} {A : Type ℓ} (comparator : A → A → ℤ) where
  pub merge-Perm :
      (target source : List A) → Perm (merge comparator target source) (target ++ source)
  unfolding merge
  merge-Perm target [] = rw (append-nil target) (Perm.refl target)
  merge-Perm target (s ∷ source) =
      let p = (pass comparator s target).0 in
      let r = (pass comparator s target).1 in
      Perm.trans
        (Perm.append (Perm.refl p)
          (Perm.trans (Perm.cons s (merge-Perm r source)) (Perm.symm (perm_middle r source))))
        (rw (sym (append_assoc p r (s ∷ source)), pass-append comparator s target)
          (Perm.refl (target ++ s ∷ source)))
