-- ===== src/ListOps/Sort.antt =====
-- The merge sort `avs_list_sort__` of src/list/avs_list.c.
use avs_commons.ListOps.{size, cut, half_list, merge, sort, is_list_sorted}
use avs_commons.ListOps.Merge.{
  All-map, keep, keep-append, Le, Sorted, IsOrder, merge-Sorted, keep-merge, merge-Perm,
}
use avs_commons.Common.{
  ℕ, zero, suc, Bool, true, false, ◌≡◌, ◌↔◌, refl, sym, ap, ◌∙◌, inl, inr, ◌<◌, ◌≤◌, ◌+◌, ◌/◌, some,
  List, [], ◌∷◌, ◌++◌, Bool-cases, arith,
}
use mathlib.Core.Bool.{false≢true}
use mathlib.Core.List.{Perm}
use mathlib.Core.List.Perm
use avs_commons.Common.Int.{ℤ, pos, ltb_ℤ}

module _ {ℓ} {A : Type ℓ} where
  -- The two parts of a list, the first of `n` elements.
  record Parts (n : ℕ) (list : List A) : Type ℓ where
    front : List A
    back : List A
    cuts : cut n list ≡ some (front, back)
    whole : front ++ back ≡ list
    front_size : size front ≡ n
    back_size : size back + n ≡ size list

  cut-Parts : (n : ℕ) (list : List A) → 0 < n → n ≤ size list → Parts n list
  unfolding cut size
  cut-Parts n [] h k = absurd (omega (arith, h, k))
  cut-Parts zero (x ∷ xs) h k = absurd (omega (arith, h))
  cut-Parts (suc zero) (x ∷ xs) h k = record {
    front = x ∷ [];
    back = xs;
    cuts = refl;
    whole = refl;
    front_size = refl;
    back_size = omega arith;
  }
  cut-Parts (suc (suc n)) (x ∷ xs) h k =
      let p = cut-Parts (suc n) xs (omega arith) (omega (arith, k)) in
      record {
        front = x ∷ p.front;
        back = p.back;
        cuts = rw p.cuts refl;
        whole = ap (λ l. x ∷ l) p.whole;
        front_size = ap suc p.front_size;
        back_size = omega (arith, p.back_size);
      }

module _ {ℓ} {A : Type ℓ} (comparator : A → A → ℤ) (order : IsOrder comparator) (q : A → Bool)
    (same : (a b : A) → q a ≡ true → q b ≡ true → Le comparator a b) where
  -- For a comparator that is a total preorder, and at least as much fuel as there are elements,
  -- avs_list_sort__ ends; the result is sorted, is a permutation of the list, and the elements of a
  -- class of equals (`q`) keep their order.
  pub sort-Sorted :
      (fuel : ℕ) (list : List A)
      → size list ≤ fuel
      → (sorted : List A) × ((sort comparator fuel list ≡ some sorted)
          × (Sorted comparator sorted × (Perm sorted list × (keep q sorted ≡ keep q list))))
  unfolding sort half_list size
  sort-Sorted fuel [] h = ([], (refl, (tt, (Perm.refl [], refl))))
  sort-Sorted fuel (x ∷ []) h = (x ∷ [], (refl, ((tt, tt), (Perm.refl (x ∷ []), refl))))
  sort-Sorted zero (x ∷ y ∷ xs) h = absurd (omega (arith, h))
  sort-Sorted (suc fuel) (x ∷ y ∷ xs) h =
      let list = x ∷ y ∷ xs in
      let p = cut-Parts (size list / 2) list (omega arith) (omega arith) in
      let a = sort-Sorted fuel p.front (omega (arith, p.front_size, h)) in
      let b = sort-Sorted fuel p.back (omega (arith, p.back_size, h)) in
      (
        merge comparator a.0 b.0,
        (
          rw (p.cuts, a.1.0, b.1.0) refl,
          (
            merge-Sorted comparator order a.0 b.0 a.1.1.0 b.1.1.0,
            (
              Perm.trans (merge-Perm comparator a.0 b.0)
                  (rw⁻¹ p.whole (Perm.append a.1.1.1.0 b.1.1.1.0)),
              keep-merge comparator order q same a.0 b.0 a.1.1.0
                  ∙ ap (λ l. l ++ keep q b.0) a.1.1.1.1
                  ∙ ap (λ l. keep q p.front ++ l) b.1.1.1.1
                  ∙ sym (keep-append q p.front p.back)
                  ∙ ap (keep q) p.whole,
            ),
          ),
        ),
      )

module _ {ℓ} {A : Type ℓ} (comparator : A → A → ℤ) (order : IsOrder comparator) where
  ltb_ℤ-Le : (a b : A) → ltb_ℤ (pos 0) (comparator a b) ≡ false → Le comparator a b
  ltb_ℤ-Le a b h = ground arith

  Le-ltb_ℤ : (a b : A) → Le comparator a b → ltb_ℤ (pos 0) (comparator a b) ≡ false
  Le-ltb_ℤ a b h = ground arith

  -- For a comparator that is a total preorder, is_list_sorted, which compares neighbours only, accepts
  -- exactly the lists in which each element may stand before all that follow.
  pub is_list_sorted-Sorted :
      (list : List A) → (is_list_sorted comparator list ≡ true) ↔ Sorted comparator list
  unfolding is_list_sorted
  is_list_sorted-Sorted [] = (λ _. tt, λ _. refl)
  is_list_sorted-Sorted (x ∷ []) = (λ _. (tt, tt), λ _. refl)
  is_list_sorted-Sorted (x ∷ y ∷ xs) =
      let more = is_list_sorted-Sorted (y ∷ xs) in
      elim (Bool-cases (ltb_ℤ (pos 0) (comparator x y))) [
        | inl e ↦ (
          λ h. absurd (false≢true (refused e ∙ h)),
          λ h. absurd (false≢true (sym (Le-ltb_ℤ x y h.0.0) ∙ e)),
        )
        | inr e ↦ (
          λ h.
              let s = more.0 (sym (accepted e) ∙ h) in
              let le = ltb_ℤ-Le x y e in ((le, All-map (λ z. order.trans x y z le) xs s.0), s),
          λ h. accepted e ∙ more.1 h.1,
        )
      ]
    where
      refused :
          ltb_ℤ (pos 0) (comparator x y) ≡ true → false ≡ is_list_sorted comparator (x ∷ y ∷ xs)
      refused e = rw e refl

      accepted :
          ltb_ℤ (pos 0) (comparator x y) ≡ false
          → is_list_sorted comparator (x ∷ y ∷ xs) ≡ is_list_sorted comparator (y ∷ xs)
      accepted e = rw e refl
