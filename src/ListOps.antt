-- ===== src/ListOps.antt =====
-- src/list/avs_list.c: singly linked lists, here the sequence of their elements, and a pointer to a
-- link the part of the list that starts there. A comparator's result is an integer, of which the code
-- reads the sign.
pub mod Merge
pub mod Sort
mod Tests
use avs_commons.Common.{
  ◌>>=◌, ℕ, zero, suc, Bool, true, false, Option, none, some, List, [], ◌∷◌, ◌++◌, length,
  if◌then◌else◌, ◌/◌, ◌==◌,
}
use avs_commons.Common.Int.{ℤ, pos, negsuc, leb_ℤ, ltb_ℤ, ◌==ℤ◌}

module _ {ℓ} {A : Type ℓ} where
  -- `avs_list_nth__`, which leaves the loop with the element it stands at; past the end, null.
  pub nth : List A → ℕ → Option A
  nth [] n = none
  nth (x ∷ xs) zero = some x
  nth (x ∷ xs) (suc n) = nth xs n

  -- `avs_list_nth_ptr__`: the link to the element, which is the list that starts with it.
  pub nth_ptr : List A → ℕ → Option (List A)
  nth_ptr [] n = none
  nth_ptr (x ∷ xs) zero = some (x ∷ xs)
  nth_ptr (x ∷ xs) (suc n) = nth_ptr xs n

  -- The loop of `avs_list_simple_clone__`; `memory` is whether the allocation for the element at a
  -- position succeeds, and none stands for the way out.
  pub clone_loop : (ℕ → Bool) → ℕ → List A → Option (List A)
  clone_loop memory i [] = some []
  clone_loop memory i (x ∷ xs) =
      let rest = clone_loop memory (suc i) xs in
      if memory i then (rest >>= λ l. some (x ∷ l)) else none

  pub simple_clone : (ℕ → Bool) → List A → List A
  unfolding clone_loop
  simple_clone memory list = elim (clone_loop memory 0 list) [ none ↦ [] | some l ↦ l ]

  -- `avs_list_tail__`
  pub tail : List A → Option A
  tail [] = none
  tail (x ∷ []) = some x
  tail (x ∷ y ∷ xs) = tail (y ∷ xs)

  -- `avs_list_append__`, and `avs_list_insert__` at the link that starts `rest`.
  pub append : List A → List A → List A
  append element [] = element
  append element (x ∷ xs) = x ∷ append element xs

  pub insert : List A → List A → List A
  unfolding append
  insert [] rest = rest
  insert (x ∷ xs) [] = x ∷ xs
  insert (x ∷ xs) (y ∷ rest) = append (y ∷ rest) (x ∷ xs)

  -- `avs_list_detach__`: the element, and the list without it. A null link is not allowed.
  pub detach : List A → Option (A × List A)
  detach [] = none
  detach (x ∷ xs) = some (x, xs)

  -- `avs_list_size__`
  pub size : List A → ℕ
  size [] = 0
  size (x ∷ xs) = suc (size xs)

  -- The loop of `half_list` that takes `length - 1` steps, and the cut behind the element it ends at.
  -- None if `length` is 0, where `--length` wraps around, and if the list ends before.
  pub cut : ℕ → List A → Option (List A × List A)
  cut n [] = none
  cut zero (x ∷ xs) = none
  cut (suc zero) (x ∷ xs) = some (x ∷ [], xs)
  cut (suc (suc n)) (x ∷ xs) = cut (suc n) xs >>= λ r. some (x ∷ r.0, r.1)

  pub half_list : List A → Option (List A × List A)
  unfolding cut size
  half_list list = cut (size list / 2) list

module _ {ℓ} {A : Type ℓ} (comparator : A → A → ℤ) where
  -- `avs_list_find_by_value_ptr__`: the list from the first element on that equals the value.
  pub find_by_value : A → List A → List A
  find_by_value value [] = []
  find_by_value value (x ∷ xs) =
      if comparator x value ==ℤ pos 0 then x ∷ xs else find_by_value value xs

  -- `is_list_sorted`
  pub is_list_sorted : List A → Bool
  is_list_sorted [] = true
  is_list_sorted (x ∷ []) = true
  is_list_sorted (x ∷ y ∷ xs) =
      if ltb_ℤ (pos 0) (comparator x y) then false else is_list_sorted (y ∷ xs)

  -- The inner loop of `avs_list_merge__`: what it passes in the target, and the rest.
  pub pass : A → List A → List A × List A
  pass s [] = ([], [])
  pass s (t ∷ target) =
      let r = pass s target in
      if leb_ℤ (comparator t s) (pos 0) then (t ∷ r.0, r.1) else ([], t ∷ target)

  -- `avs_list_merge__`: each element of the source is inserted where the loop stops.
  pub merge : List A → List A → List A
  unfolding pass
  merge target [] = target
  merge target (s ∷ source) = let r = pass s target in r.0 ++ s ∷ merge r.1 source

  -- `avs_list_sort__`, with fuel for the depth of the recursion.
  pub sort : ℕ → List A → Option (List A)
  unfolding half_list merge
  sort fuel [] = some []
  sort fuel (x ∷ []) = some (x ∷ [])
  sort zero (x ∷ y ∷ xs) = none
  sort (suc fuel) (x ∷ y ∷ xs) = half_list (x ∷ y ∷ xs) >>= λ halves.
      sort fuel halves.0 >>= λ part1. sort fuel halves.1 >>= λ part2. some (merge part1 part2)
