-- ===== src/ListOps/Tests.antt =====
-- Runs of src/list/avs_list.c on concrete lists, and the witnesses.
use avs_commons.ListOps.{
  nth, nth_ptr, simple_clone, tail, insert, detach, find_by_value, size, half_list, sort,
}
use avs_commons.ListOps.Merge.{keep, Le, Sorted, IsOrder}
use avs_commons.ListOps.Sort.{sort-Sorted}
use avs_commons.Common.{
  ℕ, Bool, true, ◌≡◌, refl, ◌==◌, ◌≤◌, some, List, [], ◌∷◌, arith, ltb, if◌then◌else◌,
}
use mathlib.Core.List.{Perm}
use avs_commons.Common.Int.{ℤ, pos, negsuc}

-- Pairs compared by their first components only.
abbrev by_first : ℕ × ℕ → ℕ × ℕ → ℤ
by_first a b = if ltb a.0 b.0 then negsuc 0 else if a.0 == b.0 then pos 0 else pos 1

by_first-IsOrder : IsOrder by_first
by_first-IsOrder = record { total = λ a b. ground arith; trans = λ a b c h k. ground arith }

abbrev scrambled : List (ℕ × ℕ)
scrambled = (2, 0) ∷ (1, 0) ∷ (2, 1) ∷ (1, 1) ∷ (0, 0) ∷ []

sort-scrambled : sort by_first 5 scrambled ≡ some ((0, 0) ∷ (1, 0) ∷ (1, 1) ∷ (2, 0) ∷ (2, 1) ∷ [])
unfolding sort
sort-scrambled = refl

half_list-scrambled :
    half_list scrambled ≡ some ((2, 0) ∷ (1, 0) ∷ [], (2, 1) ∷ (1, 1) ∷ (0, 0) ∷ [])
unfolding half_list
half_list-scrambled = refl

insert-detach : detach {A = ℕ} (insert (1 ∷ 2 ∷ []) (3 ∷ [])) ≡ some (1, 2 ∷ 3 ∷ [])
unfolding insert detach
insert-detach = refl

nth-tail : nth {A = ℕ} (4 ∷ 5 ∷ 6 ∷ []) 2 ≡ tail (4 ∷ 5 ∷ 6 ∷ [])
unfolding nth tail
nth-tail = refl

nth_ptr-scrambled : nth_ptr scrambled 3 ≡ some ((1, 1) ∷ (0, 0) ∷ [])
unfolding nth_ptr
nth_ptr-scrambled = refl

simple_clone-scrambled : simple_clone (λ i. true) scrambled ≡ scrambled
unfolding simple_clone
simple_clone-scrambled = refl

simple_clone_fail : simple_clone (λ i. ltb i 4) scrambled ≡ []
unfolding simple_clone
simple_clone_fail = refl

find_by_value-scrambled :
    find_by_value by_first (1, 7) scrambled ≡ (1, 0) ∷ (2, 1) ∷ (1, 1) ∷ (0, 0) ∷ []
unfolding find_by_value
find_by_value-scrambled = refl

abbrev twos : ℕ × ℕ → Bool
twos a = a.0 == 2

twos_same : (a b : ℕ × ℕ) → twos a ≡ true → twos b ≡ true → Le by_first a b
twos_same a b h k = ground arith

scrambled_size : size scrambled ≤ 5
unfolding size
scrambled_size = omega arith

sort-Sorted_example :
    (sorted : List (ℕ × ℕ)) × ((sort by_first 5 scrambled ≡ some sorted)
      × (Sorted by_first sorted
          × (Perm sorted scrambled × (keep twos sorted ≡ keep twos scrambled))))
sort-Sorted_example =
    sort-Sorted by_first by_first-IsOrder twos twos_same 5 scrambled scrambled_size
