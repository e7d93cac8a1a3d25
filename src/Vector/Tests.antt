-- ===== src/Vector/Tests.antt =====
-- Runs of src/vector/avs_vector.c on concrete vectors, and the witnesses.
use avs_commons.Vector.{Vector, new, at, back, pop, push, reserve, reverse, remove, fit}
use avs_commons.Vector.Grow.{IsValid, Serves, push-IsValid, reserve_shrinks}
use avs_commons.Vector.Remove.{without, remove_lem}
use avs_commons.Common.{
  ℕ, Bool, false, ◌≡◌, refl, ◌⊎◌, none, some, [], ◌∷◌, ◌++◌, ◌-◌, get_elem?, ltb, arith,
}
use avs_commons.Common.Word.{ok, fail}

abbrev three : Vector ℕ
three = record { size = 3; capacity = 4; elem_size = 8; slots = 5 ∷ 6 ∷ 7 ∷ []; bytes = 32 }

abbrev full : Vector ℕ
full = record { size = 3; capacity = 3; elem_size = 8; slots = 5 ∷ 6 ∷ 7 ∷ []; bytes = 24 }

-- An allocator with a thousand bytes.
abbrev small_heap : ℕ → Bool
small_heap n = ltb n 1000

small_heap-Serves : Serves small_heap
unfolding Serves
small_heap-Serves n h = ground arith

three-IsValid : IsValid three
three-IsValid = record {
  fits = omega arith;
  filled = refl;
  block = refl;
  in_memory = omega arith;
  elem_in_memory = omega arith;
  nonempty = omega arith;
}

full-IsValid : IsValid full
full-IsValid = record {
  fits = omega arith;
  filled = refl;
  block = refl;
  in_memory = omega arith;
  elem_in_memory = omega arith;
  nonempty = omega arith;
}

push-new :
    push small_heap (new {A = ℕ} 8) 5
    ≡ some (ok, record { size = 1; capacity = 1; elem_size = 8; slots = 5 ∷ []; bytes = 8 })
unfolding push new
push-new = refl

reverse-three : reverse three ≡ some (record three { slots = 7 ∷ 6 ∷ 5 ∷ [] })
unfolding reverse
reverse-three = refl

pop-three : pop three ≡ (some 7, record three { size = 2; slots = 5 ∷ 6 ∷ [] })
unfolding pop
pop-three = refl

at-back : at three 2 ≡ back three
unfolding at back
at-back = refl

fit-three : fit small_heap three ≡ (ok, full)
unfolding fit
fit-three = refl

push-IsValid_example :
    ((push small_heap full 8 ≡ some (fail, full)) × (full.size ≡ full.capacity))
    ⊎ ((v' : Vector ℕ) × ((push small_heap full 8 ≡ some (ok, v'))
          × (IsValid v' × (v'.slots ≡ full.slots ++ 8 ∷ []))))
push-IsValid_example = push-IsValid small_heap small_heap-Serves full 8 full-IsValid

reserve_shrinks_example : push small_heap (reserve small_heap three 1).1 8 ≡ none
reserve_shrinks_example =
    reserve_shrinks small_heap small_heap-Serves three 1 8 three-IsValid (omega arith) refl

remove_lem_example :
    (x : ℕ) × ((get_elem? three.slots 1 ≡ some x)
      × (remove three 1 false
          ≡ some (some x, record three { size = three.size - 1; slots = without three.slots 1 })))
remove_lem_example = remove_lem three 1 false three-IsValid (omega arith)
