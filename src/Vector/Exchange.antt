-- ===== src/Vector/Exchange.antt =====
-- The exchange of two elements, `vector_swap_internal` of src/vector/avs_vector.c, and the reversal.
use avs_commons.Vector.{Vector, swap}
use avs_commons.Common.{
  ℕ, true, false, ◌&&◌, ◌≡◌, ◌≢◌, refl, ◌<◌, ◌==◌, some, get_elem?, set, arith, ltb,
}

module _ {ℓ} {A : Type ℓ} where
  pub swap-some :
      (v : Vector A) (i j : ℕ) (a b : A)
      → i < v.size
      → j < v.size
      → i ≢ j
      → get_elem? v.slots i ≡ some a
      → get_elem? v.slots j ≡ some b
      → swap v i j ≡ some (record v { slots = set (set v.slots i b) j a })
  unfolding swap
  swap-some v i j a b h k n e f = rw inside (rw apart (rw e (rw f refl)))
    where
      inside : (ltb i v.size && ltb j v.size) ≡ true
      inside = ground arith

      apart : (i == j) ≡ false
      apart = ground arith
