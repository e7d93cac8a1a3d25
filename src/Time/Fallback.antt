-- ===== src/Time/Fallback.antt =====
-- The portable bodies of `safe_add_int64_t` and `safe_mul_int64_t` in avs_time.c, which stand in for
-- the compilers' overflow builtins, agree with those.
use avs_commons.Common.{
  ℕ, zero, suc, ◌+◌, ◌-◌, ◌%◌, ◌^◌, ◌≤◌, ◌<◌, ◌≡◌, ◌⊎◌, inl, inr, ap, sym, ◌∙◌, ◌&&◌, ◌||◌, Option,
  none, some, if◌then◌else◌, ltb, ◌==◌, arith,
}
use native.Mathlib.Nat.{le-div_iff_mul-le}
use avs_commons.Common.Int.{
  ℤ, pos, negsuc, pos_part, neg_part, neg, ◌+ℤ◌, ◌-ℤ◌, ◌*ℤ◌, ◌≤ℤ◌, ◌<ℤ◌, ltb_ℤ, ◌==ℤ◌, quot,
  le_or_lt, int_laws,
}
use avs_commons.Time.{int64_min, int64_max, safe_add, safe_mul}

-- The values of an int64_t.
pub record IsInt64 (a : ℤ) : Type 0 where
  pub low : int64_min ≤ℤ a
  pub high : a ≤ℤ int64_max

-- `(uint64_t) a` of a positive number, and `(uint64_t) -a` of a negative one, are its parts.
pub safe_add_portable : ℤ → ℤ → Option ℤ
safe_add_portable a b =
    let up = (pos_part a + pos_part b) % 2 ^ 64 in
    let down = (neg_part a + neg_part b) % 2 ^ 64 in
    if ltb_ℤ (pos 0) a && ltb_ℤ (pos 0) b
    then if ltb (2 ^ 63 - 1) up then none else some (pos up)
    else if ltb_ℤ a (pos 0) && ltb_ℤ b (pos 0)
    then if a ==ℤ int64_min || b ==ℤ int64_min
      then none
      else if ltb (2 ^ 63) down
      then none
      else if down == 2 ^ 63
      then some int64_min
      else some (neg down)
    else some (a +ℤ b)

-- The range check before a multiplication by a positive number.
mul_by_positive : ℤ → ℤ → Option ℤ
mul_by_positive input multiplier =
    if ltb_ℤ (quot int64_max multiplier) input || ltb_ℤ input (quot int64_min multiplier)
    then none
    else some (input *ℤ multiplier)

-- The code calls itself once, with both signs changed; `depth` bounds the calls.
mul_to_depth : ℕ → ℤ → ℤ → Option ℤ
mul_to_depth zero input multiplier = none
mul_to_depth (suc depth) input multiplier =
    let negated = mul_to_depth depth (pos 0 -ℤ input) (pos 0 -ℤ multiplier) in
    if input ==ℤ pos 0 || multiplier ==ℤ pos 0
    then some (pos 0)
    else if input ==ℤ int64_min && multiplier ==ℤ pos 1
        || input ==ℤ pos 1 && multiplier ==ℤ int64_min
    then some int64_min
    else if input ==ℤ int64_min || multiplier ==ℤ int64_min
    then none
    else if ltb_ℤ multiplier (pos 0)
    then negated
    else mul_by_positive input multiplier

pub safe_mul_portable : ℤ → ℤ → Option ℤ
unfolding mul_to_depth
safe_mul_portable input multiplier = mul_to_depth 2 input multiplier

-- On int64_t values the portable addition returns what the builtin returns.
pub safe_add_portable-eq-safe_add :
    {a b : ℤ} → IsInt64 a → IsInt64 b → safe_add_portable a b ≡ safe_add a b
unfolding safe_add_portable safe_add ◌+ℤ◌
safe_add_portable-eq-safe_add v w = ground arith

mul_by_positive-eq : (a : ℤ) (n : ℕ) → 0 < n → mul_by_positive a (pos n) ≡ safe_mul a (pos n)
unfolding mul_by_positive safe_mul quot ◌*ℤ◌
mul_by_positive-eq (pos m) n h =
    ground (arith, le-div_iff_mul-le {k = n} {x = m} {y = 2 ^ 63 - 1} h)
mul_by_positive-eq (negsuc m) n h =
    ground (arith, le-div_iff_mul-le {k = n} {x = suc m} {y = 2 ^ 63} h)

mul_to_depth-positive :
    (d : ℕ) (a : ℤ) (n : ℕ)
    → int64_min ≤ℤ a
    → a ≤ℤ int64_max
    → n < 2 ^ 63
    → mul_to_depth (suc d) a (pos n) ≡ safe_mul a (pos n)
unfolding mul_to_depth safe_mul ◌*ℤ◌
mul_to_depth-positive d (pos m) n l u h = ground (arith, mul_by_positive-eq (pos m) n)
mul_to_depth-positive d (negsuc m) n l u h = ground (arith, mul_by_positive-eq (negsuc m) n)

-- Changing both signs does not change the product.
*ℤ_neg : (a b : ℤ) → (pos 0 -ℤ a) *ℤ (pos 0 -ℤ b) ≡ a *ℤ b
unfolding ◌*ℤ◌ ◌-ℤ◌
*ℤ_neg a b = ground arith

safe_mul_neg : (a b : ℤ) → safe_mul (pos 0 -ℤ a) (pos 0 -ℤ b) ≡ safe_mul a b
unfolding safe_mul
safe_mul_neg a b = rw *ℤ_neg

mul_to_depth-negative :
    (k : ℕ) (a : ℤ) (n : ℕ)
    → int64_min ≤ℤ a
    → a ≤ℤ int64_max
    → n < 2 ^ 63
    → (a ≤ℤ int64_min)
      ⊎ ((2 ^ 63 ≤ suc n)
          ⊎ (mul_to_depth k (pos 0 -ℤ a) (pos 0 -ℤ negsuc n) ≡ safe_mul a (negsuc n)))
    → mul_to_depth (suc k) a (negsuc n) ≡ safe_mul a (negsuc n)
unfolding mul_to_depth safe_mul ◌*ℤ◌
mul_to_depth-negative k (pos m) n l u h e = ground arith
mul_to_depth-negative k (negsuc m) n l u h e = ground arith

negated-eq :
    (a : ℤ) (n : ℕ)
    → int64_min <ℤ a
    → a ≤ℤ int64_max
    → suc n < 2 ^ 63
    → mul_to_depth 1 (pos 0 -ℤ a) (pos 0 -ℤ negsuc n) ≡ safe_mul a (negsuc n)
negated-eq a n l u h =
    ap (mul_to_depth 1 (pos 0 -ℤ a)) minus
    ∙ mul_to_depth-positive 0 (pos 0 -ℤ a) (suc n) (omega int_laws) (omega int_laws) h
    ∙ ap (safe_mul (pos 0 -ℤ a)) (sym minus)
    ∙ safe_mul_neg a (negsuc n)
  where
    minus : pos 0 -ℤ negsuc n ≡ pos (suc n)
    minus = omega int_laws

-- On int64_t values the portable multiplication returns what the builtin returns.
pub safe_mul_portable-eq-safe_mul :
    (a b : ℤ) → IsInt64 a → IsInt64 b → safe_mul_portable a b ≡ safe_mul a b
unfolding safe_mul_portable
safe_mul_portable-eq-safe_mul a (pos n) v w = mul_to_depth-positive 1 a n v.low v.high (omega arith)
safe_mul_portable-eq-safe_mul a (negsuc n) v w =
    mul_to_depth-negative 1 a n v.low v.high (omega arith) (elim (le_or_lt a int64_min) [
      | inl p ↦ inl p
      | inr p ↦ elim (le_or_lt (pos (2 ^ 63)) (pos (suc n))) [
        | inl q ↦ inr (inl (omega arith))
        | inr q ↦ inr (inr (negated-eq a n p v.high (omega arith)))
      ]
    ])
