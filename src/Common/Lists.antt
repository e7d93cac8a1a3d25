-- ===== src/Common/Lists.antt =====
-- Lists measured and indexed by native numbers, under the library's names.
use Prim.Native.Nat.add
use native.Mathlib.Nat.{zero-add}
use Prim.Native.Nat.{ℕ, zero, suc, ◌+◌, ◌-◌, ◌≤◌, ◌<◌, min}
use mathlib.Core.Path.{◌≡◌, refl, sym, ap, ◌∙◌}
use mathlib.Core.Logic.{◌≢◌}
use mathlib.Core.List.{List, [], ◌∷◌, ◌++◌, map}
use mathlib.Core.Option.{Option, none, some}
use native.Mathlib.Omega.{arith}

module _ {ℓ} {A : Type ℓ} where
  abbrev pub length : List A → ℕ
  length [] = 0
  length (x ∷ xs) = suc (length xs)

  abbrev pub get_elem? : List A → ℕ → Option A
  get_elem? [] i = none
  get_elem? (x ∷ xs) zero = some x
  get_elem? (x ∷ xs) (suc i) = get_elem? xs i

  -- A write out of bounds changes nothing.
  abbrev pub set : List A → ℕ → A → List A
  set [] i v = []
  set (x ∷ xs) zero v = v ∷ xs
  set (x ∷ xs) (suc i) v = x ∷ set xs i v

  pub length-append : (xs ys : List A) → length (xs ++ ys) ≡ length xs + length ys
  length-append [] ys = omega arith
  length-append (x ∷ xs) ys = omega (arith, length-append xs ys)

module _ {ℓ} {A : Type ℓ} where
  pub length-set : (xs : List A) (i : ℕ) (v : A) → length (set xs i v) ≡ length xs
  length-set [] i v = refl
  length-set (x ∷ xs) zero v = refl
  length-set (x ∷ xs) (suc i) v = ap suc (length-set xs i v)

  pub get_elem?-set_self :
      (xs : List A) (i : ℕ) (v : A) → i < length xs → get_elem? (set xs i v) i ≡ some v
  get_elem?-set_self [] i v h = elim h [ ]
  get_elem?-set_self (x ∷ xs) zero v h = refl
  get_elem?-set_self (x ∷ xs) (suc i) v h = get_elem?-set_self xs i v (omega arith)

  pub get_elem?-set_ne :
      (xs : List A) {i j : ℕ} (v : A) → i ≢ j → get_elem? (set xs i v) j ≡ get_elem? xs j
  get_elem?-set_ne [] v h = refl
  get_elem?-set_ne (x ∷ xs) {i = zero} {j = zero} v h = absurd (h refl)
  get_elem?-set_ne (x ∷ xs) {i = zero} {j = suc j} v h = refl
  get_elem?-set_ne (x ∷ xs) {i = suc i} {j = zero} v h = refl
  get_elem?-set_ne (x ∷ xs) {i = suc i} {j = suc j} v h = get_elem?-set_ne xs v (λ e. h (ap suc e))

module _ {ℓ} {A : Type ℓ} where
  abbrev pub get_or : List A → ℕ → A → A
  get_or [] i d = d
  get_or (x ∷ xs) zero d = x
  get_or (x ∷ xs) (suc i) d = get_or xs i d

  abbrev pub take : ℕ → List A → List A
  take zero xs = []
  take (suc n) [] = []
  take (suc n) (x ∷ xs) = x ∷ take n xs

  abbrev pub drop : ℕ → List A → List A
  drop zero xs = xs
  drop (suc n) [] = []
  drop (suc n) (x ∷ xs) = drop n xs

  abbrev pub replicate : ℕ → A → List A
  replicate zero a = []
  replicate (suc n) a = a ∷ replicate n a

  pub take-append-drop : (n : ℕ) (xs : List A) → take n xs ++ drop n xs ≡ xs
  take-append-drop zero xs = refl
  take-append-drop (suc n) [] = refl
  take-append-drop (suc n) (x ∷ xs) = rw (take-append-drop n xs)

  pub length-take : (n : ℕ) (xs : List A) → length (take n xs) ≡ min n (length xs)
  length-take zero xs = omega arith
  length-take (suc n) [] = omega arith
  length-take (suc n) (x ∷ xs) = omega (arith, length-take n xs)

  pub length-drop : (n : ℕ) (xs : List A) → length (drop n xs) ≡ length xs - n
  length-drop zero xs = omega arith
  length-drop (suc n) [] = omega arith
  length-drop (suc n) (x ∷ xs) = omega (arith, length-drop n xs)

  pub length-replicate : (n : ℕ) (a : A) → length (replicate n a) ≡ n
  length-replicate zero a = refl
  length-replicate (suc n) a = ap suc (length-replicate n a)

  pub length-map {κ} : {B : Type κ} (xs : List A) (f : A → B) → length (map f xs) ≡ length xs
  length-map [] f = refl
  length-map (x ∷ xs) f = ap suc (length-map xs f)

module _ {ℓ} {A : Type ℓ} where
  -- The bytes `xs` copied to the offset `i` of a block: `memcpy(block + i, xs, length xs)`.
  -- What would fall behind the end of the block is lost.
  abbrev pub write_at : List A → ℕ → List A → List A
  write_at [] i xs = []
  write_at (y ∷ ys) (suc i) xs = y ∷ write_at ys i xs
  write_at (y ∷ ys) zero [] = y ∷ ys
  write_at (y ∷ ys) zero (x ∷ xs) = x ∷ write_at ys zero xs

  -- The `n` elements from the offset `i` on.
  abbrev pub slice : ℕ → ℕ → List A → List A
  slice i n xs = take n (drop i xs)

  pub length-write_at : (ys : List A) (i : ℕ) (xs : List A) → length (write_at ys i xs) ≡ length ys
  length-write_at [] i xs = refl
  length-write_at (y ∷ ys) (suc i) xs = ap suc (length-write_at ys i xs)
  length-write_at (y ∷ ys) zero [] = refl
  length-write_at (y ∷ ys) zero (x ∷ xs) = ap suc (length-write_at ys zero xs)

  take-write_at_zero :
      (ys xs : List A) → length xs ≤ length ys → take (length xs) (write_at ys 0 xs) ≡ xs
  take-write_at_zero ys [] h = refl
  take-write_at_zero [] (x ∷ xs) h = absurd (omega arith)
  take-write_at_zero (y ∷ ys) (x ∷ xs) h = ap (λ l. x ∷ l) (take-write_at_zero ys xs (omega arith))

  -- What was copied is read back from its place.
  pub slice-write_at_self :
      (ys : List A) (i : ℕ) (xs : List A)
      → i + length xs ≤ length ys
      → slice i (length xs) (write_at ys i xs) ≡ xs
  slice-write_at_self ys zero xs h = ground (arith, take-write_at_zero ys xs)
  slice-write_at_self [] (suc i) [] h = refl
  slice-write_at_self [] (suc i) (x ∷ xs) h = absurd (omega arith)
  slice-write_at_self (y ∷ ys) (suc i) xs h = slice-write_at_self ys i xs (omega arith)

  pub take-write_at_append :
      (ys : List A) (n : ℕ) (xs : List A)
      → n + length xs ≤ length ys
      → take (n + length xs) (write_at ys n xs) ≡ take n ys ++ xs
  take-write_at_append ys zero xs h = ground (arith, take-write_at_zero ys xs)
  take-write_at_append [] (suc n) xs h = absurd (omega arith)
  take-write_at_append (y ∷ ys) (suc n) xs h =
      rw add.suc (ap (λ l. y ∷ l) (take-write_at_append ys n xs (omega arith)))

  -- A slice that ends where a copy begins is followed by the copied elements.
  pub slice-write_at_append :
      (ys : List A) (b n : ℕ) (xs : List A)
      → b + n + length xs ≤ length ys
      → slice b (n + length xs) (write_at ys (b + n) xs) ≡ slice b n ys ++ xs
  slice-write_at_append ys zero n xs h = rw zero-add (take-write_at_append ys n xs (omega arith))
  slice-write_at_append [] (suc b) n xs h = absurd (omega arith)
  slice-write_at_append (y ∷ ys) (suc b) n xs h =
      rw add.suc (slice-write_at_append ys b n xs (omega arith))

  pub drop-nil : (n : ℕ) → drop {A = A} n [] ≡ []
  drop-nil zero = refl
  drop-nil (suc n) = refl

  pub take-nil : (n : ℕ) → take {A = A} n [] ≡ []
  take-nil zero = refl
  take-nil (suc n) = refl

  pub drop-drop : (k b : ℕ) (xs : List A) → drop k (drop b xs) ≡ drop (b + k) xs
  drop-drop k zero xs = rw zero-add
  drop-drop k (suc b) [] = rw (drop-nil, drop-nil)
  drop-drop k (suc b) (x ∷ xs) = rw add.suc (drop-drop k b xs)

  pub drop-take : (k n : ℕ) (xs : List A) → drop k (take n xs) ≡ take (n - k) (drop k xs)
  drop-take zero n xs = ap (λ m. take m xs) (omega arith)
  drop-take (suc k) zero xs = let e : 0 - suc k ≡ 0 = omega arith in rw e
  drop-take (suc k) (suc n) [] = rw take-nil
  drop-take (suc k) (suc n) (x ∷ xs) =
      let e : suc n - suc k ≡ n - k = omega arith in rw e (drop-take k n xs)

  -- The rest of a slice is a slice.
  pub drop-slice : (k b n : ℕ) (xs : List A) → drop k (slice b n xs) ≡ slice (b + k) (n - k) xs
  drop-slice k b n xs = rw (drop-take, drop-drop)

  pub length-slice : (b n : ℕ) (xs : List A) → b + n ≤ length xs → length (slice b n xs) ≡ n
  length-slice b n xs h = omega (arith, length-take n (drop b xs), length-drop b xs)

module _ {ℓ} {A : Type ℓ} where
  -- Two takes after another are one.
  pub take_more :
      (xs : List A) (c n : ℕ) → c ≤ n → take c xs ++ take (n - c) (drop c xs) ≡ take n xs
  take_more xs zero n h = let e : n - 0 ≡ n = omega arith in rw e refl
  take_more [] (suc c) n h = take-nil (n - suc c) ∙ sym (take-nil n)
  take_more (x ∷ xs) (suc c) zero h = absurd (omega (arith, h))
  take_more (x ∷ xs) (suc c) (suc n) h =
      let e : suc n - suc c ≡ n - c = omega arith in
      rw e (ap (λ l. x ∷ l) (take_more xs c n (omega (arith, h))))

  pub take_add : (c m : ℕ) (xs : List A) → take c xs ++ take m (drop c xs) ≡ take (c + m) xs
  take_add c m xs =
      let e : c + m - c ≡ m = omega arith in
      ap (λ n. take c xs ++ take n (drop c xs)) (sym e) ∙ take_more xs c (c + m) (omega arith)

  pub take-take : (k n : ℕ) (xs : List A) → k ≤ n → take k (take n xs) ≡ take k xs
  take-take zero n xs h = refl
  take-take (suc k) zero xs h = absurd (omega (arith, h))
  take-take (suc k) (suc n) [] h = refl
  take-take (suc k) (suc n) (x ∷ xs) h = ap (λ l. x ∷ l) (take-take k n xs (omega (arith, h)))

  pub drop-append : (k : ℕ) (xs ys : List A) → k ≤ length xs → drop k (xs ++ ys) ≡ drop k xs ++ ys
  drop-append zero xs ys h = refl
  drop-append (suc k) [] ys h = absurd (omega (arith, h))
  drop-append (suc k) (x ∷ xs) ys h = drop-append k xs ys (omega (arith, h))

  pub take-append : (c : ℕ) (xs ys : List A) → c ≤ length xs → take c (xs ++ ys) ≡ take c xs
  take-append zero xs ys h = refl
  take-append (suc c) [] ys h = absurd (omega (arith, h))
  take-append (suc c) (x ∷ xs) ys h = ap (λ l. x ∷ l) (take-append c xs ys (omega (arith, h)))

  pub take_past : (c : ℕ) (xs ys : List A) → take (length xs + c) (xs ++ ys) ≡ xs ++ take c ys
  take_past c [] ys = ap (λ n. take n ys) (omega arith)
  take_past c (x ∷ xs) ys =
      let e : suc (length xs) + c ≡ suc (length xs + c) = omega arith in
      rw e (ap (λ l. x ∷ l) (take_past c xs ys))

  pub take_all : (xs ys : List A) → take (length xs) (xs ++ ys) ≡ xs
  take_all [] ys = refl
  take_all (x ∷ xs) ys = ap (λ l. x ∷ l) (take_all xs ys)

  pub drop_all : (xs ys : List A) → drop (length xs) (xs ++ ys) ≡ ys
  drop_all [] ys = refl
  drop_all (x ∷ xs) ys = drop_all xs ys

  pub drop_over : (xs : List A) (n : ℕ) → length xs ≤ n → drop n xs ≡ []
  drop_over [] n h = drop-nil n
  drop_over (x ∷ xs) zero h = absurd (omega (arith, h))
  drop_over (x ∷ xs) (suc n) h = drop_over xs n (omega (arith, h))

  pub get_elem?-drop : (n k : ℕ) (xs : List A) → get_elem? (drop n xs) k ≡ get_elem? xs (n + k)
  get_elem?-drop zero k xs = let e : 0 + k ≡ k = omega arith in rw e refl
  get_elem?-drop (suc n) k [] = refl
  get_elem?-drop (suc n) k (x ∷ xs) =
      let e : suc n + k ≡ suc (n + k) = omega arith in rw e (get_elem?-drop n k xs)

  pub get_elem?-lt : (xs : List A) (i : ℕ) (a : A) → get_elem? xs i ≡ some a → i < length xs
  get_elem?-lt [] i a e = ground (arith, e)
  get_elem?-lt (x ∷ xs) zero a e = omega arith
  get_elem?-lt (x ∷ xs) (suc i) a e = omega (arith, get_elem?-lt xs i a e)
