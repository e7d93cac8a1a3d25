-- ===== src/Vector/Remove.antt =====
-- Removal of an element, `avs_vector_remove__` of src/vector/avs_vector.c.
use avs_commons.Vector.{Vector, back, pop, swap, rotate, bubble, remove}
use avs_commons.Vector.Exchange.{swap-some}
use avs_commons.Vector.Grow.{IsValid}
use avs_commons.Common.{
  write_at, set, take_all, append-nil, ◌>>=◌, ℕ, zero, suc, Bool, true, false, ◌≡◌, refl, sym, ap,
  ◌∙◌, ◌<◌, ◌+◌, ◌-◌, ◌==◌, some, List, [], ◌∷◌, ◌++◌, length, length-append, get_elem?, set, take,
  drop, arith, if◌then◌else◌, leb, append_assoc,
}

module _ {ℓ} {A : Type ℓ} where
  -- Lists apart at `i`.
  set-middle :
      (xs : List A) (a b c d : A) (ys : List A)
      → set (set (xs ++ a ∷ b ∷ ys) (length xs) c) (suc (length xs)) d ≡ xs ++ c ∷ d ∷ ys
  set-middle [] a b c d ys = refl
  set-middle (x ∷ xs) a b c d ys = ap (λ l. x ∷ l) (set-middle xs a b c d ys)

  get_elem?-middle :
      (xs : List A) (a : A) (ys : List A) → get_elem? (xs ++ a ∷ ys) (length xs) ≡ some a
  get_elem?-middle [] a ys = refl
  get_elem?-middle (x ∷ xs) a ys = get_elem?-middle xs a ys

  get_elem?-next :
      (xs : List A) (a b : A) (ys : List A)
      → get_elem? (xs ++ a ∷ b ∷ ys) (suc (length xs)) ≡ some b
  get_elem?-next [] a b ys = refl
  get_elem?-next (x ∷ xs) a b ys = get_elem?-next xs a b ys

  -- The loop of exchanges brings the element `a` behind all that follow it.
  bubble-middle :
      (v : Vector A) (xs : List A) (a : A) (ys : List A)
      → v.size ≡ length (xs ++ a ∷ ys)
      → bubble (length ys) (record v { slots = xs ++ a ∷ ys }) (length xs)
        ≡ some (record v { slots = xs ++ (ys ++ a ∷ []) })
  unfolding bubble
  bubble-middle v xs a [] f = refl
  bubble-middle v xs a (y ∷ ys) f =
      ap (λ o. o >>= λ v'. bubble (length ys) v' (suc (length xs))) first
      ∙ ap (λ i. bubble (length ys) (record v { slots = xs ++ y ∷ a ∷ ys }) i) place
      ∙ ap (λ l. bubble (length ys) (record v { slots = l }) (length (xs ++ y ∷ [])))
          (shift (a ∷ ys))
      ∙ bubble-middle v (xs ++ y ∷ []) a ys fits
      ∙ ap (λ l. some (record v { slots = l })) (append_assoc xs (y ∷ []) (ys ++ a ∷ []))
    where
      shift : (l : List A) → xs ++ y ∷ l ≡ (xs ++ y ∷ []) ++ l
      shift l = sym (append_assoc xs (y ∷ []) l)

      place : suc (length xs) ≡ length (xs ++ y ∷ [])
      place = omega (arith, length-append xs (y ∷ []))

      fits : v.size ≡ length ((xs ++ y ∷ []) ++ a ∷ ys)
      fits =
          f
          ∙ omega (
            arith,
            length-append xs (a ∷ y ∷ ys),
            length-append xs (y ∷ []),
            length-append (xs ++ y ∷ []) (a ∷ ys),
          )

      first :
          swap (record v { slots = xs ++ a ∷ y ∷ ys }) (length xs) (suc (length xs))
          ≡ some (record v { slots = xs ++ y ∷ a ∷ ys })
      first =
          swap-some (record v { slots = xs ++ a ∷ y ∷ ys }) (length xs) (suc (length xs)) a y
            (omega (arith, f, length-append xs (a ∷ y ∷ ys)))
            (omega (arith, f, length-append xs (a ∷ y ∷ ys))) (omega arith)
            (get_elem?-middle xs a (y ∷ ys)) (get_elem?-next xs a y ys)
          ∙ ap (λ l. some (record v { slots = l })) (set-middle xs a y y a ys)

  -- A list and what is at `i` in it.
  record Apart (list : List A) (i : ℕ) : Type ℓ where
    element : A
    found : get_elem? list i ≡ some element
    joins : list ≡ take i list ++ element ∷ drop (suc i) list
    front : length (take i list) ≡ i
    behind : length (drop (suc i) list) + suc i ≡ length list

  apart : (list : List A) (i : ℕ) → i < length list → Apart list i
  apart [] i h = elim h [ ]
  apart (x ∷ xs) zero h = record {
    element = x;
    found = refl;
    joins = refl;
    front = refl;
    behind = omega arith;
  }
  apart (x ∷ xs) (suc i) h =
      let p = apart xs i (omega (arith, h)) in
      record {
        element = p.element;
        found = p.found;
        joins = ap (λ l. x ∷ l) p.joins;
        front = ap suc p.front;
        behind = omega (arith, p.behind);
      }

  take_left : (xs ys : List A) → take (length xs) (xs ++ ys) ≡ xs
  take_left [] [] = refl
  take_left [] (y ∷ ys) = refl
  take_left (x ∷ xs) ys = ap (λ l. x ∷ l) (take_left xs ys)

  pop-last :
      (v : Vector A) (xs : List A) (x : A)
      → v.size ≡ suc (length xs)
      → v.slots ≡ xs ++ x ∷ []
      → pop v ≡ (some x, record v { size = length xs; slots = xs })
  unfolding pop back
  pop-last v xs x e f = rw full (rw one (rw last (rw rest refl)))
    where
      full : (v.size == 0) ≡ false
      full = ground arith

      one : v.size - 1 ≡ length xs
      one = omega (arith, e)

      last : get_elem? v.slots (length xs) ≡ some x
      last = ap (λ l. get_elem? l (length xs)) f ∙ get_elem?-middle xs x []

      rest : take (length xs) v.slots ≡ xs
      rest = ap (take (length xs)) f ∙ take_left xs (x ∷ [])

  -- What is left of the list.
  abbrev pub without : List A → ℕ → List A
  without list i = take i list ++ drop (suc i) list

  -- Moving down what is behind an element, and putting one at the end.
  move_down :
      (x y : A) (back : List A) → set (write_at (x ∷ back) 0 back) (length back) y ≡ back ++ y ∷ []
  move_down x y [] = refl
  move_down x y (b ∷ back) = ap (λ l. b ∷ l) (move_down b y back)

  move_down_at :
      (front back : List A) (x y : A) (i k : ℕ)
      → i ≡ length front
      → k ≡ length front + length back
      → set (write_at (front ++ x ∷ back) i back) k y ≡ front ++ back ++ y ∷ []
  move_down_at [] back x y zero k e f =
      ap (λ (n : ℕ). set (write_at (x ∷ back) 0 back) n y) (omega (arith, f)) ∙ move_down x y back
  move_down_at [] back x y (suc i) k e f = absurd (omega (arith, e))
  move_down_at (a ∷ front) back x y zero k e f = absurd (omega (arith, e))
  move_down_at (a ∷ front) back x y (suc i) zero e f = absurd (omega (arith, f))
  move_down_at (a ∷ front) back x y (suc i) (suc k) e f =
      ap (λ l. a ∷ l) (move_down_at front back x y i k (omega (arith, e)) (omega (arith, f)))

  -- Both ways bring the element to the end.
  rotates :
      (v : Vector A) (i : ℕ)
      → IsValid v
      → (h : i < length v.slots)
      → rotate v i
        ≡ some (record v { slots = without v.slots i ++ (apart v.slots i h).element ∷ [] })
  unfolding rotate
  rotates v i valid h =
      let p = apart v.slots i h in
      let inside : leb v.size i ≡ false = ground (arith, valid.filled) in
      rw inside (rw p.found (ap (λ l. some (record v { slots = l })) (moved p)))
    where
      moved :
          (p : Apart v.slots i)
          → set
              (write_at v.slots i (take (v.size - i - 1) (drop (suc i) v.slots)))
              (v.size - 1)
              p.element
            ≡ without v.slots i ++ p.element ∷ []
      moved p =
          let front = take i v.slots in
          let back = drop (suc i) v.slots in
          ap (λ n. set (write_at v.slots i (take n back)) (v.size - 1) p.element)
            (omega (arith, p.behind, valid.filled))
          ∙ ap (λ l. set (write_at v.slots i l) (v.size - 1) p.element)
              (ap (take (length back)) (sym (append-nil back)) ∙ take_all back [])
          ∙ ap (λ l. set (write_at l i back) (v.size - 1) p.element) p.joins
          ∙ move_down_at front back p.element p.element i (v.size - 1) (sym p.front)
              (omega (arith, p.behind, p.front, valid.filled))

  bubbles :
      (v : Vector A) (i : ℕ)
      → IsValid v
      → (h : i < length v.slots)
      → bubble (v.size - 1 - i) v i
        ≡ some (record v { slots = without v.slots i ++ (apart v.slots i h).element ∷ [] })
  bubbles v i valid h =
      let p = apart v.slots i h in
      let front = take i v.slots in
      let back = drop (suc i) v.slots in
      ap (λ n. bubble n v i) (count p.behind)
      ∙ ap (λ l. bubble (length back) (record v { slots = l }) i) p.joins
      ∙ ap (bubble (length back) (record v { slots = front ++ p.element ∷ back })) (sym p.front)
      ∙ bubble-middle v front p.element back (sym valid.filled ∙ ap length p.joins)
      ∙ ap (λ l. some (record v { slots = l })) (sym (append_assoc front back (p.element ∷ [])))
    where
      count :
          length (drop (suc i) v.slots) + suc i ≡ length v.slots
          → v.size - 1 - i ≡ length (drop (suc i) v.slots)
      count e = omega (arith, e, valid.filled)

  -- avs_vector_remove__ of a well-formed vector at an index below the size, with memory for the copy and
  -- without, returns the element that was there, and leaves the others in their order.
  pub remove_lem :
      (v : Vector A) (i : ℕ) (memory : Bool)
      → IsValid v
      → i < v.size
      → (x : A) × ((get_elem? v.slots i ≡ some x)
          × (remove v i memory
              ≡ some (some x, record v { size = v.size - 1; slots = without v.slots i })))
  unfolding remove
  remove_lem v i memory valid h = (
    p.element,
    (
      p.found,
      rw full (
          ap (λ o. o >>= λ v'. some (pop v')) (way memory)
          ∙ ap some (pop-last at_end left p.element size_is refl)
          ∙ ap (λ n. some (some p.element, record v { size = n; slots = left })) (size_less)),
    ),
  )
    where
      inside : i < length v.slots
      inside = omega (arith, h, valid.filled)

      p : Apart v.slots i
      p = apart v.slots i inside

      full : (v.size == 0) ≡ false
      full = ground (arith, h)

      left : List A
      left = without v.slots i

      at_end : Vector A
      at_end = record v { slots = left ++ p.element ∷ [] }

      way : (m : Bool) → (if m then rotate v i else bubble (v.size - 1 - i) v i) ≡ some at_end
      way true = rotates v i valid inside
      way false = bubbles v i valid inside

      size_is : v.size ≡ suc (length left)
      size_is = omega (
        arith,
        valid.filled,
        p.behind,
        p.front,
        length-append (take i v.slots) (drop (suc i) v.slots),
      )

      size_less : length left ≡ v.size - 1
      size_less = omega (arith, size_is)
