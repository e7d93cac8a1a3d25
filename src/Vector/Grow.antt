-- ===== src/Vector/Grow.antt =====
-- How the vectors of src/vector/avs_vector.c grow and shrink.
use avs_commons.Vector.{Vector, store, push, reserve, ensure_capacity}
use avs_commons.Common.{
  ◌>>=◌, ℕ, zero, suc, Bool, true, false, ◌≡◌, refl, ap, ◌∙◌, ◌⊎◌, inl, inr, ◌<◌, ◌≤◌, ◌+◌, ◌*◌,
  ◌%◌, ◌==◌, Option, none, some, List, [], ◌∷◌, ◌++◌, length, length-append, take, Bool-cases,
  arith, if◌then◌else◌,
}
use avs_commons.Common.Word.{Status, ok, fail}

-- The block is as large as the capacity says, no object takes half the address space or more, and as many
-- elements are there as the size says.
pub record IsValid {ℓ} {A : Type ℓ} (v : Vector A) : Type ℓ where
  pub fits : v.size ≤ v.capacity
  pub filled : length v.slots ≡ v.size
  pub block : v.bytes ≡ v.capacity * v.elem_size
  pub in_memory : v.bytes < 9223372036854775808
  pub elem_in_memory : v.elem_size < 9223372036854775808
  pub nonempty : 0 < v.elem_size

le_times : (a b c : ℕ) → a ≤ b → a * c ≤ b * c
le_times a b c h = grind arith

size_le : (a c : ℕ) → 0 < c → a ≤ a * c
size_le a zero h = elim h [ ]
size_le a (suc c) h = omega arith

-- The capacity that `push` asks for.
abbrev larger : ℕ → ℕ
larger size = if size == 0 then 1 else 2 * size % 18446744073709551616

size-larger : (s c : ℕ) → s ≤ s * c → s * c < 9223372036854775808 → s < larger s
size-larger s c h k = ground arith

larger_bytes :
    (s c : ℕ)
    → s ≤ s * c
    → s * c < 9223372036854775808
    → c < 9223372036854775808
    → larger s * c < 18446744073709551616
larger_bytes zero c h k m = omega (arith, m)
larger_bytes (suc s) c h k m =
    let plain : larger (suc s) ≡ 2 * suc s = ground arith in
    rw plain (omega (arith, twice (suc s) c))
  where
    twice : (a b : ℕ) → 2 * a * b ≡ 2 * (a * b)
    twice a b = ground arith

module _ {ℓ} {A : Type ℓ} where
  take_all : (xs : List A) (n : ℕ) → length xs ≤ n → take n xs ≡ xs
  take_all [] zero h = refl
  take_all [] (suc n) h = refl
  take_all (x ∷ xs) zero h = absurd (omega (arith, h))
  take_all (x ∷ xs) (suc n) h = ap (λ l. x ∷ l) (take_all xs n (omega (arith, h)))

  -- The vector with the element appended, in a block that has room for it.
  record Stored (v : Vector A) (x : A) : Type ℓ where
    after : Vector A
    stores : store v x ≡ some after
    after-IsValid : IsValid after
    appended : after.slots ≡ v.slots ++ x ∷ []

  store-Stored : (v : Vector A) (x : A) → IsValid v → v.size < v.capacity → Stored v x
  unfolding store
  store-Stored v x h room =
      let enough = le_times (suc v.size) v.capacity v.elem_size room in
      let whole = take_all v.slots v.size (omega (arith, h.filled)) in
      record {
        after = record v { size = v.size + 1; slots = take v.size v.slots ++ x ∷ [] };
        stores = ground (arith, enough, h.block);
        after-IsValid = record {
          fits = omega (arith, room);
          filled =
              length-append (take v.size v.slots) (x ∷ [])
              ∙ omega (arith, h.filled, ap length whole);
          block = h.block;
          in_memory = h.in_memory;
          elem_in_memory = h.elem_in_memory;
          nonempty = h.nonempty;
        };
        appended = ap (λ l. l ++ x ∷ []) whole;
      }

-- What an allocator serves is less than half the address space.
unfoldable pub Serves : (ℕ → Bool) → Type 0
Serves realloc = (n : ℕ) → realloc n ≡ true → n < 9223372036854775808

module _ {ℓ} {A : Type ℓ} (realloc : ℕ → Bool) (serves : Serves realloc) where
  abbrev stored : Option (Vector A) → Option (Status × Vector A)
  stored o = o >>= λ v. some (ok, v)

  -- What `reserve` leaves behind when it succeeds.
  record Reserved (v : Vector A) (n : ℕ) : Type ℓ where
    after : Vector A
    reserves : reserve realloc v n ≡ (ok, after)
    after-IsValid : IsValid after
    capacity_is : after.capacity ≡ n
    slots_are : after.slots ≡ v.slots
    size_is : after.size ≡ v.size

  reserve-Reserved :
      (v : Vector A) (n : ℕ)
      → IsValid v
      → v.size ≤ n
      → n * v.elem_size < 18446744073709551616
      → (reserve realloc v n ≡ (fail, v)) ⊎ Reserved v n
  unfolding reserve ensure_capacity Serves
  reserve-Reserved v n h k small =
      elim (Bool-cases (realloc (n * v.elem_size % 18446744073709551616))) [
        | inr e ↦ inl (rw e refl)
        | inl e ↦ inr (record {
          after = record v {
            capacity = n;
            slots = take n v.slots;
            bytes = n * v.elem_size % 18446744073709551616;
          };
          reserves = rw e refl;
          after-IsValid = record {
            fits = k;
            filled = ap length whole ∙ h.filled;
            block = omega (arith, small);
            in_memory = serves _ e;
            elem_in_memory = h.elem_in_memory;
            nonempty = h.nonempty;
          };
          capacity_is = refl;
          slots_are = whole;
          size_is = refl;
        })
      ]
    where
      whole : take n v.slots ≡ v.slots
      whole = take_all v.slots n (omega (arith, h.filled, k))

  -- `push` after `reserve` returned `r`.
  abbrev grown : Vector A → A → Status × Vector A → Option (Status × Vector A)
  grown v x r = elim r.0 [ fail ↦ some (fail, v) | ok ↦ stored (store r.1 x) ]

  push-room :
      (v : Vector A) (x : A)
      → (v.capacity == v.size) ≡ false
      → push realloc v x ≡ stored (store v x)
  unfolding push
  push-room v x e = rw e refl

  push-full :
      (v : Vector A) (x : A) (r : Status × Vector A)
      → (v.capacity == v.size) ≡ true
      → reserve realloc v (larger v.size) ≡ r
      → push realloc v x ≡ grown v x r
  unfolding push
  push-full v x r e f = rw e (ap (grown v x) f)

  -- For an allocator that serves less than half the address space, avs_vector_push__ of a well-formed vector
  -- stays within the block: it fails, and changes nothing, only if the vector is full; else the vector
  -- is well-formed and holds the element behind the old ones.
  pub push-IsValid :
      (v : Vector A) (x : A)
      → IsValid v
      → ((push realloc v x ≡ some (fail, v)) × (v.size ≡ v.capacity))
        ⊎ ((v' : Vector A) × ((push realloc v x ≡ some (ok, v'))
              × (IsValid v' × (v'.slots ≡ v.slots ++ x ∷ []))))
  push-IsValid v x h = elim (Bool-cases (v.capacity == v.size)) [
    | inr e ↦
        let s = store-Stored v x h (ground (arith, e, h.fits)) in
        inr (s.after, (push-room v x e ∙ ap stored s.stores, (s.after-IsValid, s.appended)))
    | inl e ↦ elim (reserve-Reserved v (larger v.size) h (omega (arith, more)) small) [
      | inl f ↦ inl (push-full v x _ e f, ground (arith, e))
      | inr r ↦
          let s =
            store-Stored r.after x r.after-IsValid
              (omega (arith, more, r.capacity_is, r.size_is)) in
          inr (
            s.after,
            (
              push-full v x _ e r.reserves ∙ ap stored s.stores,
              (s.after-IsValid, s.appended ∙ ap (λ l. l ++ x ∷ []) r.slots_are),
            ),
          )
    ]
  ]
    where
      occupied : v.size * v.elem_size ≤ v.bytes
      occupied = rw h.block (le_times v.size v.capacity v.elem_size h.fits)

      few : v.size ≤ v.size * v.elem_size
      few = size_le v.size v.elem_size h.nonempty

      in_bytes : v.size * v.elem_size < 9223372036854775808
      in_bytes = omega (arith, occupied, h.in_memory)

      small : larger v.size * v.elem_size < 18446744073709551616
      small = larger_bytes v.size v.elem_size few in_bytes h.elem_in_memory

      more : v.size < larger v.size
      more = size-larger v.size v.elem_size few in_bytes

  -- After avs_vector_reserve__ with a number smaller than the size, which an allocator that serves the
  -- smaller size grants, the next avs_vector_push__ writes outside of the block.
  pub reserve_shrinks :
      (v : Vector A) (n : ℕ) (x : A)
      → IsValid v
      → n < v.size
      → realloc (n * v.elem_size) ≡ true
      → push realloc (reserve realloc v n).1 x ≡ none
  unfolding reserve ensure_capacity store
  reserve_shrinks v n x h k e =
      ap (λ r. push realloc r.1 x) shrunk ∙ push-room after x (ground (arith, k)) ∙ ap stored past
    where
      after : Vector A
      after = record v { capacity = n; slots = take n v.slots; bytes = n * v.elem_size }

      occupied : v.size * v.elem_size ≤ v.capacity * v.elem_size
      occupied = le_times v.size v.capacity v.elem_size h.fits

      less_bytes : suc n * v.elem_size ≤ v.size * v.elem_size
      less_bytes = le_times (suc n) v.size v.elem_size k

      small : n * v.elem_size % 18446744073709551616 ≡ n * v.elem_size
      small = ground (arith, occupied, less_bytes, h.block, h.in_memory)

      shrunk : reserve realloc v n ≡ (ok, after)
      shrunk = rw small (rw e refl)

      past : store after x ≡ none
      past = ground (arith, less_bytes, h.nonempty)
