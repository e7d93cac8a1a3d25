-- ===== src/Url/Stages.antt =====
-- What the loops of src/url/avs_url.c do to a block whose first bytes, `done`, have been written, and whose
-- others, `room`, are free.
use avs_commons.Common.{
  ℕ, zero, suc, Bool, true, false, ◌&&◌, List, [], ◌∷◌, ◌++◌, ◌≡◌, refl, sym, ap, ◌∙◌, ◌≤◌, ◌<◌,
  ◌+◌, ltb, drop, length, length-append, append_assoc, append-nil, Bool-cases, inl, inr, arith,
}
use avs_commons.Common.Strings.{IsText}
use avs_commons.Url.{fine, ◌>>=◌, Url, put_byte}
use avs_commons.Url.Decoding.{set-skip}
use avs_commons.Url.Expected.{span}
use avs_commons.Url.Parser.{Cursor, emit, copy_while}

abbrev pub holding : Url → List ℕ → List ℕ → Url
holding p done room = record p { bytes = done ++ room }

abbrev pub state : List ℕ → Url → List ℕ → List ℕ → Cursor
state url p done room = record { url = url; out = length done; parsed = holding p done room }

pub put_byte-append :
    (done : List ℕ) (x : ℕ) (room : List ℕ) (c : ℕ)
    → put_byte (done ++ x ∷ room) (length done) c ≡ fine ((done ++ c ∷ []) ++ room)
put_byte-append done x room c =
    ground (
      arith,
      set-skip done x c room,
      append_assoc done (c ∷ []) room,
      length-append done (x ∷ room),
    )

copy_go :
    (go : ℕ → Bool) (limit : ℕ) (c : ℕ) (cs : List ℕ) (s : Cursor)
    → go c ≡ true
    → s.out < limit
    → copy_while go limit (c ∷ cs) s ≡ (emit c s >>= copy_while go limit cs)
unfolding copy_while
copy_go go limit c cs s f k =
    let t : ltb s.out limit ≡ true = ground arith in rw (t, copy_while) (rw f refl)

copy_stop :
    (go : ℕ → Bool) (limit : ℕ) (c : ℕ) (cs : List ℕ) (s : Cursor)
    → go c ≡ false
    → copy_while go limit (c ∷ cs) s ≡ fine (c ∷ cs, s)
unfolding copy_while
copy_stop go limit c cs s f = rw (f, copy_while) (rw (both (ltb s.out limit)) refl)
  where
    both : (b : Bool) → (b && false) ≡ false
    both true = refl
    both false = refl

module _ (url : List ℕ) (p : Url) where
  pub emit_lem :
      (c : ℕ) (done : List ℕ) (x : ℕ) (room : List ℕ)
      → emit c (state url p done (x ∷ room)) ≡ fine (state url p (done ++ c ∷ []) room)
  unfolding emit
  emit_lem c done x room =
      rw (put_byte-append done x room c)
        (λ i. fine (record { url = url; out = same i; parsed = holding p (done ++ c ∷ []) room }))
    where
      same : length done + 1 ≡ length (done ++ c ∷ [])
      same = omega (arith, length-append done (c ∷ []))

  pub copy_while_lem :
      (go : ℕ → Bool) (limit : ℕ) (cs done room : List ℕ)
      → limit ≡ length done + length room
      → length (span go cs).0 ≤ length room
      → copy_while go limit cs (state url p done room)
        ≡ fine (
          (span go cs).1,
          state url p (done ++ (span go cs).0) (drop (length (span go cs).0) room),
        )
  unfolding copy_while
  copy_while_lem go limit [] done room e k =
      ap (λ (d : List ℕ). fine ([], state url p d room)) (sym (append-nil done))
  copy_while_lem go limit (c ∷ cs) done [] e k = elim (Bool-cases (go c)) [
    | inr f ↦
        copy_stop go limit c cs (state url p done []) f
        ∙ rw f (ap (λ (d : List ℕ). fine (c ∷ cs, state url p d [])) (sym (append-nil done)))
    | inl f ↦ absurd (omega (arith, rw f at k))
  ]
  copy_while_lem go limit (c ∷ cs) done (x ∷ room) e k = elim (Bool-cases (go c)) [
    | inr f ↦
        copy_stop go limit c cs (state url p done (x ∷ room)) f
        ∙ rw f
            (ap (λ (d : List ℕ). fine (c ∷ cs, state url p d (x ∷ room))) (sym (append-nil done)))
    | inl f ↦
        copy_go go limit c cs (state url p done (x ∷ room)) f (omega (arith, e))
        ∙ rw (emit_lem c done x room) (
            copy_while_lem go limit cs (done ++ c ∷ []) room
              (omega (arith, e, length-append done (c ∷ []))) (omega (arith, rw f at k))
            ∙ rw f (rw (append_assoc done (c ∷ []) (span go cs).0) refl))
  ]

drop_cons :
    (n : ℕ) (room : List ℕ)
    → n < length room
    → (x : ℕ) × (junk : List ℕ) × (drop n room ≡ x ∷ junk) × (length junk + n + 1 ≡ length room)
drop_cons n [] k = absurd (omega (arith, k))
drop_cons zero (x ∷ room) k = (x, room, refl, omega arith)
drop_cons (suc n) (x ∷ room) k =
    let (y, junk, e, f) = drop_cons n room (omega (arith, k)) in (y, junk, e, omega (arith, f))

-- The terminator behind a string that has been copied.
pub end_string :
    (url : List ℕ) (p : Url) (done t room : List ℕ)
    → length t < length room
    → (junk : List ℕ) × (emit 0 (state url p (done ++ t) (drop (length t) room))
        ≡ fine (state url p (done ++ (t ++ 0 ∷ [])) junk))
      × (length junk + length t + 1 ≡ length room)
end_string url p done t room k =
    let (x, junk, e, f) = drop_cons (length t) room k in
    (
      junk,
      rw e (
          emit_lem url p 0 (done ++ t) x junk
          ∙ ap (λ (d : List ℕ). fine (state url p d junk)) (append_assoc done t (0 ∷ []))),
      f,
    )

module _ (go : ℕ → Bool) where
  pub length-span : (cs : List ℕ) → length (span go cs).0 + length (span go cs).1 ≡ length cs
  length-span [] = omega arith
  length-span (c ∷ cs) = elim (Bool-cases (go c)) [
    | inl f ↦ rw f (omega (arith, length-span cs))
    | inr f ↦ rw f (omega arith)
  ]

  pub span-IsText : (cs : List ℕ) → IsText cs → IsText (span go cs).0 × IsText (span go cs).1
  span-IsText [] h = (tt, tt)
  span-IsText (c ∷ cs) h = elim (Bool-cases (go c)) [
    | inl f ↦ let more = span-IsText cs h.1 in rw f ((h.0, more.0), more.1)
    | inr f ↦ rw f (tt, h)
  ]

  -- What follows begins with a character that fails the test.
  abbrev pub Stops : List ℕ → Type 0
  Stops [] = Unit
  Stops (c ∷ cs) = go c ≡ false

  pub span-Stops : (cs : List ℕ) → Stops (span go cs).1
  span-Stops [] = tt
  span-Stops (c ∷ cs) = elim (Bool-cases (go c)) [ inl f ↦ rw f (span-Stops cs) | inr f ↦ rw f f ]

pub span_all : (cs : List ℕ) → span (λ c. true) cs ≡ (cs, [])
span_all [] = refl
span_all (c ∷ cs) = ap (λ (s : List ℕ × List ℕ). (c ∷ s.0, s.1)) (span_all cs)
