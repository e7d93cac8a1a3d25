-- ===== src/Stream/Line/Terminated.antt =====
-- A line that fits, with its end, for whatever provides the characters.
use avs_commons.Stream.Line.{
  Provider, validate_line_finished, consume_line_terminator, getline_loop, getline_helper,
}
use avs_commons.Stream.{Err, success}
use avs_commons.Common.{
  ℕ, zero, suc, Bool, false, Option, some, ◌≡◌, refl, sym, ap, ◌∙◌, ◌≤◌, ◌<◌, ◌+◌, ◌-◌, ◌*◌, ◌==◌,
  inl, inr, leb, List, [], ◌∷◌, ◌++◌, length, length-append, append_assoc, append-nil, Bool-cases,
  get_elem?, arith,
}

-- What a provider of the characters of a text promises.
pub record Taken {P : Type 0} (provider : Provider P) (Valid : P → Type 0) (text : P → List ℕ)
    (p : P) (c : ℕ) (rest : List ℕ) : Type 0 where
  pub finished : Bool
  pub after : P
  pub takes : provider.getch p ≡ some (success, (some c, (finished, after)))
  pub left : text after ≡ rest
  pub after-Valid : Valid after

pub record IsText {P : Type 0} (provider : Provider P) (Valid : P → Type 0) (text : P → List ℕ)
    : Type 0 where
  pub takes :
      (p : P) (c : ℕ) (rest : List ℕ)
      → Valid p
      → text p ≡ c ∷ rest
      → Taken provider Valid text p c rest
  pub peeks :
      (p : P) (k c : ℕ)
      → Valid p
      → get_elem? (text p) k ≡ some c
      → provider.peek p k ≡ some (success, (c, p))

-- No character of the line is a null character, or a part of an end of a line.
pub data Plain : List ℕ → Type 0 where
  plain_nil : Plain []
  plain_cons :
      (c : ℕ) (rest : List ℕ)
      → (c == 0) ≡ false
      → (c == 10) ≡ false
      → (c == 13) ≡ false
      → Plain rest
      → Plain (c ∷ rest)

-- The ends of a line.
pub data IsEnd : List ℕ → Type 0 where
  lf : IsEnd (10 ∷ [])
  crlf : IsEnd (13 ∷ 10 ∷ [])

module _ {P : Type 0} {provider : Provider P} {Valid : P → Type 0} {text : P → List ℕ}
    (source : IsText provider Valid text) where
  -- The whole line is stored, and its end is taken, or, if the buffer is full, still there.
  data Looped (bytes line end rest : List ℕ) (result : Option (Err × (List ℕ × (ℕ × (Bool × P)))))
      : Type 0 where
    ended :
        (finished : Bool) (after : P)
        → result ≡ some (success, (bytes ++ line, (10, (finished, after))))
        → text after ≡ rest
        → Valid after
        → Looped bytes line end rest result
    full :
        (c : ℕ) (finished : Bool) (after : P)
        → (c == 10) ≡ false
        → result ≡ some (success, (bytes ++ line, (c, (finished, after))))
        → text after ≡ end ++ rest
        → Valid after
        → Looped bytes line end rest result

  at_lf :
      (fuel : ℕ) (p : P) (limit : ℕ) (bytes : List ℕ) (c : ℕ) (finished : Bool) (end rest : List ℕ)
      → 0 < fuel
      → leb limit (length bytes) ≡ false
      → text p ≡ 10 ∷ rest
      → Valid p
      → Looped bytes [] end rest (getline_loop provider fuel p limit bytes c finished)
  unfolding getline_loop
  at_lf zero p limit bytes c finished end rest h q e v = absurd (omega (arith, h))
  at_lf (suc fuel) p limit bytes c finished end rest h q e v =
      let t = source.takes p 10 rest v e in
      ended t.finished t.after
        (rw q (
          rw t.takes
            (ap (λ l. some (success, (l, (10, (t.finished, t.after))))) (sym (append-nil bytes)))))
        t.left t.after-Valid

  at_end :
      (fuel : ℕ) (p : P) (limit : ℕ) (bytes : List ℕ) (c : ℕ) (finished : Bool) (end rest : List ℕ)
      → 1 < fuel
      → leb limit (length bytes) ≡ false
      → IsEnd end
      → text p ≡ end ++ rest
      → Valid p
      → Looped bytes [] end rest (getline_loop provider fuel p limit bytes c finished)
  unfolding getline_loop
  at_end fuel p limit bytes c finished end rest h q lf e v =
      at_lf fuel p limit bytes c finished (10 ∷ []) rest (omega (arith, h)) q e v
  at_end zero p limit bytes c finished end rest h q crlf e v = absurd (omega (arith, h))
  at_end (suc fuel) p limit bytes c finished end rest h q crlf e v =
      let t = source.takes p 13 (10 ∷ rest) v e in
      let ahead = source.peeks t.after 0 10 t.after-Valid (ap (λ l. get_elem? l 0) t.left) in
      rw q (
        rw t.takes (
          rw ahead (
            at_lf fuel t.after limit bytes 13 t.finished (13 ∷ 10 ∷ []) rest (omega (arith, h)) q
              t.left t.after-Valid)))

  shifted :
      (bytes others end rest : List ℕ) (a : ℕ) (r : Option (Err × (List ℕ × (ℕ × (Bool × P)))))
      → Looped (bytes ++ a ∷ []) others end rest r
      → Looped bytes (a ∷ others) end rest r
  shifted bytes others end rest a r (ended f after e l w) =
      ended f after
        (e ∙ ap (λ x. some (success, (x, (10, (f, after))))) (append_assoc bytes (a ∷ []) others)) l
        w
  shifted bytes others end rest a r (full c f after d e l w) =
      full c f after d
        (e ∙ ap (λ x. some (success, (x, (c, (f, after))))) (append_assoc bytes (a ∷ []) others)) l
        w

  getline_loop-Looped :
      (fuel : ℕ) (p : P) (limit : ℕ) (bytes : List ℕ) (c : ℕ) (finished : Bool)
      (line end rest : List ℕ)
      → length line + 1 < fuel
      → length bytes + length line ≤ limit
      → (c == 10) ≡ false
      → Plain line
      → IsEnd end
      → text p ≡ line ++ (end ++ rest)
      → Valid p
      → Looped bytes line end rest (getline_loop provider fuel p limit bytes c finished)
  unfolding getline_loop
  getline_loop-Looped zero p limit bytes c finished line end rest h fits d plain k e v =
      absurd (omega (arith, h))
  getline_loop-Looped (suc fuel) p limit bytes c finished line end rest h fits d plain_nil k e v =
      elim (Bool-cases (leb limit (length bytes))) [
        | inl q ↦
            full c finished p d
              (rw q (ap (λ l. some (success, (l, (c, (finished, p))))) (sym (append-nil bytes)))) e
              v
        | inr q ↦ at_end (suc fuel) p limit bytes c finished end rest (omega (arith, h)) q k e v
      ]
  getline_loop-Looped (suc fuel) p limit bytes c finished line end rest h fits d
        (plain_cons a others x y z plain) k e v =
      let room : leb limit (length bytes) ≡ false = ground (arith, fits) in
      let t = source.takes p a (others ++ (end ++ rest)) v e in
      let more =
        getline_loop-Looped fuel t.after limit (bytes ++ a ∷ []) a t.finished others end rest
          (omega (arith, h)) (omega (arith, fits, length-append bytes (a ∷ []))) y plain k t.left
          t.after-Valid in
      rw room (
        rw t.takes (
          rw x (
            rw y (
              rw z (
                shifted bytes others end rest a
                  (getline_loop provider fuel t.after limit (bytes ++ a ∷ []) a t.finished)
                  more)))))

  -- The buffer is full, and the end of the line is behind.
  finish_full :
      (p : P) (c : ℕ) (finished : Bool) (end rest : List ℕ)
      → (c == 10) ≡ false
      → IsEnd end
      → text p ≡ end ++ rest
      → Valid p
      → (validate_line_finished provider p c ≡ some (success, p))
        × ((f : Bool) × ((after : P) × ((consume_line_terminator provider p c finished
                  ≡ some (success, (f, after)))
                × ((text after ≡ rest) × Valid after))))
  unfolding validate_line_finished consume_line_terminator
  finish_full p c finished end rest d lf e v =
      let t = source.takes p 10 rest v e in
      (
        rw d (rw (source.peeks p 0 10 v (ap (λ l. get_elem? l 0) e)) refl),
        (t.finished, (t.after, (rw d (rw t.takes refl), (t.left, t.after-Valid)))),
      )
  finish_full p c finished end rest d crlf e v =
      let t = source.takes p 13 (10 ∷ rest) v e in
      let u = source.takes t.after 10 rest t.after-Valid t.left in
      (
        rw d (
            rw (source.peeks p 0 13 v (ap (λ l. get_elem? l 0) e))
              (rw (source.peeks p 1 10 v (ap (λ l. get_elem? l 1) e)) refl)),
        (u.finished, (u.after, (rw d (rw t.takes (rw u.takes refl)), (u.left, u.after-Valid)))),
      )

  -- From whatever provides the characters of a text, if the text starts with a line that fits the buffer, its
  -- null character included, that has no null character and no part of an end of a line in it, and that ends
  -- with a line feed, or with a carriage return and a line feed: then getline_helper, the body of
  -- avs_stream_getline and avs_stream_peekline, returns AVS_OK with just the line, and takes the line and
  -- its end, and no more.
  pub getline_helper_lem :
      (p : P) (buffer_length : ℕ) (line end rest : List ℕ)
      → length line < buffer_length
      → Plain line
      → IsEnd end
      → text p ≡ line ++ (end ++ rest)
      → Valid p
      → (f : Bool) × ((after : P) × ((getline_helper provider p buffer_length
              ≡ some (success, (line, (f, after))))
            × ((text after ≡ rest) × Valid after)))
  unfolding getline_helper
  getline_helper_lem p n line end rest h plain k e v =
      let some_room : (n == 0) ≡ false = ground (arith, h) in
      elim (getline_loop-Looped (2 * n) p (n - 1) [] 0 false line end rest (omega (arith, h))
        (omega (arith, h)) refl plain k e v) [
          | ended f after r l w ↦ (f, (after, (rw some_room (rw r refl), (l, w))))
          | full c f after d r l w ↦
              let q = finish_full after c f end rest d k l w in
              (q.1.0, (q.1.1.0, (rw some_room (rw r (rw q.0 (rw q.1.1.1.0 refl))), q.1.1.1.1)))
        ]
