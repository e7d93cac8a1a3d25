-- ===== src/Http/Chunked/Headline.antt =====
-- What read_chunk_size of src/http/body_receivers/avs_chunked_body_receiver.c does at the start of a chunk.
use avs_commons.Common.{
  ℕ, zero, suc, true, false, Option, some, ◌≡◌, refl, ap, ◌∙◌, ◌<◌, ◌==◌, List, [], length, arith,
}
use avs_commons.Common.Word.{size_mod}
use avs_commons.Http.Chunked.{headline_loop, trailer_loop, read_chunk_size}
use avs_commons.Http.Chunked.Wire.{
  Starts, Trailers, no_more, trailer, Chunks, in_data, blank, headline, last, length-Starts,
}
use avs_commons.Stream.{Err, success}

-- What gives the lines of a text.
pub record GivesLines {P : Type 0} (getline_func : P → ℕ → Option (Err × (List ℕ × P)))
    (Valid : P → Type 0) (text : P → List ℕ) : Type 0 where
  pub gives :
      (p : P) (limit : ℕ) (wire line more : List ℕ)
      → Valid p
      → text p ≡ wire
      → Starts limit wire line more
      → (after : P) × (getline_func p limit ≡ some (success, (line, after)))
        × (text after ≡ more)
        × Valid after

lengths : {xs ys : List ℕ} → xs ≡ ys → length xs ≡ length ys
lengths e = ap (λ (l : List ℕ). length l) e

some_line : (line : List ℕ) → 0 < length line → (length line == 0) ≡ false
some_line line k = ground (arith, k)

module _ {P : Type 0} {getline_func : P → ℕ → Option (Err × (List ℕ × P))} {Valid : P → Type 0}
    {text : P → List ℕ} (lines : GivesLines getline_func Valid text) (limit : ℕ)
    (rest : List ℕ) where
  -- The line with the number has been read.
  data Headlined (p : P) (body : List ℕ) (result : Option (Err × (ℕ × P))) : Type 0 where
    chunk :
        (k : ℕ) (after : P)
        → result ≡ some (success, (k, after))
        → 0 < k
        → k < size_mod
        → Valid after
        → Chunks limit rest k (text after) body
        → length (text after) < length (text p)
        → Headlined p body result
    final :
        (after : P)
        → result ≡ some (success, (0, after))
        → Valid after
        → Trailers limit rest (text after)
        → body ≡ []
        → length (text after) < length (text p)
        → Headlined p body result

  Headlined-shorter :
      {p q : P} {body : List ℕ} {r r' : Option (Err × (ℕ × P))}
      → r' ≡ r
      → length (text q) < length (text p)
      → Headlined q body r
      → Headlined p body r'
  Headlined-shorter e s (chunk k after w z m v c t) =
      chunk k after (e ∙ w) z m v c (omega (arith, s, t))
  Headlined-shorter e s (final after w v t b k) = final after (e ∙ w) v t b (omega (arith, s, k))

  headline_loop-Headlined :
      {wire body : List ℕ} (fuel : ℕ) (p : P) (value : ℕ)
      → Chunks limit rest 0 wire body
      → Valid p
      → text p ≡ wire
      → length wire < fuel
      → Headlined p body (headline_loop getline_func limit fuel p value)
  unfolding headline_loop
  headline_loop-Headlined zero p value c v t k = absurd (omega (arith, k))
  headline_loop-Headlined (suc fuel) p value (in_data d more b z e w f c) v t k =
      absurd (omega (arith, z, e))
  headline_loop-Headlined {wire} (suc fuel) p value (blank more e s c) v t k =
      let (after, r, u, w) = lines.gives p limit wire [] more v t s in
      let shorter : length (text after) < length (text p) =
        omega (arith, lengths u, lengths t, length-Starts s) in
      Headlined-shorter (rw r refl) shorter
        (headline_loop-Headlined fuel after value c w u (omega (arith, k, length-Starts s)))
  headline_loop-Headlined {wire} (suc fuel) p value (headline line more n e s h z m c) v t k =
      let (after, r, u, w) = lines.gives p limit wire line more v t s in
      chunk n after
        (rw r (
          rw (some_line line h.not_empty)
            (rw (h.no_error, h.whole) (ap (λ (j : ℕ). some (success, (j, after))) h.value_is))))
        z m w (rw u c) (omega (arith, lengths u, lengths t, length-Starts s))
  headline_loop-Headlined {wire} (suc fuel) p value (last line more e s h others b) v t k =
      let (after, r, u, w) = lines.gives p limit wire line more v t s in
      final after
        (rw r (
          rw (some_line line h.not_empty)
            (rw (h.no_error, h.whole) (ap (λ (j : ℕ). some (success, (j, after))) h.value_is))))
        w (rw u others) b (omega (arith, lengths u, lengths t, length-Starts s))

  trailer_loop_lem :
      {wire : List ℕ} (fuel : ℕ) (p : P)
      → Trailers limit rest wire
      → Valid p
      → text p ≡ wire
      → length wire < fuel
      → (after : P) × (trailer_loop getline_func limit fuel p ≡ some (success, after))
        × (text after ≡ rest)
        × Valid after
        × (length (text after) < length wire)
  unfolding trailer_loop
  trailer_loop_lem zero p c v t k = absurd (omega (arith, k))
  trailer_loop_lem {wire} (suc fuel) p (no_more s) v t k =
      let (after, r, u, w) = lines.gives p limit wire [] rest v t s in
      (after, rw r refl, u, w, omega (arith, lengths u, length-Starts s))
  trailer_loop_lem {wire} (suc fuel) p (trailer line more s z others) v t k =
      let (after, r, u, w) = lines.gives p limit wire line more v t s in
      let (last_one, q, x, y, fewer) =
        trailer_loop_lem fuel after others w u (omega (arith, k, length-Starts s)) in
      (last_one, rw r (rw (some_line line z) q), x, y, omega (arith, fewer, length-Starts s))

  -- What read_chunk_size comes to.
  pub data Sized (p : P) (body : List ℕ) (result : Option (Err × (Option ℕ × P))) : Type 0 where
    more_chunk :
        (k : ℕ) (after : P)
        → result ≡ some (success, (some k, after))
        → 0 < k
        → k < size_mod
        → Valid after
        → Chunks limit rest k (text after) body
        → length (text after) < length (text p)
        → Sized p body result
    no_chunk :
        (after : P)
        → result ≡ some (success, (some 0, after))
        → Valid after
        → text after ≡ rest
        → body ≡ []
        → length (text after) < length (text p)
        → Sized p body result

  pub read_chunk_size-Sized :
      {body : List ℕ} (fuel : ℕ) (p : P)
      → Chunks limit rest 0 (text p) body
      → Valid p
      → length (text p) < fuel
      → Sized p body (read_chunk_size getline_func limit true fuel p)
  unfolding read_chunk_size
  read_chunk_size-Sized fuel p c v k = elim (headline_loop-Headlined fuel p 0 c v refl k) [
    | chunk n after r z m w d shorter ↦
        let some_bytes : (n == 0) ≡ false = ground (arith, z) in
        more_chunk n after (rw r (rw some_bytes refl)) z m w d shorter
    | final after r w others b shorter ↦
        let (last_one, q, x, y, fewer) =
          trailer_loop_lem fuel after others w refl (omega (arith, k, shorter)) in
        no_chunk last_one (rw r (rw q refl)) y x b (omega (arith, shorter, fewer))
  ]
