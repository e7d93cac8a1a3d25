-- ===== src/Stream/Line/Streams.antt =====
-- `avs_stream_getline` and `avs_stream_peekline` on a stream that is a queue of bytes.
use avs_commons.Stream.Line.{reader, peeker, getline, peekline, getline_helper}
use avs_commons.Stream.Line.Terminated.{IsText, Plain, IsEnd, getline_helper_lem}
use avs_commons.Stream.{VTable, success, getch, peek}
use avs_commons.Stream.Queue.{IsSource, CanPeek}
use avs_commons.Common.{
  ◌>>=◌, ℕ, Bool, false, some, ◌≡◌, refl, sym, ap, ◌∙◌, ◌<◌, ◌+◌, ◌==◌, List, [], ◌∷◌, ◌++◌, length,
  length-drop, take, drop, drop-drop, get_elem?, get_elem?-drop, Bool-cases, inl, inr, arith,
}

pub getline-room :
    {S : Type 0} (v : VTable S) (s : S) (n : ℕ)
    → (n == 0) ≡ false
    → getline v s n ≡ getline_helper (reader v) s n
unfolding getline
getline-room v s n e = rw e refl

peekline-room :
    {S : Type 0} (v : VTable S) (s : S) (offset n : ℕ)
    → (n == 0) ≡ false
    → peekline v s offset n ≡ (
        getline_helper (peeker v) (s, offset) n >>= λ r.
        some (r.0, (r.1.0, (r.1.1.1.1, r.1.1.1.0))))
unfolding peekline
peekline-room v s offset n e = rw e refl

module _ {S : Type 0} {v : VTable S} {Valid : S → Type 0} {content : S → List ℕ}
    (source : IsSource v Valid content) (looks : CanPeek v Valid content) where
  -- A read of one byte, where there is one, takes it.
  read_one :
      (s : S) (c : ℕ) (rest : List ℕ) (h : Valid s)
      → content s ≡ c ∷ rest
      → (source.reads_to s 1 h).count ≡ 1
  read_one s c rest h e =
      let r = source.reads_to s 1 h in
      elim (Bool-cases r.finished) [
        | inl f ↦ omega (
          arith,
          ap (λ (l : List ℕ). length l) (sym (r.ends f) ∙ r.rest),
          length-drop r.count (content s),
          ap (λ (l : List ℕ). length l) e,
          r.few,
        )
        | inr f ↦ omega (arith, r.goes_on f (omega arith), r.few)
      ]

  pub reader-IsText : IsText (reader v) Valid content
  unfolding reader getch
  reader-IsText = record {
    takes = λ s c rest h e.
        let r = source.reads_to s 1 h in
        let one = read_one s c rest h e in
        let got : take r.count (content s) ≡ c ∷ [] =
          ap (λ n. take n (content s)) one ∙ ap (take 1) e in
        record {
          finished = r.finished;
          after = r.after;
          takes = rw r.reads (rw got refl);
          left = r.rest ∙ ap (λ n. drop n (content s)) one ∙ ap (drop 1) e;
          after-Valid = r.after-Valid;
        };
    peeks = looks.peeks;
  }

  -- The peeker stays at one state of the stream.
  peeker-IsText : (s : S) → IsText (peeker v) (λ p. Valid s × (p.0 ≡ s)) (λ p. drop p.1 (content s))
  unfolding peeker
  peeker-IsText s = record {
    takes = λ p c rest h e.
        let place : p.1 + 0 ≡ p.1 = omega arith in
        let here : get_elem? (content s) p.1 ≡ some c =
          ap (get_elem? (content s)) (sym place)
          ∙ sym (get_elem?-drop p.1 0 (content s))
          ∙ ap (λ l. get_elem? l 0) e in
        let seen : peek v p.0 p.1 ≡ some (success, (c, s)) =
          ap (λ t. peek v t p.1) h.1 ∙ looks.peeks s p.1 c h.0 here in
        record {
          finished = false;
          after = (s, p.1 + 1);
          takes = rw seen refl;
          left = sym (drop-drop 1 p.1 (content s)) ∙ ap (drop 1) e;
          after-Valid = (h.0, refl);
        };
    peeks = λ p k c h e.
        let seen : peek v p.0 (p.1 + k) ≡ some (success, (c, s)) =
          ap (λ t. peek v t (p.1 + k)) h.1
          ∙ looks.peeks s (p.1 + k) c h.0 (sym (get_elem?-drop p.1 k (content s)) ∙ e) in
        rw seen (ap (λ t. some (success, (c, (t, p.1)))) (sym h.1));
  }

  -- A stream that is a queue of bytes and can be looked at ahead, at whose front is a line that fits the
  -- buffer, its null character included, without a null character or a part of an end of a line in it, that
  -- ends with a line feed or with a carriage return and a line feed. avs_stream_getline returns AVS_OK and
  -- the line, and takes it and its end, and no more; and before, avs_stream_peekline at the offset 0 returns
  -- AVS_OK and the same line, and as the next offset one at which the bytes behind the end start, and
  -- leaves the stream as it is.
  pub getline_lem :
      (s : S) (buffer_length : ℕ) (line end rest : List ℕ)
      → Valid s
      → length line < buffer_length
      → Plain line
      → IsEnd end
      → content s ≡ line ++ (end ++ rest)
      → ((f : Bool) × ((after : S) × ((getline v s buffer_length
                ≡ some (success, (line, (f, after))))
              × (content after ≡ rest))))
        × ((next : ℕ) × ((peekline v s 0 buffer_length ≡ some (success, (line, (next, s))))
              × (drop next (content s) ≡ rest)))
  getline_lem s n line end rest h small plain k e =
      let some_room : (n == 0) ≡ false = ground (arith, small) in
      let g = getline_helper_lem reader-IsText s n line end rest small plain k e h in
      let q =
        getline_helper_lem (peeker-IsText s) (s, 0) n line end rest small plain k e (h, refl) in
      (
        (g.0, (g.1.0, (getline-room v s n some_room ∙ g.1.1.0, g.1.1.1.0))),
        (
          q.1.0.1,
          (
            peekline-room v s 0 n some_room
                ∙ ap (λ x. x >>= λ r. some (r.0, (r.1.0, (r.1.1.1.1, r.1.1.1.0)))) q.1.1.0
                ∙ ap (λ t. some (success, (line, (q.1.0.1, t)))) q.1.1.1.1.1,
            q.1.1.1.0,
          ),
        ),
      )
