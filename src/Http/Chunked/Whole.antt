-- ===== src/Http/Chunked/Whole.antt =====
-- Reading a whole well-formed body with chunked_read of
-- src/http/body_receivers/avs_chunked_body_receiver.c.
use mathlib.Core.Path.{subst}
use avs_commons.Common.{
  ◌>>=◌, ℕ, Bool, true, false, not, ◌||◌, Option, some, ◌≡◌, refl, sym, ap, ◌∙◌, ◌<◌, ◌==◌, ltb,
  if◌then◌else◌, List, [], length, Bool-cases, inl, inr, arith,
}
use avs_commons.Common.Word.{size_mod}
use avs_commons.Http.Chunked.{
  Chunked, getline_reader, read_chunk_size, read_data, next_chunk, chunked_read,
}
use avs_commons.Http.Chunked.Body.{
  reader-GivesLines, over, within, IsReady, ReadsBody, data_left-ReadsBody,
}
use avs_commons.Http.Chunked.Headline.{more_chunk, no_chunk, read_chunk_size-Sized}
use avs_commons.Http.Chunked.Wire.{Chunks}
use avs_commons.Stream
use avs_commons.Stream.{VTable, Err, success, eof, is_ok, read_loop, read}
use avs_commons.Stream.Queue.{IsSource, CanPeek}
use mathlib.Core.Bool.{false≢true}

-- What `chunked_read` does with the next chunk found.
module _ {S : Type 0} (v : VTable S) (fuel : ℕ) (s : Chunked S) (n : ℕ) (z : s.chunk_left ≡ 0) where
  -- The rest of `chunked_read` behind `next_chunk`.
  abbrev behind : Err × Chunked S → Option (Err × (List ℕ × (Bool × Chunked S)))
  behind r =
      if not (is_ok r.0) || (r.1.finished || not (Stream.nonblock_read_ready v r.1.backend))
      then some (r.0, ([], (r.1.finished, r.1)))
      else read_data v true fuel r.1 n

  chunked_read_between : chunked_read v true fuel s n ≡ (next_chunk v true fuel s >>= behind)
  unfolding chunked_read
  chunked_read_between =
      let q : (s.chunk_left == 0) ≡ true = ground (arith, z) in rw (q, chunked_read) refl

  chunked_read_next :
      (t : Chunked S)
      → next_chunk v true fuel s ≡ some (success, t)
      → chunked_read v true fuel s n ≡ (
          if t.finished || not (Stream.nonblock_read_ready v t.backend)
          then some (success, ([], (t.finished, t)))
          else read_data v true fuel t n)
  chunked_read_next t e =
      chunked_read_between ∙ ap (λ (o : Option (Err × Chunked S)). o >>= behind) e

  next_chunk_finished : s.finished ≡ true → next_chunk v true fuel s ≡ some (success, s)
  unfolding next_chunk
  next_chunk_finished f = rw (f, next_chunk) refl

  next_chunk_size :
      (k : ℕ) (after : S)
      → s.finished ≡ false
      → read_chunk_size (getline_reader v true fuel) s.header_line true fuel s.backend
        ≡ some (success, (some k, after))
      → next_chunk v true fuel s
        ≡ some (success, record s { backend = after; chunk_left = k; finished = k == 0 })
  unfolding next_chunk
  next_chunk_size k after f e = rw (f, next_chunk) (rw e refl)

pub chunked_read_within :
    {S : Type 0} (v : VTable S) (fuel : ℕ) (s : Chunked S) (n : ℕ)
    → (s.chunk_left == 0) ≡ false
    → chunked_read v true fuel s n ≡ read_data v true fuel s n
unfolding chunked_read
chunked_read_within v fuel s n q = rw (q, chunked_read) refl

module _ {S : Type 0} {v : VTable S} {Valid : S → Type 0} {content : S → List ℕ}
    (source : IsSource v Valid content) (looks : CanPeek v Valid content) (fuel : ℕ)
    (rest : List ℕ) where
  -- A step in front of a read.
  later :
      {s t : Chunked S} {n : ℕ} {body : List ℕ}
      {r r' : Option (Err × (List ℕ × (Bool × Chunked S)))}
      → r' ≡ r
      → length (content t.backend) < length (content s.backend)
      → ReadsBody source looks fuel rest t n body r
      → ReadsBody source looks fuel rest s n body r'
  later e k a = record {
    count = a.count;
    finished = a.finished;
    after = a.after;
    reads = e ∙ a.reads;
    few = a.few;
    there = a.there;
    ends = a.ends;
    goes_on = λ f m. omega (arith, k, a.goes_on f m);
    after-IsReady = a.after-IsReady;
  }

  -- Nothing is read, and the state is `t`.
  idle :
      {s t : Chunked S} {n : ℕ} {body : List ℕ} {r : Option (Err × (List ℕ × (Bool × Chunked S)))}
      → r ≡ some (success, ([], (t.finished, t)))
      → (t.finished ≡ true → body ≡ [])
      → (t.finished ≡ false → length (content t.backend) < length (content s.backend))
      → IsReady source looks fuel rest t body
      → ReadsBody source looks fuel rest s n body r
  idle {s} {t} e b k a = record {
    count = 0;
    finished = t.finished;
    after = t;
    reads = e;
    few = omega arith;
    there = omega arith;
    ends = b;
    goes_on = λ f m. k f;
    after-IsReady = a;
  }

  chunk-ReadsBody :
      (s t : Chunked S) (n : ℕ) {body : List ℕ}
      → chunked_read v true fuel s n ≡ (
          if t.finished || not (Stream.nonblock_read_ready v t.backend)
          then some (success, ([], (t.finished, t)))
          else read_data v true fuel t n)
      → t.finished ≡ false
      → 0 < t.chunk_left
      → t.chunk_left < size_mod
      → IsReady source looks fuel rest t body
      → Chunks t.header_line rest t.chunk_left (content t.backend) body
      → length (content t.backend) < length (content s.backend)
      → ReadsBody source looks fuel rest s n body (chunked_read v true fuel s n)
  chunk-ReadsBody s t n e g z m a c shorter =
      elim (Bool-cases (Stream.nonblock_read_ready v t.backend)) [
        | inr f ↦ idle (e ∙ rw (g, f) refl) (λ q. absurd (false≢true (sym g ∙ q))) (λ q. shorter) a
        | inl f ↦
            later (e ∙ rw (g, f) refl) shorter
              (data_left-ReadsBody source looks fuel rest t n a.backend-Valid a.enough g z m c)
      ]

  between-ReadsBody :
      (s : Chunked S) (n : ℕ) {body : List ℕ}
      → IsReady source looks fuel rest s body
      → s.finished ≡ false
      → s.chunk_left ≡ 0
      → Chunks s.header_line rest 0 (content s.backend) body
      → ReadsBody source looks fuel rest s n body (chunked_read v true fuel s n)
  between-ReadsBody s n a g z c =
      elim (read_chunk_size-Sized (reader-GivesLines source looks fuel rest) s.header_line rest fuel
        s.backend c a.backend-Valid a.enough) [
          | more_chunk k after r pos small w d shorter ↦
              let none_yet : (k == 0) ≡ false = ground (arith, pos) in
              chunk-ReadsBody s (record s { backend = after; chunk_left = k; finished = k == 0 }) n
                (chunked_read_next v fuel s n z
                  (record s { backend = after; chunk_left = k; finished = k == 0 })
                  (next_chunk_size v fuel s n z k after g r))
                none_yet pos small
                record {
                  backend-Valid = w;
                  enough = omega (arith, shorter, a.enough);
                  waits = within none_yet d small;
                }
                d shorter
          | no_chunk after r w t b shorter ↦
              idle
                (chunked_read_next v fuel s n z
                  (record s { backend = after; chunk_left = 0; finished = true })
                  (next_chunk_size v fuel s n z 0 after g r))
                (λ q. b) (λ q. absurd (false≢true (sym q)))
                record {
                  backend-Valid = w;
                  enough = omega (arith, shorter, a.enough);
                  waits = over refl refl b;
                }
        ]

  -- Over a connection that is a queue of bytes and can be looked at, with a well-formed rest of a chunked
  -- message at its front: one read returns AVS_OK and bytes from the front of what is left of the body, and
  -- leaves such a state with the rest; it tells that the message is finished only with the body at its end,
  -- and takes bytes off the connection otherwise.
  pub chunked_read-ReadsBody :
      (s : Chunked S) (n : ℕ) {body : List ℕ}
      → IsReady source looks fuel rest s body
      → ReadsBody source looks fuel rest s n body (chunked_read v true fuel s n)
  chunked_read-ReadsBody s n {body} a = elim a.waits [
    | over f z b ↦
        idle (chunked_read_next v fuel s n z s (next_chunk_finished v fuel s n z f) ∙ rw f refl)
          (λ q. b) (λ q. absurd (false≢true (sym q ∙ f))) a
    | within g c m ↦ elim (Bool-cases (ltb 0 s.chunk_left)) [
      | inr e ↦
          let z : s.chunk_left ≡ 0 = ground (arith, e) in
          between-ReadsBody s n a g z
            (subst (λ (k : ℕ). Chunks s.header_line rest k (content s.backend) body) z c)
      | inl e ↦
          let left : (s.chunk_left == 0) ≡ false = ground (arith, e) in
          subst
            (λ (r : Option (Err × (List ℕ × (Bool × Chunked S)))).
              ReadsBody source looks fuel rest s n body r)
            (sym (chunked_read_within v fuel s n left))
            (data_left-ReadsBody source looks fuel rest s n a.backend-Valid a.enough g
              (ground (arith, e)) m c)
    ]
  ]
