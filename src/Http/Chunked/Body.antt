-- ===== src/Http/Chunked/Body.antt =====
-- chunked_read of src/http/body_receivers/avs_chunked_body_receiver.c over a well-formed message.
use avs_commons.Common.{
  ℕ, Bool, true, false, Option, some, ◌≡◌, refl, sym, ap, ◌∙◌, ◌≤◌, ◌<◌, ◌==◌, min, List, [], ◌∷◌,
  ◌++◌, length, length-append, length-take, length-drop, take, take-append, drop, drop-append,
  Bool-cases, inl, inr, arith,
}
use avs_commons.Common.Word.{size_mod, sub_size}
use avs_commons.Http.Chunked.{Chunked, getline_reader, read_data}
use avs_commons.Http.Chunked.Headline.{GivesLines}
use avs_commons.Http.Chunked.Wire.{Chunks, in_data, blank, headline, last, length-Chunks}
use mathlib.Core.Bool.{false≢true}
use avs_commons.Stream.{VTable, Err, success}
use avs_commons.Stream.Line.Streams.{getline-room, reader-IsText}
use avs_commons.Stream.Line.Terminated.{getline_helper_lem}
use avs_commons.Stream.Queue.{ReadsTo, IsSource, CanPeek}

chunk_rest :
    (limit : ℕ) (rest d more b : List ℕ) {left : ℕ}
    → left ≡ length d
    → Chunks limit rest 0 more b
    → Chunks limit rest left (d ++ more) (d ++ b)
chunk_rest limit rest [] more b e c = rw e c
chunk_rest limit rest (x ∷ d) more b e c = in_data (x ∷ d) more b (omega arith) e refl refl c

module _ {S : Type 0} {v : VTable S} {Valid : S → Type 0} {content : S → List ℕ}
    (source : IsSource v Valid content) (looks : CanPeek v Valid content) (fuel : ℕ)
    (rest : List ℕ) where
  pub reader-GivesLines : GivesLines (getline_reader v true fuel) Valid content
  unfolding getline_reader
  reader-GivesLines = record {
    gives = λ p limit wire line more h t s.
        let some_room : (limit == 0) ≡ false = ground (arith, s.fits) in
        let g =
          getline_helper_lem (reader-IsText source looks) p limit line s.end more s.fits s.plain
            s.is_end (t ∙ s.splits) h in
        (g.1.0, rw (getline-room v p limit some_room ∙ g.1.1.0) refl, g.1.1.1.0, g.1.1.1.1);
  }

  -- What is still to be read of the message.
  pub data Waits (s : Chunked S) (body : List ℕ) : Type 0 where
    over : s.finished ≡ true → s.chunk_left ≡ 0 → body ≡ [] → Waits s body
    within :
        s.finished ≡ false
        → Chunks s.header_line rest s.chunk_left (content s.backend) body
        → s.chunk_left < size_mod
        → Waits s body

  pub record IsReady (s : Chunked S) (body : List ℕ) : Type 0 where
    pub backend-Valid : Valid s.backend
    pub enough : length (content s.backend) < fuel
    pub waits : Waits s body

  -- A read returns AVS_OK and bytes from the front of the body, and makes progress.
  pub record ReadsBody (s : Chunked S) (n : ℕ) (body : List ℕ)
      (result : Option (Err × (List ℕ × (Bool × Chunked S)))) : Type 0 where
    pub count : ℕ
    pub finished : Bool
    pub after : Chunked S
    pub reads : result ≡ some (success, (take count body, (finished, after)))
    pub few : count ≤ n
    pub there : count ≤ length body
    pub ends : finished ≡ true → drop count body ≡ []
    pub goes_on :
        finished ≡ false → 0 < n → length (content after.backend) < length (content s.backend)
    pub after-IsReady : IsReady after (drop count body)

  module _ (s : Chunked S) (n : ℕ) (d more b : List ℕ) (h : Valid s.backend)
      (enough : length (content s.backend) < fuel) (going : s.finished ≡ false)
      (some_left : 0 < length d) (left : s.chunk_left ≡ length d) (small : s.chunk_left < size_mod)
      (wire : content s.backend ≡ d ++ more) (others : Chunks s.header_line rest 0 more b) where
    r : ReadsTo v Valid content s.backend (min n s.chunk_left)
    r = source.reads_to s.backend (min n s.chunk_left) h

    few : r.count ≤ length d
    few = omega (arith, r.few, left)

    bytes_are : take r.count (content s.backend) ≡ take r.count (d ++ b)
    bytes_are =
        ap (λ (l : List ℕ). take r.count l) wire
        ∙ take-append r.count d more few
        ∙ sym (take-append r.count d b few)

    counted : length (take r.count (content s.backend)) ≡ r.count
    counted = omega (arith, length-take r.count (content s.backend), r.there)

    left_is : content r.after ≡ drop r.count d ++ more
    left_is = r.rest ∙ ap (λ (l : List ℕ). drop r.count l) wire ∙ drop-append r.count d more few

    open_end : r.finished ≡ false
    open_end = elim (Bool-cases r.finished) [
      | inr f ↦ f
      | inl f ↦ absurd (
          omega (
            arith,
            length-Chunks others,
            ap (λ (l : List ℕ). length l) (sym left_is ∙ r.ends f),
            length-append (drop r.count d) more,
          ))
    ]

    abbrev next : Chunked S
    next = record s {
      backend = r.after;
      chunk_left = sub_size s.chunk_left (length (take r.count (content s.backend)));
    }

    next_left : next.chunk_left ≡ length (drop r.count d)
    next_left = omega (arith, counted, left, few, small, length-drop r.count d)

    read_data_lem :
        read_data v true fuel s n ≡ some (success, (take r.count (d ++ b), (false, next)))
    unfolding read_data
    read_data_lem =
        rw r.reads (rw open_end (ap (λ (l : List ℕ). some (success, (l, (false, next)))) bytes_are))

    body_left : drop r.count (d ++ b) ≡ drop r.count d ++ b
    body_left = drop-append r.count d b few

    next-Chunks :
        Chunks s.header_line rest next.chunk_left (content r.after) (drop r.count (d ++ b))
    next-Chunks =
        rw (left_is, body_left)
          (chunk_rest s.header_line rest (drop r.count d) more b next_left others)

    read_data-ReadsBody : ReadsBody s n (d ++ b) (read_data v true fuel s n)
    read_data-ReadsBody = record {
      count = r.count;
      finished = false;
      after = next;
      reads = read_data_lem;
      few = omega (arith, r.few);
      there = omega (arith, few, length-append d b);
      ends = λ e. absurd (false≢true e);
      goes_on = λ e k.
          let some_bytes : 0 < r.count = r.goes_on open_end (omega (arith, k, left, some_left)) in
          omega (
            arith,
            some_bytes,
            r.there,
            ap (λ (l : List ℕ). length l) r.rest,
            length-drop r.count (content s.backend),
          );
      after-IsReady = record {
        backend-Valid = r.after-Valid;
        enough = omega (
          arith,
          enough,
          ap (λ (l : List ℕ). length l) r.rest,
          length-drop r.count (content s.backend),
        );
        waits =
            within going next-Chunks (omega (arith, next_left, left, small, length-drop r.count d));
      };
    }

  -- With something left of the chunk.
  pub data_left-ReadsBody :
      {body : List ℕ} (s : Chunked S) (n : ℕ)
      → Valid s.backend
      → length (content s.backend) < fuel
      → s.finished ≡ false
      → 0 < s.chunk_left
      → s.chunk_left < size_mod
      → Chunks s.header_line rest s.chunk_left (content s.backend) body
      → ReadsBody s n body (read_data v true fuel s n)
  data_left-ReadsBody s n h k g z m c = split refl refl c
    where
      split :
          {left : ℕ} {wire body : List ℕ}
          → s.chunk_left ≡ left
          → content s.backend ≡ wire
          → Chunks s.header_line rest left wire body
          → ReadsBody s n body (read_data v true fuel s n)
      split e w (in_data d more b some_left f x y others) =
          rw y (read_data-ReadsBody s n d more b h k g some_left (e ∙ f) m (w ∙ x) others)
      split e w (blank more f s' c') = absurd (omega (arith, e, f, z))
      split e w (headline line more j f s' h' z' m' c') = absurd (omega (arith, e, f, z))
      split e w (last line more f s' h' t b) = absurd (omega (arith, e, f, z))
