-- ===== src/Http/ContentLength/Whole.antt =====
-- A body of a known length is a queue of bytes if the connection is one.
use avs_commons.Common.{
  ℕ, true, false, ◌&&◌, some, ◌≡◌, refl, sym, ap, ◌∙◌, ◌≤◌, ◌<◌, ◌-◌, ◌==◌, ltb, min, List, [],
  length, length-take, length-drop, take, take-take, drop, drop-take, Bool-cases, inl, inr, arith,
}
use avs_commons.Common.Word.{size_mod}
use avs_commons.Http.ContentLength.{
  ContentLength, take_off, end_read, content_length_read, content_length_vtable,
}
use avs_commons.Stream
use avs_commons.Stream.{VTable, Err, success, errno, eio}
use avs_commons.Stream.Queue.{ReadsTo, IsSource}

module _ {S : Type 0} {v : VTable S} {Valid : S → Type 0} {content : S → List ℕ}
    (source : IsSource v Valid content) where
  -- The connection has at least the bytes of the body.
  pub record IsWhole (s : ContentLength S) : Type 0 where
    pub backend-Valid : Valid s.backend
    pub there : s.content_left ≤ length (content s.backend)
    pub is_size : s.content_left < size_mod

  abbrev pub body : ContentLength S → List ℕ
  body s = take s.content_left (content s.backend)

  pub content_length_read_lem :
      (s : ContentLength S) (n : ℕ) (h : Valid s.backend)
      → 0 < min n s.content_left
      → let r = source.reads_to s.backend (min n s.content_left) h in
        content_length_read v s n
        ≡ some (
            end_read success
              (take r.count (content s.backend))
              r.finished
              (take_off s (length (take r.count (content s.backend))) r.after))
  unfolding content_length_read
  content_length_read_lem s n h k =
      let some_bytes : (min n s.content_left == 0) ≡ false = ground (arith, k) in
      let r = source.reads_to s.backend (min n s.content_left) h in rw some_bytes (rw r.reads refl)

  content_length_read_idle :
      (s : ContentLength S) (n : ℕ)
      → min n s.content_left ≡ 0
      → content_length_read v s n ≡ some (end_read success [] false s)
  unfolding content_length_read
  content_length_read_idle s n k = rw k refl

  pub take_off_lem :
      (s : ContentLength S) (count : ℕ) (t : S)
      → count ≤ s.content_left
      → s.content_left < size_mod
      → (take_off s count t).content_left ≡ s.content_left - count
  unfolding take_off
  take_off_lem s count t k w = omega (arith, k, w)

  module _ (setsock : S → S) (s : ContentLength S) (n : ℕ) (h : IsWhole s) where
    read_some-ReadsTo :
        0 < min n s.content_left → ReadsTo (content_length_vtable v setsock) IsWhole body s n
    unfolding content_length_vtable Stream.read
    read_some-ReadsTo k = record {
      count = r.count;
      finished = after.content_left == 0;
      after = after;
      reads = content_length_read_lem s n h.backend-Valid k ∙ shown;
      few = omega (arith, r.few);
      there = omega (arith, r.few, h.there, length-take s.content_left all);
      rest =
          ap (λ (l : List ℕ). take after.content_left l) r.rest
          ∙ ap (λ (j : ℕ). take j (drop r.count all)) left
          ∙ sym (drop-take r.count s.content_left all);
      ends = λ e. ap (λ (j : ℕ). take j (content r.after)) (zero_of after.content_left e);
      goes_on = λ e j. elim (Bool-cases r.finished) [
        | inr f ↦ r.goes_on f k
        | inl f ↦ absurd (some_of after.content_left e (all_gone f))
      ];
      after-Valid = record {
        backend-Valid = r.after-Valid;
        there =
            omega
              (arith, left, h.there, ap (λ (l : List ℕ). length l) r.rest, length-drop r.count all);
        is_size = omega (arith, left, h.is_size);
      };
    }
      where
        all : List ℕ
        all = content s.backend

        r : ReadsTo v Valid content s.backend (min n s.content_left)
        r = source.reads_to s.backend (min n s.content_left) h.backend-Valid

        got : List ℕ
        got = take r.count all

        count_is : length got ≡ r.count
        count_is = omega (arith, length-take r.count all, r.there)

        after : ContentLength S
        after = take_off s (length got) r.after

        left : after.content_left ≡ s.content_left - r.count
        left =
            take_off_lem s (length got) r.after (omega (arith, count_is, r.few)) h.is_size
            ∙ ap (λ (j : ℕ). s.content_left - j) count_is

        all_gone : r.finished ≡ true → after.content_left ≡ 0
        all_gone f = omega (
          arith,
          left,
          h.there,
          r.few,
          length-drop r.count all,
          ap (λ (l : List ℕ). length l) (sym r.rest ∙ r.ends f),
        )

        zero_of : (j : ℕ) → (j == 0) ≡ true → j ≡ 0
        zero_of j e = ground (arith, e)

        some_of : (j : ℕ) → (j == 0) ≡ false → j ≡ 0 → ⊥
        some_of j e f = ground (arith, e, f)

        no_more : (r.finished && ltb 0 after.content_left) ≡ false
        no_more = elim (Bool-cases r.finished) [
          | inr f ↦ rw f refl
          | inl f ↦ rw (f, all_gone f) refl
        ]

        shown :
            some (end_read success got r.finished after)
            ≡ some (success, (take r.count (body s), (after.content_left == 0, after)))
        shown =
            unfold end_read in
            rw no_more (
              ap (λ (l : List ℕ). some (success, (l, (after.content_left == 0, after))))
                (sym (take-take r.count s.content_left all (omega (arith, r.few)))))

    read_none-ReadsTo :
        min n s.content_left ≡ 0 → ReadsTo (content_length_vtable v setsock) IsWhole body s n
    unfolding content_length_vtable Stream.read
    read_none-ReadsTo k = record {
      count = 0;
      finished = s.content_left == 0;
      after = s;
      reads = content_length_read_idle s n k ∙ unfold end_read in refl;
      few = omega arith;
      there = omega arith;
      rest = refl;
      ends = λ e.
          let z : s.content_left ≡ 0 = ground (arith, e) in
          ap (λ (j : ℕ). take j (content s.backend)) z;
      goes_on = λ e j. absurd (ground (arith, e, j, k));
      after-Valid = h;
    }

  -- Over a connection that is a queue of bytes, with at least the bytes of the body: the receiver of a body
  -- of a known length is a queue of just the bytes of the body, at whose end the message is finished.
  pub content_length-IsSource :
      (setsock : S → S) → IsSource (content_length_vtable v setsock) IsWhole body
  content_length-IsSource setsock = record {
    reads_to = λ s n h. elim (Bool-cases (ltb 0 (min n s.content_left))) [
      | inl e ↦ read_some-ReadsTo setsock s n h (ground (arith, e))
      | inr e ↦ read_none-ReadsTo setsock s n h (ground (arith, e))
    ];
  }
