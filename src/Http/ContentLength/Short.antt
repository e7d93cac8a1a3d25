-- ===== src/Http/ContentLength/Short.antt =====
-- A body that ends before its length, in src/http/body_receivers/avs_content_length.c.
use avs_commons.Common.{
  ℕ, Bool, true, false, ◌&&◌, Option, some, ◌≡◌, refl, sym, ap, ◌∙◌, ◌≤◌, ◌<◌, ◌-◌, ◌==◌, ltb, min,
  if◌then◌else◌, List, [], length, length-take, length-drop, take, drop, Bool-cases, inl, inr,
  arith,
}
use avs_commons.Common.Word.{size_mod}
use avs_commons.Http.ContentLength.{ContentLength, take_off, end_read, content_length_read}
use avs_commons.Http.ContentLength.Whole.{content_length_read_lem, take_off_lem}
use avs_commons.Stream.{VTable, Err, success, errno, eio, is_ok}
use avs_commons.Stream.Queue.{ReadsTo, IsSource}
use mathlib.Core.Bool.{false≢true}

module _ {S : Type 0} {v : VTable S} {Valid : S → Type 0} {content : S → List ℕ}
    (source : IsSource v Valid content) where
  -- The connection has fewer bytes than the body should have.
  pub record IsShort (s : ContentLength S) : Type 0 where
    pub backend-Valid : Valid s.backend
    pub missing : length (content s.backend) < s.content_left
    pub is_size : s.content_left < size_mod

  -- A read takes bytes from the front, or fails, and never tells that the message is finished.
  pub record ReadsShort (s : ContentLength S) (n : ℕ)
      (result : Option (Err × (List ℕ × (Bool × ContentLength S)))) : Type 0 where
    pub err : Err
    pub count : ℕ
    pub after : ContentLength S
    pub reads : result ≡ some (err, (take count (content s.backend), (false, after)))
    pub few : count ≤ n
    pub there : count ≤ length (content s.backend)
    pub rest : content after.backend ≡ drop count (content s.backend)
    pub goes_on : is_ok err ≡ true → 0 < count
    pub at_end : content s.backend ≡ [] → err ≡ errno eio
    pub fails : is_ok err ≡ false → err ≡ errno eio
    pub after-IsShort : IsShort after

  -- Over a connection that is a queue of fewer bytes than the length that was told, a read of
  -- avs_content_length.c of at least one byte takes bytes that wait from the front, at most as many as are asked
  -- for, and returns AVS_OK only if it takes some; the only error is AVS_EIO, and with no byte waiting it
  -- returns this error; it never tells that the message is finished, and leaves the receiver
  -- in the same situation. So the end of such a body cannot be mistaken for the end of the message.
  pub content_length_read-ReadsShort :
      (s : ContentLength S) (n : ℕ) → IsShort s → 0 < n → ReadsShort s n (content_length_read v s n)
  unfolding take_off
  content_length_read-ReadsShort s n h k = record {
    err = err;
    count = r.count;
    after = after;
    reads = content_length_read_lem source s n h.backend-Valid some_bytes ∙ shown;
    few = omega (arith, r.few);
    there = r.there;
    rest = r.rest;
    at_end = λ e. elim (Bool-cases r.finished) [
      | inl f ↦ is_eio f
      | inr f ↦
          absurd (omega (arith, r.goes_on f some_bytes, r.there, ap (λ (l : List ℕ). length l) e))
    ];
    goes_on = λ o. elim (Bool-cases r.finished) [
      | inr f ↦ r.goes_on f some_bytes
      | inl f ↦ absurd (false≢true (sym (failed f) ∙ o))
    ];
    fails = λ o. elim (Bool-cases r.finished) [
      | inr f ↦ absurd (false≢true (sym o ∙ went_well f))
      | inl f ↦ is_eio f
    ];
    after-IsShort = record {
      backend-Valid = r.after-Valid;
      missing = still;
      is_size = omega (arith, left, h.is_size);
    };
  }
    where
      all : List ℕ
      all = content s.backend

      some_bytes : 0 < min n s.content_left
      some_bytes = omega (arith, k, h.missing)

      r : ReadsTo v Valid content s.backend (min n s.content_left)
      r = source.reads_to s.backend (min n s.content_left) h.backend-Valid

      got : List ℕ
      got = take r.count all

      count_is : length got ≡ r.count
      count_is = omega (arith, length-take r.count all, r.there)

      after : ContentLength S
      after = take_off s (length got) r.after

      left : after.content_left ≡ s.content_left - r.count
      left =
          take_off_lem source s (length got) r.after (omega (arith, count_is, r.few)) h.is_size
          ∙ ap (λ (j : ℕ). s.content_left - j) count_is

      still : length (content after.backend) < after.content_left
      still = omega (
        arith,
        left,
        h.missing,
        r.there,
        length-drop r.count all,
        ap (λ (l : List ℕ). length l) r.rest,
      )

      more : ltb 0 after.content_left ≡ true
      more = ground (arith, still)

      unfinished : (after.content_left == 0) ≡ false
      unfinished = ground (arith, still)

      err : Err
      err = if r.finished && ltb 0 after.content_left then errno eio else success

      is_eio : r.finished ≡ true → err ≡ errno eio
      is_eio f = rw (f, more) refl

      failed : r.finished ≡ true → is_ok err ≡ false
      failed f = rw (f, more) refl

      went_well : r.finished ≡ false → is_ok err ≡ true
      went_well f = rw f refl

      shown : some (end_read success got r.finished after) ≡ some (err, (got, (false, after)))
      shown = unfold end_read in ap (λ (b : Bool). some (err, (got, (b, after)))) unfinished
