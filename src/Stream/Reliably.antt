-- ===== src/Stream/Reliably.antt =====
-- `avs_stream_read_reliably` of src/stream/avs_stream.c, over any stream that is a queue of bytes.
use avs_commons.Stream.{VTable, Err, success, eof, read, read_loop, read_reliably}
use avs_commons.Stream.Queue.{IsSource}
use mathlib.Core.Bool.{false≢true}
use avs_commons.Common.{
  ℕ, zero, suc, Bool, true, false, ◌&&◌, Option, some, ◌≡◌, refl, sym, ap, ◌∙◌, ◌≤◌, ◌<◌, ◌+◌, ◌-◌,
  ◌==◌, ltb, leb, if◌then◌else◌, List, [], ◌++◌, length, length-append, length-take, length-drop,
  take, take_more, drop, drop-drop, drop-nil, take-nil, append_assoc, append-nil, arith,
}

module _ {S : Type 0} (v : VTable S) where
  pub read_loop-step :
      (fuel : ℕ) (s : S) (n : ℕ) (bytes : List ℕ) (got : List ℕ) (finished : Bool) (after : S)
      → 0 < n
      → read v s n ≡ some (success, (got, (finished, after)))
      → read_loop v (suc fuel) s (length bytes + n) bytes false
        ≡ read_loop v fuel after (length bytes + n) (bytes ++ got) finished
  unfolding read_loop
  read_loop-step fuel s n bytes got finished after h e =
      let room : ltb (length bytes) (length bytes + n) ≡ true = ground (arith, h) in
      let left : length bytes + n - length bytes ≡ n = omega arith in rw room (rw left (rw e refl))

  pub read_loop-finished :
      (fuel : ℕ) (s : S) (n : ℕ) (bytes : List ℕ)
      → read_loop v (suc fuel) s (length bytes + n) bytes true
        ≡ some (if leb n 0 then success else eof, (bytes, s))
  unfolding read_loop
  read_loop-finished fuel s n bytes =
      let never : (ltb (length bytes) (length bytes + n) && false) ≡ false = ground arith in
      let test : (length bytes == length bytes + n) ≡ leb n 0 = ground arith in
      rw never (rw test refl)

  pub read_loop-full :
      (fuel : ℕ) (s : S) (bytes : List ℕ)
      → read_loop v (suc fuel) s (length bytes + 0) bytes false ≡ some (success, (bytes, s))
  unfolding read_loop
  read_loop-full fuel s bytes =
      let full : ltb (length bytes) (length bytes + 0) ≡ false = ground arith in
      let test : (length bytes == length bytes + 0) ≡ true = ground arith in rw full (rw test refl)

-- Two reads after another are one.
pub joined :
    (bytes xs ys : List ℕ) (c n : ℕ)
    → c ≤ n
    → c ≤ length xs
    → ys ≡ drop c xs
    → ◌≡◌ {A = Err × List ℕ}
        (if leb (n - c) (length ys) then success else eof, (bytes ++ take c xs) ++ take (n - c) ys)
        (if leb n (length xs) then success else eof, bytes ++ take n xs)
joined bytes xs ys c n h k e =
    let test : leb (n - c) (length ys) ≡ leb n (length xs) =
      ground (arith, ap (λ (l : List ℕ). length l) e, length-drop c xs) in
    rw test (
      rw e (
        ap (λ l. (if leb n (length xs) then success else eof, l))
          (append_assoc bytes (take c xs) (take (n - c) (drop c xs))
            ∙ ap (λ l. bytes ++ l) (take_more xs c n h))))

fuel_left :
    (fuel m count : ℕ) (finished : Bool)
    → suc m + 1 < suc fuel
    → (finished ≡ false → 0 < suc m → 0 < count)
    → (if finished then 0 else suc m - count + 1) < fuel
fuel_left fuel m count true h k = omega (arith, h)
fuel_left fuel m count false h k = omega (arith, h, k refl (omega arith))

module _ {S : Type 0} {v : VTable S} {Valid : S → Type 0} {content : S → List ℕ}
    (source : IsSource v Valid content) where
  -- The result of a loop that has `bytes` already and wants `n` more.
  record Reliably (s : S) (n : ℕ) (bytes : List ℕ) (result : Option (Err × (List ℕ × S)))
      : Type 0 where
    after : S
    returns :
        result
        ≡ some (
          if leb n (length (content s)) then success else eof,
          (bytes ++ take n (content s), after),
        )
    rest : content after ≡ drop n (content s)
    after-Valid : Valid after

  read_loop-Reliably :
      (fuel : ℕ) (s : S) (n : ℕ) (bytes : List ℕ) (finished : Bool)
      → (if finished then 0 else n + 1) < fuel
      → Valid s
      → (finished ≡ true → content s ≡ [])
      → Reliably s n bytes (read_loop v fuel s (length bytes + n) bytes finished)
  read_loop-Reliably zero s n bytes finished h k e = absurd (omega (arith, h))
  read_loop-Reliably (suc fuel) s n bytes true h k e = record {
    after = s;
    returns = read_loop-finished v fuel s n bytes ∙ rw (e refl) (rw (take-nil n, append-nil) refl);
    rest = rw (e refl) (sym (drop-nil n));
    after-Valid = k;
  }
  read_loop-Reliably (suc fuel) s zero bytes false h k e = record {
    after = s;
    returns =
        read_loop-full v fuel s bytes
        ∙ (let none_left : leb 0 (length (content s)) ≡ true = ground arith in
            rw none_left (ap (λ l. some (success, (l, s))) (sym (append-nil bytes))));
    rest = refl;
    after-Valid = k;
  }
  read_loop-Reliably (suc fuel) s (suc m) bytes false h k e =
      let r = source.reads_to s (suc m) k in
      let got = take r.count (content s) in
      let place : r.count + (suc m - r.count) ≡ suc m = omega (arith, r.few) in
      let enough = fuel_left fuel m r.count r.finished h r.goes_on in
      let more =
        read_loop-Reliably fuel r.after (suc m - r.count) (bytes ++ got) r.finished enough
          r.after-Valid r.ends in
      record {
        after = more.after;
        returns =
            read_loop-step v fuel s (suc m) bytes got r.finished r.after (omega arith) r.reads
            ∙ ap (λ l. read_loop v fuel r.after l (bytes ++ got) r.finished)
                (omega
                  (arith, length-append bytes got, length-take r.count (content s), r.few, r.there))
            ∙ more.returns
            ∙ ap (λ q. some (q.0, (q.1, more.after)))
                (joined bytes (content s) (content r.after) r.count (suc m) r.few r.there r.rest);
        rest =
            more.rest
            ∙ ap (drop (suc m - r.count)) r.rest
            ∙ drop-drop (suc m - r.count) r.count (content s)
            ∙ ap (λ l. drop l (content s)) place;
        after-Valid = more.after-Valid;
      }

  -- Over any stream that is a queue of bytes, avs_stream_read_reliably ends, without a fault; it takes as
  -- many bytes as are asked for from the front of the queue, and returns AVS_OK; or, if there are fewer,
  -- it takes all of them and returns AVS_EOF.
  pub read_reliably_lem :
      (s : S) (n : ℕ)
      → Valid s
      → (after : S) × ((read_reliably v s n
            ≡ some
                (if leb n (length (content s)) then success else eof, (take n (content s), after)))
          × ((content after ≡ drop n (content s)) × Valid after))
  unfolding read_reliably
  read_reliably_lem s n k =
      let r =
        read_loop-Reliably (suc (suc n)) s n [] false (omega arith) k
          (λ e. absurd (false≢true e)) in
      (
        r.after,
        (
          ap (λ l. read_loop v (suc (suc n)) s l [] false) (omega arith) ∙ r.returns,
          (r.rest, r.after-Valid),
        ),
      )
