-- ===== src/Stream/Copy.antt =====
-- `avs_stream_write` and `avs_stream_copy` of src/stream/avs_stream.c, over streams that are queues.
use avs_commons.Stream.{VTable, Err, success, errno, emsgsize, is_ok, write, copy}
use avs_commons.Stream.Queue.{IsSource, wrote, refused, IsSink}
use mathlib.Core.Bool.{false≢true}
use avs_commons.Common.{
  ℕ, zero, suc, true, false, not, Option, some, ◌≡◌, refl, sym, ap, ◌∙◌, ◌≤◌, ◌<◌, ◌+◌, ◌==◌,
  if◌then◌else◌, List, [], ◌∷◌, ◌++◌, length, length-take, length-drop, take, take-take, take_add,
  drop, append_assoc, append-nil, Bool-cases, if-split, inl, inr, arith,
}

module _ {T : Type 0} {w : VTable T} {Valid : T → Type 0} {content : T → List ℕ}
    (sink : IsSink w Valid content) where
  -- What `write` did: `count` bytes, and all of them if it returns AVS_OK.
  pub record Writes (t : T) (bytes : List ℕ) (result : Option (Err × T)) : Type 0 where
    pub err : Err
    pub count : ℕ
    pub after : T
    pub writes : result ≡ some (err, after)
    pub few : count ≤ length bytes
    pub appended : content after ≡ content t ++ take count bytes
    pub complete : is_ok err ≡ true → count ≡ length bytes
    pub after-Valid : Valid after

  pub write-Writes :
      (t : T) (bytes : List ℕ)
      → Valid t
      → length bytes < 9223372036854775808
      → Writes t bytes (write w t bytes)
  unfolding write
  write-Writes t bytes k small = elim (sink.writes_to t bytes k small) [
    | wrote n after e few appended valid ↦ record {
      err = if n == length bytes then success else errno emsgsize;
      count = n;
      after = after;
      writes =
          rw e (elim (Bool-cases (n == length bytes)) [ inl f ↦ rw f refl | inr f ↦ rw f refl ]);
      few = few;
      appended = appended;
      complete = λ o. ground (arith, o);
      after-Valid = valid;
    }
    | refused err n after bad e same valid ↦ record {
      err = err;
      count = 0;
      after = after;
      writes = rw e (rw bad refl);
      few = omega arith;
      appended = same ∙ sym (append-nil (content t));
      complete = λ o. absurd (false≢true (sym bad ∙ o));
      after-Valid = valid;
    }
  ]

  -- `copy` writes only if there are bytes.
  pub any_bytes-Writes :
      (t : T) (bytes : List ℕ)
      → Valid t
      → length bytes < 9223372036854775808
      → Writes t bytes (if length bytes == 0 then some (success, t) else write w t bytes)
  any_bytes-Writes t [] k small = record {
    err = success;
    count = 0;
    after = t;
    writes = refl;
    few = omega arith;
    appended = sym (append-nil (content t));
    complete = λ o. refl;
    after-Valid = k;
  }
  any_bytes-Writes t (b ∷ bytes) k small =
      let more : (length (b ∷ bytes) == 0) ≡ false = ground arith in
      rw more (write-Writes t (b ∷ bytes) k small)

-- Nothing is left behind the front, so that the front is all.
all_of : (c : ℕ) (xs ys : List ℕ) → c ≤ length xs → ys ≡ drop c xs → ys ≡ [] → c ≡ length xs
all_of c xs ys h e f = omega (arith, length-drop c xs, h, ap (λ (l : List ℕ). length l) (sym e ∙ f))

module _ {S T : Type 0} {v : VTable S} {w : VTable T} {ValidS : S → Type 0} {contentS : S → List ℕ}
    {ValidT : T → Type 0} {contentT : T → List ℕ} (source : IsSource v ValidS contentS)
    (sink : IsSink w ValidT contentT) where
  -- What a copy did: `count` bytes from the front of the input are behind what was in the output.
  pub record Copies (output : T) (input : S) (result : Option (Err × (T × S))) : Type 0 where
    pub err : Err
    pub count : ℕ
    pub after_output : T
    pub after_input : S
    pub copies : result ≡ some (err, (after_output, after_input))
    pub there : count ≤ length (contentS input)
    pub appended : contentT after_output ≡ contentT output ++ take count (contentS input)
    pub complete :
        is_ok err ≡ true → (count ≡ length (contentS input)) × (contentS after_input ≡ [])

  -- Between two streams that are queues of bytes, with fuel for one round more than there are bytes and
  -- another, avs_stream_copy ends without a fault, and what it adds behind the output is the front of the
  -- input, in order; when it returns AVS_OK, it is the whole input, and no input is left.
  pub copy-Copies :
      (fuel : ℕ) (output : T) (input : S)
      → length (contentS input) + 1 < fuel
      → ValidT output
      → ValidS input
      → Copies output input (copy v w fuel output input)
  unfolding copy
  copy-Copies zero output input h k l = elim h [ ]
  copy-Copies (suc fuel) output input h k l =
      let r = source.reads_to input 512 l in
      let got = take r.count (contentS input) in
      let p =
        any_bytes-Writes sink output got k
          (omega (arith, length-take r.count (contentS input), r.few)) in
      let same : is_ok p.err ≡ true → p.count ≡ r.count =
        λ o. p.complete o ∙ omega (arith, length-take r.count (contentS input), r.there) in
      let front : take p.count got ≡ take p.count (contentS input) =
        take-take p.count r.count (contentS input)
          (omega (arith, p.few, length-take r.count (contentS input), r.there)) in
      rw r.reads (
        rw p.writes (
          if-split (Copies output input) (not (is_ok p.err))
            (λ e. record {
              err = p.err;
              count = p.count;
              after_output = p.after;
              after_input = r.after;
              copies = refl;
              there = omega (arith, p.few, length-take r.count (contentS input), r.there);
              appended = p.appended ∙ ap (λ x. contentT output ++ x) front;
              complete = λ o. absurd (false≢true (sym (ground (arith, e)) ∙ o));
            })
            (λ e.
              if-split (Copies output input) r.finished
                (λ f. record {
                  err = success;
                  count = p.count;
                  after_output = p.after;
                  after_input = r.after;
                  copies = refl;
                  there = omega (arith, p.few, length-take r.count (contentS input), r.there);
                  appended = p.appended ∙ ap (λ x. contentT output ++ x) front;
                  complete = λ o. (
                    same (ground (arith, e))
                        ∙ all_of r.count (contentS input) (contentS r.after) r.there r.rest
                            (r.ends f),
                    r.ends f,
                  );
                })
                (λ f.
                  if-split (Copies output input) (length got == 0)
                    (λ g. absurd (
                      ground (
                        arith,
                        g,
                        r.goes_on f (omega arith),
                        length-take r.count (contentS input),
                        r.there,
                      )))
                    (λ g.
                      let m =
                        copy-Copies fuel p.after r.after
                          (omega (
                            arith,
                            h,
                            ap (λ (x : List ℕ). length x) r.rest,
                            length-drop r.count (contentS input),
                            r.there,
                            r.goes_on f (omega arith),
                          ))
                          p.after-Valid r.after-Valid in
                      let full = same (ground (arith, e)) in
                      record {
                        err = m.err;
                        count = r.count + m.count;
                        after_output = m.after_output;
                        after_input = m.after_input;
                        copies = m.copies;
                        there = omega (
                          arith,
                          m.there,
                          ap (λ (x : List ℕ). length x) r.rest,
                          length-drop r.count (contentS input),
                          r.there,
                        );
                        appended =
                            m.appended
                            ∙ ap (λ x. x ++ take m.count (contentS r.after))
                                (p.appended
                                  ∙ ap (λ x. contentT output ++ x)
                                      (front ∙ ap (λ n. take n (contentS input)) full))
                            ∙ ap
                                (λ x.
                                  (contentT output ++ take r.count (contentS input))
                                  ++ take m.count x)
                                r.rest
                            ∙ append_assoc (contentT output) (take r.count (contentS input))
                                (take m.count (drop r.count (contentS input)))
                            ∙ ap (λ x. contentT output ++ x)
                                (take_add r.count m.count (contentS input));
                        complete = λ o. (
                          omega (
                            arith,
                            (m.complete o).0,
                            ap (λ (x : List ℕ). length x) r.rest,
                            length-drop r.count (contentS input),
                            r.there,
                          ),
                          (m.complete o).1,
                        );
                      })))))
