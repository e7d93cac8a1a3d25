-- ===== src/Url/Encoding.antt =====
-- What avs_url_percent_encode of src/url/avs_url.c writes, and that it is decoded again.
use avs_commons.Common.{
  ℕ, true, false, Option, some, List, [], ◌∷◌, ◌++◌, ◌≡◌, refl, sym, ap, ◌∙◌, ◌<◌, ◌+◌,
  if◌then◌else◌, length, take, take_past, take-append, length-append, append_assoc, append-nil,
  Bool-cases, inl, inr, arith,
}
use avs_commons.Stream.{VTable, Err, is_ok, write}
use avs_commons.Stream.Queue.{IsSink}
use avs_commons.Stream.Copy.{Writes, write-Writes, any_bytes-Writes}
use avs_commons.Url.Escape.{escape, must_escape, and_then, write_run, encode_loop}
use mathlib.Core.Bool.{false≢true}

-- The text with the escapes in it.
unfoldable pub encoded : List ℕ → List ℕ → List ℕ
unfolding must_escape escape
encoded unreserved [] = []
encoded unreserved (c ∷ cs) =
    (if must_escape unreserved c then escape c else c ∷ []) ++ encoded unreserved cs

and_then_ok :
    {T : Type 0} (err : Err) (t : T) (next : T → Option (Err × T))
    → is_ok err ≡ true
    → and_then (some (err, t)) next ≡ next t
and_then_ok err t next e = ground (arith, e)

and_then_bad :
    {T : Type 0} (err : Err) (t : T) (next : T → Option (Err × T))
    → is_ok err ≡ false
    → and_then (some (err, t)) next ≡ some (err, t)
and_then_bad err t next e = ground (arith, e)

module _ {T : Type 0} (w : VTable T) (unreserved cs run : List ℕ) (c : ℕ) (t : T) where
  encode_loop-false :
      must_escape unreserved c ≡ false
      → encode_loop w unreserved (c ∷ cs) run t ≡ encode_loop w unreserved cs (run ++ c ∷ []) t
  unfolding encode_loop
  encode_loop-false e = rw (e, encode_loop) refl

  encode_loop-true :
      must_escape unreserved c ≡ true
      → encode_loop w unreserved (c ∷ cs) run t
        ≡ and_then
            (write_run w unreserved t run)
            (λ p. and_then (write w p (escape c)) λ q. encode_loop w unreserved cs [] q)
  unfolding encode_loop
  encode_loop-true e = rw (e, encode_loop) refl

module _ {T : Type 0} {w : VTable T} {Valid : T → Type 0} {content : T → List ℕ}
    (sink : IsSink w Valid content) where
  -- After `xs`, if all of it was written, comes `ys`.
  pub and_then-Writes :
      (t : T) (xs ys : List ℕ) {r : Option (Err × T)} (next : T → Option (Err × T))
      → Writes sink t xs r
      → ((q : T) → Valid q → Writes sink q ys (next q))
      → Writes sink t (xs ++ ys) (and_then r next)
  and_then-Writes t xs ys next a k = elim (Bool-cases (is_ok a.err)) [
    | inr e ↦ record {
      err = a.err;
      count = a.count;
      after = a.after;
      writes = rw a.writes (and_then_bad a.err a.after next e);
      few = omega (arith, a.few, length-append xs ys);
      appended =
          a.appended ∙ ap (λ (l : List ℕ). content t ++ l) (sym (take-append a.count xs ys a.few));
      complete = λ o. absurd (false≢true (sym e ∙ o));
      after-Valid = a.after-Valid;
    }
    | inl e ↦
        let b = k a.after a.after-Valid in
        record {
          err = b.err;
          count = length xs + b.count;
          after = b.after;
          writes = rw a.writes (and_then_ok a.err a.after next e ∙ b.writes);
          few = omega (arith, b.few, length-append xs ys);
          appended =
              b.appended
              ∙ ap (λ (l : List ℕ). l ++ take b.count ys) a.appended
              ∙ rw (a.complete e) (
                  rw (whole xs) (
                    append_assoc (content t) xs (take b.count ys)
                    ∙ ap (λ (l : List ℕ). content t ++ l) (sym (take_past b.count xs ys))));
          complete = λ o. omega (arith, b.complete o, length-append xs ys);
          after-Valid = b.after-Valid;
        }
  ]
    where
      whole : (l : List ℕ) → take (length l) l ≡ l
      whole [] = refl
      whole (x ∷ l) = ap (λ m. x ∷ m) (whole l)

  module _ (unreserved : List ℕ) where
    write_run-Writes :
        (t : T) (run : List ℕ)
        → Valid t
        → length run < 9223372036854775808
        → Writes sink t run (write_run w unreserved t run)
    unfolding write_run
    write_run-Writes t run = any_bytes-Writes sink t run

    pub encode_loop-Writes :
        (input run : List ℕ) (t : T)
        → Valid t
        → length run + length input < 9223372036854775808
        → Writes sink t (run ++ encoded unreserved input) (encode_loop w unreserved input run t)
    unfolding encoded
    encode_loop-Writes [] run t k small =
        rw append-nil (unfold encode_loop in write_run-Writes t run k (omega (arith, small)))
    encode_loop-Writes (c ∷ cs) run t k small = elim (Bool-cases (must_escape unreserved c)) [
      | inr e ↦ rw (encode_loop-false w unreserved cs run c t e) (
          rw e (
            rw (← append_assoc run (c ∷ []) (encoded unreserved cs)) (
              encode_loop-Writes cs (run ++ c ∷ []) t k
                (omega (arith, small, length-append run (c ∷ []))))))
      | inl e ↦ rw (encode_loop-true w unreserved cs run c t e) (
          rw e (
            and_then-Writes t run (escape c ++ encoded unreserved cs)
              (λ p. and_then (write w p (escape c)) λ q. encode_loop w unreserved cs [] q)
              (write_run-Writes t run k (omega (arith, small)))
              (λ p valid.
                and_then-Writes p (escape c) (encoded unreserved cs)
                  (λ q. encode_loop w unreserved cs [] q)
                  (write-Writes sink p (escape c) valid (few c))
                  (λ q ready. encode_loop-Writes cs [] q ready (omega (arith, small))))))
    ]
      where
        few : (d : ℕ) → length (escape d) < 9223372036854775808
        few d = omega arith
