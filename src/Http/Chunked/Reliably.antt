-- ===== src/Http/Chunked/Reliably.antt =====
-- `avs_stream_read_reliably` of src/stream/avs_stream.c over the stream of
-- src/http/body_receivers/avs_chunked_body_receiver.c, with a round for each byte of the connection.
use avs_commons.Common.{
  ℕ, zero, suc, Bool, true, false, Option, some, ◌≡◌, refl, sym, ap, ◌∙◌, ◌<◌, ◌+◌, ◌-◌, leb,
  if◌then◌else◌, List, [], ◌++◌, length, length-append, length-take, take, drop, drop-drop,
  drop-nil, take-nil, append-nil, arith,
}
use avs_commons.Http.Chunked.{Chunked, chunked_read, chunked_vtable}
use avs_commons.Http.Chunked.Body.{IsReady}
use avs_commons.Http.Chunked.Whole.{chunked_read-ReadsBody}
use avs_commons.Stream
use avs_commons.Stream.{VTable, Err, success, eof, read_loop}
use avs_commons.Stream.Queue.{IsSource, CanPeek}
use avs_commons.Stream.Reliably.{read_loop-step, read_loop-finished, read_loop-full, joined}
use mathlib.Core.Bool.{false≢true}
use mathlib.Core.Path.{subst}

pub read_is :
    {S : Type 0} (v : VTable S) (fuel : ℕ) (setsock : S → S) (s : Chunked S) (n : ℕ)
    → Stream.read (chunked_vtable v true fuel setsock) s n ≡ chunked_read v true fuel s n
unfolding chunked_vtable Stream.read
read_is v fuel setsock s n = refl

round_left :
    (rounds here there : ℕ) (finished : Bool)
    → here + 1 < suc rounds
    → (finished ≡ false → there < here)
    → (if finished then 0 else there + 1) < rounds
round_left rounds here there true h k = omega (arith, h)
round_left rounds here there false h k = omega (arith, h, k refl)

module _ {S : Type 0} {v : VTable S} {Valid : S → Type 0} {content : S → List ℕ}
    (source : IsSource v Valid content) (looks : CanPeek v Valid content) (fuel : ℕ) (rest : List ℕ)
    (setsock : S → S) where
  -- The result of a loop that has `bytes` already and wants `n` more.
  pub record Collects (s : Chunked S) (n : ℕ) (bytes body : List ℕ)
      (result : Option (Err × (List ℕ × Chunked S))) : Type 0 where
    pub after : Chunked S
    pub returns :
        result ≡ some (if leb n (length body) then success else eof, (bytes ++ take n body, after))
    pub after-IsReady : IsReady source looks fuel rest after (drop n body)

  read_loop-Collects :
      (rounds : ℕ) (s : Chunked S) (n : ℕ) (bytes body : List ℕ) (finished : Bool)
      → (if finished then 0 else length (content s.backend) + 1) < rounds
      → IsReady source looks fuel rest s body
      → (finished ≡ true → body ≡ [])
      → Collects s n bytes body (
          read_loop (chunked_vtable v true fuel setsock) rounds s (length bytes + n) bytes finished)
  read_loop-Collects zero s n bytes body finished h k e = absurd (omega (arith, h))
  read_loop-Collects (suc rounds) s n bytes body true h k e = record {
    after = s;
    returns =
        read_loop-finished (chunked_vtable v true fuel setsock) rounds s n bytes
        ∙ rw (e refl) (rw (take-nil n, append-nil) refl);
    after-IsReady =
        subst (λ (b : List ℕ). IsReady source looks fuel rest s b)
          (e refl ∙ sym (ap (λ (b : List ℕ). drop n b) (e refl) ∙ drop-nil n)) k;
  }
  read_loop-Collects (suc rounds) s zero bytes body false h k e = record {
    after = s;
    returns =
        read_loop-full (chunked_vtable v true fuel setsock) rounds s bytes
        ∙ (let none_left : leb 0 (length body) ≡ true = ground arith in
            rw none_left (ap (λ l. some (success, (l, s))) (sym (append-nil bytes))));
    after-IsReady = k;
  }
  read_loop-Collects (suc rounds) s (suc m) bytes body false h k e =
      let r = chunked_read-ReadsBody source looks fuel rest s (suc m) k in
      let got = take r.count body in
      let place : r.count + (suc m - r.count) ≡ suc m = omega (arith, r.few) in
      let enough =
        round_left rounds (length (content s.backend)) (length (content r.after.backend)) r.finished
          h (λ f. r.goes_on f (omega arith)) in
      let more =
        read_loop-Collects rounds r.after (suc m - r.count) (bytes ++ got) (drop r.count body)
          r.finished enough r.after-IsReady r.ends in
      record {
        after = more.after;
        returns =
            read_loop-step (chunked_vtable v true fuel setsock) rounds s (suc m) bytes got
              r.finished r.after (omega arith) (read_is v fuel setsock s (suc m) ∙ r.reads)
            ∙ ap
                (λ l.
                  read_loop (chunked_vtable v true fuel setsock) rounds r.after l (bytes ++ got)
                    r.finished)
                (omega (arith, length-append bytes got, length-take r.count body, r.few, r.there))
            ∙ more.returns
            ∙ ap (λ q. some (q.0, (q.1, more.after)))
                (joined bytes body (drop r.count body) r.count (suc m) r.few r.there refl);
        after-IsReady =
            subst (λ (b : List ℕ). IsReady source looks fuel rest more.after b)
              (drop-drop (suc m - r.count) r.count body ∙ ap (λ l. drop l body) place)
              more.after-IsReady;
      }

  -- Over a connection that is a queue of bytes and can be looked at, with a well-formed rest of a chunked
  -- message at its front: the loop of avs_stream_read_reliably ends, with two rounds more than there are
  -- bytes waiting at the connection; it takes the bytes that are asked for from the front of the decoded
  -- body and returns AVS_OK, or all that are left of it and returns AVS_EOF if there are fewer; and it
  -- leaves the receiver in front of the rest of the body.
  pub read_loop-chunked_read :
      (s : Chunked S) (n rounds : ℕ) {body : List ℕ}
      → IsReady source looks fuel rest s body
      → length (content s.backend) + 1 < rounds
      → Collects s n [] body (read_loop (chunked_vtable v true fuel setsock) rounds s n [] false)
  read_loop-chunked_read s n rounds {body} k h =
      subst
        (λ (l : ℕ).
          Collects s n [] body (read_loop (chunked_vtable v true fuel setsock) rounds s l [] false))
        (omega arith) (read_loop-Collects rounds s n [] body false h k (λ e. absurd (false≢true e)))
