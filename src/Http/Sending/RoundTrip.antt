-- ===== src/Http/Sending/RoundTrip.antt =====
-- What src/http/avs_chunked.c sends, over any connection, src/http/body_receivers reads.
use avs_commons.Common.{
  ℕ, true, false, Option, none, some, ◌≡◌, refl, sym, ap, ◌∙◌, ◌<◌, ◌+◌, List, [], ◌++◌, length,
  arith,
}
use avs_commons.Http.Chunked.{Chunked, chunked_vtable}
use avs_commons.Http.Chunked.Body.{within}
use avs_commons.Http.Chunked.Reliably.{Collects, read_loop-chunked_read}
use avs_commons.Http.Chunked.Wire.{Chunks}
use avs_commons.Http.Sending.{send_chunks}
use avs_commons.Http.Sending.Message.{joined_chunks, AreChunks, CanFinish, send_chunks-Sends}
use avs_commons.Stream.{VTable, Err, is_ok, read_loop}
use avs_commons.Stream.Queue.{IsSource, IsSink, CanPeek}
use mathlib.Core.Path.{subst}

-- A receiver as it is created.
abbrev pub new_receiver : {R : Type 0} → R → ℕ → Chunked R
new_receiver r limit = record { backend = r; header_line = limit; chunk_left = 0; finished = false }

-- The two ends of a connection: what is sent at one may be read at the other.
module _ {S R : Type 0} {v : VTable S} {w : VTable R} {SendValid : S → Type 0} {Valid : R → Type 0}
    {sent : S → List ℕ} {content : R → List ℕ} (sink : IsSink v SendValid sent)
    (finish : CanFinish v SendValid sent) (source : IsSource w Valid content)
    (looks : CanPeek w Valid content) where
  -- Any parts of a body, that are not empty and shorter than 2 ^ 63, are sent as chunks by
  -- http_send_single_chunk, and then an empty one, to a connection that is a queue of bytes and that had
  -- nothing in it; no error is returned. Then at any connection that has the bytes that were sent at its
  -- front, the loop of avs_stream_read_reliably over a new chunked receiver, with more than 16 bytes for a
  -- line and two rounds more than bytes waiting, ends, and takes just the parts in their order: as many bytes
  -- as are asked for, with AVS_OK, or all, with AVS_EOF if there are fewer.
  pub send_chunks-chunked_read :
      (s after : S) (ds : List (List ℕ)) (err : Err) (r : R) (rest : List ℕ)
      (limit fuel n rounds : ℕ) (setsock : R → R)
      → SendValid s
      → sent s ≡ []
      → AreChunks ds
      → send_chunks v s ds ≡ some (err, after)
      → is_ok err ≡ true
      → Valid r
      → content r ≡ sent after ++ rest
      → 16 < limit
      → length (content r) < fuel
      → length (content r) + 1 < rounds
      → Collects source looks fuel rest setsock
          (new_receiver r limit)
          n
          []
          (joined_chunks ds)
          (read_loop (chunked_vtable w true fuel setsock) rounds (new_receiver r limit) n [] false)
  send_chunks-chunked_read s after ds err r rest limit fuel n rounds setsock h empty k returned ok
        valid e room enough more =
      let a = send_chunks-Sends sink finish s ds limit h k room in
      let same = sym a.sends ∙ returned in
      let same_err : a.err ≡ err =
        ap (λ (o : Option (Err × S)). elim o [ none ↦ err | some p ↦ p.0 ]) same in
      let same_after : a.after ≡ after =
        ap (λ (o : Option (Err × S)). elim o [ none ↦ after | some p ↦ p.1 ]) same in
      let waiting : content r ≡ a.added ++ rest =
        e
        ∙ ap (λ (l : S). sent l ++ rest) (sym same_after)
        ∙ ap (λ (l : List ℕ). l ++ rest) (a.appended ∙ ap (λ (l : List ℕ). l ++ a.added) empty) in
      read_loop-chunked_read source looks fuel rest setsock (new_receiver r limit) n rounds
        record {
          backend-Valid = valid;
          enough = enough;
          waits =
              within refl
                (subst (λ (l : List ℕ). Chunks limit rest 0 l (joined_chunks ds)) (sym waiting)
                  (a.well_formed (ap is_ok same_err ∙ ok) rest))
                (omega arith);
        }
        more
