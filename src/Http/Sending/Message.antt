-- ===== src/Http/Sending/Message.antt =====
-- A message that src/http/avs_chunked.c sends is one that src/http/body_receivers reads.
use avs_commons.Common.{
  ℕ, true, Option, some, ◌≡◌, refl, sym, ap, ◌∙◌, ◌<◌, ◌≤◌, List, [], ◌∷◌, ◌++◌, length, take,
  take_all, length-append, append_assoc, append-nil, arith,
}
use avs_commons.Http.Chunked.Wire.{Starts, no_more, Chunks, in_data, blank, headline, last}
use avs_commons.Http.Sending.{upper_hex, size_line, http_send_single_chunk, send_chunks}
use avs_commons.Http.Sending.Number.{upper_hex-IsHeadline, upper_hex-Plain, length-upper_hex}
use avs_commons.Stream
use avs_commons.Stream.{VTable, Err, is_ok}
use avs_commons.Stream.Copy.{Writes, write-Writes}
use avs_commons.Stream.Line.Terminated.{plain_nil, crlf}
use avs_commons.Stream.Queue.{IsSink}
use avs_commons.Url.Encoding.{and_then-Writes}
use avs_commons.Url.Escape.{and_then}
use mathlib.Core.Path.{subst}

abbrev line_end : List ℕ
line_end = 13 ∷ 10 ∷ []

-- The bytes of a chunk, and of a message.
abbrev chunk_bytes : List ℕ → List ℕ
chunk_bytes d = size_line (length d) ++ (d ++ (line_end ++ []))

message_bytes : List (List ℕ) → List ℕ
message_bytes [] = chunk_bytes []
message_bytes (d ∷ ds) = chunk_bytes d ++ message_bytes ds

pub joined_chunks : List (List ℕ) → List ℕ
joined_chunks [] = []
joined_chunks (d ∷ ds) = d ++ joined_chunks ds

-- The chunks have bytes, and fit into memory.
pub data AreChunks : List (List ℕ) → Type 0 where
  no_chunks : AreChunks []
  one_chunk :
      (d : List ℕ) (ds : List (List ℕ))
      → 0 < length d
      → length d < 9223372036854775808
      → AreChunks ds
      → AreChunks (d ∷ ds)

chunk_before :
    (d more : List ℕ)
    → chunk_bytes d ++ more ≡ upper_hex 16 (length d) ++ (line_end ++ (d ++ (line_end ++ more)))
unfolding size_line
chunk_before d more =
    append_assoc (size_line (length d)) (d ++ line_end) more
    ∙ append_assoc (upper_hex 16 (length d)) line_end ((d ++ line_end) ++ more)
    ∙ ap (λ (l : List ℕ). upper_hex 16 (length d) ++ (line_end ++ l)) (append_assoc d line_end more)

module _ (limit : ℕ) (room : 16 < limit) where
  size-Starts :
      {wire : List ℕ} (n : ℕ) (more : List ℕ)
      → wire ≡ upper_hex 16 n ++ (line_end ++ more)
      → Starts limit wire (upper_hex 16 n) more
  size-Starts n more e = record {
    plain = upper_hex-Plain 16 n;
    fits = omega (arith, room, length-upper_hex 16 n);
    end = line_end;
    is_end = crlf;
    splits = e;
  }

  empty-Starts : (more : List ℕ) → Starts limit (line_end ++ more) [] more
  empty-Starts more = record {
    plain = plain_nil;
    fits = omega (arith, room);
    end = line_end;
    is_end = crlf;
    splits = refl;
  }

  message-Chunks :
      (rest : List ℕ) (ds : List (List ℕ))
      → AreChunks ds
      → Chunks limit rest 0 (message_bytes ds ++ rest) (joined_chunks ds)
  unfolding size_line message_bytes joined_chunks
  message-Chunks rest [] no_chunks =
      last (upper_hex 16 0) (line_end ++ rest) refl
        (size-Starts 0 (line_end ++ rest) (chunk_before [] rest))
        (upper_hex-IsHeadline 0 (omega arith)) (no_more (empty-Starts rest)) refl
  message-Chunks rest (d ∷ ds) (one_chunk x y some_bytes small others) =
      let more = message_bytes ds ++ rest in
      headline (upper_hex 16 (length d)) (d ++ (line_end ++ more)) (length d) refl
        (size-Starts (length d) (d ++ (line_end ++ more))
          (append_assoc (chunk_bytes d) (message_bytes ds) rest ∙ chunk_before d more))
        (upper_hex-IsHeadline (length d) (omega (arith, small))) some_bytes (omega (arith, small))
        (in_data d (line_end ++ more) (joined_chunks ds) some_bytes refl refl refl
          (blank more refl (empty-Starts more) (message-Chunks rest ds others)))

-- What ends a message of the connection writes nothing more, and may fail.
pub record CanFinish {S : Type 0} (v : VTable S) (Valid : S → Type 0) (content : S → List ℕ)
    : Type 0 where
  pub err : S → Err
  pub after : S → S
  pub finishes : (s : S) → Valid s → Stream.finish_message v s ≡ some (err s, after s)
  pub keeps : (s : S) → Valid s → content (after s) ≡ content s
  pub after-Valid : (s : S) → Valid s → Valid (after s)

module _ {S : Type 0} {v : VTable S} {Valid : S → Type 0} {content : S → List ℕ}
    (sink : IsSink v Valid content) (finish : CanFinish v Valid content) where
  finish_message-Writes : (s : S) → Valid s → Writes sink s [] (Stream.finish_message v s)
  finish_message-Writes s h = record {
    err = finish.err s;
    count = 0;
    after = finish.after s;
    writes = finish.finishes s h;
    few = omega arith;
    appended = finish.keeps s h ∙ sym (append-nil (content s));
    complete = λ o. refl;
    after-Valid = finish.after-Valid s h;
  }

  length-size_line : (n : ℕ) → length (size_line n) ≤ 18
  unfolding size_line
  length-size_line n = omega (arith, length-append (upper_hex 16 n) line_end, length-upper_hex 16 n)

  http_send_single_chunk-Writes :
      (s : S) (d : List ℕ)
      → Valid s
      → length d < 9223372036854775808
      → Writes sink s (chunk_bytes d) (http_send_single_chunk v s d)
  unfolding http_send_single_chunk
  http_send_single_chunk-Writes s d h small =
      and_then-Writes sink s (size_line (length d)) (d ++ (line_end ++ []))
        (λ a.
          and_then (Stream.write v a d)
            λ b. and_then (Stream.write v b line_end) λ c. Stream.finish_message v c)
        (write-Writes sink s (size_line (length d)) h (omega (arith, length-size_line (length d))))
        (λ a i.
          and_then-Writes sink a d (line_end ++ [])
            (λ b. and_then (Stream.write v b line_end) λ c. Stream.finish_message v c)
            (write-Writes sink a d i small)
            (λ b j.
              and_then-Writes sink b line_end [] (λ c. Stream.finish_message v c)
                (write-Writes sink b line_end j (omega arith)) (λ c k. finish_message-Writes c k)))

  send_chunks-Writes :
      (s : S) (ds : List (List ℕ))
      → Valid s
      → AreChunks ds
      → Writes sink s (message_bytes ds) (send_chunks v s ds)
  unfolding send_chunks message_bytes
  send_chunks-Writes s [] h no_chunks = http_send_single_chunk-Writes s [] h (omega arith)
  send_chunks-Writes s (d ∷ ds) h (one_chunk x y some_bytes small others) =
      and_then-Writes sink s (chunk_bytes d) (message_bytes ds) (λ q. send_chunks v q ds)
        (http_send_single_chunk-Writes s d h small) (λ q i. send_chunks-Writes q ds i others)

  -- What sending comes to.
  pub record Sends (s : S) (ds : List (List ℕ)) (limit : ℕ) (result : Option (Err × S))
      : Type 0 where
    pub err : Err
    pub after : S
    pub sends : result ≡ some (err, after)
    pub after-Valid : Valid after
    pub added : List ℕ
    pub appended : content after ≡ content s ++ added
    pub well_formed :
        is_ok err ≡ true → (rest : List ℕ) → Chunks limit rest 0 (added ++ rest) (joined_chunks ds)

  -- To a connection that is a queue of bytes, and whose finish_message writes nothing: sending any parts of
  -- a body, that are not empty and shorter than 2 ^ 63, as chunks by http_send_single_chunk and then an empty
  -- one ends without a fault, and only adds bytes; if no error is returned, these bytes, with anything behind
  -- them, are a well-formed chunked message whose body is all the parts in their order, for each size of the
  -- buffer for lines above 16.
  pub send_chunks-Sends :
      (s : S) (ds : List (List ℕ)) (limit : ℕ)
      → Valid s
      → AreChunks ds
      → 16 < limit
      → Sends s ds limit (send_chunks v s ds)
  send_chunks-Sends s ds limit h k room =
      let w = send_chunks-Writes s ds h k in
      record {
        err = w.err;
        after = w.after;
        sends = w.writes;
        after-Valid = w.after-Valid;
        added = take w.count (message_bytes ds);
        appended = w.appended;
        well_formed = λ o rest.
            subst (λ (l : List ℕ). Chunks limit rest 0 (l ++ rest) (joined_chunks ds))
              (sym (
                ap (λ (n : ℕ). take n (message_bytes ds)) (w.complete o)
                ∙ ap (λ (l : List ℕ). take (length (message_bytes ds)) l)
                    (sym (append-nil (message_bytes ds)))
                ∙ take_all (message_bytes ds) []))
              (message-Chunks limit room rest ds k);
      }
