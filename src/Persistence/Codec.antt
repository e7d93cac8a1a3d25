-- ===== src/Persistence/Codec.antt =====
-- What the functions of src/persistence/avs_persistence.c promise: a value that one context stores, the
-- other restores. They work on a stream that is a queue of bytes.
use avs_commons.Persistence.{Context, store_vtable, restore_vtable, kept}
use avs_commons.Stream.{VTable, Err, success, eof, is_ok, read_reliably, write}
use avs_commons.Numbers.{convert_be32, to_memory}
use avs_commons.Numbers.ByteOrder.{big_endian, to_memory-convert_be32}
use avs_commons.Persistence.Store.{persist_u32, persist_bytes}
use avs_commons.Stream.Queue.{IsSource, IsSink}
use avs_commons.Stream.Reliably.{read_reliably_lem}
use avs_commons.Stream.Copy.{Writes, write-Writes}
use avs_commons.Common.{
  ◌>>=◌, ℕ, true, Option, some, ◌≡◌, sym, ap, ◌∙◌, ◌≤◌, ◌<◌, ◌+◌, leb, if◌then◌else◌, List, [],
  ◌++◌, length, length-append, take, take-append, take_past, take_all, drop, drop_all, append_assoc,
  append-nil, arith,
}

module _ {S : Type 0} (Valid : S → Type 0) (content : S → List ℕ) where
  -- The value stays, and `count` bytes of its encoding are behind what was in the stream: all of them if
  -- the result is AVS_OK.
  pub record Stored {A : Type 0} (s : S) (a : A) (encoding : List ℕ)
      (result : Option (Err × (A × S))) : Type 0 where
    pub err : Err
    pub count : ℕ
    pub after : S
    pub returns : result ≡ some (err, (a, after))
    pub few : count ≤ length encoding
    pub appended : content after ≡ content s ++ take count encoding
    pub complete : is_ok err ≡ true → count ≡ length encoding
    pub after-Valid : Valid after

  -- The value is there, and `rest` is left.
  pub record Restored {A : Type 0} (a : A) (rest : List ℕ) (result : Option (Err × (A × S)))
      : Type 0 where
    pub after : S
    pub returns : result ≡ some (success, (a, after))
    pub left : content after ≡ rest
    pub after-Valid : Valid after

  -- `f` stores the values that are `good` by their encoding, and restores them where `blank` was.
  pub record IsCodec {A : Type 0} (blank : A) (good : A → Type 0) (encoding : A → List ℕ)
      (f : Option Context → S → A → Option (Err × (A × S))) : Type 0 where
    pub stores :
        (s : S) (a : A) → Valid s → good a → Stored s a (encoding a) (f (some store_vtable) s a)
    pub restores :
        (s : S) (a : A) (rest : List ℕ)
        → Valid s
        → good a
        → content s ≡ encoding a ++ rest
        → Restored a rest (f (some restore_vtable) s blank)

  -- The same, behind a pointer, which may be null before an element is restored.
  pub record IsHandler {A : Type 0} (start : Option A) (good : A → Type 0) (encoding : A → List ℕ)
      (f : Option Context → S → Option A → Option (Err × (Option A × S))) : Type 0 where
    pub stores :
        (s : S) (a : A)
        → Valid s
        → good a
        → Stored s (some a) (encoding a) (f (some store_vtable) s (some a))
    pub restores :
        (s : S) (a : A) (rest : List ℕ)
        → Valid s
        → good a
        → content s ≡ encoding a ++ rest
        → Restored (some a) rest (f (some restore_vtable) s start)

module _ {S : Type 0} {Valid : S → Type 0} {content : S → List ℕ} {A B : Type 0} (g : A → B) where
  -- The value seen in another way.
  pub map-Stored :
      {s : S} {a : A} {b : B} {encoding : List ℕ} {r : Option (Err × (A × S))}
      → g a ≡ b
      → Stored Valid content s a encoding r
      → Stored Valid content s b encoding (r >>= λ q. some (q.0, (g q.1.0, q.1.1)))
  map-Stored e w = record {
    err = w.err;
    count = w.count;
    after = w.after;
    returns =
        ap (λ r. r >>= λ q. some (q.0, (g q.1.0, q.1.1))) w.returns
        ∙ ap (λ b. some (w.err, (b, w.after))) e;
    few = w.few;
    appended = w.appended;
    complete = w.complete;
    after-Valid = w.after-Valid;
  }

  pub map-Restored :
      {a : A} {b : B} {rest : List ℕ} {r : Option (Err × (A × S))}
      → g a ≡ b
      → Restored Valid content a rest r
      → Restored Valid content b rest (r >>= λ q. some (q.0, (g q.1.0, q.1.1)))
  map-Restored e w = record {
    after = w.after;
    returns =
        ap (λ r. r >>= λ q. some (q.0, (g q.1.0, q.1.1))) w.returns
        ∙ ap (λ b. some (success, (b, w.after))) e;
    left = w.left;
    after-Valid = w.after-Valid;
  }

module _ {S : Type 0} (v : VTable S) (Valid : S → Type 0) (content : S → List ℕ) where
  -- The front of the stream, where it is as long as what is asked for.
  pub record Fetched (s : S) (xs rest : List ℕ) : Type 0 where
    pub after : S
    pub reads : read_reliably v s (length xs) ≡ some (success, (xs, after))
    pub left : content after ≡ rest
    pub after-Valid : Valid after

module _ {S : Type 0} {v : VTable S} {Valid : S → Type 0} {content : S → List ℕ} where
  pub kept-Stored :
      {A : Type 0} (sink : IsSink v Valid content) (s : S) (a : A) (bytes : List ℕ)
      (r : Option (Err × S))
      → Writes sink s bytes r
      → Stored Valid content s a bytes (kept a r)
  kept-Stored sink s a bytes r w = record {
    err = w.err;
    count = w.count;
    after = w.after;
    returns = ap (kept a) w.writes;
    few = w.few;
    appended = w.appended;
    complete = w.complete;
    after-Valid = w.after-Valid;
  }

  pub write-Stored :
      {A : Type 0} (sink : IsSink v Valid content) (s : S) (a : A) (bytes encoding : List ℕ)
      → Valid s
      → length bytes < 9223372036854775808
      → bytes ≡ encoding
      → Stored Valid content s a encoding (kept a (write v s bytes))
  write-Stored sink s a bytes encoding h small e =
      rw (sym e) (kept-Stored sink s a bytes (write v s bytes) (write-Writes sink s bytes h small))

  pub read_reliably-Fetched :
      (source : IsSource v Valid content) (s : S) (xs rest : List ℕ)
      → Valid s
      → content s ≡ xs ++ rest
      → Fetched v Valid content s xs rest
  read_reliably-Fetched source s xs rest h e =
      let r = read_reliably_lem source s (length xs) h in
      let enough : leb (length xs) (length (content s)) ≡ true =
        ground (arith, ap (λ (l : List ℕ). length l) e, length-append xs rest) in
      record {
        after = r.0;
        reads =
            r.1.0
            ∙ ap (λ b. some (if b then success else eof, (take (length xs) (content s), r.0)))
                enough
            ∙ ap (λ l. some (success, (l, r.0))) (ap (take (length xs)) e ∙ take_all xs rest);
        left = r.1.1.0 ∙ ap (drop (length xs)) e ∙ drop_all xs rest;
        after-Valid = r.1.1.1;
      }

-- Two parts after another, and the first part alone.
pub appended_more :
    (c0 c1 c2 xs ys : List ℕ) (n m : ℕ)
    → c1 ≡ c0 ++ take n xs
    → n ≡ length xs
    → c2 ≡ c1 ++ take m ys
    → c2 ≡ c0 ++ take (length xs + m) (xs ++ ys)
appended_more c0 c1 c2 xs ys n m e h f =
    f
    ∙ ap (λ l. l ++ take m ys)
        (e
          ∙ ap (λ k. c0 ++ take k xs) h
          ∙ ap (λ l. c0 ++ l) (ap (take (length xs)) (sym (append-nil xs)) ∙ take_all xs []))
    ∙ append_assoc c0 xs (take m ys)
    ∙ ap (λ l. c0 ++ l) (sym (take_past m xs ys))

pub appended_stop :
    (c0 c1 xs ys : List ℕ) (n : ℕ)
    → c1 ≡ c0 ++ take n xs
    → n ≤ length xs
    → c1 ≡ c0 ++ take n (xs ++ ys)
appended_stop c0 c1 xs ys n e h = e ∙ ap (λ l. c0 ++ l) (sym (take-append n xs ys h))

pub persist_u32-Writes :
    {S : Type 0} {v : VTable S} {Valid : S → Type 0} {content : S → List ℕ}
    (sink : IsSink v Valid content) (s : S) (x : ℕ)
    → Valid s
    → x < 4294967296
    → Writes sink s (big_endian 4 x) (persist_u32 v s x)
unfolding persist_u32
persist_u32-Writes {content = content} sink s x h k =
    let w = write-Writes sink s (to_memory 4 (convert_be32 x)) h (omega arith) in
    let e = to_memory-convert_be32 x k in
    record {
      err = w.err;
      count = w.count;
      after = w.after;
      writes = w.writes;
      few = w.few;
      appended = w.appended ∙ ap (λ l. content s ++ take w.count l) e;
      complete = w.complete;
      after-Valid = w.after-Valid;
    }

pub persist_bytes-Writes :
    {S : Type 0} {v : VTable S} {Valid : S → Type 0} {content : S → List ℕ}
    (sink : IsSink v Valid content) (s : S) (buffer : List ℕ)
    → Valid s
    → length buffer < 9223372036854775808
    → Writes sink s buffer (persist_bytes v s buffer)
unfolding persist_bytes
persist_bytes-Writes sink s buffer h small = write-Writes sink s buffer h small
