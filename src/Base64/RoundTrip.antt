-- ===== src/Base64/RoundTrip.antt =====
-- What `avs_base64_encode_custom` of src/algorithm/avs_base64.c writes, `avs_base64_decode_custom` reads.
use avs_commons.Base64.{
  Config, Decoding, digit, encode_loop, encode_rest, encode_text, encode_custom, pad_loop,
  push_digit, decode_loop, decode_end, decode_custom, check_out_buffer_size,
}
use avs_commons.Base64.Encode.{needed, length-encode_loop}
use avs_commons.Base64.Padding.{Accepts, Accepts-unpadded, Accepts-pads}
use avs_commons.Base64.Decode.{
  IsConfig, At, decode_loop-digit, push_first, push_second, push_third, push_fourth,
}
use avs_commons.Common.{
  ℕ, inl, inr, Bool-cases, suc, true, false, ◌≡◌, refl, sym, ap, ◌∙◌, ◌<◌, ◌≤◌, List, [], ◌∷◌, ◌++◌,
  ◌==◌, ◌+◌, ◌*◌, ◌/◌, ◌%◌, length, length-append, append_assoc, append-nil, arith,
}
use avs_commons.Common.Word.{ok}

-- Every element is a byte.
abbrev pub Bytes : List ℕ → Type 0
Bytes [] = Unit
Bytes (x ∷ xs) = x < 256 × Bytes xs

module _ (config : Config) (i sh : ℕ) (h : i % 3 ≡ 0) where
  encode_loop-none : encode_loop config i sh [] ≡ []
  unfolding encode_loop encode_rest
  encode_loop-none = ground arith

  encode_loop-one :
      (x : ℕ)
      → encode_loop config i sh (x ∷ []) ≡ digit config (x / 4) ∷ digit config (x % 4 * 16) ∷ []
  unfolding encode_loop encode_rest
  encode_loop-one x = ground arith

  encode_loop-two :
      (x y : ℕ)
      → encode_loop config i sh (x ∷ y ∷ [])
        ≡ digit config (x / 4) ∷ digit config (x % 4 * 16 + y / 16) ∷ digit config (y % 16 * 4) ∷ []
  unfolding encode_loop encode_rest
  encode_loop-two x y = ground arith

  -- A whole group of three bytes.
  encode_loop-group :
      (x y z : ℕ) (xs : List ℕ)
      → encode_loop config i sh (x ∷ y ∷ z ∷ xs)
        ≡ digit config (x / 4)
          ∷ digit config (x % 4 * 16 + y / 16)
          ∷ digit config (y % 16 * 4 + z / 64)
          ∷ digit config (z % 64)
          ∷ encode_loop config (suc (suc (suc i))) (y % 16) xs
  unfolding encode_loop
  encode_loop-group x y z xs = ground arith

-- The decoder has read a text when it stands before the rest, with `out` written and no padding seen.
record Read (config : Config) (size : ℕ) (s : Decoding) (text rest out : List ℕ) : Type 0 where
  after : Decoding
  reads : decode_loop config size s text ≡ decode_loop config size after rest
  wrote : after.out ≡ out
  clean : after.padding ≡ 0

append_three :
    (out : List ℕ) (x y z : ℕ) (xs : List ℕ)
    → (((out ++ x ∷ []) ++ y ∷ []) ++ z ∷ []) ++ xs ≡ out ++ x ∷ y ∷ z ∷ xs
append_three out x y z xs =
    append_assoc ((out ++ x ∷ []) ++ y ∷ []) (z ∷ []) xs
    ∙ append_assoc (out ++ x ∷ []) (y ∷ []) (z ∷ xs)
    ∙ append_assoc out (x ∷ []) (y ∷ z ∷ xs)

module _ {config : Config} (valid : IsConfig config) {size : ℕ} where
  -- One digit, of a decoder whose state is known.
  digit_step :
      {b r : ℕ} {out : List ℕ} (s : Decoding)
      → At s b r out
      → (d : ℕ) (cs : List ℕ) → d < 64
      → length out < size
      → decode_loop config size s (digit config d ∷ cs)
        ≡ decode_loop config size (push_digit s d) cs
  digit_step s a d cs h room =
      decode_loop-digit valid s d cs h (ground (arith, a.out_at)) a.unpadded

  Read-encode_loop :
      (i sh : ℕ) (xs : List ℕ)
      → Bytes xs
      → i % 3 ≡ 0
      → (s : Decoding) {r : ℕ} {out : List ℕ} → At s 0 r out
      → length out + length xs ≤ size
      → (rest : List ℕ) → Read config size s (encode_loop config i sh xs ++ rest) rest (out ++ xs)
  Read-encode_loop i sh [] b h s {out = out} a room rest = record {
    after = s;
    reads = ap (λ t. decode_loop config size s (t ++ rest)) (encode_loop-none config i sh h);
    wrote = a.out_at ∙ sym (append-nil out);
    clean = a.unpadded;
  }
  Read-encode_loop i sh (x ∷ []) b h s {out = out} a room rest =
      let s1 = push_digit s (x / 4) in
      let a1 = push_first (x / 4) (omega (arith, b.0)) a in
      let a2 = push_second (x % 4 * 16) (omega arith) x a1 b.0 (omega arith) in
      record {
        after = push_digit s1 (x % 4 * 16);
        reads =
            ap (λ t. decode_loop config size s (t ++ rest)) (encode_loop-one config i sh h x)
            ∙ digit_step s a _ _ (omega (arith, b.0)) (omega arith)
            ∙ digit_step s1 a1 _ _ (omega arith) (omega arith);
        wrote = a2.out_at;
        clean = a2.unpadded;
      }
  Read-encode_loop i sh (x ∷ y ∷ []) b h s {out = out} a room rest =
      let d2 = x % 4 * 16 + y / 16 in
      let s1 = push_digit s (x / 4) in
      let s2 = push_digit s1 d2 in
      let a1 = push_first (x / 4) (omega (arith, b.0)) a in
      let a2 = push_second d2 (omega (arith, b.1.0)) x a1 b.0 (omega (arith, b.1.0)) in
      let a3 = push_third (y % 16 * 4) (omega arith) y a2 b.1.0 (omega (arith, b.1.0)) in
      record {
        after = push_digit s2 (y % 16 * 4);
        reads =
            ap (λ t. decode_loop config size s (t ++ rest)) (encode_loop-two config i sh h x y)
            ∙ digit_step s a _ _ (omega (arith, b.0)) (omega arith)
            ∙ digit_step s1 a1 _ _ (omega (arith, b.1.0)) (omega arith)
            ∙ digit_step s2 a2 _ _ (omega arith) (omega (arith, length-append out (x ∷ [])));
        wrote = a3.out_at ∙ append_assoc out (x ∷ []) (y ∷ []);
        clean = a3.unpadded;
      }
  Read-encode_loop i sh (x ∷ y ∷ z ∷ xs) b h s {out = out} a room rest =
      let d2 = x % 4 * 16 + y / 16 in
      let d3 = y % 16 * 4 + z / 64 in
      let s1 = push_digit s (x / 4) in
      let s2 = push_digit s1 d2 in
      let s3 = push_digit s2 d3 in
      let bz = b.1.1.0 in
      let a1 = push_first (x / 4) (omega (arith, b.0)) a in
      let a2 = push_second d2 (omega (arith, b.1.0)) x a1 b.0 (omega (arith, b.1.0)) in
      let a3 = push_third d3 (omega (arith, bz)) y a2 b.1.0 (omega (arith, b.1.0, bz)) in
      let a4 = push_fourth (z % 64) (omega arith) z a3 bz (omega (arith, bz)) in
      let room1 = length-append out (x ∷ []) in
      let room2 = length-append (out ++ x ∷ []) (y ∷ []) in
      let room3 = length-append ((out ++ x ∷ []) ++ y ∷ []) (z ∷ []) in
      let more =
        Read-encode_loop (suc (suc (suc i))) (y % 16) xs b.1.1.1 (omega (arith, h))
          (push_digit s3 (z % 64)) a4 (omega (arith, room1, room2, room3)) rest in
      record {
        after = more.after;
        reads =
            ap (λ t. decode_loop config size s (t ++ rest))
              (encode_loop-group config i sh h x y z xs)
            ∙ digit_step s a _ _ (omega (arith, b.0)) (omega arith)
            ∙ digit_step s1 a1 _ _ (omega (arith, b.1.0)) (omega arith)
            ∙ digit_step s2 a2 _ _ (omega (arith, bz)) (omega (arith, room1))
            ∙ digit_step s3 a3 _ _ (omega arith) (omega (arith, room1, room2))
            ∙ more.reads;
        wrote = more.wrote ∙ append_three out x y z xs;
        clean = more.clean;
      }

encode_custom-fits :
    (config : Config) (xs : List ℕ) (out_length : ℕ)
    → needed config (length xs) ≤ out_length
    → encode_custom out_length xs config ≡ (ok, encode_text config xs ++ 0 ∷ [])
unfolding encode_custom check_out_buffer_size
encode_custom-fits config xs out_length fits = ground arith

abbrev start : Decoding
start = record { accumulator = 0; bits = 0; out = []; padding = 0 }

module _ {config : Config} (valid : IsConfig config) (ascii : config.padding_char < 128) {size : ℕ}
    (xs : List ℕ) (b : Bytes xs) where
  decodes :
      length xs < size
      → (s : Decoding) × (decode_end config
              (decode_loop config size start (encode_text config xs ++ 0 ∷ []))
            ≡ (ok, s)
          × s.out ≡ xs)
  unfolding encode_text Accepts
  decodes room = elim (Bool-cases (config.padding_char == 0)) [
    | inl e ↦
        let r = Read-encode_loop valid 0 0 xs b refl start at_start (omega arith) (0 ∷ []) in
        let a = Accepts-unpadded valid ascii size r.after (ground (arith, e)) in
        (
          a.0,
          (
            ap (λ t. decode_end config (decode_loop config size start (t ++ 0 ∷ []))) (plain e)
                ∙ ap (decode_end config) r.reads
                ∙ a.1.0,
            a.1.1 ∙ r.wrote,
          ),
        )
    | inr e ↦
        let r =
          Read-encode_loop valid 0 0 xs b refl start at_start (omega arith) (pads ++ 0 ∷ []) in
        let a =
          Accepts-pads valid ascii size r.after (length text) (ground (arith, e))
            (ground (arith, r.wrote)) r.clean
            (ground (arith, r.wrote, length-encode_loop config 0 0 xs)) in
        (
          a.0,
          (
            ap (λ t. decode_end config (decode_loop config size start t))
                  (ap (λ t. t ++ 0 ∷ []) (with_pads e) ∙ append_assoc text pads (0 ∷ []))
                ∙ ap (decode_end config) r.reads
                ∙ a.1.0,
            a.1.1 ∙ r.wrote,
          ),
        )
  ]
    where
      text : List ℕ
      text = encode_loop config 0 0 xs

      pads : List ℕ
      pads = pad_loop 3 config.padding_char (length text)

      at_start : At start 0 0 []
      at_start = record { bits_at = refl; rest_at = refl; out_at = refl; unpadded = refl }

      plain : (config.padding_char == 0) ≡ true → encode_text config xs ≡ text
      plain e = ground (arith, e)

      with_pads : (config.padding_char == 0) ≡ false → encode_text config xs ≡ text ++ pads
      with_pads e = ground (arith, e)

-- For a configuration that tells its digits apart, with a padding character below 128, and bytes for which the text fits into its buffer,
-- what avs_base64_encode_custom writes is read back by avs_base64_decode_custom with the same
-- configuration into a buffer with more room than there are bytes: it returns 0 and exactly the bytes.
pub decode_custom-encode_custom :
    (config : Config)
    → IsConfig config
    → config.padding_char < 128
    → (xs : List ℕ) → Bytes xs
    → (out_length out_size : ℕ) → needed config (length xs) ≤ out_length
    → length xs < out_size
    → decode_custom out_size (encode_custom out_length xs config).1 config ≡ (ok, xs)
unfolding decode_custom
decode_custom-encode_custom config valid ascii xs b out_length out_size fits room =
    let d = decodes valid ascii {size = out_size} xs b room in
    ap (λ r. decode_custom out_size r.1 config) (encode_custom-fits config xs out_length fits)
    ∙ ap (λ r. (r.0, r.1.out)) d.1.0
    ∙ ap (λ out. (ok, out)) d.1.1
