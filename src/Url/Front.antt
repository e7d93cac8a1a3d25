-- ===== src/Url/Front.antt =====
-- The protocol in avs_url_parse_lenient of src/url/avs_url.c, and the parts behind `//` together.
use avs_commons.Common.{
  ℕ, suc, true, false, Option, none, some, List, [], ◌∷◌, ◌++◌, ◌≡◌, refl, ap, ◌≤◌, ◌<◌, ◌+◌, ltb,
  drop, length, write_at, Bool-cases, inl, inr, arith,
}
use avs_commons.Common.Strings.{IsText}
use avs_commons.Url.{Outcome, fine, ◌>>=◌, Url, is_valid_schema_char}
use avs_commons.Url.Authority.{rest_of-IsText, length-rest_of, host-Ends, port-Ends}
use avs_commons.Url.Search.{take-span, drop-span, drop-rest_of, credentials-Ends}
use avs_commons.Url.Expected.{
  behind_slashes, Parts, no_parts, span, follow, with_protocol, with_credentials, with_host,
  with_port, with_authority,
}
use avs_commons.Url.Parser.{
  Cursor, starts, rest_of, has_slashes, proto_length, emit, url_parse_protocol,
  url_parse_credentials, url_parse_host, url_parse_port, parse_authority,
}
use avs_commons.Url.Shown.{Shown, Reads-last, At, Ends, went, Ends-follow, string-Ends}
use avs_commons.Url.Stages.{state, length-span, span-IsText}

slashes :
    (url : List ℕ)
    → has_slashes url ≡ true
    → (drop 2 url ≡ rest_of (rest_of url)) × (length (rest_of (rest_of url)) + 2 ≡ length url)
slashes [] e = absurd (ground (arith, e))
slashes (c ∷ []) e = absurd (ground (arith, e))
slashes (c ∷ d ∷ cs) e = (refl, omega arith)

-- What the code does behind `//`.
authority : ℕ → Cursor → Outcome Cursor
authority limit s = url_parse_credentials limit s >>= url_parse_host limit >>= url_parse_port limit

wanted_authority : Parts → List ℕ → Option (Parts × List ℕ)
wanted_authority c r =
    follow (follow (with_credentials c r) λ a. with_host a.0 a.1) λ b. with_port b.0 b.1

authority-true :
    (limit : ℕ) (s : Cursor)
    → has_slashes s.url ≡ true
    → parse_authority limit s ≡ authority limit (record s { url = drop 2 s.url })
unfolding parse_authority authority
authority-true limit s e = rw (e, parse_authority) refl

slashes_there :
    (d f : ℕ) (cs : List ℕ)
    → has_slashes (d ∷ f ∷ cs) ≡ true
    → behind_slashes (d ∷ f ∷ cs) ≡ some cs
slashes_there d f cs e = ground (arith, e)

slashes_missing :
    (d f : ℕ) (cs : List ℕ) → has_slashes (d ∷ f ∷ cs) ≡ false → behind_slashes (d ∷ f ∷ cs) ≡ none
slashes_missing d f cs e = ground (arith, e)

wanted-true :
    (c : Parts) (url : List ℕ)
    → has_slashes url ≡ true
    → with_authority c url ≡ wanted_authority c (rest_of (rest_of url))
unfolding with_authority wanted_authority
wanted-true c [] e = absurd (ground (arith, e))
wanted-true c (d ∷ []) e = absurd (ground (arith, e))
wanted-true c (d ∷ f ∷ cs) e = rw (slashes_there d f cs e, with_authority) refl

authority_lem :
    (limit : ℕ) (c : Parts) (url : List ℕ) (s : Cursor)
    → At limit 2 c url s
    → Ends limit 1 (wanted_authority c url) (authority limit s)
unfolding wanted_authority authority
authority_lem limit c url s a =
    Ends-follow limit 1 1 (λ b. with_port b.0 b.1) (url_parse_port limit)
      (Ends-follow limit 2 1 (λ b. with_host b.0 b.1) (url_parse_host limit)
        (credentials-Ends limit c url s a) (host-Ends limit))
      (port-Ends limit)

-- Behind `//`, two bytes of the text are not copied.
pub authority-Ends :
    (limit : ℕ) (c : Parts) (url : List ℕ) (s : Cursor)
    → At limit 0 c url s
    → has_slashes url ≡ true
    → Ends limit 1 (with_authority c url) (parse_authority limit s)
authority-Ends limit c url s a e =
    let (same, two) = slashes url e in
    rw (wanted-true c url e, a.is)
      (rw (authority-true limit (state url a.parsed a.done a.room) e) (
        rw same (
          authority_lem limit c (rest_of (rest_of url))
            (state (rest_of (rest_of url)) a.parsed a.done a.room)
            record {
              done = a.done;
              room = a.room;
              parsed = a.parsed;
              is = refl;
              whole = a.whole;
              enough = omega (arith, a.enough, two);
              is_text = rest_of-IsText (rest_of url) (rest_of-IsText url a.is_text);
              shown = a.shown;
            })))

pub wanted-false :
    (c : Parts) (url : List ℕ) → has_slashes url ≡ false → with_authority c url ≡ some (c, url)
unfolding with_authority
wanted-false c [] e = refl
wanted-false c (d ∷ []) e = refl
wanted-false c (d ∷ f ∷ cs) e = rw (slashes_missing d f cs e, with_authority) refl

pub authority-false :
    (limit : ℕ) (s : Cursor) → has_slashes s.url ≡ false → parse_authority limit s ≡ fine s
unfolding parse_authority
authority-false limit s e = rw (e, parse_authority) refl

proto_length-span : (cs : List ℕ) → proto_length cs ≡ length (span is_valid_schema_char cs).0
unfolding proto_length
proto_length-span [] = refl
proto_length-span (c ∷ cs) = elim (Bool-cases (is_valid_schema_char c)) [
  | inl e ↦ rw (e, proto_length) (ap suc (proto_length-span cs))
  | inr e ↦ rw (e, proto_length) refl
]

write_at_front :
    (block t : List ℕ) → length t ≤ length block → write_at block 0 t ≡ t ++ drop (length t) block
write_at_front [] [] k = refl
write_at_front [] (x ∷ t) k = absurd (omega (arith, k))
write_at_front (y ∷ block) [] k = refl
write_at_front (y ∷ block) (x ∷ t) k = ap (λ l. x ∷ l) (write_at_front block t (omega (arith, k)))

abbrev pub blank : Url
blank = record {
  has_protocol = false;
  user_ptr = none;
  password_ptr = none;
  host_ptr = none;
  port_ptr = none;
  path_ptr = none;
  bytes = [];
}

module _ (raw block : List ℕ) (h : IsText raw) (size : length block ≡ length raw + 1) where
  abbrev p : List ℕ × List ℕ
  p = span is_valid_schema_char raw

  abbrev limit : ℕ
  limit = length raw + 1

  lengths : length p.0 + length p.1 ≡ length raw
  lengths = length-span is_valid_schema_char raw

  texts : IsText p.0 × IsText p.1
  texts = span-IsText is_valid_schema_char raw h

  abbrev named : Url
  named = record blank { has_protocol = true }

  named-Shown : Shown named ([] ++ (p.0 ++ 0 ∷ [])) (record no_parts { protocol = some p.0 })
  named-Shown = record {
    protocol = Reads-last [] p.0 texts.0;
    user = tt;
    password = tt;
    host = tt;
    port = tt;
  }

  blank-Shown : Shown blank [] no_parts
  blank-Shown = record { protocol = tt; user = tt; password = tt; host = tt; port = tt }

  url_parse_protocol_lem :
      starts b':' p.1 ≡ true
      → url_parse_protocol limit (state raw blank [] block)
        ≡ emit 0 (state (rest_of p.1) named ([] ++ p.0) (drop (length p.0) block))
  unfolding url_parse_protocol
  url_parse_protocol_lem e =
      rw (proto_length-span raw, url_parse_protocol)
        (rw (drop-span is_valid_schema_char raw) (
          rw e (
            rw (drop-rest_of (length p.0) raw, drop-span is_valid_schema_char raw)
              (rw (take-span is_valid_schema_char raw) (
                rw (write_at_front block p.0 (omega (arith, lengths, size)))
                  (rw (nothing, fits) refl))))))
    where
      nothing : 0 + length p.0 ≡ length p.0
      nothing = omega arith

      colon : (l : List ℕ) → starts b':' l ≡ true → 0 < length l
      colon [] f = absurd (ground (arith, f))
      colon (d ∷ l) f = omega arith

      fits : ltb (length p.0) limit ≡ true
      fits = ground (arith, lengths)

  pub protocol-Ends :
      Ends limit 0
        (some (with_protocol no_parts raw))
        (url_parse_protocol limit (state raw blank [] block))
  unfolding with_protocol
  protocol-Ends = elim (Bool-cases (starts b':' p.1)) [
    | inl e ↦ rw (url_parse_protocol_lem e) (
        string-Ends limit 0 (rest_of p.1) named [] p.0 block
          (record no_parts { protocol = some p.0 }) (rw (e, with_protocol) refl)
          (omega (arith, size)) (omega (arith, lengths, size, length-rest_of b':' p.1 e))
          (rest_of-IsText p.1 texts.1) named-Shown)
    | inr e ↦
        went no_parts raw (state raw blank [] block) (rw (e, with_protocol) refl) (absent e)
          record {
            done = [];
            room = block;
            parsed = blank;
            is = refl;
            whole = omega (arith, size);
            enough = omega (arith, size);
            is_text = h;
            shown = blank-Shown;
          }
  ]
    where
      absent :
          starts b':' p.1 ≡ false
          → url_parse_protocol limit (state raw blank [] block) ≡ fine (state raw blank [] block)
      absent e =
          unfold url_parse_protocol in
          rw (proto_length-span raw, url_parse_protocol)
            (rw (drop-span is_valid_schema_char raw) (rw e refl))
