-- ===== src/Url/Lenient.antt =====
-- avs_url_parse_lenient of src/url/avs_url.c as a whole.
use avs_commons.Url.PathPart.{Finished, ended, path-Ended}
use avs_commons.Common.{
  ℕ, Bool, true, false, Option, none, some, List, [], ◌≡◌, refl, sym, ap, ◌∙◌, ◌≤◌, ◌+◌,
  if◌then◌else◌, length, Bool-cases, inl, inr, arith,
}
use avs_commons.Common.Strings.{IsText}
use avs_commons.Url.{Outcome, refused, fine, ◌>>=◌, Url}
use avs_commons.Url.Front.{blank, protocol-Ends, authority-Ends, wanted-false, authority-false}
use mathlib.Core.Bool.{false≢true}
use avs_commons.Url.Expected.{
  Parts, no_parts, follow, with_protocol, with_authority, is_there, full_path, expected,
}
use avs_commons.Url.Parser.{
  Cursor, is_end, has_slashes, url_parse_protocol, parse_authority, url_parse_path, parse_lenient,
}
use avs_commons.Url.Shown.{At, gone, went}
use avs_commons.Url.Stages.{state}

-- A text is refused, or it comes to a URL that shows its parts.
pub data Comes (wanted : Option (Parts × List ℕ)) (result : Outcome Url) : Type 0 where
  rejected : wanted ≡ none → result ≡ refused → Comes wanted result
  came :
      (c : Parts) (t : List ℕ) (u : Url)
      → wanted ≡ some (c, t)
      → result ≡ fine u
      → Finished c t u
      → Comes wanted result

-- The end of `avs_url_parse_lenient`.
abbrev finish : Cursor → Outcome Url
finish s = if is_end s.url then fine s.parsed else refused

path-Comes :
    (limit k : ℕ) (c : Parts) (url : List ℕ) (s : Cursor)
    → At limit k c url s
    → (is_there c.host ≡ true → 1 ≤ k)
    → Comes (some (c, full_path c url)) (url_parse_path limit s >>= finish)
path-Comes limit k c url s a more = rw a.is (elim (path-Ended limit k c url s a more) [
  | ended u q r none_left is f ↦
      came c (full_path c url) u refl (rw r (rw (ap is_end none_left) (ap fine is))) f
])

abbrev with_path : Parts × List ℕ → Option (Parts × List ℕ)
with_path a = some (a.0, full_path a.0 a.1)

rest-Comes :
    (limit : ℕ) (c : Parts) (url : List ℕ) (s : Cursor)
    → At limit 0 c url s
    → is_there c.host ≡ false
    → Comes
        (follow (with_authority c url) with_path)
        (parse_authority limit s >>= url_parse_path limit >>= finish)
rest-Comes limit c url s a no_host = elim (Bool-cases (has_slashes url)) [
  | inl e ↦ elim (authority-Ends limit c url s a e) [
    | gone w r ↦ rejected (rw w refl) (rw r refl)
    | went d rest q w r b ↦ rw (w, r) (path-Comes limit 1 d rest q b (λ h. omega arith))
  ]
  | inr e ↦
      rw
        (
          wanted-false c url e,
          authority-false limit s (ap (λ (q : Cursor). has_slashes q.url) a.is ∙ e),
        )
        (path-Comes limit 0 c url s a (λ h. absurd (false≢true (sym no_host ∙ h))))
]

parse_lenient_allocated :
    (malloc : ℕ → Option (List ℕ)) (raw block : List ℕ)
    → malloc (length raw + 1) ≡ some block
    → parse_lenient malloc raw ≡ (
        url_parse_protocol (length raw + 1) (state raw blank [] block)
        >>= parse_authority (length raw + 1)
        >>= url_parse_path (length raw + 1)
        >>= finish)
unfolding parse_lenient
parse_lenient_allocated malloc raw block e = rw (e, parse_lenient) refl

no_host : (raw : List ℕ) → is_there (with_protocol no_parts raw).0.host ≡ false
unfolding with_protocol
no_host raw = ground arith

expected_lem :
    (raw : List ℕ) {c : Parts} {url : List ℕ}
    → ◌≡◌ {A = Option (Parts × List ℕ)} (some (with_protocol no_parts raw)) (some (c, url))
    → expected raw ≡ follow (with_authority c url) with_path
expected_lem raw w =
    whole
    ∙ ap (λ (o : Option (Parts × List ℕ)). follow o λ p. follow (with_authority p.0 p.1) with_path)
        w
  where
    whole :
        expected raw
        ≡ follow
            (with_authority (with_protocol no_parts raw).0 (with_protocol no_parts raw).1)
            with_path
    whole = unfold expected in refl

abbrev host_in : Option (Parts × List ℕ) → Bool
host_in none = false
host_in (some p) = is_there p.0.host

some_gone : {w : Parts × List ℕ} → ◌≡◌ {A = Option (Parts × List ℕ)} (some w) none → ⊥
some_gone e = ground (arith, e)

-- For a block of `strlen(raw_url) + 1` bytes from the allocation,
-- whatever is in it: avs_url_parse_lenient never fails an assertion, never accesses a byte outside of the
-- block, and does not run on. It returns NULL if the text has no parse by the grammar of Expected; else it
-- returns a URL whose pointers show exactly the parts and the path of that parse.
pub parse_lenient-Comes :
    (malloc : ℕ → Option (List ℕ)) (raw block : List ℕ)
    → IsText raw
    → malloc (length raw + 1) ≡ some block
    → length block ≡ length raw + 1
    → Comes (expected raw) (parse_lenient malloc raw)
parse_lenient-Comes malloc raw block h m size =
    rw (parse_lenient_allocated malloc raw block m) (elim (protocol-Ends raw block h size) [
      | gone w r ↦ absurd (some_gone w)
      | went c url s w r a ↦
          rw (expected_lem raw w, r)
            (rest-Comes (length raw + 1) c url s a (sym (ap host_in w) ∙ no_host raw))
    ])
