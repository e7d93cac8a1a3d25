-- ===== src/Url/PathPart.antt =====
-- The path in avs_url_parse_lenient of src/url/avs_url.c.
use avs_commons.Common.{
  ℕ, Bool, true, false, ◌&&◌, ◌||◌, Option, none, some, List, [], ◌∷◌, ◌++◌, ◌≡◌, refl, ap, ◌∙◌,
  ◌≤◌, ◌<◌, ◌+◌, ltb, if◌then◌else◌, length, length-append, append_assoc, Bool-cases, inl, inr,
  arith,
}
use avs_commons.Common.Strings.{IsText}
use avs_commons.Url.{Outcome, fine, ◌>>=◌, ensure, Url}
use avs_commons.Url.Expected.{Parts, span, is_there, full_path}
use avs_commons.Url.Parser.{Cursor, starts, is_end, is_set, emit, copy_while, url_parse_path}
use avs_commons.Url.Shown.{Shown, Shows, At}
use avs_commons.Url.Stages.{holding, state, emit_lem, copy_while_lem, end_string, span_all}

-- A whole URL whose pointers show the parts `c` and the path `t`.
pub record Finished (c : Parts) (t : List ℕ) (u : Url) : Type 0 where
  pub done : List ℕ
  pub junk : List ℕ
  pub parsed : Url
  pub is :
      u ≡ holding (record parsed { path_ptr = some (length done) }) (done ++ (t ++ 0 ∷ [])) junk
  pub is_text : IsText t
  pub shown : Shown parsed done c

-- The end of `url_parse_path`.
path_tail :
    (limit : ℕ) (url : List ℕ) (p : Url) (done room : List ℕ)
    → limit ≡ length done + length room
    → length url < length room
    → (junk : List ℕ) × ((copy_while (λ c. true) limit url (state url p done room) >>= λ r.
          ensure (ltb r.1.out limit) (emit 0 (record r.1 { url = r.0 })))
        ≡ fine (state [] p (done ++ (url ++ 0 ∷ [])) junk))
path_tail limit url p done room whole k =
    let (junk, e, n) = end_string [] p done url room k in
    (
      junk,
      rw (copy_while_lem url p (λ c. true) limit url done room whole all)
          (rw (span_all url) (rw fits e)),
    )
  where
    all : length (span (λ c. true) url).0 ≤ length room
    all = omega (arith, k, ap (λ (l : List ℕ × List ℕ). length l.0) (span_all url))

    fits : ltb (length (done ++ url)) limit ≡ true
    fits = ground (arith, length-append done url, whole, k)

slash_tail :
    (limit : ℕ) (url : List ℕ) (p : Url) (done room : List ℕ)
    → limit ≡ length done + length room
    → length url + 1 < length room
    → (junk : List ℕ) × ((emit b'/' (state url p done room) >>= λ q.
          copy_while (λ c. true) limit url q >>= λ r.
          ensure (ltb r.1.out limit) (emit 0 (record r.1 { url = r.0 })))
        ≡ fine (state [] p (done ++ (b'/' ∷ (url ++ 0 ∷ []))) junk))
slash_tail limit url p done [] whole k = absurd (omega (arith, k))
slash_tail limit url p done (x ∷ room) whole k =
    let (junk, e) =
      path_tail limit url p (done ++ b'/' ∷ []) room
        (omega (arith, whole, length-append done (b'/' ∷ []))) (omega (arith, k)) in
    (
      junk,
      rw (emit_lem url p b'/' done x room) (
          e
          ∙ ap (λ (l : List ℕ). fine (state [] p l junk))
              (append_assoc done (b'/' ∷ []) (url ++ 0 ∷ []))),
    )

and_true : (a b : Bool) → (a && b) ≡ true → a ≡ true
and_true true b e = refl
and_true false b e = e

-- The path is written, and nothing of the text is left.
pub data Ended (c : Parts) (t : List ℕ) (result : Outcome Cursor) : Type 0 where
  ended :
      (u : Url) (s : Cursor)
      → result ≡ fine s
      → s.url ≡ []
      → s.parsed ≡ u
      → Finished c t u
      → Ended c t result

is_set-is_there :
    (done : List ℕ) (i : Option ℕ) (t : Option (List ℕ)) → Shows done i t → is_set i ≡ is_there t
is_set-is_there done none none s = refl
is_set-is_there done (some i) (some t) s = refl
is_set-is_there done none (some t) s = absurd s
is_set-is_there done (some i) none s = absurd s

module _ (limit k : ℕ) (c : Parts) (url : List ℕ) (s : Cursor) (a : At limit k c url s)
    (more : is_there c.host ≡ true → 1 ≤ k) where
  abbrev pathed : Url
  pathed = record a.parsed { path_ptr = some (length a.done) }

  path-Finished :
      (t : List ℕ)
      → IsText t
      → (junk : List ℕ) → Finished c t (holding pathed (a.done ++ (t ++ 0 ∷ [])) junk)
  path-Finished t h junk = record {
    done = a.done;
    junk = junk;
    parsed = a.parsed;
    is = refl;
    is_text = h;
    shown = a.shown;
  }

  abbrev adds_slash : Bool
  adds_slash = is_there c.host && (is_end url || starts b'?' url)

  url_parse_path_lem : url_parse_path limit (state url a.parsed a.done a.room) ≡ (
      (if adds_slash
        then emit b'/' (state url pathed a.done a.room)
        else fine (state url pathed a.done a.room))
      >>= λ p. copy_while (λ c. true) limit url p >>= λ r.
          ensure (ltb r.1.out limit) (emit 0 (record r.1 { url = r.0 })))
  unfolding url_parse_path
  url_parse_path_lem = rw (is_set-is_there a.done a.parsed.host_ptr c.host a.shown.host) refl

  pub path-Ended :
      Ended c (full_path c url) (url_parse_path limit (state url a.parsed a.done a.room))
  unfolding full_path
  path-Ended = rw url_parse_path_lem (elim (Bool-cases adds_slash) [
    | inr e ↦
        let (junk, r) =
          path_tail limit url pathed a.done a.room a.whole (omega (arith, a.enough)) in
        rw (e, full_path)
          (ended (holding pathed (a.done ++ (url ++ 0 ∷ [])) junk)
            (state [] pathed (a.done ++ (url ++ 0 ∷ [])) junk) r refl refl
            (path-Finished url a.is_text junk))
    | inl e ↦
        let some_more : 1 ≤ k =
          more (and_true (is_there c.host) (is_end url || starts b'?' url) e) in
        let (junk, r) =
          slash_tail limit url pathed a.done a.room a.whole (omega (arith, a.enough, some_more)) in
        rw (e, full_path)
          (ended (holding pathed (a.done ++ (b'/' ∷ (url ++ 0 ∷ []))) junk)
            (state [] pathed (a.done ++ (b'/' ∷ (url ++ 0 ∷ []))) junk) r refl refl
            (path-Finished (b'/' ∷ url) ((λ z. ground (arith, z)), a.is_text) junk))
  ])
