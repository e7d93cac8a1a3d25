-- ===== src/Url/Credentials.antt =====
-- The credentials in avs_url_parse_lenient of src/url/avs_url.c.
use avs_commons.Url.Names.{rejected, replaced, end_credential-Cleans}
use avs_commons.Common.{
  ℕ, true, false, not, ◌||◌, none, some, List, [], ◌∷◌, ◌++◌, ◌≡◌, refl, ap, ◌≤◌, ◌<◌, ◌+◌, ◌==◌,
  drop, length, length-append, Bool-cases, inl, inr, arith,
}
use avs_commons.Common.Strings.{IsText}
use avs_commons.Url.{Outcome, refused, fine, ◌>>=◌, ensure, Url}
use avs_commons.Url.Expected.{Parts, span, credential, with_names}
use avs_commons.Url.Parser.{
  Cursor, starts, is_end, rest_of, copy_while, end_credential, parse_username_and_password,
}
use avs_commons.Url.Shown.{Shown, Shown-more, Reads-last}
use avs_commons.Url.Stages.{
  state, copy_while_lem, length-span, span-IsText, span_all, Stops, span-Stops,
}

-- What parsing the names in `t` comes to, with the parts `c` found before.
pub data Names (limit : ℕ) (url : List ℕ) (c : Parts) (t room : List ℕ) (result : Outcome Cursor)
    : Type 0 where
  refuses : with_names c t ≡ none → result ≡ refused → Names limit url c t room result
  names :
      (d : Parts) (p : Url) (done rest : List ℕ)
      → with_names c t ≡ some d
      → result ≡ fine (state url p done rest)
      → limit ≡ length done + length rest
      → length room ≤ length rest + length t + 1
      → Shown p done d
      → Names limit url c t room result

module _ (limit : ℕ) (url : List ℕ) (p : Url) (done room : List ℕ) (c : Parts)
    (whole : limit ≡ length done + length room) (shown : Shown p done c) where
  abbrev with_user : Url
  with_user = record p { user_ptr = some (length done) }

  user-Shown :
      (t : List ℕ) → IsText t → Shown with_user (done ++ (t ++ 0 ∷ [])) (record c { user = some t })
  user-Shown t k =
      let s = Shown-more done (t ++ 0 ∷ []) shown in
      record {
        protocol = s.protocol;
        user = Reads-last done t k;
        password = s.password;
        host = s.host;
        port = s.port;
      }

  abbrev with_password : Url
  with_password = record p { password_ptr = some (length done) }

  password-Shown :
      (t : List ℕ)
      → IsText t
      → Shown with_password (done ++ (t ++ 0 ∷ [])) (record c { password = some t })
  password-Shown t k =
      let s = Shown-more done (t ++ 0 ∷ []) shown in
      record {
        protocol = s.protocol;
        user = s.user;
        password = Reads-last done t k;
        host = s.host;
        port = s.port;
      }

-- The room behind a string that has replaced `t`.
room_left :
    (limit : ℕ) (done u rest room : List ℕ)
    → limit ≡ length done + length room
    → length u + length rest + 1 ≡ length room
    → limit ≡ length (done ++ (u ++ 0 ∷ [])) + length rest
room_left limit done u rest room e n =
    omega (arith, e, n, length-append done (u ++ 0 ∷ []), length-append u (0 ∷ []))

module _ (limit : ℕ) (url : List ℕ) (p : Url) (done room : List ℕ) (c : Parts)
    (whole : limit ≡ length done + length room) (shown : Shown p done c) (t : List ℕ) (h : IsText t)
    (fits : length t < length room) where
  abbrev s : List ℕ × List ℕ
  s = span (λ d. not (d == b':')) t

  lengths_of : length s.0 + length s.1 ≡ length t
  lengths_of = length-span (λ d. not (d == b':')) t

  texts : IsText s.0 × IsText s.1
  texts = span-IsText (λ d. not (d == b':')) t h

  stops : (is_end s.1 || starts b':' s.1) ≡ true
  stops = colon s.1 (span-Stops (λ d. not (d == b':')) t)
    where
      colon : (l : List ℕ) → Stops (λ d. not (d == b':')) l → (is_end l || starts b':' l) ≡ true
      colon [] z = refl
      colon (d ∷ l) z = ground (arith, z)

  copied :
      copy_while (λ d. not (d == b':')) limit t (state url p done room)
      ≡ fine (s.1, state url p (done ++ s.0) (drop (length s.0) room))
  copied =
      copy_while_lem url p (λ d. not (d == b':')) limit t done room whole
        (omega (arith, lengths_of, fits))

  -- Behind a colon the password follows, into the room left by the user name.
  password-Names :
      (u rest : List ℕ)
      → credential s.0 ≡ some u
      → IsText u
      → length u + length rest + 1 ≡ length room
      → length u ≤ length s.0
      → is_end s.1 ≡ false
      → Names limit url c t room (
          copy_while
            (λ d. true)
            limit
            (rest_of s.1)
            (state url (with_user limit url p done room c whole shown) (done ++ (u ++ 0 ∷ [])) rest)
          >>= λ q.
              ensure (is_end q.0) (end_credential (length (done ++ (u ++ 0 ∷ []))) q.1) >>= λ w.
              fine (record w {
                parsed = record w.parsed { password_ptr = some (length (done ++ (u ++ 0 ∷ []))) };
              }))
  unfolding with_names
  password-Names u rest e k n few z =
      rw
        (copy_while_lem url owner (λ d. true) limit w front rest before
          (omega (arith, all, n, few, short, fits)))
        (rw (span_all w)
          (elim (end_credential-Cleans url owner front w rest (tail_text s.1 texts.1)
            (omega (arith, n, few, short, fits))) [
              | rejected f r ↦ refuses (rw e (rw z (rw f refl))) (rw r refl)
              | replaced v junk f j r m less ↦
                  names (record c { user = some u; password = some v })
                    (with_password limit url owner front rest (record c { user = some u }) before
                      named)
                    (front ++ (v ++ 0 ∷ [])) junk (rw e (rw z (rw f refl))) (rw r refl)
                    (room_left limit front v junk rest before m)
                    (omega (arith, n, m, few, less, short))
                    (password-Shown limit url owner front rest (record c { user = some u }) before
                      named v j)
            ]))
    where
      owner : Url
      owner = with_user limit url p done room c whole shown

      front : List ℕ
      front = done ++ (u ++ 0 ∷ [])

      w : List ℕ
      w = rest_of s.1

      before : limit ≡ length front + length rest
      before = room_left limit done u rest room whole n

      named : Shown owner front (record c { user = some u })
      named = user-Shown limit url p done room c whole shown u k

      all : length (span (λ d. true) w).0 ≡ length w
      all = ap (λ (l : List ℕ × List ℕ). length l.0) (span_all w)

      behind : (l : List ℕ) → is_end l ≡ false → length (rest_of l) + 1 ≡ length l
      behind [] y = absurd (ground (arith, y))
      behind (d ∷ l) y = omega arith

      short : length s.0 + length w + 1 ≡ length t
      short = omega (arith, behind s.1 z, lengths_of)

      tail_text : (l : List ℕ) → IsText l → IsText (rest_of l)
      tail_text [] y = tt
      tail_text (d ∷ l) y = y.1

  pub parse_username_and_password-Names :
      Names limit url c t room (parse_username_and_password limit t (state url p done room))
  unfolding parse_username_and_password with_names
  parse_username_and_password-Names = rw copied (
      rw stops
        (elim (end_credential-Cleans url p done s.0 room texts.0
          (omega (arith, lengths_of, fits))) [
            | rejected e r ↦ refuses (rw e refl) (rw r refl)
            | replaced u rest e k r n few ↦ rw r (elim (Bool-cases (is_end s.1)) [
              | inl z ↦ rw z (
                  names (record c { user = some u }) (with_user limit url p done room c whole shown)
                    (done ++ (u ++ 0 ∷ [])) rest (rw e (rw z refl)) refl
                    (room_left limit done u rest room whole n) (omega (arith, n, few, lengths_of))
                    (user-Shown limit url p done room c whole shown u k))
              | inr z ↦ rw z (password-Names u rest e k n few z)
            ])
          ]))
