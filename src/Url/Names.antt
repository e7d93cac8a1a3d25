-- ===== src/Url/Names.antt =====
-- The user name and the password in avs_url_parse_lenient of src/url/avs_url.c.
use avs_commons.Common.{
  ℕ, true, none, some, List, [], ◌∷◌, ◌++◌, ◌≡◌, refl, sym, ap, ◌∙◌, ◌≤◌, ◌<◌, ◌+◌, if◌then◌else◌,
  drop, drop_all, length, length-append, append_assoc, write_at, Bool-cases, inl, inr, arith,
}
use avs_commons.Common.Strings.{IsText, text, text-append}
use avs_commons.Url.{Outcome, fault, refused, fine, ◌>>=◌, Url, is_valid_credential_char}
use avs_commons.Url.Escape.{prepare_string}
use avs_commons.Url.Written.{is_valid_url_part-written}
use avs_commons.Url.Prepare.{spoilt, clean, prepare_string-Prepares}
use avs_commons.Url.Expected.{written, credential}
use avs_commons.Url.Parser.{Cursor, check_credential, end_credential}
use avs_commons.Url.Stages.{state, end_string}

write_at_end :
    (done xs ys : List ℕ)
    → length xs ≡ length ys
    → write_at (done ++ xs) (length done) ys ≡ done ++ ys
write_at_end [] [] [] e = refl
write_at_end [] [] (y ∷ ys) e = absurd (omega (arith, e))
write_at_end [] (x ∷ xs) [] e = absurd (omega (arith, e))
write_at_end [] (x ∷ xs) (y ∷ ys) e = ap (λ l. y ∷ l) (write_at_end [] xs ys (omega (arith, e)))
write_at_end (d ∷ done) xs ys e = ap (λ l. d ∷ l) (write_at_end done xs ys e)

-- What the check of the string `t` behind `done`, with `junk` behind it, comes to.
data Checks (done t junk : List ℕ) (result : Outcome (List ℕ × ℕ)) : Type 0 where
  invalid : credential t ≡ none → result ≡ refused → Checks done t junk result
  sound :
      (u rest : List ℕ)
      → credential t ≡ some u
      → IsText u
      → result ≡ fine (done ++ (u ++ 0 ∷ rest), length u)
      → length u + length rest ≡ length t + length junk
      → length u ≤ length t
      → Checks done t junk result

module _ (done t junk : List ℕ) (h : IsText t) where
  abbrev block : List ℕ
  block = done ++ (t ++ 0 ∷ junk)

  check_credential_lem : check_credential block (length done) ≡ (
      if written is_valid_credential_char 0 t
      then (prepare_string (t ++ 0 ∷ junk) >>= λ d. elim (text d) [
        | none ↦ fault
        | some u ↦ fine (write_at block (length done) d, length u)
      ])
      else refused)
  unfolding check_credential
  check_credential_lem =
      rw (← is_valid_url_part-written is_valid_credential_char t)
        (ground (arith, drop_all done (t ++ 0 ∷ junk), text-append t junk h))

  prepared_lem :
      (u rest : List ℕ)
      → IsText u
      → prepare_string (t ++ 0 ∷ junk) ≡ fine (u ++ 0 ∷ rest)
      → written is_valid_credential_char 0 t ≡ true
      → check_credential block (length done)
        ≡ fine (write_at block (length done) (u ++ 0 ∷ rest), length u)
  prepared_lem u rest k e v =
      check_credential_lem ∙ rw v (rw e (ground (arith, text-append u rest k)))

  check_credential-Checks : Checks done t junk (check_credential block (length done))
  unfolding credential
  check_credential-Checks = elim (Bool-cases (written is_valid_credential_char 0 t)) [
    | inr v ↦ invalid (rw (v, credential) refl) (check_credential_lem ∙ rw v refl)
    | inl v ↦ elim (prepare_string-Prepares t junk h) [
      | spoilt c e ↦ invalid (rw (v, credential) c) (check_credential_lem ∙ rw v (rw e refl))
      | clean u rest c k e n few ↦
          sound u rest (rw (v, credential) c) k
            (prepared_lem u rest k e v
              ∙ ap (λ (b : List ℕ). fine (b, length u))
                  (write_at_end done (t ++ 0 ∷ junk) (u ++ 0 ∷ rest)
                    (omega (arith, n, length-append t (0 ∷ junk), length-append u (0 ∷ rest)))))
            n few
    ]
  ]

-- The string `t` has been copied behind `done`: it is refused, or replaced by what it stands for.
pub data Cleans (url : List ℕ) (p : Url) (done t room : List ℕ) (result : Outcome Cursor)
    : Type 0 where
  rejected : credential t ≡ none → result ≡ refused → Cleans url p done t room result
  replaced :
      (u rest : List ℕ)
      → credential t ≡ some u
      → IsText u
      → result ≡ fine (state url p (done ++ (u ++ 0 ∷ [])) rest)
      → length u + length rest + 1 ≡ length room
      → length u ≤ length t
      → Cleans url p done t room result

pub end_credential-Cleans :
    (url : List ℕ) (p : Url) (done t room : List ℕ)
    → IsText t
    → length t < length room
    → Cleans url p done t room
        (end_credential (length done) (state url p (done ++ t) (drop (length t) room)))
unfolding end_credential
end_credential-Cleans url p done t room h k =
    let (junk, e, n) = end_string url p done t room k in
    let same : (done ++ (t ++ 0 ∷ [])) ++ junk ≡ done ++ (t ++ 0 ∷ junk) =
      append_assoc done (t ++ 0 ∷ []) junk
      ∙ ap (λ (l : List ℕ). done ++ l) (append_assoc t (0 ∷ []) junk) in
    rw e (
      rw same (elim (check_credential-Checks done t junk h) [
        | invalid c r ↦ rejected c (rw r refl)
        | sound u rest c f r m few ↦
            replaced u rest c f (rw r (ends u rest)) (omega (arith, m, n)) few
      ]))
  where
    ends :
        (u rest : List ℕ)
        → fine (record {
          url = url;
          out = length done + length u + 1;
          parsed = record p { bytes = done ++ (u ++ 0 ∷ rest) };
        })
          ≡ fine (state url p (done ++ (u ++ 0 ∷ [])) rest)
    ends u rest =
        λ i. fine (record { url = url; out = count i; parsed = record p { bytes = split i } })
      where
        count : length done + length u + 1 ≡ length (done ++ (u ++ 0 ∷ []))
        count = omega (arith, length-append done (u ++ 0 ∷ []), length-append u (0 ∷ []))

        split : done ++ (u ++ 0 ∷ rest) ≡ (done ++ (u ++ 0 ∷ [])) ++ rest
        split = sym (
            append_assoc done (u ++ 0 ∷ []) rest
            ∙ ap (λ (l : List ℕ). done ++ l) (append_assoc u (0 ∷ []) rest))
