-- ===== src/Url/Search.antt =====
-- How avs_url_parse_lenient of src/url/avs_url.c finds the credentials and the protocol.
use avs_commons.Common.{
  ℕ, zero, suc, Bool, true, false, not, Option, none, some, List, [], ◌∷◌, ◌≡◌, refl, ap, ◌∙◌, ◌+◌,
  ◌==◌, if◌then◌else◌, take, drop, length, Bool-cases, inl, inr, arith,
}
use avs_commons.Common.Strings.{contains, IsText}
use avs_commons.Url.{Outcome, fine, ◌>>=◌}
use avs_commons.Url.Authority.{rest_of-IsText, length-rest_of}
use avs_commons.Url.Credentials.{refuses, names, parse_username_and_password-Names}
use avs_commons.Url.Expected.{Parts, span, with_names, with_credentials, follow}
use avs_commons.Url.Parser.{
  Cursor, starts, rest_of, parse_username_and_password, strchr, in_front, url_parse_credentials,
}
use avs_commons.Url.Shown.{At, Ends, gone, went}
use avs_commons.Url.Stages.{state, length-span, span-IsText}

module _ (go : ℕ → Bool) where
  pub take-span : (cs : List ℕ) → take (length (span go cs).0) cs ≡ (span go cs).0
  take-span [] = refl
  take-span (c ∷ cs) = elim (Bool-cases (go c)) [
    | inl f ↦ rw f (ap (λ (l : List ℕ). c ∷ l) (take-span cs))
    | inr f ↦ rw f refl
  ]

  pub drop-span : (cs : List ℕ) → drop (length (span go cs).0) cs ≡ (span go cs).1
  drop-span [] = refl
  drop-span (c ∷ cs) = elim (Bool-cases (go c)) [ inl f ↦ rw f (drop-span cs) | inr f ↦ rw f refl ]

pub drop-rest_of : (n : ℕ) (cs : List ℕ) → drop (n + 1) cs ≡ rest_of (drop n cs)
drop-rest_of n cs = let e : n + 1 ≡ suc n = omega arith in rw e (later n cs)
  where
    later : (k : ℕ) (l : List ℕ) → drop (suc k) l ≡ rest_of (drop k l)
    later zero [] = refl
    later zero (c ∷ l) = refl
    later (suc k) [] = refl
    later (suc k) (c ∷ l) = later k l

-- `strchr` stops where the characters other than `c` end.
strchr-span :
    (c : ℕ) (cs : List ℕ)
    → strchr cs c ≡ (
        if starts c (span (λ d. not (d == c)) cs).1
        then some (length (span (λ d. not (d == c)) cs).0)
        else none)
unfolding strchr
strchr-span c [] = refl
strchr-span c (d ∷ cs) = elim (Bool-cases (d == c)) [
  | inl e ↦ rw (e, strchr) (rw e refl)
  | inr e ↦
      rw (e, strchr)
        (rw (strchr-span c cs) (elim (Bool-cases (starts c (span (λ d. not (d == c)) cs).1)) [
          | inl f ↦ rw f refl
          | inr f ↦ rw f refl
        ]))
]

abbrev later_by_one : Option ℕ → Option ℕ
later_by_one none = none
later_by_one (some n) = some (suc n)

in_front-later_by_one : (n : ℕ) (o : Option ℕ) → in_front (suc n) (later_by_one o) ≡ in_front n o
in_front-later_by_one n none = refl
in_front-later_by_one n (some m) = ground arith

in_front_first : (o : Option ℕ) → in_front 0 (later_by_one o) ≡ true
in_front_first none = refl
in_front_first (some m) = ground arith

strchr_next :
    (c d : ℕ) (cs : List ℕ) → (d == c) ≡ false → strchr (d ∷ cs) c ≡ later_by_one (strchr cs c)
unfolding strchr
strchr_next c d cs e = rw (e, strchr) (cases (strchr cs c))
  where
    cases : (o : Option ℕ) → elim o [ none ↦ none | some n ↦ some (suc n) ] ≡ later_by_one o
    cases none = refl
    cases (some n) = refl

strchr_here : (c d : ℕ) (cs : List ℕ) → (d == c) ≡ true → strchr (d ∷ cs) c ≡ some 0
unfolding strchr
strchr_here c d cs e = rw (e, strchr) refl

-- The credentials end in front of the first slash if there is none among them.
in_front-strchr :
    (cs : List ℕ)
    → starts b'@' (span (λ d. not (d == b'@')) cs).1 ≡ true
    → in_front (length (span (λ d. not (d == b'@')) cs).0) (strchr cs b'/')
      ≡ not (contains (span (λ d. not (d == b'@')) cs).0 b'/')
in_front-strchr [] e = absurd (ground (arith, e))
in_front-strchr (d ∷ cs) e = elim (Bool-cases (d == b'@')) [
  | inl f ↦
      let g : (d == b'/') ≡ false = ground (arith, f) in
      rw (strchr_next b'/' d cs g) (rw f (in_front_first (strchr cs b'/')))
  | inr f ↦ elim (Bool-cases (d == b'/')) [
    | inl g ↦
        let q : (b'/' == d) ≡ true = ground (arith, g) in
        rw (strchr_here b'/' d cs g) (rw f (rw (q, contains) (ground arith)))
    | inr g ↦
        let q : (b'/' == d) ≡ false = ground (arith, g) in
        rw (strchr_next b'/' d cs g) (
          rw f (
            rw (q, contains)
              (in_front-later_by_one (length (span (λ d. not (d == b'@')) cs).0) (strchr cs b'/')
                ∙ in_front-strchr cs (rw f at e))))
  ]
]

module _ (limit : ℕ) (c : Parts) (url : List ℕ) (s : Cursor) (a : At limit 2 c url s) where
  abbrev t : List ℕ × List ℕ
  t = span (λ d. not (d == b'@')) url

  lengths_of : length t.0 + length t.1 ≡ length url
  lengths_of = length-span (λ d. not (d == b'@')) url

  texts : IsText t.0 × IsText t.1
  texts = span-IsText (λ d. not (d == b'@')) url a.is_text

  url_parse_credentials_lem :
      starts b'@' t.1 ≡ true
      → url_parse_credentials limit (state url a.parsed a.done a.room) ≡ (
          if not (contains t.0 b'/')
          then (parse_username_and_password limit t.0 (state url a.parsed a.done a.room) >>= λ r.
              fine (record r { url = rest_of t.1 }))
          else fine (state url a.parsed a.done a.room))
  unfolding url_parse_credentials
  url_parse_credentials_lem e =
      rw (strchr-span b'@' url, url_parse_credentials)
        (rw e (
          rw (in_front-strchr url e) (
            rw (take-span (λ d. not (d == b'@')) url)
              (rw (drop-rest_of (length t.0) url, drop-span (λ d. not (d == b'@')) url) refl))))

  names-Ends :
      starts b'@' t.1 ≡ true
      → {wanted : Option (Parts × List ℕ)} {result : Outcome Cursor}
      → wanted ≡ follow (with_names c t.0) (λ d. some (d, rest_of t.1))
      → result ≡ (
          parse_username_and_password limit t.0 (state url a.parsed a.done a.room) >>= λ r.
          fine (record r { url = rest_of t.1 }))
      → Ends limit 2 wanted result
  names-Ends e w r =
      rw (w, r)
        (elim (parse_username_and_password-Names limit url a.parsed a.done a.room c a.whole a.shown
          t.0 texts.0 (omega (arith, lengths_of, a.enough))) [
            | refuses f g ↦ gone (rw f refl) (rw g refl)
            | names d p done rest f g whole room shown ↦
                went d (rest_of t.1) (state (rest_of t.1) p done rest) (rw f refl) (rw g refl)
                  record {
                    done = done;
                    room = rest;
                    parsed = p;
                    is = refl;
                    whole = whole;
                    enough = omega (arith, lengths_of, a.enough, room, length-rest_of b'@' t.1 e);
                    is_text = rest_of-IsText t.1 texts.1;
                    shown = shown;
                  }
          ])

  given-Ends :
      starts b'@' t.1 ≡ true
      → Ends limit 2
          (with_credentials c url)
          (url_parse_credentials limit (state url a.parsed a.done a.room))
  unfolding with_credentials
  given-Ends e = elim (Bool-cases (contains t.0 b'/')) [
    | inl z ↦
        went c url (state url a.parsed a.done a.room) (rw (e, with_credentials) (rw z refl))
          (url_parse_credentials_lem e ∙ rw z refl)
          record {
            done = a.done;
            room = a.room;
            parsed = a.parsed;
            is = refl;
            whole = a.whole;
            enough = a.enough;
            is_text = a.is_text;
            shown = a.shown;
          }
    | inr z ↦
        names-Ends e (rw (e, with_credentials) (rw z refl))
          (url_parse_credentials_lem e ∙ rw z refl)
  ]

pub credentials-Ends :
    (limit : ℕ) (c : Parts) (url : List ℕ) (s : Cursor)
    → At limit 2 c url s
    → Ends limit 2 (with_credentials c url) (url_parse_credentials limit s)
unfolding url_parse_credentials with_credentials
credentials-Ends limit c url s a =
    let t = span (λ d. not (d == b'@')) url in
    elim (Bool-cases (starts b'@' t.1)) [
      | inl e ↦ rw a.is (given-Ends limit c url s a e)
      | inr e ↦
          went c url s (rw (e, with_credentials) refl)
            (rw a.is (rw (strchr-span b'@' url, url_parse_credentials) (rw e refl))) a
    ]
