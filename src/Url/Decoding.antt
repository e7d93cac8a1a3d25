-- ===== src/Url/Decoding.antt =====
-- What avs_url_percent_decode and prepare_string of src/url/avs_url.c leave in place of a string.
use avs_commons.Common.{
  ℕ, suc, true, false, ◌&&◌, Option, none, some, List, [], ◌∷◌, ◌++◌, ◌≡◌, refl, sym, ap, ◌∙◌, ◌≢◌,
  ◌+◌, ◌==◌, if◌then◌else◌, get_elem?, set, length, length-append, append_assoc, arith,
}
use avs_commons.Common.Strings.{contains}
use avs_commons.Url.{refused, fine, ◌>>=◌, found, byte_at, put_byte, isxdigit}
use avs_commons.Url.Escape.{hex_value, finished, onward, decode_escape, decode_round}

abbrev pub grow : ℕ → Option (List ℕ) → Option (List ℕ)
grow c none = none
grow c (some u) = some (c ∷ u)

-- The string that a text with escapes stands for; `none` if a `%` has no two digits behind it.
unfoldable pub decoded : List ℕ → Option (List ℕ)
unfolding isxdigit hex_value
decoded [] = some []
decoded (c ∷ []) = if c == b'%' then none else some (c ∷ [])
decoded (c ∷ d ∷ []) = if c == b'%' then none else grow c (decoded (d ∷ []))
decoded (c ∷ h ∷ l ∷ cs) = elim (c == b'%') [
  | true ↦ if isxdigit h && isxdigit l then grow (hex_value h l) (decoded cs) else none
  | false ↦ grow c (decoded (h ∷ l ∷ cs))
]

-- The string is decoded and has no character 0.
unfoldable pub cleaned : List ℕ → Option (List ℕ)
unfolding decoded
cleaned t = elim (decoded t) [ none ↦ none | some u ↦ if contains u 0 then none else some u ]

module _ {A : Type 0} where
  pub get_elem?-skip :
      (xs ys : List A) (k : ℕ) → get_elem? (xs ++ ys) (length xs + k) ≡ get_elem? ys k
  get_elem?-skip [] ys k = ap (get_elem? ys) (omega arith)
  get_elem?-skip (x ∷ xs) ys k =
      let e : suc (length xs) + k ≡ suc (length xs + k) = omega arith in
      rw e (get_elem?-skip xs ys k)

  pub set-skip :
      (xs : List A) (y z : A) (ys : List A) → set (xs ++ y ∷ ys) (length xs) z ≡ xs ++ z ∷ ys
  set-skip [] y z ys = refl
  set-skip (x ∷ xs) y z ys = ap (◌∷◌ x) (set-skip xs y z ys)

-- What lies between the decoded characters and those still to be read, once `x` and `eaten` are read and
-- one character is written.
abbrev pub moved : List ℕ → ℕ → List ℕ → List ℕ
moved [] x eaten = eaten
moved (g ∷ gs) x eaten = gs ++ (x ∷ eaten)

pub length-moved :
    (gap : List ℕ) (x : ℕ) (eaten : List ℕ) → length (moved gap x eaten) ≡ length gap + length eaten
length-moved [] x eaten = omega arith
length-moved (g ∷ gs) x eaten = omega (arith, length-append gs (x ∷ eaten))

moved-append :
    (done gap : List ℕ) (x : ℕ) (eaten : List ℕ) (v : ℕ) (tail : List ℕ)
    → set (done ++ (gap ++ (x ∷ (eaten ++ tail)))) (length done) v
      ≡ (done ++ v ∷ []) ++ (moved gap x eaten ++ tail)
moved-append done [] x eaten v tail =
    set-skip done x v (eaten ++ tail) ∙ sym (append_assoc done (v ∷ []) (eaten ++ tail))
moved-append done (g ∷ gs) x eaten v tail =
    set-skip done g v (gs ++ (x ∷ (eaten ++ tail)))
    ∙ sym (append_assoc done (v ∷ []) (gs ++ (x ∷ (eaten ++ tail))))
    ∙ ap (λ (l : List ℕ). (done ++ v ∷ []) ++ l) (sym (append_assoc gs (x ∷ eaten) tail))

pub put_byte_lem :
    (done gap : List ℕ) (x : ℕ) (eaten : List ℕ) (v : ℕ) (tail : List ℕ) {dst : ℕ}
    → dst ≡ length done
    → put_byte (done ++ (gap ++ (x ∷ (eaten ++ tail)))) dst v
      ≡ fine ((done ++ v ∷ []) ++ (moved gap x eaten ++ tail))
put_byte_lem done gap x eaten v tail {dst} e = rw e (
    ground (
      arith,
      moved-append done gap x eaten v tail,
      length-append done (gap ++ (x ∷ (eaten ++ tail))),
      length-append gap (x ∷ (eaten ++ tail)),
    ))

pub at_lem :
    (done gap ys : List ℕ) {src : ℕ} (k : ℕ)
    → src ≡ length done + length gap
    → byte_at (done ++ (gap ++ ys)) (src + k) ≡ byte_at ys k
at_lem done gap ys {src} k e =
    let f : src + k ≡ length done + (length gap + k) = omega arith in
    rw f (ap found (get_elem?-skip done (gap ++ ys) (length gap + k) ∙ get_elem?-skip gap ys k))

module _ (done gap : List ℕ) {src dst : ℕ} (e : src ≡ length done + length gap)
    (f : dst ≡ length done) where
  at-src : (c : ℕ) (ys : List ℕ) → byte_at (done ++ (gap ++ (c ∷ ys))) src ≡ fine c
  at-src c ys =
      let z : src ≡ src + 0 = omega arith in
      ap (byte_at (done ++ (gap ++ (c ∷ ys)))) z ∙ at_lem done gap (c ∷ ys) 0 e

  pub round-end :
      (ys : List ℕ)
      → decode_round (done ++ (gap ++ (0 ∷ ys))) src dst
        ≡ fine (finished ((done ++ 0 ∷ []) ++ (moved gap 0 [] ++ ys)) dst)
  unfolding decode_round
  round-end ys = rw (at-src 0 ys) (rw (put_byte_lem done gap 0 [] 0 ys f) refl)

  pub round_plain :
      (c : ℕ) (ys : List ℕ)
      → c ≢ 0
      → (c == b'%') ≡ false
      → decode_round (done ++ (gap ++ (c ∷ ys))) src dst
        ≡ fine (onward ((done ++ c ∷ []) ++ (moved gap c [] ++ ys)) (src + 1) (dst + 1))
  unfolding decode_round
  round_plain c ys n p =
      let q : (c == 0) ≡ false = ground (arith, n) in
      rw (at-src c ys) (rw (q, p) (rw (put_byte_lem done gap c [] c ys f) refl))

  module _ (c : ℕ) (n : c ≢ 0) (p : (c == b'%') ≡ true) where
    round-decode_escape :
        (ys : List ℕ)
        → decode_round (done ++ (gap ++ (c ∷ ys))) src dst
          ≡ decode_escape (done ++ (gap ++ (c ∷ ys))) src dst
    unfolding decode_round
    round-decode_escape ys =
        let q : (c == 0) ≡ false = ground (arith, n) in rw (at-src c ys) (rw (q, p) refl)

    pub escape_bad_first :
        (h : ℕ) (ys : List ℕ)
        → isxdigit h ≡ false
        → decode_round (done ++ (gap ++ (c ∷ h ∷ ys))) src dst ≡ refused
    unfolding decode_escape
    escape_bad_first h ys x =
        round-decode_escape (h ∷ ys) ∙ rw (at_lem done gap (c ∷ h ∷ ys) 1 e) (rw x refl)

    module _ (h l : ℕ) (ys : List ℕ) (x : isxdigit h ≡ true) where
      escape-isxdigit : decode_round (done ++ (gap ++ (c ∷ h ∷ l ∷ ys))) src dst ≡ (
          if isxdigit l
          then (put_byte (done ++ (gap ++ (c ∷ h ∷ l ∷ ys))) dst (hex_value h l) >>= λ b.
              fine (onward b (src + 3) (dst + 1)))
          else refused)
      unfolding decode_escape
      escape-isxdigit =
          round-decode_escape (h ∷ l ∷ ys)
          ∙ rw (at_lem done gap (c ∷ h ∷ l ∷ ys) 1 e)
              (rw x (rw (at_lem done gap (c ∷ h ∷ l ∷ ys) 2 e) refl))

      pub escape_good :
          isxdigit l ≡ true
          → decode_round (done ++ (gap ++ (c ∷ h ∷ l ∷ ys))) src dst
            ≡ fine (
                onward
                  ((done ++ hex_value h l ∷ []) ++ (moved gap c (h ∷ l ∷ []) ++ ys))
                  (src + 3)
                  (dst + 1))
      escape_good y =
          escape-isxdigit
          ∙ rw y (rw (put_byte_lem done gap c (h ∷ l ∷ []) (hex_value h l) ys f) refl)

      pub escape_bad_second :
          isxdigit l ≡ false → decode_round (done ++ (gap ++ (c ∷ h ∷ l ∷ ys))) src dst ≡ refused
      escape_bad_second y = escape-isxdigit ∙ rw y refl
