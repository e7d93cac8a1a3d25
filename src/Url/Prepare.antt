-- ===== src/Url/Prepare.antt =====
-- What avs_url_percent_decode and prepare_string of src/url/avs_url.c leave in place of a string.
use avs_commons.Url.InPlace.{Decodes, bad, good, Between, decode_loop-Loops, decoded_plain}
use mathlib.Core.Path.{subst}
use mathlib.Core.Bool.{false≢true}
use avs_commons.Common.{
  ℕ, true, false, none, some, List, [], ◌∷◌, ◌++◌, ◌≡◌, refl, ap, ◌∙◌, ◌≤◌, ◌<◌, ◌+◌, ◌==◌,
  if◌then◌else◌, length, length-append, Bool-cases, if-split, inl, inr, arith,
}
use avs_commons.Common.Strings.{contains, IsText, text, text-append}
use avs_commons.Url.{Outcome, refused, fine}
use avs_commons.Url.Escape.{decode_loop, percent_decode, prepare_string}
use avs_commons.Url.Decoding.{grow, decoded, cleaned}

contains_none : (t : List ℕ) → contains t b'%' ≡ false → decoded t ≡ some t
unfolding decoded
contains_none [] p = refl
contains_none (c ∷ cs) p =
    let q : (c == b'%') ≡ false = ground (arith, p) in
    let r : contains cs b'%' ≡ false = ground (arith, p) in
    decoded_plain c cs q ∙ ap (grow c) (contains_none cs r)

percent_decode_lem :
    (block t : List ℕ)
    → text block ≡ some t
    → percent_decode block
      ≡ (if contains t b'%' then decode_loop (length block) block 0 0 else fine (block, length t))
unfolding percent_decode
percent_decode_lem block t e = ground (arith, e)

pub percent_decode-Decodes :
    (t rest : List ℕ)
    → IsText t
    → Decodes [] t (length t + 1 + length rest) (percent_decode (t ++ 0 ∷ rest))
percent_decode-Decodes t rest h = rw (percent_decode_lem (t ++ 0 ∷ rest) t (text-append t rest h)) (
    if-split (Decodes [] t (length t + 1 + length rest)) (contains t b'%') (λ p. loops)
      (λ p. good t rest (contains_none t p) same (omega arith) (omega arith)))
  where
    same :
        ◌≡◌ {A = Outcome (List ℕ × ℕ)}
          (fine (t ++ 0 ∷ rest, length t))
          (fine (t ++ 0 ∷ rest, 0 + length t))
    same = ap (λ (n : ℕ). fine (t ++ 0 ∷ rest, n)) (omega arith)

    loops :
        Decodes [] t
          (length t + 1 + length rest)
          (decode_loop (length (t ++ 0 ∷ rest)) (t ++ 0 ∷ rest) 0 0)
    loops =
        let size : 0 + length t + 1 + length rest ≡ length t + 1 + length rest = omega arith in
        let start : Between [] [] 0 0 = record { reads = omega arith; writes = omega arith } in
        let room : length t < length (t ++ 0 ∷ rest) = omega (arith, length-append t (0 ∷ rest)) in
        subst (λ (n : ℕ). Decodes [] t n (decode_loop (length (t ++ 0 ∷ rest)) (t ++ 0 ∷ rest) 0 0))
          size (decode_loop-Loops t (length (t ++ 0 ∷ rest)) [] [] rest start h room)

contains-IsText : (u : List ℕ) → contains u 0 ≡ false → IsText u
contains-IsText [] p = tt
contains-IsText (c ∷ cs) p = (ground (arith, p), contains-IsText cs (ground (arith, p)))

-- A character 0 ends the string early.
text_short :
    (u rest : List ℕ)
    → contains u 0 ≡ true
    → (t : List ℕ) × ((text (u ++ rest) ≡ some t) × (length t < length u))
unfolding text
text_short [] rest p = absurd (false≢true p)
text_short (c ∷ cs) rest p = elim (Bool-cases (c == 0)) [
  | inl z ↦ ([], (rw z refl, omega arith))
  | inr z ↦
      let later : contains cs 0 ≡ true = ground (arith, p, z) in
      let (t, (e, k)) = text_short cs rest later in
      (c ∷ t, (rw (z, text) (rw e refl), omega (arith, k)))
]

-- What prepare_string leaves in place of `t`: the decoded string, or the string is refused.
pub data Prepares (t rest : List ℕ) (result : Outcome (List ℕ)) : Type 0 where
  spoilt : cleaned t ≡ none → result ≡ refused → Prepares t rest result
  clean :
      (u junk : List ℕ)
      → cleaned t ≡ some u
      → IsText u
      → result ≡ fine (u ++ 0 ∷ junk)
      → length u + length junk ≡ length t + length rest
      → length u ≤ length t
      → Prepares t rest result

prepare_string_lem :
    (block after t : List ℕ) (n : ℕ)
    → percent_decode block ≡ fine (after, n)
    → text after ≡ some t
    → prepare_string block ≡ (if n == length t then fine after else refused)
unfolding prepare_string
prepare_string_lem block after t n e f = ground (arith, e, f)

pub prepare_string-Prepares :
    (t rest : List ℕ) → IsText t → Prepares t rest (prepare_string (t ++ 0 ∷ rest))
unfolding prepare_string cleaned
prepare_string-Prepares t rest h = elim (percent_decode-Decodes t rest h) [
  | bad d e ↦ spoilt (rw (d, cleaned) refl) (rw e refl)
  | good u junk d e n k ↦ elim (Bool-cases (contains u 0)) [
    | inl z ↦
        let (s, (f, short)) = text_short u (0 ∷ junk) z in
        spoilt (rw (d, cleaned) (rw z refl)) (
          prepare_string_lem (t ++ 0 ∷ rest) (u ++ 0 ∷ junk) s (0 + length u) e f
          ∙ rw (differ (length u) (length s) short) refl)
    | inr z ↦
        clean u junk (rw (d, cleaned) (rw z refl)) (contains-IsText u z)
          (prepare_string_lem (t ++ 0 ∷ rest) (u ++ 0 ∷ junk) u (0 + length u) e
              (text-append u junk (contains-IsText u z))
            ∙ rw (same (length u)) refl)
          (omega (arith, n)) k
  ]
]
  where
    differ : (n m : ℕ) → m < n → (0 + n == m) ≡ false
    differ n m short = ground (arith, short)

    same : (n : ℕ) → (0 + n == n) ≡ true
    same n = ground arith
