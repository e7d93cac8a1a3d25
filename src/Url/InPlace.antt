-- ===== src/Url/InPlace.antt =====
-- The loop of avs_url_percent_decode in src/url/avs_url.c, which decodes a string in its place.
use avs_commons.Common.{
  ℕ, zero, suc, true, false, none, some, List, [], ◌∷◌, ◌++◌, ◌≡◌, refl, ap, ◌∙◌, ◌≢◌, ◌≤◌, ◌<◌,
  ◌+◌, ◌==◌, length, length-append, append_assoc, Bool-cases, inl, inr, arith,
}
use avs_commons.Common.Strings.{IsText}
use avs_commons.Url.{Outcome, refused, fine, isxdigit}
use avs_commons.Url.Escape.{hex_value, decode_loop}
use avs_commons.Url.Decoding.{
  grow, decoded, moved, length-moved, round-end, round_plain, escape_bad_first, escape_good,
  escape_bad_second,
}

-- What decoding `t`, which ends the string, comes to: behind `done` stand the decoded characters and the
-- terminator, in a block of the same size, or the string is refused.
pub data Decodes (done t : List ℕ) (size : ℕ) (result : Outcome (List ℕ × ℕ)) : Type 0 where
  bad : decoded t ≡ none → result ≡ refused → Decodes done t size result
  good :
      (u junk : List ℕ)
      → decoded t ≡ some u
      → result ≡ fine (done ++ (u ++ 0 ∷ junk), length done + length u)
      → length u + length junk + 1 ≡ size
      → length u ≤ length t
      → Decodes done t size result

-- One more character, `v`, has been decoded.
Decodes-grow :
    (v : ℕ) {done s t : List ℕ} {size size' : ℕ} {r r' : Outcome (List ℕ × ℕ)}
    → decoded t ≡ grow v (decoded s)
    → r' ≡ r
    → size' ≡ size + 1
    → length s + 1 ≤ length t
    → Decodes (done ++ v ∷ []) s size r
    → Decodes done t size' r'
Decodes-grow v g e z few (bad d f) = bad (g ∙ ap (grow v) d) (e ∙ f)
Decodes-grow v {done = done} g e z few (good u junk d f n k) =
    good (v ∷ u) junk (g ∙ ap (grow v) d)
      (e ∙ f ∙ (λ i. fine (append_assoc done (v ∷ []) (u ++ 0 ∷ junk) i, same i)))
      (omega (arith, n, z)) (omega (arith, k, few))
  where
    same : length (done ++ v ∷ []) + length u ≡ length done + suc (length u)
    same = omega (arith, length-append done (v ∷ []))

step_plain :
    (c : ℕ) (cs : List ℕ) (fuel : ℕ) (done gap rest : List ℕ) {src dst : ℕ}
    → src ≡ length done + length gap
    → dst ≡ length done
    → c ≢ 0
    → (c == b'%') ≡ false
    → decode_loop (suc fuel) (done ++ (gap ++ (c ∷ (cs ++ 0 ∷ rest)))) src dst
      ≡ decode_loop fuel
          ((done ++ c ∷ []) ++ (moved gap c [] ++ (cs ++ 0 ∷ rest)))
          (src + 1)
          (dst + 1)
unfolding decode_loop
step_plain c cs fuel done gap rest e f n p =
    rw (round_plain done gap e f c (cs ++ 0 ∷ rest) n p) refl

pub decoded_plain :
    (c : ℕ) (cs : List ℕ) → (c == b'%') ≡ false → decoded (c ∷ cs) ≡ grow c (decoded cs)
unfolding decoded
decoded_plain c [] p = rw p refl
decoded_plain c (d ∷ []) p = rw p refl
decoded_plain c (h ∷ l ∷ cs) p = rw (p, decoded) refl

zero-isxdigit : isxdigit 0 ≡ false
unfolding isxdigit
zero-isxdigit = refl

-- The state in front of each round.
pub record Between (done gap : List ℕ) (src dst : ℕ) : Type 0 where
  pub reads : src ≡ length done + length gap
  pub writes : dst ≡ length done

abbrev pub Loops : ℕ → List ℕ → List ℕ → List ℕ → List ℕ → ℕ → ℕ → Type 0
Loops fuel t done gap rest src dst =
    Decodes done t (length gap + length t + 1 + length rest)
      (decode_loop fuel (done ++ (gap ++ (t ++ 0 ∷ rest))) src dst)

Between-moved :
    {done gap : List ℕ} {src dst : ℕ}
    → Between done gap src dst
    → (v x : ℕ) (eaten : List ℕ)
    → Between (done ++ v ∷ []) (moved gap x eaten) (src + suc (length eaten)) (dst + 1)
Between-moved {done} {gap} b v x eaten = record {
  reads = omega (arith, b.reads, length-moved gap x eaten, length-append done (v ∷ []));
  writes = omega (arith, b.writes, length-append done (v ∷ []));
}

module _ (c : ℕ) (fuel : ℕ) (done gap rest : List ℕ) {src dst : ℕ} (b : Between done gap src dst)
    (n : c ≢ 0) where
  plain-Loops :
      (cs : List ℕ)
      → (c == b'%') ≡ false
      → Loops fuel cs (done ++ c ∷ []) (moved gap c []) rest (src + 1) (dst + 1)
      → Loops (suc fuel) (c ∷ cs) done gap rest src dst
  plain-Loops cs p =
      Decodes-grow c (decoded_plain c cs p)
        (step_plain c cs fuel done gap rest b.reads b.writes n p)
        (omega (arith, length-moved gap c [])) (omega arith)

  module _ (p : (c == b'%') ≡ true) where
    cut-Loops : (cs : List ℕ) → length cs ≤ 1 → Loops (suc fuel) (c ∷ cs) done gap rest src dst
    unfolding decode_loop decoded
    cut-Loops [] k =
        bad (rw p refl)
          (rw (escape_bad_first done gap b.reads b.writes c n p 0 rest zero-isxdigit) refl)
    cut-Loops (h ∷ []) k = elim (Bool-cases (isxdigit h)) [
      | inl x ↦
          bad (rw p refl)
            (rw (escape_bad_second done gap b.reads b.writes c n p h 0 rest x zero-isxdigit) refl)
      | inr x ↦
          bad (rw p refl)
            (rw (escape_bad_first done gap b.reads b.writes c n p h (0 ∷ rest) x) refl)
    ]
    cut-Loops (h ∷ l ∷ cs) k = absurd (omega (arith, k))

    escape-Loops :
        (h l : ℕ) (cs : List ℕ)
        → Loops fuel cs
            (done ++ hex_value h l ∷ [])
            (moved gap c (h ∷ l ∷ []))
            rest
            (src + 3)
            (dst + 1)
        → Loops (suc fuel) (c ∷ h ∷ l ∷ cs) done gap rest src dst
    unfolding decode_loop decoded
    escape-Loops h l cs ih = elim (Bool-cases (isxdigit h)) [
      | inr x ↦
          bad (rw (p, decoded) (rw x refl))
            (rw (escape_bad_first done gap b.reads b.writes c n p h (l ∷ (cs ++ 0 ∷ rest)) x) refl)
      | inl x ↦ elim (Bool-cases (isxdigit l)) [
        | inr y ↦
            bad (rw (p, decoded) (rw (x, y) refl))
              (rw (escape_bad_second done gap b.reads b.writes c n p h l (cs ++ 0 ∷ rest) x y) refl)
        | inl y ↦
            Decodes-grow (hex_value h l) (rw (p, decoded) (rw (x, y) refl))
              (rw (escape_good done gap b.reads b.writes c n p h l (cs ++ 0 ∷ rest) x y) refl)
              (omega (arith, length-moved gap c (h ∷ l ∷ []))) (omega arith) ih
      ]
    ]

pub decode_loop-Loops :
    (t : List ℕ) (fuel : ℕ) (done gap rest : List ℕ) {src dst : ℕ}
    → Between done gap src dst
    → IsText t
    → length t < fuel
    → Loops fuel t done gap rest src dst
unfolding decode_loop decoded
decode_loop-Loops t zero done gap rest b h k = absurd (omega (arith, k))
decode_loop-Loops [] (suc fuel) done gap rest {src} {dst} b h k =
    good [] (moved gap 0 [] ++ rest) refl
      (rw (round-end done gap b.reads b.writes rest)
        (λ i. fine (append_assoc done (0 ∷ []) (moved gap 0 [] ++ rest) i, same i)))
      (omega (arith, length-append (moved gap 0 []) rest, length-moved gap 0 [])) (omega arith)
  where
    same : dst ≡ length done + 0
    same = omega (arith, b.writes)
decode_loop-Loops (c ∷ []) (suc fuel) done gap rest b h k = elim (Bool-cases (c == b'%')) [
  | inl p ↦ cut-Loops c fuel done gap rest b h.0 p [] (omega arith)
  | inr p ↦ plain-Loops c fuel done gap rest b h.0 [] p (
      decode_loop-Loops [] fuel (done ++ c ∷ []) (moved gap c []) rest (Between-moved b c c []) h.1
        (omega (arith, k)))
]
decode_loop-Loops (c ∷ d ∷ []) (suc fuel) done gap rest b h k = elim (Bool-cases (c == b'%')) [
  | inl p ↦ cut-Loops c fuel done gap rest b h.0 p (d ∷ []) (omega arith)
  | inr p ↦ plain-Loops c fuel done gap rest b h.0 (d ∷ []) p (
      decode_loop-Loops (d ∷ []) fuel (done ++ c ∷ []) (moved gap c []) rest
        (Between-moved b c c []) h.1 (omega (arith, k)))
]
decode_loop-Loops (c ∷ d ∷ l ∷ cs) (suc fuel) done gap rest b h k = elim (Bool-cases (c == b'%')) [
  | inl p ↦ escape-Loops c fuel done gap rest b h.0 p d l cs (
      decode_loop-Loops cs fuel (done ++ hex_value d l ∷ []) (moved gap c (d ∷ l ∷ [])) rest
        (Between-moved b (hex_value d l) c (d ∷ l ∷ [])) h.1.1.1 (omega (arith, k)))
  | inr p ↦ plain-Loops c fuel done gap rest b h.0 (d ∷ l ∷ cs) p (
      decode_loop-Loops (d ∷ l ∷ cs) fuel (done ++ c ∷ []) (moved gap c []) rest
        (Between-moved b c c []) h.1 (omega (arith, k)))
]
