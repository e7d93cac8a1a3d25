-- ===== src/Url/Written.antt =====
-- The loop of is_valid_url_part in src/url/avs_url.c decides which texts are written well.
use avs_commons.Common.{
  ℕ, Bool, true, false, ◌&&◌, List, [], ◌∷◌, ◌≡◌, refl, sym, ◌==◌, Bool-cases, inl, inr,
}
use avs_commons.Url.{isxdigit}
use avs_commons.Url.Escape.{is_valid_url_part}
use avs_commons.Url.Expected.{written}

no_more : (b : Bool) → (b && false) ≡ false
no_more true = refl
no_more false = refl

escaped_lem :
    (a b d : Bool) {x y : Bool}
    → x ≡ y
    → ◌≡◌ {A = Bool} (elim (a && (b && d)) [ false ↦ false | true ↦ x ]) (a && (b && (d && y)))
escaped_lem false b d e = refl
escaped_lem true false d e = refl
escaped_lem true true false e = refl
escaped_lem true true true e = e

-- The loop over a text accepts the texts that are written well.
pub is_valid_url_part-written :
    (good : ℕ → Bool) (t : List ℕ) → is_valid_url_part good t ≡ written good 0 t
unfolding is_valid_url_part written
is_valid_url_part-written good [] = refl
is_valid_url_part-written good (c ∷ []) = elim (Bool-cases (good c)) [
  | inl e ↦ rw e refl
  | inr e ↦ rw e (sym (no_more (c == b'%')))
]
is_valid_url_part-written good (c ∷ h ∷ []) = elim (Bool-cases (good c)) [
  | inl e ↦ rw e (is_valid_url_part-written good (h ∷ []))
  | inr e ↦ rw (e, no_more (isxdigit h), no_more (c == b'%')) refl
]
is_valid_url_part-written good (c ∷ h ∷ l ∷ cs) = elim (Bool-cases (good c)) [
  | inl e ↦ rw (e, is_valid_url_part, written) (is_valid_url_part-written good (h ∷ l ∷ cs))
  | inr e ↦
      rw (e, is_valid_url_part, written)
        (escaped_lem (c == b'%') (isxdigit h) (isxdigit l) (is_valid_url_part-written good cs))
]
