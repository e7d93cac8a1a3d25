-- ===== src/Base64/Padding.antt =====
-- The padding that `avs_base64_encode_custom` of src/algorithm/avs_base64.c writes, as its decoder reads it.
use avs_commons.Base64.{Config, Decoding, pad_loop, decode_char, decode_loop, decode_end}
use avs_commons.Base64.Decode.{IsConfig}
use avs_commons.Common.{
  ℕ, suc, ◌≡◌, ◌≢◌, refl, ap, ◌∙◌, ◌⊎◌, inl, inr, ◌<◌, List, [], ◌∷◌, ◌++◌, ◌+◌, ◌-◌, ◌*◌, ◌/◌, ◌%◌,
  if◌then◌else◌, length, arith, Bool-cases,
}
use avs_commons.Common.Word.{ok}

-- The padding of a text for `n` bytes, whose digits end at `i`.
pads_are :
    (c i n : ℕ)
    → i ≡ (4 * n + 2) / 3
    → ((n % 3 ≡ 0) × (pad_loop 3 c i ≡ []))
      ⊎ (((n % 3 ≡ 1) × (pad_loop 3 c i ≡ c ∷ c ∷ [])) ⊎ ((n % 3 ≡ 2) × (pad_loop 3 c i ≡ c ∷ [])))
unfolding pad_loop
pads_are c i n e = ground arith

-- A padding character is counted, if padding is required.
abbrev padded : Config → Decoding → Decoding
padded config s = if config.require_padding then record s { padding = suc s.padding } else s

module _ {config : Config} (valid : IsConfig config) (ascii : config.padding_char < 128)
    (size : ℕ) where
  decode_loop-pad :
      (s : Decoding) (cs : List ℕ)
      → config.padding_char ≢ 0
      → length s.out < size
      → s.padding < 2
      → decode_loop config size s (config.padding_char ∷ cs)
        ≡ decode_loop config size (padded config s) cs
  unfolding decode_loop decode_char
  decode_loop-pad s cs c room few = elim (Bool-cases config.require_padding) [
    | inl e ↦ ground (arith, e, ascii, valid.visible_padding)
    | inr e ↦ ground (arith, e, ascii, valid.visible_padding)
  ]

  decode_loop-stop : (s : Decoding) → decode_loop config size s (0 ∷ []) ≡ (ok, s)
  unfolding decode_loop
  decode_loop-stop s = refl

  decode_end-ok :
      (s : Decoding)
      → s.padding ≡ (if config.require_padding then (3 - length s.out % 3) % 3 else 0)
      → decode_end config (ok, s) ≡ (ok, s)
  unfolding decode_end
  decode_end-ok s e = ground arith

  -- The text is accepted from this state on, and nothing more is written.
  unfoldable pub Accepts : Decoding → List ℕ → Type 0
  Accepts s cs =
      (s' : Decoding) × ((decode_end config (decode_loop config size s cs) ≡ (ok, s'))
        × (s'.out ≡ s.out))

  Accepts-end :
      (s : Decoding)
      → s.padding ≡ (if config.require_padding then (3 - length s.out % 3) % 3 else 0)
      → Accepts s (0 ∷ [])
  unfolding Accepts
  Accepts-end s e = (s, (ap (decode_end config) (decode_loop-stop s) ∙ decode_end-ok s e, refl))

  Accepts-pad :
      (s : Decoding) (cs : List ℕ)
      → config.padding_char ≢ 0
      → length s.out < size
      → s.padding < 2
      → Accepts (padded config s) cs
      → Accepts s (config.padding_char ∷ cs)
  unfolding Accepts
  Accepts-pad s cs c room few a = (
    a.0,
    (ap (decode_end config) (decode_loop-pad s cs c room few) ∙ a.1.0, a.1.1 ∙ ground arith),
  )

  pub Accepts-unpadded : (s : Decoding) → config.padding_char ≡ 0 → Accepts s (0 ∷ [])
  unfolding Accepts decode_end
  Accepts-unpadded s e =
      (s, (ap (decode_end config) (decode_loop-stop s) ∙ ground (arith, e), refl))

  pub Accepts-pads :
      (s : Decoding) (i : ℕ)
      → config.padding_char ≢ 0
      → length s.out < size
      → s.padding ≡ 0
      → i ≡ (4 * length s.out + 2) / 3
      → Accepts s (pad_loop 3 config.padding_char i ++ 0 ∷ [])
  Accepts-pads s i c room clean e =
      let s1 = padded config s in
      let s2 = padded config s1 in
      elim (pads_are config.padding_char i (length s.out) e) [
        | inl h ↦ rw h.1 (Accepts-end s (ground (arith, clean, h.0)))
        | inr (inl h) ↦ rw h.1 (
            Accepts-pad s _ c room (omega (arith, clean)) (
              Accepts-pad s1 _ c (ground arith) (ground (arith, clean))
                (Accepts-end s2 (ground (arith, clean, h.0)))))
        | inr (inr h) ↦ rw h.1 (
            Accepts-pad s _ c room (omega (arith, clean))
              (Accepts-end s1 (ground (arith, clean, h.0))))
      ]
