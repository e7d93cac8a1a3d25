-- ===== src/Hexlify/Tests.antt =====
-- Runs of src/utils/avs_hexlify.c on concrete bytes, and the witnesses.
use avs_commons.Hexlify.{hexlify, unhexlify}
use avs_commons.Hexlify.RoundTrip.{Bytes, unhexlify-hexlify}
use avs_commons.Common.{ℕ, ◌≡◌, refl, List, [], ◌∷◌, ◌++◌, length, arith}
use avs_commons.Common.Word.{ok, fail}

abbrev two_bytes : List ℕ
two_bytes = 175 ∷ 9 ∷ []

hexlify-two_bytes : hexlify 5 two_bytes ≡ (ok, (2, 97 ∷ 102 ∷ 48 ∷ 57 ∷ 0 ∷ []))
unfolding hexlify
hexlify-two_bytes = refl

unhexlify_odd : unhexlify 5 (97 ∷ 102 ∷ 48 ∷ []) ≡ (fail, [])
unfolding unhexlify
unhexlify_odd = refl

unhexlify_capital : unhexlify 1 (65 ∷ 70 ∷ 48 ∷ 57 ∷ []) ≡ (ok, 175 ∷ [])
unfolding unhexlify
unhexlify_capital = refl

two_bytes-Bytes : Bytes two_bytes
two_bytes-Bytes = ground arith

unhexlify-hexlify_example :
    (text : List ℕ) × ((hexlify 5 two_bytes ≡ (ok, (length two_bytes, text ++ 0 ∷ [])))
      × (unhexlify 2 text ≡ (ok, two_bytes)))
unhexlify-hexlify_example =
    unhexlify-hexlify two_bytes two_bytes-Bytes 5 2 (omega arith) (omega arith)

abbrev room : ℕ
room = 4
