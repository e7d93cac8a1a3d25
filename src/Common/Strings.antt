-- ===== src/Common/Strings.antt =====
-- The strings of the C code: texts without the character 0, and the blocks that hold them followed by it.
use avs_commons.Common.{
  ℕ, Bool, false, ◌||◌, Option, none, some, List, [], ◌∷◌, ◌++◌, ◌≡◌, refl, ◌≢◌, ◌==◌,
  if◌then◌else◌, arith,
}
use Prim.Native.Char.{code}
use Prim.Native.String.{String}

-- The characters of a literal of the code, which are ASCII.
abbrev pub codes : String → List ℕ
codes String.[] = []
codes (String.◌∷◌ c s) = code c ∷ codes s

abbrev pub contains : List ℕ → ℕ → Bool
contains [] c = false
contains (d ∷ ds) c = (c == d) || contains ds c

-- `strchr(set, c) != NULL`, which finds the terminator too.
abbrev pub in_set : List ℕ → ℕ → Bool
in_set chars c = (c == 0) || contains chars c

-- No character is 0: what stands in front of the terminator of a C string.
abbrev pub IsText : List ℕ → Type 0
IsText [] = Unit
IsText (c ∷ cs) = (c ≢ 0) × IsText cs

-- The string that begins a block; `none` if nothing in the block ends it.
unfoldable pub text : List ℕ → Option (List ℕ)
text [] = none
text (c ∷ cs) =
    let rest = text cs in
    if c == 0 then some [] else elim rest [ none ↦ none | some t ↦ some (c ∷ t) ]

pub text-append : (t rest : List ℕ) → IsText t → text (t ++ 0 ∷ rest) ≡ some t
unfolding text
text-append [] rest h = refl
text-append (c ∷ cs) rest h = ground (arith, h.0, text-append cs rest h.1)

pub IsText-append : (s t : List ℕ) → IsText s → IsText t → IsText (s ++ t)
IsText-append [] t h k = k
IsText-append (c ∷ cs) t h k = (h.0, IsText-append cs t h.1 k)
