-- ===== src/Url/Valid.antt =====
-- What the validation in src/url/avs_url.c demands of the parts of a URL.
use avs_commons.Common.{
  ℕ, Bool, true, false, not, ◌&&◌, ◌||◌, Option, none, some, List, [], ◌∷◌, ◌≡◌, refl, sym, ◌∙◌,
  ◌==◌, ltb, leb, if◌then◌else◌, length, Bool-cases, inl, inr, arith,
}
use avs_commons.Url.{is_valid_hostname_char, is_valid_url_path_char}
use avs_commons.Url.Access.{
  is_valid_looking_hostname, validate_host, port_fits, validate_relative_path, validate_path,
}
use avs_commons.Url.Expected.{Parts, is_there, follow, written}
use avs_commons.Url.Parser.{starts}
use avs_commons.Url.Written.{is_valid_url_part-written}

abbrev pub every : (ℕ → Bool) → List ℕ → Bool
every good [] = true
every good (c ∷ cs) = good c && every good cs

-- A host name that is there, not empty, and of the characters of host names.
unfoldable pub good_host : Option (List ℕ) → Bool
unfolding is_valid_hostname_char
good_host none = false
good_host (some t) = leb 1 (length t) && every is_valid_hostname_char t

-- No port, or one of 1 to 5 characters.
unfoldable pub good_port : Option (List ℕ) → Bool
good_port none = true
good_port (some t) = leb 1 (length t) && leb (length t) 5

-- A path that begins with a slash, of the characters of paths and escapes.
unfoldable pub good_path : List ℕ → Bool
unfolding written is_valid_url_path_char
good_path t = starts b'/' t && written is_valid_url_path_char 0 t

-- What a URL has to have to be accepted.
unfoldable pub acceptable : Parts × List ℕ → Bool
unfolding good_host good_port good_path
acceptable p =
    is_there p.0.protocol && (good_host p.0.host && (good_port p.0.port && good_path p.1))

abbrev pub accepted : Option (Parts × List ℕ) → Option (Parts × List ℕ)
accepted w = follow w λ p. if acceptable p then some p else none

looking-every : (t : List ℕ) → is_valid_looking_hostname t ≡ every is_valid_hostname_char t
unfolding is_valid_looking_hostname
looking-every [] = refl
looking-every (c ∷ cs) = elim (Bool-cases (is_valid_hostname_char c)) [
  | inl e ↦ rw (e, is_valid_looking_hostname) (looking-every cs)
  | inr e ↦ rw (e, is_valid_looking_hostname) refl
]

pub validate_host-good_host : (h : Option (List ℕ)) → validate_host h ≡ good_host h
unfolding validate_host good_host
validate_host-good_host none = refl
validate_host-good_host (some []) = refl
validate_host-good_host (some (c ∷ cs)) =
    let one : leb 1 (length (c ∷ cs)) ≡ true = ground arith in rw one (looking-every (c ∷ cs))

pub port_fits-good_port : (p : Option (List ℕ)) → port_fits p ≡ good_port p
unfolding port_fits good_port
port_fits-good_port none = refl
port_fits-good_port (some t) = counts (length t)
  where
    counts : (n : ℕ) → not (ltb n 1 || ltb 5 n) ≡ (leb 1 n && leb n 5)
    counts n = ground arith

guarded : (b : Bool) {x y : Bool} → x ≡ y → (if b then x else false) ≡ (b && y)
guarded true e = e
guarded false e = refl

validate_path_lem :
    (c : ℕ) (cs : List ℕ)
    → validate_path (c ∷ cs) ≡ (if c == b'/' then validate_relative_path (c ∷ cs) else false)
unfolding validate_path
validate_path_lem c cs = refl

good_path_lem :
    (c : ℕ) (cs : List ℕ)
    → good_path (c ∷ cs) ≡ (c == b'/' && written is_valid_url_path_char 0 (c ∷ cs))
unfolding good_path
good_path_lem c cs = refl

relative-written : (t : List ℕ) → validate_relative_path t ≡ written is_valid_url_path_char 0 t
unfolding validate_relative_path
relative-written t = is_valid_url_part-written is_valid_url_path_char t

no_path : validate_path [] ≡ good_path []
unfolding validate_path good_path
no_path = refl

pub validate_path-good_path : (t : List ℕ) → validate_path t ≡ good_path t
validate_path-good_path [] = no_path
validate_path-good_path (c ∷ cs) =
    validate_path_lem c cs
    ∙ guarded (c == b'/') (relative-written (c ∷ cs))
    ∙ sym (good_path_lem c cs)
