-- ===== src/Url/Expected.antt =====
-- The parts of a URL by its grammar, read from the text alone: what avs_url_parse_lenient of
-- src/url/avs_url.c is to find.
use avs_commons.Common.{
  ℕ, zero, suc, Bool, true, false, not, ◌&&◌, ◌||◌, Option, none, some, List, [], ◌∷◌, ◌==◌,
  if◌then◌else◌,
}
use avs_commons.Common.Strings.{codes, contains}
use avs_commons.Url.{isdigit, is_valid_schema_char, is_valid_credential_char, isxdigit}
use avs_commons.Url.Decoding.{cleaned}
use avs_commons.Url.Parser.{starts, is_end, rest_of}

-- The parts in front of the path.
pub record Parts : Type 0 where
  pub protocol : Option (List ℕ)
  pub user : Option (List ℕ)
  pub password : Option (List ℕ)
  pub host : Option (List ℕ)
  pub port : Option (List ℕ)

-- The longest start of characters that pass a test, and what follows it.
abbrev pub span : (ℕ → Bool) → List ℕ → List ℕ × List ℕ
span go [] = ([], [])
span go (c ∷ cs) = let more = span go cs in if go c then (c ∷ more.0, more.1) else ([], c ∷ cs)

abbrev pub follow : {A B : Type 0} → Option A → (A → Option B) → Option B
follow none f = none
follow (some a) f = f a

-- Every character of a text passes the test, or belongs to an escape; `k` digits of one are still to come.
unfoldable pub written : (ℕ → Bool) → ℕ → List ℕ → Bool
unfolding isxdigit
written good zero [] = true
written good (suc k) [] = false
written good zero (c ∷ cs) =
    let plain = written good 0 cs in
    let escaped = written good 2 cs in if good c then plain else c == b'%' && escaped
written good (suc k) (c ∷ cs) = isxdigit c && written good k cs

-- A user name or password, decoded.
unfoldable pub credential : List ℕ → Option (List ℕ)
unfolding cleaned written is_valid_credential_char
credential t = if written is_valid_credential_char 0 t then cleaned t else none

unfoldable pub with_protocol : Parts → List ℕ → Parts × List ℕ
unfolding is_valid_schema_char
with_protocol c r =
    let s = span is_valid_schema_char r in
    if starts b':' s.1
    then (record c { protocol = some s.0 }, rest_of s.1)
    else (record c { protocol = none }, r)

-- The text in front of `@`: a user name, and a password behind the first colon if there is one.
unfoldable pub with_names : Parts → List ℕ → Option Parts
unfolding credential
with_names c t =
    let s = span (λ d. not (d == b':')) t in
    follow (credential s.0) λ u.
      if is_end s.1
      then some (record c { user = some u })
      else follow (credential (rest_of s.1))
          λ w. some (record c { user = some u; password = some w })

unfoldable pub with_credentials : Parts → List ℕ → Option (Parts × List ℕ)
unfolding with_names
with_credentials c r =
    let s = span (λ d. not (d == b'@')) r in
    if starts b'@' s.1 && not (contains s.0 b'/')
    then (follow (with_names c s.0) λ d. some (d, rest_of s.1))
    else some (c, r)

abbrev pub host_char : ℕ → Bool
host_char d = not (contains (codes "/?:") d)

-- A host name, or an address in brackets.
unfoldable pub with_host : Parts → List ℕ → Option (Parts × List ℕ)
with_host c r =
    let inner = span (λ d. not (d == b']')) (rest_of r) in
    let plain = span host_char r in
    if starts b'[' r
    then (if starts b']' inner.1
        then some (record c { host = some inner.0 }, rest_of inner.1)
        else none)
    else some (record c { host = some plain.0 }, plain.1)

-- A path, or nothing, can follow.
abbrev pub ends_here : List ℕ → Bool
ends_here [] = true
ends_here (c ∷ cs) = contains (codes "/?") c

unfoldable pub with_port : Parts → List ℕ → Option (Parts × List ℕ)
unfolding isdigit
with_port c r =
    let s = span isdigit (rest_of r) in
    if starts b':' r
    then (if ends_here s.1 then some (record c { port = some s.0 }, s.1) else none)
    else some (c, r)

abbrev pub behind_slashes : List ℕ → Option (List ℕ)
behind_slashes [] = none
behind_slashes (c ∷ []) = none
behind_slashes (c ∷ d ∷ r) = if c == b'/' && d == b'/' then some r else none

unfoldable pub with_authority : Parts → List ℕ → Option (Parts × List ℕ)
unfolding with_credentials with_host with_port
with_authority c r = elim (behind_slashes r) [
  | none ↦ some (c, r)
  | some q ↦ follow (follow (with_credentials c q) λ a. with_host a.0 a.1) λ b. with_port b.0 b.1
]

abbrev pub no_parts : Parts
no_parts = record { protocol = none; user = none; password = none; host = none; port = none }

abbrev pub is_there : Option (List ℕ) → Bool
is_there none = false
is_there (some t) = true

-- The path, which is never empty behind a host.
unfoldable pub full_path : Parts → List ℕ → List ℕ
full_path c r = if is_there c.host && (is_end r || starts b'?' r) then b'/' ∷ r else r

-- The parts of a whole URL, and its path.
unfoldable pub expected : List ℕ → Option (Parts × List ℕ)
unfolding with_protocol with_authority full_path
expected raw =
    let p = with_protocol no_parts raw in
    follow (with_authority p.0 p.1) λ a. some (a.0, full_path a.0 a.1)
