-- ===== src/Url.antt =====
-- src/url/avs_url.c: URLs. A string passed in is the list of its characters in front of the terminator;
-- the block `data[]` of a URL is a list of bytes whose length is what was allocated, and the pointers into
-- it are offsets. Characters are numbers below 256, in the C locale.
pub mod Escape
pub mod Parser
pub mod Access
mod Expected
mod Decoding
mod InPlace
mod Prepare
pub mod Encoding
mod RoundTrip
mod Stages
mod Shown
mod Written
mod Names
mod Credentials
mod Search
mod Authority
mod Front
mod PathPart
mod Lenient
mod Accepted
mod Valid
mod Copied
mod Tests
use avs_commons.Common.{
  ℕ, Bool, true, false, ◌&&◌, ◌||◌, Option, none, some, List, [], ◌∷◌, leb, ltb, if◌then◌else◌,
  get_elem?, set, length,
}
use avs_commons.Common.Strings.{codes, in_set}
use avs_commons.Hexlify.{char_to_value}

-- What a call comes to: `fault` is a failed assertion, an access outside of the block or a loop that runs
-- out of fuel, `refused` the result -1 or NULL.
pub data Outcome (A : Type 0) : Type 0 where
  fault : Outcome A
  refused : Outcome A
  fine : A → Outcome A

infixl 5 ◌>>=◌
abbrev pub ◌>>=◌ : {A B : Type 0} → Outcome A → (A → Outcome B) → Outcome B
fault >>= f = fault
refused >>= f = refused
fine a >>= f = f a

-- `assert`
abbrev pub ensure : {A : Type 0} → Bool → Outcome A → Outcome A
ensure b o = if b then o else fault

-- `struct avs_url`, with `none` for URL_PTR_INVALID.
pub record Url : Type 0 where
  pub has_protocol : Bool
  pub user_ptr : Option ℕ
  pub password_ptr : Option ℕ
  pub host_ptr : Option ℕ
  pub port_ptr : Option ℕ
  pub path_ptr : Option ℕ
  pub bytes : List ℕ

abbrev pub found : {A : Type 0} → Option A → Outcome A
found none = fault
found (some a) = fine a

abbrev pub byte_at : List ℕ → ℕ → Outcome ℕ
byte_at block i = found (get_elem? block i)

abbrev pub put_byte : List ℕ → ℕ → ℕ → Outcome (List ℕ)
put_byte block i c = if ltb i (length block) then fine (set block i c) else fault

unfoldable pub isdigit : ℕ → Bool
isdigit c = leb b'0' c && leb c b'9'

unfoldable pub isalnum : ℕ → Bool
unfolding isdigit
isalnum c = isdigit c || ((leb b'A' c && leb c b'Z') || (leb b'a' c && leb c b'z'))

unfoldable pub isxdigit : ℕ → Bool
unfolding char_to_value
isxdigit c = elim (char_to_value c) [ none ↦ false | some v ↦ true ]

-- The characters of the schema, of user names and passwords, of host names and of paths.
unfoldable pub is_valid_schema_char : ℕ → Bool
unfolding isalnum
is_valid_schema_char c = isalnum c || in_set (codes "+-.") c

unfoldable pub is_valid_credential_char : ℕ → Bool
unfolding isalnum
is_valid_credential_char c = isalnum c || in_set (codes ";?&=$-_.+!*'(),") c

unfoldable pub is_valid_hostname_char : ℕ → Bool
unfolding isalnum
is_valid_hostname_char c = isalnum c || in_set (codes "!$&'()*+,-.:;_=~") c

unfoldable pub is_valid_url_path_char : ℕ → Bool
unfolding isalnum
is_valid_url_path_char c = isalnum c || in_set (codes "/?~;:@&=$-_.+!*'(),") c
