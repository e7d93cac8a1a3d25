-- ===== src/Url/Access.antt =====
-- The accessors, the validation and the copy of src/url/avs_url.c, and avs_url_parse.
use avs_commons.Common.{
  ℕ, Bool, true, false, not, ◌||◌, Option, none, some, List, [], ◌∷◌, ◌+◌, ◌==◌, ltb, if◌then◌else◌,
  length, take, drop, write_at,
}
use avs_commons.Common.Strings.{text}
use avs_commons.Url.{
  Outcome, fault, refused, fine, found, ◌>>=◌, Url, is_valid_hostname_char, is_valid_url_path_char,
}
use avs_commons.Url.Escape.{is_valid_url_part}
use avs_commons.Url.Parser.{parse_lenient}

-- The string that begins at an offset of `data[]`.
unfoldable pub text_at : List ℕ → ℕ → Outcome (List ℕ)
unfolding text
text_at block i = found (text (drop i block))

-- The string that a pointer of the structure shows, or NULL.
unfoldable pub pointed : List ℕ → Option ℕ → Outcome (Option (List ℕ))
unfolding text_at
pointed block none = fine none
pointed block (some i) = text_at block i >>= λ t. fine (some t)

-- `avs_url_protocol`
unfoldable pub protocol : Url → Outcome (Option (List ℕ))
unfolding pointed
protocol u = pointed u.bytes (if u.has_protocol then some 0 else none)

-- `avs_url_user`
unfoldable pub user : Url → Outcome (Option (List ℕ))
unfolding pointed
user u = pointed u.bytes u.user_ptr

-- `avs_url_password`
unfoldable pub password : Url → Outcome (Option (List ℕ))
unfolding pointed
password u = pointed u.bytes u.password_ptr

-- `avs_url_host`
unfoldable pub host : Url → Outcome (Option (List ℕ))
unfolding pointed
host u = pointed u.bytes u.host_ptr

-- `avs_url_port`
unfoldable pub port : Url → Outcome (Option (List ℕ))
unfolding pointed
port u = pointed u.bytes u.port_ptr

-- `avs_url_path`
unfoldable pub path : Url → Outcome (List ℕ)
unfolding text_at
path u = elim u.path_ptr [ none ↦ fault | some i ↦ text_at u.bytes i ]

-- The loop of `is_valid_looking_hostname`.
unfoldable pub is_valid_looking_hostname : List ℕ → Bool
unfolding is_valid_hostname_char
is_valid_looking_hostname [] = true
is_valid_looking_hostname (c ∷ cs) =
    let rest = is_valid_looking_hostname cs in if is_valid_hostname_char c then rest else false

-- `avs_url_validate_host`: whether it returns 0.
unfoldable pub validate_host : Option (List ℕ) → Bool
unfolding is_valid_looking_hostname
validate_host none = false
validate_host (some []) = false
validate_host (some (c ∷ cs)) = is_valid_looking_hostname (c ∷ cs)

-- `avs_url_validate_relative_path`
unfoldable pub validate_relative_path : List ℕ → Bool
unfolding is_valid_url_part is_valid_url_path_char
validate_relative_path = is_valid_url_part is_valid_url_path_char

-- `avs_url_validate_path`
unfoldable pub validate_path : List ℕ → Bool
unfolding validate_relative_path
validate_path [] = false
validate_path (c ∷ cs) = if c == b'/' then validate_relative_path (c ∷ cs) else false

-- The test of the port in `avs_url_validate`.
unfoldable pub port_fits : Option (List ℕ) → Bool
port_fits none = true
port_fits (some t) = not (ltb (length t) 1 || ltb 5 (length t))

-- `avs_url_validate`: whether it returns 0.
unfoldable pub validate : Url → Outcome Bool
unfolding host port path validate_host port_fits validate_path
validate u =
    if not u.has_protocol
    then fine false
    else (host u >>= λ h.
        if not (validate_host h)
        then fine false
        else (port u >>= λ p.
            if not (port_fits p) then fine false else (path u >>= λ t. fine (validate_path t))))

-- `avs_url_parse`
unfoldable pub parse : (ℕ → Option (List ℕ)) → List ℕ → Outcome Url
unfolding parse_lenient validate
parse malloc raw_url =
    parse_lenient malloc raw_url >>= λ u. validate u >>= λ v. if v then fine u else refused

-- `avs_url_copy`: the block up to the end of the path is copied to a new one.
unfoldable pub copy : (ℕ → Option (List ℕ)) → Url → Outcome Url
unfolding text_at
copy malloc u = elim u.path_ptr [
  | none ↦ fault
  | some i ↦ text_at u.bytes i >>= λ t.
      let alloc_size = i + length t + 1 in
      elim (malloc alloc_size) [
        | none ↦ refused
        | some block ↦ fine (record u { bytes = write_at block 0 (take alloc_size u.bytes) })
      ]
]
