-- ===== src/Url/Parser.antt =====
-- The parser of src/url/avs_url.c: the functions that avs_url_parse_lenient calls, and it.
use avs_commons.Common.{
  ℕ, suc, Bool, true, false, not, ◌&&◌, ◌||◌, Option, none, some, List, [], ◌∷◌, ◌+◌, ◌==◌, ltb,
  if◌then◌else◌, length, take, drop, write_at,
}
use avs_commons.Common.Strings.{text}
use avs_commons.Url.{
  Outcome, fault, refused, fine, ◌>>=◌, ensure, Url, put_byte, isdigit, is_valid_schema_char,
  is_valid_credential_char,
}
use avs_commons.Url.Escape.{prepare_string, is_valid_url_part}

-- What the functions share: `*url`, up to its terminator, `*data_out_ptr` and `*parsed_url`.
pub record Cursor : Type 0 where
  pub url : List ℕ
  pub out : ℕ
  pub parsed : Url

-- `**url == c` for a character that is not 0.
abbrev pub starts : ℕ → List ℕ → Bool
starts c [] = false
starts c (d ∷ ds) = d == c

abbrev pub is_end : List ℕ → Bool
is_end [] = true
is_end (c ∷ cs) = false

abbrev pub rest_of : List ℕ → List ℕ
rest_of [] = []
rest_of (c ∷ cs) = cs

-- `parsed_url->data[(*data_out_ptr)++] = c`
unfoldable pub emit : ℕ → Cursor → Outcome Cursor
emit c s = put_byte s.parsed.bytes s.out c >>= λ b.
    fine (record s { out = s.out + 1; parsed = record s.parsed { bytes = b } })

-- `while (… *data_out_ptr < out_limit && go(**url)) data[(*data_out_ptr)++] = *(*url)++`, which the
-- functions below have over the string `cs`; what is left of it.
unfoldable pub copy_while : (ℕ → Bool) → ℕ → List ℕ → Cursor → Outcome (List ℕ × Cursor)
unfolding emit
copy_while go limit [] s = fine ([], s)
copy_while go limit (c ∷ cs) s =
    if ltb s.out limit && go c then emit c s >>= copy_while go limit cs else fine (c ∷ cs, s)

-- The loop that looks for the end of the protocol: how many characters it skips.
unfoldable pub proto_length : List ℕ → ℕ
unfolding is_valid_schema_char
proto_length [] = 0
proto_length (c ∷ cs) = let more = proto_length cs in if is_valid_schema_char c then suc more else 0

-- `url_parse_protocol`
unfoldable pub url_parse_protocol : ℕ → Cursor → Outcome Cursor
unfolding proto_length emit
url_parse_protocol limit s =
    let n = proto_length s.url in
    ensure (s.out == 0) (
      if starts b':' (drop n s.url)
      then ensure (ltb (s.out + n) limit) (
          emit 0 (record s {
            url = drop (n + 1) s.url;
            out = s.out + n;
            parsed = record s.parsed {
              has_protocol = true;
              bytes = write_at s.parsed.bytes 0 (take n s.url);
            };
          }))
      else fine (record s { parsed = record s.parsed { has_protocol = false } }))

-- `prepare_string(&parsed_url->data[at])`, if what stands there is a valid credential: the block with
-- the string decoded, and the length of that string.
unfoldable pub check_credential : List ℕ → ℕ → Outcome (List ℕ × ℕ)
unfolding prepare_string is_valid_url_part is_valid_credential_char text
check_credential block ptr = elim (text (drop ptr block)) [
  | none ↦ fault
  | some t ↦
      if is_valid_url_part is_valid_credential_char t
      then (prepare_string (drop ptr block) >>= λ d. elim (text d) [
        | none ↦ fault
        | some u ↦ fine (write_at block ptr d, length u)
      ])
      else refused
]

-- What is done with the user name and with the password once it has been copied to the offset `ptr`.
unfoldable pub end_credential : ℕ → Cursor → Outcome Cursor
unfolding emit check_credential
end_credential ptr s = emit 0 s >>= λ q. check_credential q.parsed.bytes ptr >>= λ r.
    fine (record q { out = ptr + r.1 + 1; parsed = record q.parsed { bytes = r.0 } })

-- `parse_username_and_password` of the characters from `begin` to `end`.
unfoldable pub parse_username_and_password : ℕ → List ℕ → Cursor → Outcome Cursor
unfolding copy_while end_credential
parse_username_and_password limit begin s = copy_while (λ c. not (c == b':')) limit begin s >>= λ r.
    ensure (is_end r.0 || starts b':' r.0) (end_credential s.out r.1) >>= λ u.
    let named = record u { parsed = record u.parsed { user_ptr = some s.out } } in
    if is_end r.0
    then fine named
    else (copy_while (λ c. true) limit (rest_of r.0) named >>= λ q.
        ensure (is_end q.0) (end_credential named.out q.1) >>= λ w.
        fine (record w { parsed = record w.parsed { password_ptr = some named.out } }))

-- `strchr`: how many characters stand in front of the first `c`.
unfoldable pub strchr : List ℕ → ℕ → Option ℕ
strchr [] c = none
strchr (d ∷ ds) c =
    let later = strchr ds c in
    if d == c then some 0 else elim later [ none ↦ none | some n ↦ some (suc n) ]

-- Whether the credentials end in front of the first slash.
abbrev pub in_front : ℕ → Option ℕ → Bool
in_front n none = true
in_front n (some m) = ltb n m

unfoldable pub url_parse_credentials : ℕ → Cursor → Outcome Cursor
unfolding strchr parse_username_and_password
url_parse_credentials limit s = elim (strchr s.url b'@') [
  | none ↦ fine s
  | some n ↦
      if in_front n (strchr s.url b'/')
      then (parse_username_and_password limit (take n s.url) s >>= λ r.
          fine (record r { url = drop (n + 1) s.url }))
      else fine s
]

abbrev pub in_host : ℕ → Bool
in_host c = not (c == b'/' || (c == b'?' || c == b':'))

-- The end of a host name.
abbrev pub host_ends : List ℕ → Bool
host_ends r = is_end r || (starts b'/' r || (starts b'?' r || starts b':' r))

-- `url_parse_host`
unfoldable pub url_parse_host : ℕ → Cursor → Outcome Cursor
unfolding copy_while emit
url_parse_host limit s =
    let q = record s { parsed = record s.parsed { host_ptr = some s.out } } in
    if starts b'[' s.url
    then (copy_while (λ c. not (c == b']')) limit (rest_of s.url) q >>= λ r.
        ensure (is_end r.0 || starts b']' r.0)
          (if starts b']' r.0 then emit 0 (record r.1 { url = rest_of r.0 }) else refused))
    else (copy_while in_host limit s.url q >>= λ r.
        ensure (host_ends r.0) (emit 0 (record r.1 { url = r.0 })))

abbrev pub port_ends : List ℕ → Bool
port_ends r = is_end r || (starts b'/' r || starts b'?' r)

unfoldable pub starts_digit : List ℕ → Bool
unfolding isdigit
starts_digit [] = false
starts_digit (c ∷ cs) = isdigit c

-- `url_parse_port`
unfoldable pub url_parse_port : ℕ → Cursor → Outcome Cursor
unfolding copy_while emit starts_digit
url_parse_port limit s =
    if starts b':' s.url
    then (let q = record s { parsed = record s.parsed { port_ptr = some s.out } } in
        copy_while isdigit limit (rest_of s.url) q >>= λ r.
        ensure (not (starts_digit r.0))
          (if port_ends r.0 then emit 0 (record r.1 { url = r.0 }) else refused))
    else fine s

abbrev pub is_set : Option ℕ → Bool
is_set none = false
is_set (some n) = true

-- `url_parse_path`
unfoldable pub url_parse_path : ℕ → Cursor → Outcome Cursor
unfolding copy_while emit
url_parse_path limit s =
    let q = record s { parsed = record s.parsed { path_ptr = some s.out } } in
    (if is_set s.parsed.host_ptr && (is_end s.url || starts b'?' s.url)
      then emit b'/' q
      else fine q)
    >>= λ p. copy_while (λ c. true) limit s.url p >>= λ r.
        ensure (ltb r.1.out limit) (emit 0 (record r.1 { url = r.0 }))

-- `raw_url[0] == '/' && raw_url[1] == '/'`
abbrev pub has_slashes : List ℕ → Bool
has_slashes [] = false
has_slashes (c ∷ cs) = c == b'/' && starts b'/' cs

-- What follows the protocol, in avs_url_parse_lenient.
unfoldable pub parse_authority : ℕ → Cursor → Outcome Cursor
unfolding url_parse_credentials url_parse_host url_parse_port
parse_authority limit s =
    if has_slashes s.url
    then (url_parse_credentials limit (record s { url = drop 2 s.url })
        >>= url_parse_host limit
        >>= url_parse_port limit)
    else fine s

-- `avs_url_parse_lenient`, where `malloc` gives the block `data[]` of the length it is asked for, or NULL.
unfoldable pub parse_lenient : (ℕ → Option (List ℕ)) → List ℕ → Outcome Url
unfolding url_parse_protocol parse_authority url_parse_path
parse_lenient malloc raw_url =
    let data_length = length raw_url + 1 in
    elim (malloc data_length) [
      | none ↦ refused
      | some block ↦
          url_parse_protocol data_length (record {
            url = raw_url;
            out = 0;
            parsed = record {
              has_protocol = false;
              user_ptr = none;
              password_ptr = none;
              host_ptr = none;
              port_ptr = none;
              path_ptr = none;
              bytes = block;
            };
          })
          >>= parse_authority data_length
          >>= url_parse_path data_length
          >>= λ s. if is_end s.url then fine s.parsed else refused
    ]
