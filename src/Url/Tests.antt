-- ===== src/Url/Tests.antt =====
-- Runs of src/url/avs_url.c, and the witnesses.
use avs_commons.Common.{
  ℕ, Bool, ltb, Option, none, some, false, List, [], ◌∷◌, length, length-replicate, replicate, ◌+◌,
  ◌≡◌, refl, sym, ap, ◌∙◌, arith,
}
use avs_commons.Common.Strings.{codes, IsText}
use avs_commons.Membuf.{vtable, create}
use avs_commons.Membuf.Queue.{contents, IsValid}
use avs_commons.Membuf.Write.{Serves, Membuf-IsSink}
use avs_commons.Url.{refused, fine, ◌>>=◌, Url}
use avs_commons.Url.Accepted.{IsMalloc, Parses, Tells, parse_lenient-Parses}
use avs_commons.Url.Valid.{accepted}
use avs_commons.Url.Access.{parse, user, password, host, port, path, copy}
use avs_commons.Url.Copied.{Copies, parse-Parses, copy-Tells}
use avs_commons.Url.Escape.{percent_encode}
use avs_commons.Url.Expected.{Parts, expected}
use avs_commons.Url.Parser.{parse_lenient}
use avs_commons.Url.RoundTrip.{ReadBack, percent_round_trip}

-- A block is never clean.
abbrev malloc : ℕ → Option (List ℕ)
malloc n = some (replicate n 170)

abbrev address : List ℕ
address = codes "http://u%41:p@[::1]:80?q"

parse-user : (parse malloc address >>= λ u. user u) ≡ fine (some (codes "uA"))
unfolding parse user
parse-user = refl

parse-password : (parse malloc address >>= λ u. password u) ≡ fine (some (codes "p"))
unfolding parse password
parse-password = refl

parse-host : (parse malloc address >>= λ u. host u) ≡ fine (some (codes "::1"))
unfolding parse host
parse-host = refl

parse-port : (parse malloc address >>= λ u. port u) ≡ fine (some (codes "80"))
unfolding parse port
parse-port = refl

parse-path : (parse malloc address >>= λ u. path u) ≡ fine (codes "/?q")
unfolding parse path
parse-path = refl

-- A user name may not hold an escaped terminator, and a port has at most five digits.
no_null : parse malloc (codes "http://u%00:p@h/") ≡ refused
unfolding parse
no_null = refl

long_port : parse malloc (codes "http://h:123456/") ≡ refused
unfolding parse
long_port = refl

malloc-IsMalloc : IsMalloc malloc
malloc-IsMalloc n b e =
    let same : replicate n 170 ≡ b = cc (e) in
    ap (λ (l : List ℕ). length l) (sym same) ∙ length-replicate n 170

address-IsText : IsText address
address-IsText = ground arith

parse_lenient-Parses_example :
    Parses malloc (length address + 1) (expected address) (parse_lenient malloc address)
parse_lenient-Parses_example = parse_lenient-Parses malloc address malloc-IsMalloc address-IsText

parse-Parses_example :
    Parses malloc (length address + 1) (accepted (expected address)) (parse malloc address)
parse-Parses_example = parse-Parses malloc address malloc-IsMalloc address-IsText

abbrev short_url : Url
short_url = record {
  has_protocol = false;
  user_ptr = none;
  password_ptr = none;
  host_ptr = some 0;
  port_ptr = none;
  path_ptr = some 2;
  bytes = b'h' ∷ 0 ∷ b'/' ∷ b'a' ∷ 0 ∷ 170 ∷ [];
}

short_parsed : parse_lenient malloc (codes "//h/a") ≡ fine short_url
unfolding parse_lenient
short_parsed = refl

copy-Tells_example :
    (c : Parts) × (t : List ℕ) × (Tells c t short_url) × (Copies malloc c t (copy malloc short_url))
copy-Tells_example =
    copy-Tells malloc (codes "//h/a") short_url malloc-IsMalloc (ground arith) short_parsed

-- An empty in-memory stream that can grow to a hundred bytes.
abbrev heap : ℕ → Bool
heap n = ltb n 101

heap-Serves : Serves heap
unfolding Serves
heap-Serves n e = ground (arith, e)

create-IsValid : IsValid create
unfolding create
create-IsValid = record {
  ordered = omega arith;
  filled = refl;
  fits = omega arith;
  in_memory = omega arith;
}

-- "é b", with `~` left as it is.
percent_round_trip_example :
    ReadBack
      (195 ∷ 169 ∷ 32 ∷ 98 ∷ [])
      (7 ∷ [])
      contents
      create
      (percent_encode (vtable heap) (codes "~") create (195 ∷ 169 ∷ 32 ∷ 98 ∷ []))
percent_round_trip_example =
    percent_round_trip (Membuf-IsSink heap heap-Serves) (codes "~") refl (195 ∷ 169 ∷ 32 ∷ 98 ∷ [])
      (7 ∷ []) (omega arith, (omega arith, (omega arith, (omega arith, tt)))) (ground arith) create
      create-IsValid (omega arith)
