-- ===== src/Url/Accepted.antt =====
-- What the accessors, avs_url_parse and avs_url_copy of src/url/avs_url.c make of a parsed URL.
use avs_commons.Common.{
  ℕ, Option, none, some, List, [], ◌∷◌, ◌++◌, ◌≡◌, refl, ap, ◌+◌, if◌then◌else◌, length,
  Option-cases, inl, inr,
}
use avs_commons.Common.Strings.{IsText}
use avs_commons.Url.{Outcome, refused, fine, found, Url}
use avs_commons.Url.Access.{pointed, protocol, user, password, host, port, path}
use avs_commons.Url.Expected.{Parts, expected}
use avs_commons.Url.PathPart.{Finished}
use avs_commons.Url.Lenient.{rejected, came, parse_lenient-Comes}
use avs_commons.Url.Parser.{parse_lenient}
use avs_commons.Url.Shown.{Shows, Shows-more, Reads-last}

-- `malloc`: a block that is given has the length asked for.
abbrev pub IsMalloc : (ℕ → Option (List ℕ)) → Type 0
IsMalloc malloc = (n : ℕ) (b : List ℕ) → malloc n ≡ some b → length b ≡ n

-- The accessors tell the parts `c` and the path `t`.
pub record Tells (c : Parts) (t : List ℕ) (u : Url) : Type 0 where
  pub protocol_is : protocol u ≡ fine c.protocol
  pub user_is : user u ≡ fine c.user
  pub password_is : password u ≡ fine c.password
  pub host_is : host u ≡ fine c.host
  pub port_is : port u ≡ fine c.port
  pub path_is : path u ≡ fine t

pointed_lem :
    (done room : List ℕ) (i : Option ℕ) (t : Option (List ℕ))
    → Shows done i t
    → pointed (done ++ room) i ≡ fine t
unfolding pointed
pointed_lem done room none none s = refl
pointed_lem done room (some i) (some t) s = rw (s room) refl
pointed_lem done room none (some t) s = absurd s
pointed_lem done room (some i) none s = absurd s

pub Finished-Tells : {c : Parts} {t : List ℕ} {u : Url} → Finished c t u → Tells c t u
unfolding protocol user password host port path
Finished-Tells {c} {t} {u} f =
    let last = t ++ 0 ∷ [] in
    let shows = λ (i : Option ℕ) (w : Option (List ℕ)) (s : Shows f.done i w).
      pointed_lem (f.done ++ last) f.junk i w (Shows-more f.done last i w s) in
    rw f.is record {
      protocol_is =
          shows (if f.parsed.has_protocol then some 0 else none) c.protocol f.shown.protocol;
      user_is = shows f.parsed.user_ptr c.user f.shown.user;
      password_is = shows f.parsed.password_ptr c.password f.shown.password;
      host_is = shows f.parsed.host_ptr c.host f.shown.host;
      port_is = shows f.parsed.port_ptr c.port f.shown.port;
      path_is = ap found (Reads-last f.done t f.is_text f.junk);
    }

-- A text is refused, or there is no memory, or the URL tells what is wanted.
pub data Parses (malloc : ℕ → Option (List ℕ)) (n : ℕ) (wanted : Option (Parts × List ℕ))
    (result : Outcome Url) : Type 0 where
  no_memory : malloc n ≡ none → result ≡ refused → Parses malloc n wanted result
  no_parse : wanted ≡ none → result ≡ refused → Parses malloc n wanted result
  parsed :
      (c : Parts) (t : List ℕ) (u : Url)
      → wanted ≡ some (c, t)
      → result ≡ fine u
      → Tells c t u
      → Parses malloc n wanted result

pub parse_lenient_refused :
    (malloc : ℕ → Option (List ℕ)) (raw : List ℕ)
    → malloc (length raw + 1) ≡ none
    → parse_lenient malloc raw ≡ refused
unfolding parse_lenient
parse_lenient_refused malloc raw e = rw (e, parse_lenient) refl

-- For any text without the character 0, and an allocation that gives blocks of the length asked for with
-- anything in them, or fails: avs_url_parse_lenient never fails an assertion, never accesses a byte
-- outside of the block of `strlen(raw_url) + 1` bytes, and does not run on. It returns NULL if the
-- allocation fails or the text has no parse by the grammar of Expected; else it returns a URL of which
-- the six accessors return exactly the parts and the path of that parse.
pub parse_lenient-Parses :
    (malloc : ℕ → Option (List ℕ)) (raw : List ℕ)
    → IsMalloc malloc
    → IsText raw
    → Parses malloc (length raw + 1) (expected raw) (parse_lenient malloc raw)
parse_lenient-Parses malloc raw m h = elim (Option-cases (malloc (length raw + 1))) [
  | inl e ↦ no_memory e (parse_lenient_refused malloc raw e)
  | inr (block, e) ↦ elim (parse_lenient-Comes malloc raw block h e (m (length raw + 1) block e)) [
    | rejected w r ↦ no_parse w r
    | came c t u w r f ↦ parsed c t u w r (Finished-Tells f)
  ]
]
