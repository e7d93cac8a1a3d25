-- ===== src/Url/Authority.antt =====
-- The host and the port in avs_url_parse_lenient of src/url/avs_url.c.
use avs_commons.Common.{
  ℕ, Bool, true, false, not, ◌||◌, some, List, [], ◌∷◌, ◌++◌, ◌≡◌, refl, ◌≤◌, ◌+◌, ◌==◌, length,
  Bool-cases, inl, inr, arith,
}
use avs_commons.Common.Strings.{IsText}
use avs_commons.Url.{Url, isdigit}
use avs_commons.Url.Expected.{Parts, span, with_host, with_port, host_char, ends_here}
use avs_commons.Url.Parser.{
  Cursor, starts, is_end, rest_of, in_host, host_ends, port_ends, starts_digit, url_parse_host,
  url_parse_port,
}
use avs_commons.Url.Shown.{Shown, Shown-more, Reads-last, At, Ends, gone, went, string-Ends}
use avs_commons.Url.Stages.{state, copy_while_lem, length-span, span-IsText, Stops, span-Stops}

pub or_true : (b : Bool) → (b || true) ≡ true
or_true true = refl
or_true false = refl

pub rest_of-IsText : (cs : List ℕ) → IsText cs → IsText (rest_of cs)
rest_of-IsText [] h = tt
rest_of-IsText (c ∷ cs) h = h.1

pub length-rest_of :
    (c : ℕ) (cs : List ℕ) → starts c cs ≡ true → length (rest_of cs) + 1 ≡ length cs
length-rest_of c [] e = absurd (ground (arith, e))
length-rest_of c (d ∷ cs) e = omega arith

-- The characters of a host name are those in front of which the loop does not stop.
host_char-in_host : (c : ℕ) → host_char c ≡ in_host c
host_char-in_host c = ground arith

span-in_host : (cs : List ℕ) → span host_char cs ≡ span in_host cs
span-in_host [] = refl
span-in_host (c ∷ cs) = rw (host_char-in_host c, span-in_host cs) refl

ends_here-port_ends : (cs : List ℕ) → ends_here cs ≡ port_ends cs
ends_here-port_ends [] = refl
ends_here-port_ends (c ∷ cs) = ground arith

-- Of what follows the characters other than `c`: it begins with `c`, or there is nothing.
Stops-is_end :
    (c : ℕ) (cs : List ℕ) → Stops (λ d. not (d == c)) cs → starts c cs ≡ false → is_end cs ≡ true
Stops-is_end c [] s e = refl
Stops-is_end c (d ∷ cs) s e = ground (arith, s, e)

Stops-host_ends : (cs : List ℕ) → Stops in_host cs → host_ends cs ≡ true
Stops-host_ends [] s = refl
Stops-host_ends (c ∷ cs) s = ground (arith, s)

module _ (limit : ℕ) (url : List ℕ) (p : Url) (done room : List ℕ) (c : Parts)
    (whole : limit ≡ length done + length room) (enough : length url + 3 ≤ length room)
    (h : IsText url) (shown : Shown p done c) where
  abbrev hosted : Url
  hosted = record p { host_ptr = some (length done) }

  host-Shown :
      (t : List ℕ) → IsText t → Shown hosted (done ++ (t ++ 0 ∷ [])) (record c { host = some t })
  host-Shown t k =
      let s = Shown-more done (t ++ 0 ∷ []) shown in
      record {
        protocol = s.protocol;
        user = s.user;
        password = s.password;
        host = Reads-last done t k;
        port = s.port;
      }

  bracket-Ends :
      starts b'[' url ≡ true
      → Ends limit 1 (with_host c url) (url_parse_host limit (state url p done room))
  unfolding url_parse_host with_host
  bracket-Ends e =
      rw (e, url_parse_host, with_host)
        (rw (copy_while_lem url hosted go limit (rest_of url) done room whole fits)
          (elim (Bool-cases (starts b']' s.1)) [
            | inr f ↦
                let stop : is_end s.1 ≡ true =
                  Stops-is_end b']' s.1 (span-Stops go (rest_of url)) f in
                gone (rw f refl) (rw (f, stop) refl)
            | inl f ↦ rw f (
                rw (or_true (is_end s.1)) (
                  string-Ends limit 1 (rest_of s.1) hosted done s.0 room
                    (record c { host = some s.0 }) refl whole
                    (omega (
                      arith,
                      lengths_of,
                      length-rest_of b'[' url e,
                      length-rest_of b']' s.1 f,
                      enough,
                    ))
                    (rest_of-IsText s.1 texts.1) (host-Shown s.0 texts.0)))
          ]))
    where
      go : ℕ → Bool
      go d = not (d == b']')

      s : List ℕ × List ℕ
      s = span go (rest_of url)

      lengths_of : length s.0 + length s.1 ≡ length (rest_of url)
      lengths_of = length-span go (rest_of url)

      fits : length s.0 ≤ length room
      fits = omega (arith, lengths_of, length-rest_of b'[' url e, enough)

      texts : IsText s.0 × IsText s.1
      texts = span-IsText go (rest_of url) (rest_of-IsText url h)

  plain-Ends :
      starts b'[' url ≡ false
      → Ends limit 1 (with_host c url) (url_parse_host limit (state url p done room))
  unfolding url_parse_host with_host
  plain-Ends e =
      rw (e, url_parse_host, with_host)
        (rw (span-in_host url, copy_while_lem url hosted in_host limit url done room whole fits)
          (rw (Stops-host_ends s.1 (span-Stops in_host url)) (
            string-Ends limit 1 s.1 hosted done s.0 room (record c { host = some s.0 }) refl whole
              (omega (arith, lengths_of, enough)) texts.1 (host-Shown s.0 texts.0))))
    where
      s : List ℕ × List ℕ
      s = span in_host url

      lengths_of : length s.0 + length s.1 ≡ length url
      lengths_of = length-span in_host url

      fits : length s.0 ≤ length room
      fits = omega (arith, lengths_of, enough)

      texts : IsText s.0 × IsText s.1
      texts = span-IsText in_host url h

pub host-Ends :
    (limit : ℕ) (c : Parts) (url : List ℕ) (s : Cursor)
    → At limit 2 c url s
    → Ends limit 1 (with_host c url) (url_parse_host limit s)
host-Ends limit c url s a =
    let room : length url + 3 ≤ length a.room = omega (arith, a.enough) in
    rw a.is (elim (Bool-cases (starts b'[' url)) [
      | inl e ↦ bracket-Ends limit url a.parsed a.done a.room c a.whole room a.is_text a.shown e
      | inr e ↦ plain-Ends limit url a.parsed a.done a.room c a.whole room a.is_text a.shown e
    ])

Stops-starts_digit : (cs : List ℕ) → Stops isdigit cs → starts_digit cs ≡ false
unfolding starts_digit
Stops-starts_digit [] s = refl
Stops-starts_digit (c ∷ cs) s = s

module _ (limit : ℕ) (url : List ℕ) (p : Url) (done room : List ℕ) (c : Parts)
    (whole : limit ≡ length done + length room) (enough : length url + 2 ≤ length room)
    (h : IsText url) (shown : Shown p done c) (e : starts b':' url ≡ true) where
  abbrev ported : Url
  ported = record p { port_ptr = some (length done) }

  port-Shown :
      (t : List ℕ) → IsText t → Shown ported (done ++ (t ++ 0 ∷ [])) (record c { port = some t })
  port-Shown t k =
      let s = Shown-more done (t ++ 0 ∷ []) shown in
      record {
        protocol = s.protocol;
        user = s.user;
        password = s.password;
        host = s.host;
        port = Reads-last done t k;
      }

  digits-Ends : Ends limit 1 (with_port c url) (url_parse_port limit (state url p done room))
  unfolding url_parse_port with_port
  digits-Ends =
      rw (e, url_parse_port, with_port)
        (rw (copy_while_lem url ported isdigit limit (rest_of url) done room whole fits) (
          rw (Stops-starts_digit s.1 (span-Stops isdigit (rest_of url))) (
            rw (ends_here-port_ends s.1) (elim (Bool-cases (port_ends s.1)) [
              | inr f ↦ gone (rw f refl) (rw f refl)
              | inl f ↦ rw f (
                  string-Ends limit 1 s.1 ported done s.0 room (record c { port = some s.0 }) refl
                    whole (omega (arith, lengths_of, length-rest_of b':' url e, enough)) texts.1
                    (port-Shown s.0 texts.0))
            ]))))
    where
      s : List ℕ × List ℕ
      s = span isdigit (rest_of url)

      lengths_of : length s.0 + length s.1 ≡ length (rest_of url)
      lengths_of = length-span isdigit (rest_of url)

      fits : length s.0 ≤ length room
      fits = omega (arith, lengths_of, length-rest_of b':' url e, enough)

      texts : IsText s.0 × IsText s.1
      texts = span-IsText isdigit (rest_of url) (rest_of-IsText url h)

pub port-Ends :
    (limit : ℕ) (c : Parts) (url : List ℕ) (s : Cursor)
    → At limit 1 c url s
    → Ends limit 1 (with_port c url) (url_parse_port limit s)
unfolding url_parse_port with_port
port-Ends limit c url s a = elim (Bool-cases (starts b':' url)) [
  | inl e ↦
      let room : length url + 2 ≤ length a.room = omega (arith, a.enough) in
      rw a.is (digits-Ends limit url a.parsed a.done a.room c a.whole room a.is_text a.shown e)
  | inr e ↦ went c url s (rw (e, with_port) refl) (rw a.is (rw (e, url_parse_port) refl)) a
]
