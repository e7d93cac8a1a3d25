-- ===== src/Url/Shown.antt =====
-- Between the steps of avs_url_parse_lenient in src/url/avs_url.c: which parts the pointers show, and how
-- much of the block is left.
use avs_commons.Common.{
  ℕ, Option, none, some, List, [], ◌∷◌, ◌++◌, ◌≡◌, refl, ap, ◌∙◌, ◌≤◌, ◌+◌, if◌then◌else◌, drop,
  drop_all, length, length-append, append_assoc, arith,
}
use avs_commons.Common.Strings.{IsText, text, text-append}
use avs_commons.Url.{Outcome, refused, fine, ◌>>=◌, Url}
use avs_commons.Url.Expected.{Parts, follow}
use avs_commons.Url.Parser.{Cursor, emit}
use avs_commons.Url.Stages.{state, end_string}

-- Whatever stands behind `done`, the string at the offset `i` is `t`.
abbrev pub Reads : List ℕ → ℕ → List ℕ → Type 0
Reads done i t = (room : List ℕ) → text (drop i (done ++ room)) ≡ some t

abbrev pub Shows : List ℕ → Option ℕ → Option (List ℕ) → Type 0
Shows done none none = Unit
Shows done (some i) (some t) = Reads done i t
Shows done _ _ = ⊥

pub Reads-more :
    (done more : List ℕ) (i : ℕ) (t : List ℕ) → Reads done i t → Reads (done ++ more) i t
Reads-more done more i t r room =
    ap (λ (l : List ℕ). text (drop i l)) (append_assoc done more room) ∙ r (more ++ room)

pub Reads-last : (done t : List ℕ) → IsText t → Reads (done ++ (t ++ 0 ∷ [])) (length done) t
Reads-last done t h room =
    ap (λ (l : List ℕ). text (drop (length done) l)) (append_assoc done (t ++ 0 ∷ []) room)
    ∙ ap text (drop_all done ((t ++ 0 ∷ []) ++ room) ∙ append_assoc t (0 ∷ []) room)
    ∙ text-append t room h

pub Shows-more :
    (done more : List ℕ) (i : Option ℕ) (t : Option (List ℕ))
    → Shows done i t
    → Shows (done ++ more) i t
Shows-more done more none none s = tt
Shows-more done more (some i) (some t) s = Reads-more done more i t s
Shows-more done more none (some t) s = s
Shows-more done more (some i) none s = s

-- The pointers of `p` show the parts `c`.
pub record Shown (p : Url) (done : List ℕ) (c : Parts) : Type 0 where
  pub protocol : Shows done (if p.has_protocol then some 0 else none) c.protocol
  pub user : Shows done p.user_ptr c.user
  pub password : Shows done p.password_ptr c.password
  pub host : Shows done p.host_ptr c.host
  pub port : Shows done p.port_ptr c.port

pub Shown-more :
    {p : Url} (done more : List ℕ) {c : Parts} → Shown p done c → Shown p (done ++ more) c
Shown-more {p} done more {c} s = record {
  protocol = Shows-more done more (if p.has_protocol then some 0 else none) c.protocol s.protocol;
  user = Shows-more done more p.user_ptr c.user s.user;
  password = Shows-more done more p.password_ptr c.password s.password;
  host = Shows-more done more p.host_ptr c.host s.host;
  port = Shows-more done more p.port_ptr c.port s.port;
}

-- The text `url` is still to be parsed, the parts `c` are found, and there is room for the rest of the
-- text, its terminator, and `slack` bytes more.
pub record At (limit slack : ℕ) (c : Parts) (url : List ℕ) (s : Cursor) : Type 0 where
  pub done : List ℕ
  pub room : List ℕ
  pub parsed : Url
  pub is : s ≡ state url parsed done room
  pub whole : limit ≡ length done + length room
  pub enough : length url + slack + 1 ≤ length room
  pub is_text : IsText url
  pub shown : Shown parsed done c

-- A step refuses the text, or comes to what is wanted.
pub data Ends (limit slack : ℕ) (wanted : Option (Parts × List ℕ)) (result : Outcome Cursor)
    : Type 0 where
  gone : wanted ≡ none → result ≡ refused → Ends limit slack wanted result
  went :
      (c : Parts) (url : List ℕ) (s : Cursor)
      → wanted ≡ some (c, url)
      → result ≡ fine s
      → At limit slack c url s
      → Ends limit slack wanted result

pub Ends-follow :
    (limit slack less : ℕ) {wanted : Option (Parts × List ℕ)} {result : Outcome Cursor}
    (f : Parts × List ℕ → Option (Parts × List ℕ)) (g : Cursor → Outcome Cursor)
    → Ends limit slack wanted result
    → ((c : Parts) (url : List ℕ) (s : Cursor)
        → At limit slack c url s
        → Ends limit less (f (c, url)) (g s))
    → Ends limit less (follow wanted f) (result >>= g)
Ends-follow limit slack less f g (gone e r) next = gone (rw e refl) (rw r refl)
Ends-follow limit slack less f g (went c url s e r a) next = rw (e, r) (next c url s a)

-- A string has been copied, and its terminator follows.
pub string-Ends :
    (limit slack : ℕ) (url : List ℕ) (p : Url) (done t room : List ℕ) (c : Parts)
    {wanted : Option (Parts × List ℕ)}
    → wanted ≡ some (c, url)
    → limit ≡ length done + length room
    → length url + length t + slack + 2 ≤ length room
    → IsText url
    → Shown p (done ++ (t ++ 0 ∷ [])) c
    → Ends limit slack wanted (emit 0 (state url p (done ++ t) (drop (length t) room)))
string-Ends limit slack url p done t room c w e k h s =
    let (junk, r, f) = end_string url p done t room (omega (arith, k)) in
    went c url (state url p (done ++ (t ++ 0 ∷ [])) junk) w r record {
      done = done ++ (t ++ 0 ∷ []);
      room = junk;
      parsed = p;
      is = refl;
      whole = omega (arith, e, f, length-append done (t ++ 0 ∷ []), length-append t (0 ∷ []));
      enough = omega (arith, f, k);
      is_text = h;
      shown = s;
    }
