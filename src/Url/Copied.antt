-- ===== src/Url/Copied.antt =====
-- The validation, avs_url_parse and avs_url_copy of src/url/avs_url.c on a parsed URL.
use mathlib.Core.Path.{subst}
use avs_commons.Url.Valid.{
  acceptable, accepted, good_host, good_port, good_path, validate_host-good_host,
  port_fits-good_port, validate_path-good_path,
}
use avs_commons.Common.{
  ℕ, Bool, true, false, not, ◌&&◌, Option, none, some, List, [], ◌∷◌, ◌++◌, ◌≡◌, refl, sym, ap, ◌∙◌,
  ◌+◌, if◌then◌else◌, take, take_all, length, length-append, append-nil, write_at, Bool-cases,
  Option-cases, inl, inr, arith,
}
use avs_commons.Common.Strings.{IsText}
use avs_commons.Url.{Outcome, refused, fine, ◌>>=◌, found, Url}
use avs_commons.Url.Access.{
  text_at, host, port, path, validate_host, port_fits, validate_path, validate, parse, copy,
}
use avs_commons.Url.Accepted.{
  IsMalloc, Tells, Finished-Tells, Parses, no_memory, no_parse, parsed, parse_lenient_refused,
}
use avs_commons.Url.Expected.{Parts, is_there, expected}
use avs_commons.Url.PathPart.{Finished}
use avs_commons.Url.Lenient.{rejected, came, parse_lenient-Comes}
use avs_commons.Url.Parser.{parse_lenient}
use avs_commons.Url.Shown.{Shows, Reads-last}
use avs_commons.Url.Stages.{holding}

judge :
    Bool → Outcome (Option (List ℕ)) → Outcome (Option (List ℕ)) → Outcome (List ℕ) → Outcome Bool
judge b h p t =
    if not b
    then fine false
    else (h >>= λ h'.
        if not (validate_host h')
        then fine false
        else (p >>= λ p'.
            if not (port_fits p') then fine false else (t >>= λ t'. fine (validate_path t'))))

validate-judge : (u : Url) → validate u ≡ judge u.has_protocol (host u) (port u) (path u)
unfolding validate judge
validate-judge u = refl

judge_lem :
    (b : Bool) (h p : Option (List ℕ)) (t : List ℕ)
    → judge b (fine h) (fine p) (fine t)
      ≡ fine (b && (validate_host h && (port_fits p && validate_path t)))
unfolding judge
judge_lem false h p t = refl
judge_lem true h p t = elim (Bool-cases (validate_host h)) [
  | inr e ↦ rw e refl
  | inl e ↦ rw e (elim (Bool-cases (port_fits p)) [ inr f ↦ rw f refl | inl f ↦ rw f refl ])
]

Shows-is_there :
    (done : List ℕ) (b : Bool) (t : Option (List ℕ))
    → Shows done (if b then some 0 else none) t
    → b ≡ is_there t
Shows-is_there done false none s = refl
Shows-is_there done true (some t) s = refl
Shows-is_there done false (some t) s = absurd s
Shows-is_there done true none s = absurd s

validate_lem :
    {c : Parts} {t : List ℕ} {u : Url} → Finished c t u → validate u ≡ fine (acceptable (c, t))
unfolding acceptable
validate_lem {c} {t} {u} f =
    let s = Finished-Tells f in
    validate-judge u
    ∙ rw (s.host_is, s.port_is, s.path_is)
        (judge_lem u.has_protocol c.host c.port t
          ∙ rw
              (
                validate_host-good_host c.host,
                port_fits-good_port c.port,
                validate_path-good_path t,
              )
              (ap
                (λ (b : Bool). fine (b && (good_host c.host && (good_port c.port && good_path t))))
                (ap (λ (w : Url). w.has_protocol) f.is
                  ∙ Shows-is_there f.done f.parsed.has_protocol c.protocol f.shown.protocol)))

parse_refused :
    (malloc : ℕ → Option (List ℕ)) (raw : List ℕ)
    → parse_lenient malloc raw ≡ refused
    → parse malloc raw ≡ refused
unfolding parse
parse_refused malloc raw e = rw e refl

parse_fine :
    (malloc : ℕ → Option (List ℕ)) (raw : List ℕ) (u : Url) (b : Bool)
    → parse_lenient malloc raw ≡ fine u
    → validate u ≡ fine b
    → parse malloc raw ≡ (if b then fine u else refused)
unfolding parse
parse_fine malloc raw u b e f = rw e (rw f refl)

-- For any text without the character 0 and an allocation as above: avs_url_parse returns a URL of which the
-- accessors return exactly the parts of the parse by the grammar of Expected, if there is one with a
-- protocol, a host name that is not empty and has characters of host names only, no port or one of 1 to 5
-- characters, and a path that begins with `/` and has characters of paths and escapes only. For any other
-- text, or if the allocation fails, it returns NULL, without a fault.
pub parse-Parses :
    (malloc : ℕ → Option (List ℕ)) (raw : List ℕ)
    → IsMalloc malloc
    → IsText raw
    → Parses malloc (length raw + 1) (accepted (expected raw)) (parse malloc raw)
parse-Parses malloc raw m h = elim (Option-cases (malloc (length raw + 1))) [
  | inl e ↦ no_memory e (parse_refused malloc raw (parse_lenient_refused malloc raw e))
  | inr (block, e) ↦ elim (parse_lenient-Comes malloc raw block h e (m (length raw + 1) block e)) [
    | rejected w r ↦ no_parse (rw w refl) (parse_refused malloc raw r)
    | came c t u w r f ↦ elim (Bool-cases (acceptable (c, t))) [
      | inr g ↦
          no_parse (rw w (rw g refl))
            (parse_fine malloc raw u (acceptable (c, t)) r (validate_lem f) ∙ rw g refl)
      | inl g ↦
          parsed c t u (rw w (rw g refl))
            (parse_fine malloc raw u (acceptable (c, t)) r (validate_lem f) ∙ rw g refl)
            (Finished-Tells f)
    ]
  ]
]

write_at_whole : (block xs : List ℕ) → length block ≡ length xs → write_at block 0 xs ≡ xs
write_at_whole [] [] e = refl
write_at_whole [] (x ∷ xs) e = absurd (omega (arith, e))
write_at_whole (y ∷ block) [] e = absurd (omega (arith, e))
write_at_whole (y ∷ block) (x ∷ xs) e = ap (λ l. x ∷ l) (write_at_whole block xs (omega (arith, e)))

-- What a copy of a URL with the parts `c` and the path `t` comes to.
pub data Copies (malloc : ℕ → Option (List ℕ)) (c : Parts) (t : List ℕ) (result : Outcome Url)
    : Type 0 where
  no_room : (n : ℕ) → malloc n ≡ none → result ≡ refused → Copies malloc c t result
  copied : (w : Url) → result ≡ fine w → Tells c t w → Copies malloc c t result

module _ (malloc : ℕ → Option (List ℕ)) (u : Url) (i : ℕ) (t : List ℕ)
    (at_path : u.path_ptr ≡ some i) (shown : text_at u.bytes i ≡ fine t) where
  copy_without_memory : malloc (i + length t + 1) ≡ none → copy malloc u ≡ refused
  unfolding copy
  copy_without_memory e = rw at_path (rw shown (rw e refl))

  copy_with_memory :
      (block : List ℕ)
      → malloc (i + length t + 1) ≡ some block
      → copy malloc u
        ≡ fine (record u { bytes = write_at block 0 (take (i + length t + 1) u.bytes) })
  unfolding copy
  copy_with_memory block e = rw at_path (rw shown (rw e refl))

copy-Finished :
    (malloc : ℕ → Option (List ℕ)) {c : Parts} {t : List ℕ} (u : Url)
    → IsMalloc malloc
    → Finished c t u
    → Copies malloc c t (copy malloc u)
copy-Finished malloc {c} {t} u m f = elim (Option-cases (malloc n)) [
  | inl e ↦ no_room n e (copy_without_memory malloc u (length f.done) t at_path shown e)
  | inr (block, e) ↦
      copied twin
        (copy_with_memory malloc u (length f.done) t at_path shown block e
          ∙ same block (m n block e))
        (Finished-Tells record {
          done = f.done;
          junk = [];
          parsed = f.parsed;
          is = refl;
          is_text = f.is_text;
          shown = f.shown;
        })
]
  where
    n : ℕ
    n = length f.done + length t + 1

    front : List ℕ
    front = f.done ++ (t ++ 0 ∷ [])

    twin : Url
    twin = holding (record f.parsed { path_ptr = some (length f.done) }) front []

    lengths_of : n ≡ length front
    lengths_of = omega (arith, length-append f.done (t ++ 0 ∷ []), length-append t (0 ∷ []))

    at_path : u.path_ptr ≡ some (length f.done)
    at_path = ap (λ (w : Url). w.path_ptr) f.is

    shown : text_at u.bytes (length f.done) ≡ fine t
    shown = unfold text_at in rw f.is (ap found (Reads-last f.done t f.is_text f.junk))

    same :
        (block : List ℕ)
        → length block ≡ n
        → fine (record u { bytes = write_at block 0 (take n u.bytes) }) ≡ fine twin
    same block k = rw f.is (
        rw lengths_of (
          rw (take_all front f.junk)
            (rw (write_at_whole block front (k ∙ lengths_of), append-nil front) refl)))

refused_fine : {u : Url} → ◌≡◌ {A = Outcome Url} refused (fine u) → ⊥
refused_fine e = ground (arith, e)

fine_inj : {w u : Url} → ◌≡◌ {A = Outcome Url} (fine w) (fine u) → w ≡ u
fine_inj e = cc (e)

-- A URL from avs_url_parse_lenient shows some parts and a path, and avs_url_copy returns, unless its
-- allocation fails, a URL of which all the accessors return the same strings; no access of the copying is
-- out of bounds.
pub copy-Tells :
    (malloc : ℕ → Option (List ℕ)) (raw : List ℕ) (u : Url)
    → IsMalloc malloc
    → IsText raw
    → parse_lenient malloc raw ≡ fine u
    → (c : Parts) × (t : List ℕ) × (Tells c t u) × (Copies malloc c t (copy malloc u))
copy-Tells malloc raw u m h e = elim (Option-cases (malloc (length raw + 1))) [
  | inl n ↦ absurd (refused_fine (sym (parse_lenient_refused malloc raw n) ∙ e))
  | inr (block, n) ↦ elim (parse_lenient-Comes malloc raw block h n (m (length raw + 1) block n)) [
    | rejected w r ↦ absurd (refused_fine (sym r ∙ e))
    | came c t v w r f ↦
        let same : v ≡ u = fine_inj (sym r ∙ e) in
        let g : Finished c t u = subst (Finished c t) same f in
        (c, t, Finished-Tells g, copy-Finished malloc u m g)
  ]
]
