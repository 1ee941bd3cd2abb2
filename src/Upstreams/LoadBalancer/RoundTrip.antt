-- ===== src/Upstreams/LoadBalancer/RoundTrip.antt =====
-- src/upstreams/load_balancer.rs: the cookie that is found in a printed `Cookie` header.
use text.Mathlib.TextEquality.{eq_iff}
use pingora_guide.Base.{
  ◌≡◌, refl, sym, ◌∙◌, ap, false, String, List, [], ◌∷◌, map, arith, All, Bool-cases, inl, inr,
  ◌==◌, string_eq, if◌then◌else◌, unwrap_or,
}
use pingora_guide.Base.Dict
use pingora_guide.Base.Dict.{Dict}
use pingora_guide.Base.Text.{nil, cons, ◌<>◌, split, trim, trim_start, is_whitespace, starts_with}
use pingora_guide.Base.Text.Laws.{
  Lacks, Lacks-append, append_assoc, append-nil, split_last, split-append, starts_with_key,
  drop_prefix-append,
}
use pingora_guide.Upstreams.LoadBalancer.Cookie.{find_cookie, cookie_value}

-- `name=value`
abbrev pub pair : String × String → String
pair (name, value) = name <> cons "=" value

-- What follows the first cookie: `; name=value` for each.
abbrev pub printed_rest : Dict String String → String
printed_rest [] = nil
printed_rest (c ∷ cs) = cons ";" (cons " " (pair c <> printed_rest cs))

-- A `Cookie` header, as a client prints its cookies.
abbrev pub printed : Dict String String → String
printed [] = nil
printed (c ∷ cs) = pair c <> printed_rest cs

-- A cookie that a client may send: its name holds no `=`, neither part holds a `;`, and there is no
-- whitespace around it.
pub record IsCookie (c : String × String) : Type 0 where
  pub name_plain : Lacks b'=' c.0
  pub name_whole : Lacks b';' c.0
  pub value_whole : Lacks b';' c.1
  pub trimmed : trim (pair c) ≡ pair c

pair_whole : (c : String × String) → IsCookie c → Lacks b';' (pair c)
pair_whole (name, value) h =
    Lacks-append b';' name (cons "=" value) h.name_whole ((λ e. omega (arith, e)), h.value_whole)

spaced : List (String × String) → List String
spaced cs = map (λ c. cons " " (pair c)) cs

split_space :
    (s p : String) (ps : List String)
    → split b';' s ≡ p ∷ ps
    → split b';' (cons " " s) ≡ cons " " p ∷ ps
unfolding split
split_space s p ps h = rw h refl

split_printed :
    (c : String × String) (cs : Dict String String)
    → All IsCookie (c ∷ cs)
    → split b';' (pair c <> printed_rest cs) ≡ pair c ∷ spaced cs
unfolding spaced
split_printed c [] (h, _) = rw append-nil (split_last b';' (pair c) (pair_whole c h))
split_printed c (d ∷ cs) (h, hs) =
    split-append ";" (pair c) (cons " " (pair d <> printed_rest cs)) (pair_whole c h)
    ∙ ap (◌∷◌ (pair c))
        (split_space (pair d <> printed_rest cs) (pair d) (spaced cs) (split_printed d cs hs))

trim_space : (s : String) → trim (cons " " s) ≡ trim s
unfolding trim trim_start is_whitespace
trim_space s = refl

-- One part of the header against the key of a cookie.
find_part :
    (name : String) (c : String × String) (part : String) (parts : List String)
    → Lacks b'=' name
    → Lacks b'=' c.0
    → trim part ≡ pair c
    → find_cookie (name <> cons "=" nil) (part ∷ parts)
      ≡ (if c.0 == name then c.1 else find_cookie (name <> cons "=" nil) parts)
unfolding find_cookie ◌<>◌
find_part name (j, v) part parts plain plain' trimmed = elim (Bool-cases (j == name)) [
  | inl same ↦
      let e : j ≡ name = (eq_iff j name).0 same in
      let whole : pair (j, v) ≡ (name <> cons "=" nil) <> v =
        ap (λ n. n <> cons "=" v) e ∙ sym (append_assoc name (cons "=" nil) v) in
      ground (
        arith,
        starts_with_key "=" name j v plain plain',
        drop_prefix-append (name <> cons "=" nil) v,
      )
  | inr other ↦ ground (arith, starts_with_key "=" name j v plain plain')
]

find_spaced :
    (name : String) (cs : Dict String String)
    → Lacks b'=' name
    → All IsCookie cs
    → find_cookie (name <> cons "=" nil) (spaced cs) ≡ unwrap_or "" (Dict.lookup name cs)
unfolding spaced find_cookie Dict.lookup
find_spaced name [] plain hs = refl
find_spaced name (c ∷ cs) plain (h, hs) =
    find_part name c (cons " " (pair c)) (spaced cs) plain h.name_plain
      (trim_space (pair c) ∙ h.trimmed)
    ∙ ground (arith, find_spaced name cs plain hs)

key_begins_no_nil : (name : String) → starts_with nil (name <> "=") ≡ false
unfolding starts_with ◌<>◌
key_begins_no_nil String.[] = refl
key_begins_no_nil (String.◌∷◌ c name) = refl

-- In the `Cookie` header that a client prints, the value of a name that is found is that of the
-- first cookie of that name, or empty if there is none.
pub cookie_value-printed :
    (name : String) (cookies : Dict String String)
    → Lacks b'=' name
    → All IsCookie cookies
    → cookie_value (name <> "=") (printed cookies) ≡ unwrap_or "" (Dict.lookup name cookies)
unfolding cookie_value find_cookie Dict.lookup
cookie_value-printed name [] plain hs = ground (arith, key_begins_no_nil name)
cookie_value-printed name (c ∷ cs) plain (h, hs) =
    ap (find_cookie (name <> "=")) (split_printed c cs (h, hs))
    ∙ find_part name c (pair c) (spaced cs) plain h.name_plain h.trimmed
    ∙ ground (arith, find_spaced name cs plain hs)
