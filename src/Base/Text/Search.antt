-- ===== src/Base/Text/Search.antt =====
-- Searching, joining and filtering of texts and their parts.
use Prim.Native.Char.{Char, code}
use Prim.Native.Nat.{ℕ, zero, suc}
use Prim.Native.String.{String}
use mathlib.Core.Path.{◌≡◌, refl}
use mathlib.Core.Bool.{Bool, true, false, ◌&&◌, ◌||◌}
use mathlib.Core.Option.{Option, none, some}
use mathlib.Core.List.{List, [], ◌∷◌, ◌++◌}
use mathlib.Core.Logic.{◌≢◌, inl, inr}
use native.Mathlib.Omega.{arith}
use pingora_guide.Base.Tests.{◌==◌, nat_eq, if◌then◌else◌, All, Bool-cases}
use pingora_guide.Base.Text.{nil, cons, starts_with, drop_prefix, ◌<>◌, split, push_char}
use pingora_guide.Base.Text.Laws.{Lacks, split_last, split-append}

-- `str::is_empty`
abbrev pub is_empty : String → Bool
is_empty String.[] = true
is_empty (String.◌∷◌ c s) = false

-- `str::contains`
unfoldable pub contains : String → String → Bool
contains String.[] w = starts_with nil w
contains (String.◌∷◌ c s) w = starts_with (cons c s) w || contains s w

-- What follows the first occurrence of `w`: `s[find(w)? + w.len()..]`.
unfoldable pub after : String → String → Option String
after String.[] w = if starts_with nil w then some nil else none
after (String.◌∷◌ c s) w =
    if starts_with (cons c s) w then some (drop_prefix (cons c s) w) else after s w

-- `str::trim_start_matches` for a text: the prefix is taken off as often as it is there.
unfoldable pub strip : ℕ → String → String → String
strip zero s p = s
strip (suc n) s p = let rest = strip n (drop_prefix s p) p in if starts_with s p then rest else s

unfoldable pub text_len : String → ℕ
text_len String.[] = 0
text_len (String.◌∷◌ c s) = suc (text_len s)

unfoldable pub trim_start_matches : String → String → String
unfolding strip text_len
trim_start_matches s p = strip (text_len s) s p

-- `[&str]::join`
unfoldable pub join : String → List String → String
join sep [] = nil
join sep (p ∷ []) = p
join sep (p ∷ q ∷ ps) = p <> sep <> join sep (q ∷ ps)

-- `filter`
unfoldable pub filter {ℓ} : {A : Type ℓ} → (A → Bool) → List A → List A
filter p [] = []
filter p (x ∷ xs) = let rest = filter p xs in if p x then x ∷ rest else rest

pub starts_with_longer : (s t w : String) → starts_with s w ≡ true → starts_with (s <> t) w ≡ true
unfolding starts_with ◌<>◌
starts_with_longer s t String.[] h = refl
starts_with_longer String.[] t (String.◌∷◌ d w) h = absurd (ground arith)
starts_with_longer (String.◌∷◌ c s) t (String.◌∷◌ d w) h = ground (arith, starts_with_longer s t w)

pub contains-append : (s t w : String) → contains s w ≡ true → contains (s <> t) w ≡ true
unfolding contains ◌<>◌ starts_with
contains-append String.[] String.[] w h = h
contains-append String.[] (String.◌∷◌ d t) String.[] h = refl
contains-append String.[] (String.◌∷◌ d t) (String.◌∷◌ e w) h = absurd (ground arith)
contains-append (String.◌∷◌ c s) t w h =
    ground (arith, starts_with_longer (cons c s) t w, contains-append s t w)

-- A text that lacks the separator is found again in a joined text.
pub split-join :
    (sep : Char) (p : String) (ps : List String)
    → All (Lacks (code sep)) (p ∷ ps)
    → split (code sep) (join (cons sep nil) (p ∷ ps)) ≡ p ∷ ps
unfolding join ◌<>◌
split-join sep p [] (h, _) = split_last (code sep) p h
split-join sep p (q ∷ ps) (h, hs) =
    rw (split-append sep p (join (cons sep nil) (q ∷ ps)) h, split-join sep q ps hs) refl

push_char-Lacks :
    (sep : ℕ) (c : Char) (ps : List String)
    → (code c ≢ sep)
    → All (Lacks sep) ps
    → All (Lacks sep) (push_char c ps)
push_char-Lacks sep c [] h hs = ((h, tt), tt)
push_char-Lacks sep c (p ∷ ps) h (hp, hs) = ((h, hp), hs)

-- The parts of a split text lack the separator.
pub split-Lacks : (sep : ℕ) (s : String) → All (Lacks sep) (split sep s)
unfolding split
split-Lacks sep String.[] = (tt, tt)
split-Lacks sep (String.◌∷◌ c s) = elim (Bool-cases (code c == sep)) [
  | inl same ↦ rw same (tt, split-Lacks sep s)
  | inr other ↦
      rw other (push_char-Lacks sep c (split sep s) (ground (arith, other)) (split-Lacks sep s))
]

module _ {A : Type 0} (p : A → Bool) where
  pub filter-All : (P : A → Type 0) (xs : List A) → All P xs → All P (filter p xs)
  unfolding filter
  filter-All P [] h = tt
  filter-All P (x ∷ xs) (h, hs) = elim (Bool-cases (p x)) [
    | inl kept ↦ rw kept (h, filter-All P xs hs)
    | inr dropped ↦ rw dropped (filter-All P xs hs)
  ]

  pub filter-holds : (xs : List A) → All (λ x. p x ≡ true) (filter p xs)
  unfolding filter
  filter-holds [] = tt
  filter-holds (x ∷ xs) = elim (Bool-cases (p x)) [
    | inl kept ↦ rw kept (kept, filter-holds xs)
    | inr dropped ↦ rw dropped (filter-holds xs)
  ]

All-append :
    (P : String → Type 0) (ps : List String) (last : String)
    → All P ps
    → P last
    → All P (ps ++ last ∷ [])
All-append P [] last hs h = (h, tt)
All-append P (p ∷ ps) last (hp, hs) h = (hp, All-append _ ps last hs h)

-- A joined list with a last part is found again.
pub split-join_last :
    (sep : Char) (ps : List String) (last : String)
    → All (Lacks (code sep)) ps
    → Lacks (code sep) last
    → split (code sep) (join (cons sep nil) (ps ++ last ∷ [])) ≡ ps ++ last ∷ []
split-join_last sep [] last hs h = split-join sep last [] (h, tt)
split-join_last sep (p ∷ ps) last (hp, hs) h =
    split-join sep p (ps ++ last ∷ []) (hp, All-append _ ps last hs h)

-- `str::lines`: parts at line feeds, each without a carriage return at its end; an empty last part is
-- no line.
unfoldable pub without_return : String → String
without_return String.[] = nil
without_return (String.◌∷◌ c s) =
    let rest = without_return s in if is_empty s && code c == 13 then nil else cons c rest

unfoldable pub lines_of : List String → List String
lines_of [] = []
lines_of (p ∷ []) = if is_empty p then [] else p ∷ []
lines_of (p ∷ q ∷ ps) = without_return p ∷ lines_of (q ∷ ps)

unfoldable pub lines : String → List String
lines s = lines_of (split b'\n' s)
