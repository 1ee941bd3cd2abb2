-- ===== src/Base/Text/Laws.antt =====
-- Splitting, trimming and prefixes of texts.
use Prim.Native.Char.{Char, code}
use text.Mathlib.TextEquality.{eq_iff, Char-path}
use pingora_guide.Base.Tests.{◌==◌, nat_eq, string_eq, Bool-cases}
use Prim.Native.Nat.{ℕ}
use Prim.Native.String.{String}
use mathlib.Core.Path.{◌≡◌, refl, ap, sym, ◌∙◌}
use mathlib.Core.Logic.{◌≢◌, inl, inr}
use mathlib.Core.Bool.{Bool, true, not, ◌&&◌}
use mathlib.Core.List.{[], ◌∷◌}
use native.Mathlib.Omega.{arith}
use pingora_guide.Base.Text.{nil, cons, starts_with, drop_prefix, ◌<>◌, split}

-- No character of the text has this code.
abbrev pub Lacks : ℕ → String → Type 0
Lacks sep String.[] = Unit
Lacks sep (String.◌∷◌ c s) = (code c ≢ sep) × Lacks sep s

-- The test of it, for texts that are written out.
abbrev pub lacks : ℕ → String → Bool
lacks sep String.[] = true
lacks sep (String.◌∷◌ c s) = not (code c == sep) && lacks sep s

pub lacks-Lacks : (sep : ℕ) (s : String) → lacks sep s ≡ true → Lacks sep s
lacks-Lacks sep String.[] h = tt
lacks-Lacks sep (String.◌∷◌ c s) h = (ground (arith, h), lacks-Lacks sep s (ground (arith, h)))

pub append_assoc : (s t u : String) → (s <> t) <> u ≡ s <> (t <> u)
unfolding ◌<>◌
append_assoc String.[] t u = refl
append_assoc (String.◌∷◌ c s) t u = ap (cons c) (append_assoc s t u)

pub append-nil : (s : String) → s <> nil ≡ s
unfolding ◌<>◌
append-nil String.[] = refl
append-nil (String.◌∷◌ c s) = ap (cons c) (append-nil s)

pub Lacks-append : (sep : ℕ) (s t : String) → Lacks sep s → Lacks sep t → Lacks sep (s <> t)
unfolding ◌<>◌
Lacks-append sep String.[] t hs ht = ht
Lacks-append sep (String.◌∷◌ c s) t (hc, hs) ht = (hc, Lacks-append sep s t hs ht)

pub split_last : (sep : ℕ) (p : String) → Lacks sep p → split sep p ≡ p ∷ []
unfolding split
split_last sep String.[] h = refl
split_last sep (String.◌∷◌ c p) (hc, h) = ground (arith, split_last sep p h)

-- A part without the separator ends at the first separator.
pub split-append :
    (sep : Char) (p rest : String)
    → Lacks (code sep) p
    → split (code sep) (p <> cons sep rest) ≡ p ∷ split (code sep) rest
unfolding split ◌<>◌
split-append sep String.[] rest h = ground arith
split-append sep (String.◌∷◌ c p) rest (hc, h) = ground (arith, split-append sep p rest h)

pub starts_with-append : (k v : String) → starts_with (k <> v) k ≡ true
unfolding starts_with ◌<>◌
starts_with-append String.[] v = refl
starts_with-append (String.◌∷◌ c k) v = ground (arith, starts_with-append k v)

pub drop_prefix-append : (k v : String) → drop_prefix (k <> v) k ≡ v
unfolding drop_prefix ◌<>◌
drop_prefix-append String.[] v = refl
drop_prefix-append (String.◌∷◌ c k) v = drop_prefix-append k v

key_inj :
    (sep : Char) (k j v : String)
    → Lacks (code sep) k
    → Lacks (code sep) j
    → starts_with (j <> cons sep v) (k <> cons sep nil) ≡ true
    → j ≡ k
unfolding starts_with ◌<>◌
key_inj sep String.[] String.[] v hk hj h = refl
key_inj sep String.[] (String.◌∷◌ d j) v hk (hd, hj) h = absurd (ground arith)
key_inj sep (String.◌∷◌ c k) String.[] v (hc, hk) hj h = absurd (ground arith)
key_inj sep (String.◌∷◌ c k) (String.◌∷◌ d j) v (hc, hk) (hd, hj) h =
    let first : d ≡ c = Char-path d c (ground arith) in
    let rest : j ≡ k = key_inj sep k j v hk hj (ground arith) in cc

-- Of two names without the separator, one followed by it begins the other followed by it only if
-- they are equal.
pub starts_with_key :
    (sep : Char) (k j v : String)
    → Lacks (code sep) k
    → Lacks (code sep) j
    → starts_with (j <> cons sep v) (k <> cons sep nil) ≡ (j == k)
unfolding ◌<>◌
starts_with_key sep k j v hk hj = elim (Bool-cases (j == k)) [
  | inl same ↦
      let e : j ≡ k = (eq_iff j k).0 same in
      let whole : k <> cons sep v ≡ (k <> cons sep nil) <> v =
        sym (append_assoc k (cons sep nil) v) in
      rw (same, e, whole) (starts_with-append (k <> cons sep nil) v)
  | inr other ↦ elim (Bool-cases (starts_with (j <> cons sep v) (k <> cons sep nil))) [
    | inl begins ↦ absurd (ground (arith, key_inj sep k j v hk hj begins, eq_iff j k))
    | inr not_begins ↦ not_begins ∙ sym other
  ]
]
