-- ===== src/Base/Text.antt =====
-- The operations of `str` that the code uses, on texts as lists of characters.
pub mod Laws
pub mod Search
use Prim.Native.Nat.{ℕ}
use Prim.Native.Char.{Char, code}
use Prim.Native.String.{String}
use mathlib.Core.Bool.{Bool, true, false, ◌&&◌, ◌||◌}
use mathlib.Core.List.{List, [], ◌∷◌}
use pingora_guide.Base.Tests.{leb, ◌==◌, nat_eq, if◌then◌else◌}

abbrev pub nil : String
nil = String.[]

abbrev pub cons : Char → String → String
cons = String.◌∷◌

-- `str::starts_with`
unfoldable pub starts_with : String → String → Bool
starts_with s String.[] = true
starts_with String.[] (String.◌∷◌ p ps) = false
starts_with (String.◌∷◌ c s) (String.◌∷◌ p ps) = code c == code p && starts_with s ps

-- `s[prefix.len()..]`
unfoldable pub drop_prefix : String → String → String
drop_prefix s String.[] = s
drop_prefix String.[] (String.◌∷◌ p ps) = nil
drop_prefix (String.◌∷◌ c s) (String.◌∷◌ p ps) = drop_prefix s ps

infixr 65 ◌<>◌
unfoldable pub ◌<>◌ : String → String → String
String.[] <> t = t
(String.◌∷◌ c s) <> t = cons c (s <> t)

-- `char::is_whitespace`: the code points of White_Space.
unfoldable pub is_whitespace : Char → Bool
is_whitespace c =
    (leb 9 (code c) && leb (code c) 13)
    || code c == 0x20
    || code c == 0x85
    || code c == 0xa0
    || code c == 0x1680
    || (leb 0x2000 (code c) && leb (code c) 0x200a)
    || code c == 0x2028
    || code c == 0x2029
    || code c == 0x202f
    || code c == 0x205f
    || code c == 0x3000

unfoldable pub trim_start : String → String
trim_start String.[] = nil
trim_start (String.◌∷◌ c s) = if is_whitespace c then trim_start s else cons c s

-- Drops the whitespace at the end: a character is kept if anything is kept behind it.
abbrev pub keep : Char → String → String
keep c String.[] = if is_whitespace c then nil else cons c nil
keep c (String.◌∷◌ d s) = cons c (cons d s)

unfoldable pub trim_end : String → String
trim_end String.[] = nil
trim_end (String.◌∷◌ c s) = keep c (trim_end s)

unfoldable pub trim : String → String
unfolding trim_start trim_end is_whitespace
trim s = trim_end (trim_start s)

abbrev pub push_char : Char → List String → List String
push_char c [] = cons c nil ∷ []
push_char c (p ∷ ps) = cons c p ∷ ps

-- `str::split` at one character: n separators give n + 1 parts.
unfoldable pub split : ℕ → String → List String
split sep String.[] = nil ∷ []
split sep (String.◌∷◌ c s) =
    let rest = split sep s in if code c == sep then nil ∷ rest else push_char c rest
