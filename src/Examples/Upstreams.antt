-- ===== src/Examples/Upstreams.antt =====
-- src/upstreams/ at concrete upstreams.
use pingora_guide.Base.{All, String, List, ◌≡◌, refl, true, [], ◌∷◌}
use pingora_guide.Context.{any_meta}
use pingora_guide.Base.Text.{◌<>◌, trim, trim_start, trim_end, is_whitespace}
use pingora_guide.Base.Text.Laws.{lacks, lacks-Lacks}
use pingora_guide.Base.Dict.{lookup}
use pingora_guide.Upstreams.LoadBalancer.Cookie.{cookie_value}
use pingora_guide.Upstreams.LoadBalancer.RoundTrip.{pair, IsCookie, cookie_value-printed}

whole-IsCookie :
    (c : String × String)
    → lacks b'=' c.0 ≡ true
    → lacks b';' c.0 ≡ true
    → lacks b';' c.1 ≡ true
    → trim (pair c) ≡ pair c
    → IsCookie c
whole-IsCookie c name name' value trimmed = record {
  name_plain = lacks-Lacks b'=' c.0 name;
  name_whole = lacks-Lacks b';' c.0 name';
  value_whole = lacks-Lacks b';' c.1 value;
  trimmed = trimmed;
}

abbrev cookies : List (String × String)
cookies = ("a", "1") ∷ ("id", "x=2") ∷ ("id", "3") ∷ []

cookies_whole : All IsCookie cookies
unfolding ◌<>◌ trim trim_start trim_end is_whitespace
cookies_whole = (
  whole-IsCookie ("a", "1") refl refl refl refl,
  (
    whole-IsCookie ("id", "x=2") refl refl refl refl,
    (whole-IsCookie ("id", "3") refl refl refl refl, tt),
  ),
)

cookie_value-printed_example : cookie_value "id=" "a=1; id=x=2; id=3" ≡ "x=2"
unfolding ◌<>◌ lookup
cookie_value-printed_example =
    cookie_value-printed "id" cookies (lacks-Lacks b'=' "id" refl) cookies_whole
