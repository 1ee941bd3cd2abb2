-- ===== src/Upstreams/LoadBalancer/Cookie.antt =====
-- src/upstreams/load_balancer.rs: the search for a cookie in the `Cookie` header.
use pingora_guide.Base.{String, List, [], ◌∷◌, if◌then◌else◌}
use pingora_guide.Base.Text.{split, trim, starts_with, drop_prefix}

-- The loop over the parts: the rest of the first trimmed part that begins with the key.
unfoldable pub find_cookie : String → List String → String
find_cookie cookie_key [] = ""
find_cookie cookie_key (part ∷ parts) =
    if starts_with (trim part) cookie_key
    then drop_prefix (trim part) cookie_key
    else find_cookie cookie_key parts

unfoldable pub cookie_value : String → String → String
unfolding find_cookie split trim starts_with drop_prefix
cookie_value cookie_key cookie_str = find_cookie cookie_key (split b';' cookie_str)
