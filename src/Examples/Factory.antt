-- ===== src/Examples/Factory.antt =====
-- src/upstreams/factory.rs at concrete configurations.
use pingora_guide.Base.{ℕ, ◌≡◌, refl, true, List, [], ◌∷◌, ok}
use text.Mathlib.TextEquality.{eq_iff}
use pingora_guide.Config.{yaml}
use pingora_guide.Upstreams.Factory.{FileDiscovery, discover_file, parse_backends}
use pingora_guide.Upstreams.Factory.Backends.{Distinct, AllHas, discover_file_has}
use pingora_guide.Pingora.{Pingora}
use pingora_guide.Upstreams.Factory.Sets.{BackendSet, as_set, is_in, discover_dns_sets}
use pingora_guide.Upstreams.Factory.{discover_dns}
use pingora_guide.Pingora.{Pingora}
use pingora_guide.Base.{any, String, ◌==◌, string_eq, nat_eq, if◌then◌else◌, arith}
use pingora_guide.Examples.Instance.{sample}

same_refl : (b : sample.Backend) → sample.same_backend b b ≡ true
same_refl b = (eq_iff b b).1 refl

abbrev shop_file : FileDiscovery
shop_file = record { path = "backends.yaml"; format = yaml }

discover_file_has_example :
    (bs : List sample.Backend) × (m : ℕ) × (discover_file sample shop_file 0 ≡ (ok (bs, []), m))
    × Distinct sample bs
    × AllHas sample bs
        (record { address = "10.1.0.1"; weight = 2 }
          ∷ record { address = "10.1.0.2"; weight = 1 }
          ∷ [])
        (("10.1.0.1" ∷ []) ∷ ("10.1.0.2" ∷ []) ∷ [])
unfolding parse_backends
discover_file_has_example =
    discover_file_has sample same_refl shop_file 0 {content = "backends.yaml"}
      (("10.1.0.1" ∷ []) ∷ ("10.1.0.2" ∷ []) ∷ []) refl refl (refl, (refl, tt))

-- A name server whose second answer has another order and a repetition.
abbrev shuffled : Pingora
shuffled = record sample {
  lookup_host =
      λ call s. if call == 0 then ok ("a:80" ∷ "b:80" ∷ []) else ok ("b:80" ∷ "a:80" ∷ "b:80" ∷ []);
}

pub same_both : (a b : String) → (a == b) ≡ true → (c : String) → (c == a) ≡ (c == b)
same_both a b same c = let equal : a ≡ b = (eq_iff a b).0 same in rw equal refl

discover_dns_sets_example :
    (set : BackendSet shuffled) × (as_set shuffled
        (discover_dns shuffled (record { hostname = "api" }) 0).0
      ≡ ok (set, []))
    × (as_set shuffled (discover_dns shuffled (record { hostname = "api" }) 1).0 ≡ ok (set, []))
    × ((b : String) → is_in shuffled b set ≡ any (λ a. b == a) ("a:80" ∷ "b:80" ∷ []))
discover_dns_sets_example =
    discover_dns_sets shuffled same_both (record { hostname = "api" }) 0 1 refl refl
      (λ p. ground arith)
