-- ===== src/Lessons/Balancing/FileDiscovery.antt =====
-- examples/34_service_discovery_file.rs: a list of backends in a file.
pub mod Entries
use pingora_guide.Base.{
  ℕ, ◌+◌, ◌*◌, ◌%◌, ◌^◌, String, Bool, true, false, not, ◌&&◌, ◌||◌, Option, none, some, List, [],
  ◌∷◌, Outcome, ok, err, panic, Act, pure, throw, gets, expect, modify, lift, map_err, ◌>>=◌, ◌>>◌,
  unwrap_or_else, unwrap_or, if◌then◌else◌, ◌==◌, string_eq, nat_eq, ltb, leb,
}
use pingora_guide.Base.Text.{trim, starts_with}
use pingora_guide.Base.Text.Search.{is_empty, lines}
use pingora_guide.Error.{internal_error}
use pingora_guide.Pingora.{Pingora}
use pingora_guide.Lessons.Shared.{TunedPeer, Call, Edit, on_header, balanced_peer}
use pingora_guide.Lessons.Mains.Server.{
  Main, Outside, new_server, bootstrap, add_service, run_forever, background, balancer, http_proxy,
  tcp, pool_of, Discovery,
}

module _ (P : Pingora) where
  -- `BTreeSet::insert`; the order is not modelled.
  unfoldable pub insert : P.Backend → List P.Backend → List P.Backend
  insert b bs = if pingora_guide.Base.any (P.same_backend b) bs then bs else b ∷ bs

  -- The loop over the lines.
  unfoldable pub add_lines : List String → List P.Backend → Act ℕ P.Error (List P.Backend)
  add_lines [] upstreams = pure upstreams
  add_lines (line ∷ rest) upstreams =
      if is_empty (trim line) || starts_with (trim line) "#" then add_lines rest upstreams else (do
        call ← λ n. (ok n, n + 1)
        elim (P.to_socket_addrs call (trim line)) [
          | ok [] ↦ add_lines rest upstreams
          | ok (addr ∷ addrs) ↦ add_lines rest (insert (P.backend addr 1) upstreams)
          | err e ↦ add_lines rest upstreams
          | panic message ↦ (λ n. (panic message, n))
        ])

  -- The backends, and the empty map of enablement.
  unfoldable pub discover : String → Act ℕ P.Error (List P.Backend × List (ℕ × Bool))
  discover path = do
    call ← λ n. (ok n, n + 1)
    contents ← lift (P.explain internal_error) (P.read_to_string call path)
    upstreams ← add_lines (lines contents) []
    pure (upstreams, [])

  unfoldable pub upstream_peer : Call P P.LoadBalancer (Unit {0}) (TunedPeer P)
  upstream_peer x = balanced_peer P x.shared "file-discovery.cluster" x

  unfoldable pub upstream_request_filter : Edit P P.LoadBalancer (Unit {0}) (Unit {0})
  upstream_request_filter = on_header P (P.insert_header "Host" "file-discovery-cluster")

-- `main`
unfoldable pub main : (O : Outside) → Main O (Unit {0})
main O = do
  new_server O
  bootstrap O
  let upstreams = record (pool_of (Discovery.file "conf/upstreams.txt")) {
    update_frequency = some 1000000000;
  }
  add_service O (background "file_discovery" (balancer upstreams))
  add_service O (http_proxy (some upstreams) (tcp "0.0.0.0:6178" ∷ []))
  run_forever O
