-- ===== src/Lessons/DynamicReconfiguration.antt =====
-- examples/35_dynamic_reconfiguration.rs: the backends that the admin port replaces.
use pingora_guide.Base.{
  ℕ, ◌+◌, ◌≡◌, refl, ap, ◌∙◌, String, Bool, true, false, Option, none, some, List, [], ◌∷◌, ◌++◌,
  Outcome, ok, err, panic, pure, ◌>>=◌, if◌then◌else◌, arith, Bool-cases, inl, inr,
}
use pingora_guide.Base.Text.{trim}
use pingora_guide.Base.Text.Search.{after, is_empty}
use pingora_guide.Pingora.{Pingora}
use pingora_guide.Lessons.Shared.{TunedPeer, untuned, Call, Edit, on_header, select_backend}
use pingora_guide.Base.{expect, ◌>>◌}
use pingora_guide.Lessons.Mains.Server.{
  Main, Outside, new_server, bootstrap, add_service, run_forever, background, job, balancer,
  http_proxy, tcp, call, pool_of, in_memory, first,
}
use pingora_guide.Lessons.Shared.Mock.{bound}

-- What follows the head of the request, or all of it.
unfoldable pub body_of : String → String
body_of req_str = elim (after req_str "\r\n\r\n") [ some rest ↦ trim rest | none ↦ trim req_str ]

-- The three texts that the handler may write.
pub data Reply : Type 0 where
  hot_swapped invalid_ip parse_error : Reply

abbrev pub reply_text : Reply → String
reply_text hot_swapped = "HTTP/1.1 200 OK\r\nContent-Length: 2\r\n\r\nOK"
reply_text invalid_ip = "HTTP/1.1 400 Bad Request\r\n\r\nInvalid IP"
reply_text parse_error = "HTTP/1.1 400 Bad Request\r\n\r\nParse Error"

module _ (P : Pingora) where
  -- `UpstreamState`: the shared set, in the order of its elements, and the number of the next call.
  pub record UpstreamState : Type 0 where
    pub upstreams : List P.Backend
    pub calls : ℕ

  -- `InMemoryDiscovery::discover`: the set, and no enablement.
  unfoldable pub discover : UpstreamState → List P.Backend × List (ℕ × Bool)
  discover state = (state.upstreams, [])

  -- One connection to the admin port: the task that is spawned for it, from the bytes of its one read
  -- (`none` for a failed or an empty read), and what it writes; a task that panics dies without a reply.
  -- The write lock is held from the clearing to the insertion.
  unfoldable pub handle : Option String → UpstreamState → Option Reply × UpstreamState
  handle none state = (none, state)
  handle (some req_str) state =
      if is_empty (body_of req_str)
      then (none, state)
      else elim (P.to_socket_addrs state.calls (body_of req_str)) [
        | ok [] ↦ (some invalid_ip, record state { calls = state.calls + 1 })
        | ok (new_addr ∷ rest) ↦ (
          some hot_swapped,
          record { upstreams = P.backend new_addr 1 ∷ []; calls = state.calls + 1 },
        )
        | err e ↦ (some parse_error, record state { calls = state.calls + 1 })
        | panic message ↦ (none, record state { calls = state.calls + 1 })
      ]

  -- The accepted connections, in the order in which they take the lock.
  unfoldable pub serve : List (Option String) → UpstreamState → List (Option Reply) × UpstreamState
  serve [] state = ([], state)
  serve (c ∷ cs) state = let (r, s) = handle c state in let (rs, t) = serve cs s in (r ∷ rs, t)

  unfoldable pub upstream_peer : Call P P.LoadBalancer (Unit {0}) (TunedPeer P)
  upstream_peer x =
      (do
        upstream ← select_backend P x.shared "" "Empty upstream pool"
        pure (untuned P (P.new_peer upstream false "hot-swap.cluster")))
        x

  unfoldable pub upstream_request_filter : Edit P P.LoadBalancer (Unit {0}) (Unit {0})
  upstream_request_filter = on_header P (P.insert_header "Host" "hot-swap-cluster")

  -- `main`: the set that the server starts with.
  unfoldable pub initial_set : ℕ → Outcome String (List P.Backend)
  initial_set call = elim (P.to_socket_addrs call "172.28.0.20:8080") [
    | ok (initial_addr ∷ rest) ↦ ok (P.backend initial_addr 1 ∷ [])
    | ok [] ↦ panic "called `Option::unwrap()` on a `None` value"
    | err e ↦ err e
    | panic message ↦ panic message
  ]

  abbrev swapped : Option Reply → Bool
  swapped (some hot_swapped) = true
  swapped (some invalid_ip) = false
  swapped (some parse_error) = false
  swapped none = false

  abbrev any_swapped : List (Option Reply) → Bool
  any_swapped [] = false
  any_swapped (r ∷ rs) = if swapped r then true else any_swapped rs

  -- A connection that is not answered `200 OK` leaves the set as it is.
  handle_unswapped :
      (c : Option String) (state : UpstreamState)
      → swapped (handle c state).0 ≡ false
      → (handle c state).1.upstreams ≡ state.upstreams
  unfolding handle
  handle_unswapped none state h = refl
  handle_unswapped (some req_str) state h = elim (Bool-cases (is_empty (body_of req_str))) [
    | inl nothing ↦ ground (arith, nothing)
    | inr something ↦ ground (arith, something, h)
  ]

  serve_unswapped :
      (cs : List (Option String)) (state : UpstreamState)
      → any_swapped (serve cs state).0 ≡ false
      → (serve cs state).1.upstreams ≡ state.upstreams
  unfolding serve
  serve_unswapped [] state h = refl
  serve_unswapped (c ∷ cs) state h =
      serve_unswapped cs (handle c state).1 (ground (arith, h))
      ∙ handle_unswapped c state (ground (arith, h))

  serve-append :
      (cs ds : List (Option String)) (state : UpstreamState)
      → (serve (cs ++ ds) state).1 ≡ (serve ds (serve cs state).1).1
  unfolding serve
  serve-append [] ds state = refl
  serve-append (c ∷ cs) ds state = serve-append cs ds (handle c state).1

  handle_swaps :
      (req_str : String) (state : UpstreamState) (new_addr : P.InetAddr) (rest : List P.InetAddr)
      → is_empty (body_of req_str) ≡ false
      → P.to_socket_addrs state.calls (body_of req_str) ≡ ok (new_addr ∷ rest)
      → handle (some req_str) state ≡ (
        some hot_swapped,
        record { upstreams = P.backend new_addr 1 ∷ []; calls = state.calls + 1 },
      )
  unfolding handle
  handle_swaps req_str state new_addr rest body resolves = rw (body, resolves) refl

  -- Whatever connections came before, once a request with a body that resolves has been served, and no
  -- later one is answered `200 OK`, discovery reports exactly the first address of that body, with the
  -- weight 1; the answer to that request is `200 OK`.
  pub discover-serve :
      (cs ds : List (Option String)) (req_str : String) (state : UpstreamState)
      (new_addr : P.InetAddr) (rest : List P.InetAddr)
      → is_empty (body_of req_str) ≡ false
      → P.to_socket_addrs (serve cs state).1.calls (body_of req_str) ≡ ok (new_addr ∷ rest)
      → let (r, s) = handle (some req_str) (serve cs state).1 in
        any_swapped (serve ds s).0 ≡ false
        → (r ≡ some hot_swapped)
          × (discover (serve (cs ++ some req_str ∷ ds) state).1 ≡ (P.backend new_addr 1 ∷ [], []))
  unfolding discover serve
  discover-serve cs ds req_str state new_addr rest body resolves later =
      let here = handle_swaps req_str (serve cs state).1 new_addr rest body resolves in
      (
        ap (λ x. x.0) here,
        ap (λ l. (l, []))
            (ap (λ t. t.upstreams) (serve-append cs (some req_str ∷ ds) state)
              ∙ serve_unswapped ds (handle (some req_str) (serve cs state).1).1 later
              ∙ ap (λ x. x.1.upstreams) here),
      )

-- What a turn of the admin service's loop meets: the shutdown, a connection with what its task reads,
-- or an `accept` that fails.
pub data Turn : Type 0 where
  shutdown failed : Turn
  connection : Option String → Turn

-- The connections for which a task is spawned.
unfoldable pub spawned_tasks : List Turn → List (Option String)
spawned_tasks [] = []
spawned_tasks (shutdown ∷ turns) = []
spawned_tasks (failed ∷ turns) = spawned_tasks turns
spawned_tasks (connection c ∷ turns) = c ∷ spawned_tasks turns

-- `AdminApiService::start`: a port that cannot be bound panics.
unfoldable pub start : Outcome String (Unit {0}) → List Turn → Outcome String (List (Option String))
start listener turns = bound "Failed to bind Admin Port 9090" listener (spawned_tasks turns)

-- `main`
unfoldable pub main : (O : Outside) → Main O (Unit {0})
main O = do
  new_server O
  bootstrap O
  addrs ← call O (λ n. O.to_socket_addrs n "172.28.0.20:8080") []
  initial_addr ← expect (first addrs) "called `Option::unwrap()` on a `None` value"
  let upstreams = record (pool_of (in_memory initial_addr)) { update_frequency = some 500000000 }
  add_service O (background "lb_updater" (balancer upstreams))
  add_service O (background "admin_api" job)
  add_service O (http_proxy (some upstreams) (tcp "0.0.0.0:6179" ∷ []))
  run_forever O
