-- ===== src/Lessons/Peers/WebsocketUpgrade.antt =====
-- examples/23_websocket_upgrade.rs: a peer without timeouts, the echo server behind it, and its client.
use pingora_guide.Base.{false, none, some, pure, ◌>>=◌, string_eq, nat_eq}
use pingora_guide.Base.{ℕ, ◌+◌, String, Option, List, Outcome, ok, err, panic, map}
use pingora_guide.Lessons.Shared.Mock.{bound}
use pingora_guide.Base.Text.{◌<>◌}
use pingora_guide.Pingora.{Pingora}
use pingora_guide.Lessons.Shared.{TunedPeer, Call, Edit, fixed_peer}
use pingora_guide.Base.{[], ◌>>◌, ◌∷◌}
use pingora_guide.Lessons.Mains.Server.{
  Main, Outside, new_server, bootstrap, add_service, run_forever, spawn, http_proxy, tcp,
}

module _ (P : Pingora) where
  unfoldable pub upstream_peer : Call P (Unit {0}) (Unit {0}) (TunedPeer P)
  upstream_peer = do
    peer ← fixed_peer P ("127.0.0.1", 9091) false ""
    pure (record peer {
      read_timeout = some none;
      write_timeout = some none;
      connection_timeout = some (some 5000000000);
    })

  -- The filter only logs the upgrade.
  unfoldable pub upstream_request_filter : Edit P (Unit {0}) (Unit {0}) (Unit {0})
  upstream_request_filter = pure tt

-- A message of `tungstenite`: a text, or another one with what `to_text` gives of it.
pub data Message : Type 0 where
  text : String → Message
  other : Option String → Message

abbrev to_text : Message → Option String
to_text (text t) = some t
to_text (other t) = t

-- What a dialogue has sent when it ends.
abbrev pub Sent : Type 0
Sent = Outcome String (Unit {0}) × List String

abbrev and_sent : String → Sent → Sent
and_sent message (r, sent) = (r, message ∷ sent)

-- A send that must succeed, and what follows.
abbrev sending : Outcome String (Unit {0}) → (failure : String) → String → Sent → Sent
sending (ok _) failure message rest = and_sent message rest
sending (err e) failure message rest = (panic failure, [])
sending (panic m) failure message rest = (panic m, [])

abbrev sending_nothing : (failure : String) → Outcome String (Unit {0}) → Sent
sending_nothing failure (ok _) = (ok tt, [])
sending_nothing failure (err e) = (panic failure, [])
sending_nothing failure (panic m) = (panic m, [])

-- One connection of `run_echo_server`, over the messages that come. `time` is the time of day at the
-- reply, and `send` the result of its send.
unfoldable pub echo :
    (time : ℕ → String) (send : ℕ → Outcome String (Unit {0}))
    → ℕ
    → List (Outcome String Message)
    → Sent
echo time send k [] = (ok tt, [])
echo time send k (ok (text t) ∷ messages) =
    sending (send k) "called `Result::unwrap()` on an `Err` value"
      ("Echo [" <> time k <> "]: " <> t) (echo time send (k + 1) messages)
echo time send k (ok (other t) ∷ messages) = echo time send (k + 1) messages
echo time send k (err e ∷ messages) = (panic "Error reading message.", [])
echo time send k (panic m ∷ messages) = (panic m, [])

-- The connections that are accepted: the first failure ends the loop.
abbrev until_failed : {A : Type 0} → List (Option A) → List A
until_failed [] = []
until_failed (none ∷ rest) = []
until_failed (some a ∷ rest) = a ∷ until_failed rest

-- The task of a connection, from what the handshake gives.
abbrev shaken :
    (time : ℕ → String) (send : ℕ → Outcome String (Unit {0}))
    → Outcome String (List (Outcome String Message))
    → Sent
shaken time send (ok messages) = echo time send 0 messages
shaken time send (err e) = (panic "Failed to accept WS", [])
shaken time send (panic m) = (panic m, [])

-- `run_echo_server`: what each of its tasks sends.
unfoldable pub run_echo_server :
    (time : ℕ → String) (send : ℕ → Outcome String (Unit {0}))
    → Outcome String (Unit {0})
    → List (Option (Outcome String (List (Outcome String Message))))
    → Outcome String (List Sent)
run_echo_server time send listener connections =
    bound "Failed to bind Echo Server." listener (map (shaken time send) (until_failed connections))

-- What the client makes of the answer to a ping, if there is one.
abbrev answered : Option (Outcome String Message) → Sent → Sent
answered none rest = rest
answered (some (ok m)) rest = elim (to_text m) [
  | none ↦ (panic "called `Result::unwrap()` on an `Err` value", [])
  | some t ↦ rest
]
answered (some (err e)) rest = (panic "Failed to read response", [])
answered (some (panic m)) rest = (panic m, [])

unfoldable pub ping :
    (usize_to_string : ℕ → String) (send : ℕ → Outcome String (Unit {0}))
    (next : ℕ → Option (Outcome String Message))
    → Sent
    → List ℕ
    → Sent
ping usize_to_string send next closed [] = closed
ping usize_to_string send next closed (i ∷ is) =
    sending (send i) "Failed to send" ("Ping #" <> usize_to_string i)
      (answered (next i) (ping usize_to_string send next closed is))

-- `run_test_client`, from the result of its connection on.
unfoldable pub run_test_client :
    Outcome String (Unit {0})
    → (usize_to_string : ℕ → String) (send : ℕ → Outcome String (Unit {0}))
      (next : ℕ → Option (Outcome String Message)) (close : Outcome String (Unit {0}))
    → Sent
run_test_client (ok _) usize_to_string send next close =
    ping usize_to_string send next
      (sending_nothing "called `Result::unwrap()` on an `Err` value" close) (1 ∷ 2 ∷ 3 ∷ [])
run_test_client (err e) usize_to_string send next close = (panic "Failed to connect to proxy.", [])
run_test_client (panic m) usize_to_string send next close = (panic m, [])

-- `main`
unfoldable pub main : (O : Outside) → Main O (Unit {0})
main O = do
  new_server O
  bootstrap O
  spawn O "run_echo_server"
  spawn O "run_test_client"
  add_service O (http_proxy none (tcp "0.0.0.0:6167" ∷ []))
  run_forever O
