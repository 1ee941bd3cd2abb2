-- ===== src/Examples/Lessons.antt =====
-- The lessons at concrete inputs.
use Prim.Native.Char.{Char}
use pingora_guide.Base.{
  ℕ, ◌+◌, ◌-◌, ◌≤◌, ◌<◌, ◌≡◌, refl, ap, ◌↔◌, String, true, false, Option, none, some, List, [], ◌∷◌,
  ◌++◌, err, arith, All, if◌then◌else◌, ◌==◌, nat_eq, string_eq,
}
use pingora_guide.Base.Text.{
  nil, cons, ◌<>◌, split, trim, trim_start, trim_end, is_whitespace, starts_with, drop_prefix,
}
use pingora_guide.Base.Text.Search.{contains, contains-append, filter, after, is_empty}
use pingora_guide.Base.Dict.{lookup}
use pingora_guide.Error.{custom}
use pingora_guide.Lessons.Shared.{Exchange, on_header}
use pingora_guide.Lessons.QueryParams.{new_query, split-new_query}
use pingora_guide.Lessons.BodyInspection.{body_of, Buffer, IsLossy, inspect, inspect-body_of}
use pingora_guide.Lessons.InflightLimit.{Inflight, admitted, refused, enter}
use pingora_guide.Lessons.InflightLimit.Bound.{
  IsCounter, World, Step, Reach, going_upstream, admitted_bounded,
}
use pingora_guide.Lessons.StickySessions
use pingora_guide.Lessons.StickySessions.Kept.{client_cookie, peer_by, sticky_peer}
use pingora_guide.Base.{◌*◌}
use pingora_guide.Lessons.GracefulShutdown.{Stopped, start}
use pingora_guide.Lessons.GracefulShutdown.Stops.{Served, start-Served}
use pingora_guide.Lessons.EchoServer.{Turn, IsSmooth, process_new, process_new-echoes}
use pingora_guide.Lessons.DynamicReconfiguration
use pingora_guide.Lessons.DynamicReconfiguration.{
  hot_swapped, parse_error, handle, serve, discover, discover-serve,
}
use text.Mathlib.TextEquality.{eq_iff}
use pingora_guide.Lessons.Limits.RateLimit
use pingora_guide.Lessons.Limits.RateLimit.{Rate}
use pingora_guide.Lessons.Limits.RateLimit.Window.{
  IsWindow, IsFrom, admitted as admitted_of, sent, admitted-min,
}
use pingora_guide.Examples.Instance.{Request, sample, request}
use pingora_guide.Lessons.Peers.ProxyConnect
use pingora_guide.Lessons.Peers.ProxyConnect.Opened.{Opened, connect-Opened}
use pingora_guide.Lessons.Shared.Tcp.{Tcp}
use pingora_guide.Base.Text.Search.{contains}
use pingora_guide.Base.{◌↔◌}
use pingora_guide.Lessons.Balancing.FileDiscovery
use pingora_guide.Lessons.Balancing.FileDiscovery.Entries.{discover_entries}
use pingora_guide.Upstreams.Factory.Sets.{as_set, set_of}
use pingora_guide.Examples.Factory.{same_both}
use pingora_guide.Base.Text.{trim, trim_start, trim_end, is_whitespace, split, starts_with}
use pingora_guide.Base.Text.Search.{lines, lines_of, without_return}
use pingora_guide.Lessons.Balancing.CustomHealthCheck
use pingora_guide.Lessons.Balancing.CustomHealthCheck.Healthy.{Healthy, check-Healthy}
use pingora_guide.Base.{All, err, ok, not, ◌&&◌}

split-new_query_example :
    (split b'&' (new_query "a=1&&debug=2")
      ≡ filter (λ p. not (is_empty p) && not (starts_with p "debug=")) (split b'&' "a=1&&debug=2")
        ++ "ref=pingora" ∷ [])
    × All
        (λ p. (is_empty p ≡ false) × (starts_with p "debug=" ≡ false))
        (filter (λ p. not (is_empty p) && not (starts_with p "debug=")) (split b'&' "a=1&&debug=2"))
split-new_query_example = split-new_query "a=1&&debug=2"

abbrev letter : ℕ → Char
letter n =
    if n == 114
    then "r"
    else if n == 111
    then "o"
    else if n == 103
    then "g"
    else if n == 117
    then "u"
    else if n == 101
    then "e"
    else "."

abbrev letters : Buffer → String
letters [] = nil
letters (b ∷ bs) = cons (letter b) (letters bs)

letters-append : (b c : Buffer) → letters (b ++ c) ≡ letters b <> letters c
unfolding ◌<>◌
letters-append [] c = refl
letters-append (x ∷ b) c = ap (cons (letter x)) (letters-append b c)

letters-IsLossy : IsLossy letters
letters-IsLossy = record {
  empty = refl;
  longer = λ b c h. rw (letters-append b c) (contains-append (letters b) (letters c) "rogue" h);
}

abbrev posted : Exchange sample (Unit {0}) Buffer
posted = record { session = request "/"; ctx = []; shared = tt; calls = 0 }

inspect-body_of_example :
    (inspect sample letters
      (some (1 ∷ 114 ∷ 111 ∷ []) ∷ none ∷ some (103 ∷ 117 ∷ 101 ∷ []) ∷ [])
      posted).0
    ≡ err (custom "SecurityPolicyViolation", "")
unfolding contains starts_with body_of
inspect-body_of_example =
    inspect-body_of sample letters letters-IsLossy
      (some (1 ∷ 114 ∷ 111 ∷ []) ∷ none ∷ some (103 ∷ 117 ∷ 101 ∷ []) ∷ []) posted refl

abbrev limiter : Inflight ℕ
limiter = record {
  State = ℕ;
  count = λ key s. s;
  incr = λ key n s. ((s, s + n), s + n);
  drop = λ g s. s - 1;
}

limiter_counts : IsCounter ℕ limiter "global_limit"
limiter_counts = record { incr_count = λ s. refl; incr_state = λ s. refl; drop_count = λ s g. refl }

abbrev busy : World sample limiter
busy = record { live = refused 2 ∷ admitted 1 ∷ admitted 0 ∷ []; limiter = 3 }

busy_reached : Reach sample limiter busy
unfolding enter
busy_reached =
    Reach.next (Reach.next (Reach.next (Reach.start refl) Step.arrives) Step.arrives) Step.arrives

admitted_bounded_example :
    (limiter.count "global_limit" 3 ≡ 3)
    × (going_upstream {Guard = ℕ} (refused 2 ∷ admitted 1 ∷ admitted 0 ∷ []) ≤ 2)
    × ((going_upstream ((enter sample limiter 3).0 ∷ []) ≡ 1) ↔ (3 < 2))
admitted_bounded_example = admitted_bounded sample limiter limiter_counts busy_reached

abbrev visit :
    List (String × String) → ℕ → Exchange sample (StickySessions.Globals sample) (Option String)
visit headers n = record {
  session = record (request "/") { headers = headers };
  ctx = none;
  shared = record { session_counter = n; pool = "10.1.0.1" ∷ [] };
  calls = 0;
}

abbrev first : Exchange sample (StickySessions.Globals sample) (Option String)
first = visit [] 100

abbrev again : Exchange sample (StickySessions.Globals sample) (Option String)
again = visit (("Cookie", "session-id=user-7") ∷ []) 105

abbrev given : Exchange sample (StickySessions.Globals sample) (Option String)
given = record first {
  ctx = some "user-7";
  shared = record { session_counter = 101; pool = "10.1.0.1" ∷ [] };
}

sticky_peer_example :
    (StickySessions.upstream_peer sample first
      ≡ (peer_by sample "user-7" given, record given { calls = 1 }))
    × ((h : sample.Header)
        → StickySessions.response_filter sample (given, h)
          ≡ on_header sample
              (sample.insert_header "Set-Cookie" "session-id=user-7; Path=/")
              (given, h))
    × (StickySessions.upstream_peer sample again
        ≡ (peer_by sample "user-7" again, record again { calls = 1 }))
unfolding StickySessions.user_id StickySessions.cookie_value StickySessions.sent_session ◌<>◌ lookup
    client_cookie split
sticky_peer_example =
    sticky_peer sample (λ n. (omega arith, omega arith, tt)) first again "session-id=user-7" refl
      refl refl

-- Timers that are three milliseconds late, and a signal at 41 seconds.
start-Served_example :
    (s : Stopped) × (start (λ i d. d + 3) (λ i. 1) (λ i. true) 41_000 ≡ some s)
    × Served 41_000 0 0 s.log s.at
    × (s.at ≤ 41_000 + (10_000 + 2 * 3))
start-Served_example =
    start-Served (λ i d. d + 3) (λ i. 1) (λ i. true) 41_000 3 (λ i d. omega arith)
      (λ i d. omega arith) (λ i. omega arith)

abbrev turn : ℕ → Turn
turn i = record {
  shutdown = false;
  read_fails = false;
  arrived = 1;
  written = none;
  flush_fails = false;
}

process_new-echoes_example :
    (out : List ℕ) × (rest : List ℕ) × (process_new turn 4 0 (104 ∷ 105 ∷ 10 ∷ []) ≡ some out)
    × (out ++ rest ≡ 104 ∷ 105 ∷ 10 ∷ [])
    × (((i : ℕ) → IsSmooth (turn i)) → rest ≡ [])
process_new-echoes_example = process_new-echoes turn (104 ∷ 105 ∷ 10 ∷ [])

abbrev upstreams : DynamicReconfiguration.UpstreamState sample
upstreams = record { upstreams = "172.28.0.20:8080" ∷ []; calls = 0 }

discover-serve_example :
    ((handle sample
        (some "POST / HTTP/1.1\r\n\r\n10.0.0.9:80")
        (serve sample (none ∷ []) upstreams).1).0
      ≡ some hot_swapped)
    × (discover sample
          (serve sample
            (none ∷ some "POST / HTTP/1.1\r\n\r\n10.0.0.9:80" ∷ some "" ∷ [])
            upstreams).1
        ≡ ("10.0.0.9:80" ∷ [], []))
unfolding serve handle after DynamicReconfiguration.body_of starts_with drop_prefix trim trim_start
    trim_end is_whitespace
discover-serve_example =
    discover-serve sample (none ∷ []) (some "" ∷ []) "POST / HTTP/1.1\r\n\r\n10.0.0.9:80" upstreams
      "10.0.0.9:80" [] refl refl refl

abbrev per_address : Rate String
per_address = record {
  State = String → ℕ;
  observe = λ a n s. (s a + n, λ b. if a == b then s a + n else s b);
}

abbrev seen : String → (String → ℕ) → ℕ
seen a s = s a

one-IsWindow : IsWindow per_address seen
one-IsWindow = record {
  observe_count = λ a s. refl;
  observe_state = λ a s. ground (arith, eq_iff a a);
  observe_other = λ a b s apart. ground (arith, eq_iff a b, apart);
}

abbrev from_client : String → Request
from_client a = record (request "/") { client = some a }

from_client-IsFrom :
    (a : String) → sample.as_inet a ≡ some a → IsFrom sample per_address a (from_client a)
from_client-IsFrom a inet = record {
  socket = a;
  inet = a;
  has_client = refl;
  is_inet = inet;
  has_ip = refl;
}

abbrev traffic : List (String × Request)
traffic =
    ("10.0.0.1", from_client "10.0.0.1")
    ∷ ("10.0.0.2", from_client "10.0.0.2")
    ∷ ("10.0.0.1", from_client "10.0.0.1")
    ∷ []

abbrev near_limit : RateLimit.Globals sample per_address
near_limit = record { limiter = λ a. 4; pool = [] }

admitted-min_example : admitted_of sample per_address "10.0.0.1" traffic near_limit ≡ 1
unfolding sent
admitted-min_example =
    admitted-min sample per_address seen one-IsWindow "10.0.0.1" traffic near_limit (
      from_client-IsFrom "10.0.0.1" refl,
      (from_client-IsFrom "10.0.0.2" refl, (from_client-IsFrom "10.0.0.1" refl, tt)),
    )

-- A file with a comment, a blank line and space around an address.
abbrev listed : String
listed = "# blue\n10.1.0.1:80\n\n 10.1.0.2:80 "

discover_entries_example :
    as_set sample (FileDiscovery.discover sample listed 0).0
    ≡ ok (set_of sample ("10.1.0.1:80" ∷ "10.1.0.2:80" ∷ []), [])
unfolding trim trim_start trim_end is_whitespace lines split starts_with lines_of without_return
discover_entries_example =
    discover_entries sample (λ n entry message h. cc) same_both listed 0 {contents = listed} refl

-- A proxy that opens every tunnel.
abbrev willing : Tcp String
willing = record {
  Socket = ℕ;
  connect = λ n addr. ok 0;
  write_all = λ text s. (ok tt, s + 1);
  read = λ n s. (ok "HTTP/1.1 200 OK", s + 1);
  connect_within = λ limit n addr. ok 0;
  read_within = λ limit n s. (ok "HTTP/1.1 200 OK", s + 1);
}

abbrev connector : ProxyConnect.ProxyTunnelConnector String
connector = record {
  proxy_addr = "127.0.0.1:3128";
  remote_host = "advanced.pingora.local";
  remote_port = 443;
}

connect-Opened_example :
    ProxyConnect.connect sample willing connector 0 ≡ ok 2 ↔ Opened sample willing connector 0 2
connect-Opened_example = connect-Opened sample willing connector 0 2

abbrev looks_for : CustomHealthCheck.BodyMatchCheck
looks_for = record { host = "localhost"; expected_string = "200" }

check-Healthy_example :
    CustomHealthCheck.check sample willing looks_for "10.1.0.1" 0 ≡ ok tt
    ↔ Healthy sample willing looks_for "10.1.0.1" 0
check-Healthy_example = check-Healthy sample willing looks_for "10.1.0.1" 0
