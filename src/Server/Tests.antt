-- ===== src/Server/Tests.antt =====
-- Runs of the broker, and its theorems at concrete inputs.
use zccp.Base.{false, List, [], ◌∷◌, none, some}
use zccp.Czmq.{Str, Frame}
use zccp.Czmq.Simple.{simple}
use zccp.Server.{Server, Result, ok, fault, stuck, ◌>>=◌}
use zccp.Server.Reactor.{s_server_client_message}

abbrev empty : Server (List (Str × Str))
empty = record {
  verbose = false;
  patterns = [];
  sender = none;
  address = none;
  headers = none;
  content = none;
  clients = λ k. none;
  client_id = 7;
  timers = [];
  next_timer = 1;
  memory = λ p. none;
  next_ptr = 100;
  sent = [];
}

abbrev peer_a : Frame
peer_a = 1 ∷ []

abbrev peer_b : Frame
peer_b = 2 ∷ []

abbrev in_hello : Frame → List Frame
in_hello peer = peer ∷ (0xAA ∷ 0xAA ∷ 1 ∷ 1 ∷ b'x' ∷ 0 ∷ 0 ∷ 0 ∷ 0 ∷ []) ∷ []

abbrev in_subscribe : Frame → List Frame
in_subscribe peer = peer ∷ (0xAA ∷ 0xAA ∷ 3 ∷ 1 ∷ b'c' ∷ 0 ∷ 0 ∷ 0 ∷ 0 ∷ []) ∷ []

abbrev in_publish : Frame → List Frame
in_publish peer = peer ∷ (0xAA ∷ 0xAA ∷ 5 ∷ 2 ∷ b'c' ∷ b'p' ∷ 0 ∷ 0 ∷ 0 ∷ 0 ∷ []) ∷ (b'9' ∷ []) ∷ []

messages : List (List Frame) → Server (List (Str × Str)) → Result (Server (List (Str × Str)))
messages [] s = ok s
messages (m ∷ ms) s = s_server_client_message simple 8 (some m) s >>= λ (more, t). messages ms t

sent_of : Result (Server (List (Str × Str))) → List (List Frame)
sent_of (ok s) = s.sent
sent_of fault = ((0 ∷ []) ∷ []) ∷ []
sent_of stuck = ((1 ∷ []) ∷ []) ∷ []

scenario : List (List Frame)
scenario = sent_of (
    messages
      (in_hello peer_a
        ∷ in_hello peer_b
        ∷ in_subscribe peer_a
        ∷ in_publish peer_b
        ∷ in_hello peer_a
        ∷ [])
      empty)
