-- ===== src/Session/Examples.antt =====
-- The theorems on client and broker together at concrete inputs.
use zccp.Base.{
  ℕ, zero, suc, All, replicate, ◌≢◌, pos, ◌≡◌, refl, inr, true, false, List, [], ◌∷◌, ◌++◌, some,
  streq, ◌==◌, ◌&&◌, ◌||◌, arith,
}
use zccp.Base.Results.{ok}
use zccp.Czmq.{Str, Frame}
use zccp.Czmq.Simple.{simple}
use zccp.Codec.{zccp_msg_new}
use zccp.Client.{connected_state, Client}
use zccp.Client.Actions.{codes}
use zccp.Client.Reactor.{s_client_new, s_client_handle_pipe, s_client_handle_protocol}
use zccp.Client.Invariant.{IsSafe}
use zccp.Client.Pipe.{Call, command_of}
use zccp.Client.Reachable.{s_client_new-IsSafe}
use zccp.Client.Api.{Api, reply, returns, zccp_client_new, zccp_client_recv}
use zccp.Server
use zccp.Server.Actions.{write}
use zccp.Server.Reactor.{s_server_new, s_server_client_message}
use zccp.Server.Reachable.{s_server_new-IsSafe}
use zccp.Server.Publish.{recipients, deliveries}
use zccp.Server.Subscribers.{is_subscribed}
use zccp.Server.Examples.{
  Table, start, peer_a, greeted, publisher, joined, joined-IsSafe, publishing, publishing-IsSafe,
}
use zccp.Session.Greet.{connect-arrives}
use zccp.Session.Subscribe.{subscribe-arrives}
use zccp.Session.Publish.{publish-arrives}
use zccp.Session.Stop.{subscribe-stops}

abbrev endpoint : Str
endpoint = codes "ipc://@/zccp"

connect-arrives_example :
    (c1 : Client Table) × (t : Server.Server Table) × (c2 : Client Table) × (frames : List Frame)
    × (answer : List Frame) × (p : Server.Ptr) × (sc : Server.Client Table) × (s_client_handle_pipe
          simple 2
          (some (command_of simple (Call.connect endpoint (pos 250))))
          (s_client_new simple)
        ≡ ok (true, c1))
    × (c1.sent ≡ (s_client_new simple).sent ++ frames ∷ [])
    × (s_server_client_message simple 3 (some (peer_a ∷ frames)) start ≡ ok (true, t))
    × (t.sent ≡ start.sent ++ (peer_a ∷ answer) ∷ [])
    × (s_client_handle_protocol simple 2 (some answer) c1 ≡ ok (true, c2))
    × (c2.signalled ≡ (s_client_new simple).signalled ++ (codes "SUCCESS", (0 ∷ []) ∷ []) ∷ [])
    × (IsSafe simple c2 × (c2.terminated ≡ false) × (c2.state ≡ connected_state))
    × Server.Invariant.IsSafe simple t
    × (t.clients peer_a ≡ some p)
    × (t.memory p ≡ some sc)
    × (sc.state ≡ Server.connected_state)
    × (sc.identifier ≡ some [])
    × (t.patterns ≡ start.patterns)
unfolding s_client_new s_server_new zccp_msg_new
connect-arrives_example =
    connect-arrives simple 0 (s_client_new simple) endpoint (pos 250) start peer_a
      (s_client_new-IsSafe simple) refl refl refl refl (s_server_new-IsSafe simple 7) refl

-- A client in "connected".
abbrev pub attached : Client Table
attached = record (s_client_new simple) { state = connected_state; dealing = true }

pub attached-IsSafe : IsSafe simple attached
unfolding s_client_new zccp_msg_new
attached-IsSafe = record {
  no_alarm = refl;
  no_timers = refl;
  no_headers = refl;
  no_bytes = refl;
  phase = inr refl;
  honest = tt;
  full_sent = tt;
  loaded = λ fs h k. cc;
}

pub attached-running : attached.terminated ≡ false
unfolding s_client_new
attached-running = refl

joined-known : joined.clients peer_a ≡ some 1
unfolding s_server_new write
joined-known = refl

joined-memory : joined.memory 1 ≡ some (greeted peer_a 7)
unfolding s_server_new write
joined-memory = refl

subscribe-arrives_example :
    (c1 : Client Table) × (t : Server.Server Table) × (c2 : Client Table) × (frames : List Frame)
    × (answer : List Frame) × (s_client_handle_pipe simple 2
          (some (command_of simple (Call.subscribe (codes "c"))))
          attached
        ≡ ok (true, c1))
    × (c1.sent ≡ attached.sent ++ frames ∷ [])
    × (s_server_client_message simple 3 (some (peer_a ∷ frames)) joined ≡ ok (true, t))
    × (t.sent ≡ joined.sent ++ (peer_a ∷ answer) ∷ [])
    × (s_client_handle_protocol simple 2 (some answer) c1 ≡ ok (true, c2))
    × (c2.signalled ≡ attached.signalled ++ (codes "SUCCESS", (0 ∷ []) ∷ []) ∷ [])
    × (c2.state ≡ connected_state)
    × (is_subscribed (codes "c") 1 t.patterns ≡ (
        (streq (codes "c") (codes "c") && (1 == 1)) || is_subscribed (codes "c") 1 joined.patterns))
subscribe-arrives_example =
    subscribe-arrives simple 0 attached (codes "c") attached-IsSafe attached-running refl
      (omega arith) joined 1 (greeted peer_a 7) peer_a (codes "c") 1 joined-IsSafe joined-known
      joined-memory refl

publishing-known : publishing.clients (2 ∷ []) ≡ some 2
unfolding s_server_new write
publishing-known = refl

publishing-memory_2 : publishing.memory 2 ≡ some publisher
unfolding s_server_new write
publishing-memory_2 = refl

abbrev api : Api
api = zccp_client_new []

publish-arrives_example :
    (w1 : Client Table) × (t : Server.Server Table) × (r1 : Client Table) × (frames : List Frame)
    × (out : List Frame) × (s_client_handle_pipe simple 2
          (some (command_of simple (Call.publish (codes "cp") (codes "92"))))
          attached
        ≡ ok (true, w1))
    × (w1.sent ≡ attached.sent ++ frames ∷ [])
    × (s_server_client_message simple 3 (some ((2 ∷ []) ∷ frames)) publishing ≡ ok (true, t))
    × (t.sent
        ≡ publishing.sent
          ++ deliveries simple out publishing.memory
              (recipients simple 2 (codes "cp") publishing.patterns))
    × (s_client_handle_protocol simple 2 (some out) attached ≡ ok (true, r1))
    × (r1.signalled
        ≡ attached.signalled ++ (codes "MESSAGE", codes "x" ∷ codes "cp" ∷ codes "92" ∷ []) ∷ [])
    × (zccp_client_recv simple (record api {
      arrivals = reply (codes "MESSAGE", codes "x" ∷ codes "cp" ∷ codes "92" ∷ []) ∷ [];
    })
        ≡ returns (
          some (codes "92"),
          record api {
            sender = some (codes "x");
            address = some (codes "cp");
            content = some (codes "92");
            arrivals = [];
          },
        ))
publish-arrives_example =
    publish-arrives simple 0 attached (codes "cp") (codes "92") (codes "x") publishing 2 publisher
      (2 ∷ []) attached-IsSafe (omega arith) (omega arith) publishing-IsSafe publishing-known
      publishing-memory_2 refl refl attached api attached-running refl (omega arith) attached-IsSafe
      attached-running refl

-- 256 times the letter a.
abbrev long : Str
long = replicate 256 b'a'

All-replicate : (P : ℕ → Type 0) (n a : ℕ) → P a → All P (replicate n a)
All-replicate P zero a h = tt
All-replicate P (suc n) a h = (h, All-replicate P n a h)

subscribe-stops_example :
    (c1 : Client Table) × (frames : List Frame) × (s_client_handle_pipe simple 2
        (some (command_of simple (Call.subscribe long)))
        attached
      ≡ ok (true, c1))
    × (c1.sent ≡ attached.sent ++ frames ∷ [])
    × (s_server_client_message simple 3 (some (peer_a ∷ frames)) joined ≡ ok (false, joined))
subscribe-stops_example =
    subscribe-stops simple 0 attached long peer_a joined attached-IsSafe attached-running refl
      (All-replicate (λ c. c ≢ 0) 256 b'a' (omega arith))
      (All-replicate (λ c. c ≢ b'%') 256 b'a' (omega arith)) refl (omega arith) (omega arith)
