-- ===== src/Server/Examples.antt =====
-- The theorems on the broker at concrete inputs: a broker with a subscriber and a publisher.
use zccp.Base.{
  inl, false, arith, ℕ, streq, ◌==◌, ◌&&◌, ◌||◌, not, ◌≡◌, refl, true, List, [], ◌∷◌, none, some,
}
use zccp.Czmq.{Str, Frame}
use zccp.Czmq.Simple.{simple}
use zccp.Codec.{deliver, code, ZccpMsg, zccp_msg_new}
use zccp.Codec.Access.{zccp_msg_address, zccp_msg_content}
use zccp.Codec.Socket.{zccp_msg_recv}
use zccp.Server.{Pattern, connected_state, publish_event, Client, Server, ok}
use zccp.Server.Actions.{write}
use zccp.Server.Patterns.{drop_client, store, contains, s_pattern_new}
use zccp.Server.Engine.{s_client_execute}
use zccp.Server.Reactor.{new_client, s_server_new, s_server_client_message, s_client_handle_timeout}
use zccp.Server.Invariant.{write-Safe_timed, IsSafe, IsIdle, write-Safe}
use zccp.Server.Arrival.{execute-publish_arrives}
use zccp.Server.Protocol.{forwards, answer}
use zccp.Server.Subscribers.{is_subscribed, is_subscribed-store, is_subscribed-drop_client}
use zccp.Server.Publish.{recipients, forwarded}
use zccp.Server.Publisher.{noted, done_publishing, execute-publish}
use zccp.Server.Delivery.{delivery, encode_deliver-delivery}
use zccp.Server.Join.{added, added-Safe}
use zccp.Codec.{kind_of}
use zccp.Codec.Access.{zccp_msg_id}
use zccp.Codec.Wire.Get.{get_number1, get_number2}
use zccp.Codec.Socket.{set_routing}
use zccp.Codec.Decode.{zccp_msg_decode, get_frame, get_command, get_fields}
use zccp.Server.{terminate_event, fault}
use zccp.Server.Engine.{s_protocol_event, event_of}
use zccp.Server.Step.{Ends, s_client_execute_answers, EndsSafe}
use zccp.Server.Reachable.{
  s_client_handle_timeout_set, Reachable, created, s_server_new-IsSafe,
  s_server_client_message_unnamed, configured,
}

abbrev pub Table : Type 0
Table = List (Str × Str)

abbrev pub start : Server Table
start = s_server_new simple 7

abbrev pub peer_a : Frame
peer_a = 1 ∷ []

-- The broker with its log on.
abbrev talkative : Server Table
talkative = record start { verbose = true }

abbrev hello_a : List Frame
hello_a = peer_a ∷ (0xAA ∷ 0xAA ∷ 1 ∷ 1 ∷ b'x' ∷ 0 ∷ 0 ∷ 0 ∷ 0 ∷ []) ∷ []

-- A PING-OK, which has no event of its own.
abbrev ping_ok_a : List Frame
ping_ok_a = peer_a ∷ (0xAA ∷ 0xAA ∷ 11 ∷ []) ∷ []

abbrev pinged : ZccpMsg Table
pinged = record (zccp_msg_new Table 11) { routing_id = some peer_a }

pinged-recv : zccp_msg_recv simple true (some ping_ok_a) ≡ some pinged
unfolding zccp_msg_recv set_routing zccp_msg_decode get_frame get_command get_fields kind_of
    zccp_msg_new get_number2 get_number1
pinged-recv = refl

pinged-event : s_protocol_event simple pinged ≡ terminate_event
unfolding s_protocol_event zccp_msg_id event_of kind_of zccp_msg_new
pinged-event = refl

s_server_client_message_unnamed_example :
    s_server_client_message simple 3 (some ping_ok_a) talkative ≡ fault
s_server_client_message_unnamed_example =
    s_server_client_message_unnamed simple talkative 0 (some ping_ok_a) pinged
      (configured start true (created 7)) pinged-recv pinged-event refl

-- A client with an identifier, as HELLO leaves it.
abbrev pub greeted : Frame → ℕ → Client Table
greeted peer n = record (new_client simple peer n) {
  identifier = some (b'x' ∷ []);
  state = connected_state;
}

greeted-IsIdle : (peer : Frame) (n : ℕ) → IsIdle simple (greeted peer n)
unfolding new_client
greeted-IsIdle peer n = record {
  emptied = refl;
  fresh_reply = refl;
  no_alarm = refl;
  keyed = refl;
  identified = λ h. (b'x' ∷ [], refl);
}

abbrev pub reading : ZccpMsg Table
reading = record (zccp_msg_new Table 5) {
  address = some (b'c' ∷ b'p' ∷ []);
  content = some ((b'9' ∷ []) ∷ []);
}

abbrev pub publisher : Client Table
publisher = record (greeted (2 ∷ []) 8) { request = some reading }

abbrev pub joined : Server Table
joined = write simple 1 (greeted peer_a 7) (added simple peer_a start)

-- Client 1 subscribed to "c".
abbrev pub subscribed : Server Table
subscribed = record joined { patterns = s_pattern_new (b'c' ∷ []) 1 ∷ [] }

-- Client 2 has a PUBLISH to "cp".
abbrev pub publishing : Server Table
publishing = write simple 2 publisher (added simple (2 ∷ []) subscribed)

pub joined-IsSafe : IsSafe simple joined
unfolding s_server_new new_client
joined-IsSafe =
    write-Safe simple 1 (new_client simple peer_a 7) (greeted peer_a 7) (added simple peer_a start)
      (added-Safe simple peer_a start (s_server_new-IsSafe simple 7) refl) refl
      (greeted-IsIdle peer_a 7) refl refl (λ h. refl)

subscribed-IsSafe : IsSafe simple subscribed
unfolding s_server_new new_client write s_pattern_new contains
subscribed-IsSafe = record {
  idle = joined-IsSafe.idle;
  owned = joined-IsSafe.owned;
  live = joined-IsSafe.live;
  unused = joined-IsSafe.unused;
  subscribed = (((((greeted peer_a 7, refl, refl), tt), (refl, tt))), tt);
  no_headers = joined-IsSafe.no_headers;
  timed = joined-IsSafe.timed;
  counting = joined-IsSafe.counting;
}

pub publishing-IsSafe : IsSafe simple publishing
unfolding s_server_new new_client write s_pattern_new
publishing-IsSafe =
    write-Safe simple 2 (new_client simple (2 ∷ []) 8) publisher (added simple (2 ∷ []) subscribed)
      (added-Safe simple (2 ∷ []) subscribed subscribed-IsSafe refl) refl
      (record {
        emptied = refl;
        fresh_reply = refl;
        no_alarm = refl;
        keyed = refl;
        identified = λ h. (b'x' ∷ [], refl);
      })
      refl refl (λ h. refl)

abbrev delivered : List Frame
delivered = delivery simple (b'x' ∷ []) (b'c' ∷ b'p' ∷ []) none (some ((b'9' ∷ []) ∷ []))

execute-publish_example :
    s_client_execute simple 3 2 publish_event publishing
    ≡ ok (
        write simple 2 (done_publishing simple publisher) (
          forwarded simple delivered
            (recipients simple 2 (b'c' ∷ b'p' ∷ []) publishing.patterns)
            (noted simple publisher reading publishing)))
unfolding s_server_new write zccp_msg_address zccp_msg_content new_client
execute-publish_example =
    execute-publish simple 0 2 publisher publishing reading (b'c' ∷ b'p' ∷ []) delivered
      publishing-IsSafe refl refl refl refl
      (
        b'x' ∷ [],
        b'c' ∷ b'p' ∷ [],
        refl,
        refl,
        encode_deliver-delivery simple (b'x' ∷ []) (b'c' ∷ b'p' ∷ []) none
            (some ((b'9' ∷ []) ∷ [])),
      )

-- Client 1 with its expiry timer.
abbrev waiting : Server Table
waiting =
    record (write simple 1 (record (greeted peer_a 7) { expiry_timer = 1 })
      (added simple peer_a start)) {
        timers = record { timer_id = 1; client = 1 } ∷ [];
        next_timer = 2;
      }

waiting-IsSafe : IsSafe simple waiting
unfolding s_server_new new_client write
waiting-IsSafe =
    write-Safe_timed simple 1 (new_client simple peer_a 7)
      (record (greeted peer_a 7) { expiry_timer = 1 }) (added simple peer_a start) waiting.timers 2
      (added-Safe simple peer_a start (s_server_new-IsSafe simple 7) refl) refl
      (record {
        emptied = refl;
        fresh_reply = refl;
        no_alarm = refl;
        keyed = refl;
        identified = λ h. (b'x' ∷ [], refl);
      })
      refl (λ h. refl)
      ((record (greeted peer_a 7) { expiry_timer = 1 }, refl, refl, λ e. omega arith), tt)
      (λ e. omega arith)

s_client_handle_timeout_set_example :
    ((c : Client Table) × (waiting.memory 1 ≡ some c))
    × EndsSafe simple (s_client_handle_timeout simple 3 1 waiting)
s_client_handle_timeout_set_example =
    s_client_handle_timeout_set simple waiting 0 (record { timer_id = 1; client = 1 })
      waiting-IsSafe (inl refl)

pub publishing-memory : publishing.memory 2 ≡ some publisher
unfolding write
publishing-memory = refl

s_client_execute_answers_example :
    Ends simple 0 2 publisher publishing publishing-IsSafe publishing-memory publish_event forwards
unfolding answer write zccp_msg_address
s_client_execute_answers_example =
    s_client_execute_answers simple 0 2 publisher publishing publishing-IsSafe publishing-memory
      publish_event (reading, b'c' ∷ b'p' ∷ [], refl, refl) tt

abbrev two_patterns : List Pattern
two_patterns =
    record { expression = b'c' ∷ []; clients = 1 ∷ 2 ∷ [] }
    ∷ record { expression = b'd' ∷ []; clients = 2 ∷ [] }
    ∷ []

is_subscribed-store_example :
    is_subscribed (b'd' ∷ []) 1 (store 1 (b'd' ∷ []) two_patterns)
    ≡ ((streq (b'd' ∷ []) (b'd' ∷ []) && (1 == 1)) || is_subscribed (b'd' ∷ []) 1 two_patterns)
is_subscribed-store_example = is_subscribed-store (b'd' ∷ []) (b'd' ∷ []) 1 1 two_patterns

is_subscribed-drop_client_example :
    is_subscribed (b'c' ∷ []) 2 (drop_client 2 two_patterns)
    ≡ (not (2 == 2) && is_subscribed (b'c' ∷ []) 2 two_patterns)
unfolding contains
is_subscribed-drop_client_example =
    is_subscribed-drop_client (b'c' ∷ []) 2 2 two_patterns ((refl, (refl, tt)), ((refl, tt), tt))

-- What client 1 reads of it.
execute-publish_arrives_example :
    (frames : List Frame) × (m : ZccpMsg Table) × (s_client_execute simple 3 2 publish_event
        publishing
      ≡ ok (
          write simple 2 (done_publishing simple publisher) (
            forwarded simple frames
              (recipients simple 2 (b'c' ∷ b'p' ∷ []) publishing.patterns)
              (noted simple publisher reading publishing))))
    × (zccp_msg_recv simple false (some frames) ≡ some m)
    × (m.id ≡ code deliver)
    × (m.sender ≡ some (b'x' ∷ []))
    × (m.address ≡ some (b'c' ∷ b'p' ∷ []))
    × (m.content ≡ some ((b'9' ∷ []) ∷ []))
    × (m.headers ≡ some [])
unfolding write zccp_msg_address zccp_msg_content
execute-publish_arrives_example =
    execute-publish_arrives simple 0 2 publisher publishing reading (b'x' ∷ []) (b'c' ∷ b'p' ∷ [])
      ((b'9' ∷ []) ∷ []) publishing-IsSafe refl refl refl refl refl refl (omega arith) (omega arith)
