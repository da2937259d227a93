-- ===== src/Network/Scenario.antt =====
-- A whole run of a network at concrete inputs: a client subscribes, another one publishes, and the
-- first one hears it.
use zccp.Base.{
  [], ◌≡◌, refl, subst, Bool, true, false, List, ◌∷◌, some, IsAmong, All, pos, inl, inr,
}
use zccp.Base.Results.{Result, ok, fault, stuck}
use zccp.Czmq.{codes, Frame}
use zccp.Czmq.Simple.{simple}
use zccp.Client
use zccp.Client.{Command}
use zccp.Client.Reactor.{s_client_handle_pipe, s_client_handle_protocol}
use zccp.Client.Pipe.{Call, connect, subscribe, publish, command_of}
use zccp.Server
use zccp.Server.Reactor.{s_server_client_message}
use zccp.Server.Examples.{Table}
use zccp.Network.{
  Network, with_broker, with_client, initial, Reachable, started, called, served, heard,
}
use zccp.Network.Integrity.{IsPublished, messages-IsPublished}

abbrev Net : Type 0
Net = Network simple

abbrev result : {A : Type 0} → A → Result (Bool × A) → A
result a (ok (more, b)) = b
result a _ = a

abbrev flag : {A : Type 0} → Result (Bool × A) → Bool
flag (ok (more, b)) = more
flag _ = false

abbrev is_ok : {A : Type 0} → Result A → Bool
is_ok (ok a) = true
is_ok _ = false

result-ok :
    {A : Type 0} (a : A) (r : Result (Bool × A)) → is_ok r ≡ true → r ≡ ok (flag r, result a r)
result-ok a (ok (more, b)) h = refl
result-ok a fault h = cc
result-ok a stuck h = cc

abbrev last : List (List Frame) → List Frame
last [] = []
last (x ∷ []) = x
last (x ∷ y ∷ xs) = last (y ∷ xs)

abbrev is_full : List (List Frame) → Bool
is_full [] = false
is_full (x ∷ xs) = true

last-IsAmong : (xs : List (List Frame)) → is_full xs ≡ true → IsAmong (last xs) xs
last-IsAmong [] h = cc
last-IsAmong (x ∷ []) h = inl refl
last-IsAmong (x ∷ y ∷ xs) h = inr (last-IsAmong (y ∷ xs) refl)

abbrev behind : List Frame → List Frame
behind [] = []
behind (x ∷ xs) = xs

-- A call; the broker at what the client sent last; a client at what the broker sent last.
abbrev call_run : Frame → Call → Net → Result (Bool × Client.Client Table)
call_run peer k n = s_client_handle_pipe simple 2 (some (command_of simple k)) (n.clients peer)

abbrev call : Frame → Call → Net → Net
call peer k n = with_client simple peer (result (n.clients peer) (call_run peer k n)) n

abbrev serve_run : Frame → Net → Result (Bool × Server.Server Table)
serve_run peer n =
    s_server_client_message simple 3 (some (peer ∷ last (n.clients peer).sent)) n.broker

abbrev serve : Frame → Net → Net
serve peer n = with_broker simple (result n.broker (serve_run peer n)) n

abbrev hear_run : Frame → Net → Result (Bool × Client.Client Table)
hear_run peer n =
    s_client_handle_protocol simple 2 (some (behind (last n.broker.sent))) (n.clients peer)

abbrev hear : Frame → Net → Net
hear peer n = with_client simple peer (result (n.clients peer) (hear_run peer n)) n

unfoldable call-Reachable :
    (peer : Frame) (k : Call) (n : Net)
    → Reachable simple n
    → (n.clients peer).terminated ≡ false
    → is_ok (call_run peer k n) ≡ true
    → Reachable simple (call peer k n)
call-Reachable peer k n r running h =
    called n peer k (flag (call_run peer k n)) (result (n.clients peer) (call_run peer k n)) r
      running (result-ok (n.clients peer) (call_run peer k n) h)

unfoldable serve-Reachable :
    (peer : Frame) (n : Net)
    → Reachable simple n
    → is_full (n.clients peer).sent ≡ true
    → is_ok (serve_run peer n) ≡ true
    → Reachable simple (serve peer n)
serve-Reachable peer n r there h =
    served n peer (last (n.clients peer).sent) (flag (serve_run peer n))
      (result n.broker (serve_run peer n)) r (last-IsAmong (n.clients peer).sent there)
      (result-ok n.broker (serve_run peer n) h)

unfoldable hear-Reachable :
    (peer : Frame) (n : Net)
    → Reachable simple n
    → (n.clients peer).terminated ≡ false
    → (n.clients peer).dealing ≡ true
    → is_full n.broker.sent ≡ true
    → last n.broker.sent ≡ peer ∷ behind (last n.broker.sent)
    → is_ok (hear_run peer n) ≡ true
    → Reachable simple (hear peer n)
hear-Reachable peer n r running deals there to_peer h =
    heard n peer (behind (last n.broker.sent)) (flag (hear_run peer n))
      (result (n.clients peer) (hear_run peer n)) r running deals
      (subst (λ x. IsAmong x n.broker.sent) to_peer (last-IsAmong n.broker.sent there))
      (result-ok (n.clients peer) (hear_run peer n) h)

abbrev reader : Frame
reader = 2 ∷ []

abbrev writer : Frame
writer = 1 ∷ []

abbrev connecting : Call
connecting = connect (codes "ipc://@/zccp") (pos 250)

abbrev subscribing : Call
subscribing = subscribe (codes "c")

abbrev publishing : Call
publishing = publish (codes "cpu") (codes "92")

abbrev n0 : Net
n0 = initial simple 7

abbrev n1 : Net
n1 = call reader connecting n0

abbrev n2 : Net
n2 = serve reader n1

abbrev n3 : Net
n3 = hear reader n2

abbrev n4 : Net
n4 = call reader subscribing n3

abbrev n5 : Net
n5 = serve reader n4

abbrev n6 : Net
n6 = hear reader n5

abbrev n7 : Net
n7 = call writer connecting n6

abbrev n8 : Net
n8 = serve writer n7

abbrev n9 : Net
n9 = hear writer n8

abbrev n10 : Net
n10 = call writer publishing n9

abbrev n11 : Net
n11 = serve writer n10

abbrev n12 : Net
n12 = hear reader n11

-- What the reader signalled in the end.
abbrev heard_commands : List Command
heard_commands =
    (codes "SUCCESS", (0 ∷ []) ∷ [])
    ∷ (codes "SUCCESS", (0 ∷ []) ∷ [])
    ∷ (codes "MESSAGE", [] ∷ codes "cpu" ∷ codes "92" ∷ [])
    ∷ []

checks :
    ((n0.clients reader).terminated ≡ false)
    × (is_ok (call_run reader connecting n0) ≡ true)
    × (is_full (n1.clients reader).sent ≡ true)
    × (is_ok (serve_run reader n1) ≡ true)
    × ((n2.clients reader).terminated ≡ false)
    × ((n2.clients reader).dealing ≡ true)
    × (is_full n2.broker.sent ≡ true)
    × (last n2.broker.sent ≡ reader ∷ behind (last n2.broker.sent))
    × (is_ok (hear_run reader n2) ≡ true)
    × ((n3.clients reader).terminated ≡ false)
    × (is_ok (call_run reader subscribing n3) ≡ true)
    × (is_full (n4.clients reader).sent ≡ true)
    × (is_ok (serve_run reader n4) ≡ true)
    × ((n5.clients reader).terminated ≡ false)
    × ((n5.clients reader).dealing ≡ true)
    × (is_full n5.broker.sent ≡ true)
    × (last n5.broker.sent ≡ reader ∷ behind (last n5.broker.sent))
    × (is_ok (hear_run reader n5) ≡ true)
    × ((n6.clients writer).terminated ≡ false)
    × (is_ok (call_run writer connecting n6) ≡ true)
    × (is_full (n7.clients writer).sent ≡ true)
    × (is_ok (serve_run writer n7) ≡ true)
    × ((n8.clients writer).terminated ≡ false)
    × ((n8.clients writer).dealing ≡ true)
    × (is_full n8.broker.sent ≡ true)
    × (last n8.broker.sent ≡ writer ∷ behind (last n8.broker.sent))
    × (is_ok (hear_run writer n8) ≡ true)
    × ((n9.clients writer).terminated ≡ false)
    × (is_ok (call_run writer publishing n9) ≡ true)
    × (is_full (n10.clients writer).sent ≡ true)
    × (is_ok (serve_run writer n10) ≡ true)
    × ((n11.clients reader).terminated ≡ false)
    × ((n11.clients reader).dealing ≡ true)
    × (is_full n11.broker.sent ≡ true)
    × (last n11.broker.sent ≡ reader ∷ behind (last n11.broker.sent))
    × (is_ok (hear_run reader n11) ≡ true)
unfolding zccp.Client.Reactor.s_client_new zccp.Client.Reactor.s_client_handle_pipe
    zccp.Client.Reactor.s_client_handle_protocol zccp.Codec.code zccp.Codec.kind_of
    zccp.Codec.Decode.get_items zccp.Codec.Decode.get_headers zccp.Codec.Decode.get_fields
    zccp.Codec.Decode.get_command zccp.Codec.Decode.get_frame zccp.Codec.Decode.zccp_msg_decode
    zccp.Codec.Encode.string_size zccp.Codec.Encode.put_string? zccp.Codec.Encode.dictionary_bytes
    zccp.Codec.Encode.headers_bytes zccp.Codec.Encode.put_headers zccp.Codec.Encode.frame_size
    zccp.Codec.Encode.put_fields zccp.Codec.Encode.put_frame zccp.Codec.Encode.encode_frame
    zccp.Codec.Encode.content_frames zccp.Codec.Encode.zccp_msg_encode
    zccp.Codec.Socket.zccp_msg_send zccp.Codec.Wire.Get.get_number1 zccp.Codec.Wire.Get.get_number2
    zccp.Codec.Wire.Get.get_number4 zccp.Codec.Wire.Get.get_octets zccp.Codec.Wire.Get.get_string
    zccp.Codec.Wire.Put.put_octets zccp.Network.put_client zccp.Server.Actions.forward_pattern
    zccp.Server.Patterns.store zccp.Server.Reactor.s_server_new
    zccp.Server.Reactor.s_server_client_message
checks = (
  refl, refl, refl, refl, refl, refl, refl, refl, refl, refl, refl, refl, refl, refl, refl, refl,
  refl, refl, refl, refl, refl, refl, refl, refl, refl, refl, refl, refl, refl, refl, refl, refl,
  refl, refl, refl, refl,
)

unfoldable r0 : Reachable simple n0
r0 = started 7

unfoldable r1 : Reachable simple n1
r1 = call-Reachable reader connecting n0 r0 checks.0 checks.1

unfoldable r2 : Reachable simple n2
r2 = serve-Reachable reader n1 r1 checks.2 checks.3

unfoldable r3 : Reachable simple n3
r3 = hear-Reachable reader n2 r2 checks.4 checks.5 checks.6 checks.7 checks.8

unfoldable r4 : Reachable simple n4
r4 = call-Reachable reader subscribing n3 r3 checks.9 checks.10

unfoldable r5 : Reachable simple n5
r5 = serve-Reachable reader n4 r4 checks.11 checks.12

unfoldable r6 : Reachable simple n6
r6 = hear-Reachable reader n5 r5 checks.13 checks.14 checks.15 checks.16 checks.17

unfoldable r7 : Reachable simple n7
r7 = call-Reachable writer connecting n6 r6 checks.18 checks.19

unfoldable r8 : Reachable simple n8
r8 = serve-Reachable writer n7 r7 checks.20 checks.21

unfoldable r9 : Reachable simple n9
r9 = hear-Reachable writer n8 r8 checks.22 checks.23 checks.24 checks.25 checks.26

unfoldable r10 : Reachable simple n10
r10 = call-Reachable writer publishing n9 r9 checks.27 checks.28

unfoldable r11 : Reachable simple n11
r11 = serve-Reachable writer n10 r10 checks.29 checks.30

unfoldable r12 : Reachable simple n12
r12 = hear-Reachable reader n11 r11 checks.31 checks.32 checks.33 checks.34 checks.35

messages-IsPublished_example : All (IsPublished simple (codes "92" ∷ [])) heard_commands
unfolding r0 r1 r2 r3 r4 r5 r6 r7 r8 r9 r10 r11 r12 call-Reachable serve-Reachable hear-Reachable
    zccp.Client.Reactor.s_client_new zccp.Client.Reactor.s_client_handle_pipe
    zccp.Client.Reactor.s_client_handle_protocol zccp.Codec.code zccp.Codec.kind_of
    zccp.Codec.Decode.get_items zccp.Codec.Decode.get_headers zccp.Codec.Decode.get_fields
    zccp.Codec.Decode.get_command zccp.Codec.Decode.get_frame zccp.Codec.Decode.zccp_msg_decode
    zccp.Codec.Encode.string_size zccp.Codec.Encode.put_string? zccp.Codec.Encode.dictionary_bytes
    zccp.Codec.Encode.headers_bytes zccp.Codec.Encode.put_headers zccp.Codec.Encode.frame_size
    zccp.Codec.Encode.put_fields zccp.Codec.Encode.put_frame zccp.Codec.Encode.encode_frame
    zccp.Codec.Encode.content_frames zccp.Codec.Encode.zccp_msg_encode
    zccp.Codec.Socket.zccp_msg_send zccp.Codec.Wire.Get.get_number1 zccp.Codec.Wire.Get.get_number2
    zccp.Codec.Wire.Get.get_number4 zccp.Codec.Wire.Get.get_octets zccp.Codec.Wire.Get.get_string
    zccp.Codec.Wire.Put.put_octets zccp.Network.put_client zccp.Server.Actions.forward_pattern
    zccp.Server.Patterns.store zccp.Server.Reactor.s_server_new
    zccp.Server.Reactor.s_server_client_message
messages-IsPublished_example = messages-IsPublished simple n12 r12 reader
