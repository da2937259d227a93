-- ===== src/Client/Examples.antt =====
-- The theorems on the client at concrete inputs.
use zccp.Base.{
  pos, ◌≡◌, refl, ap, subst, ◌∙◌, inr, Bool, true, false, List, [], ◌∷◌, ◌++◌, none, some,
}
use zccp.Base.Results.{ok, fault}
use zccp.Czmq.{Czmq, Str, Frame}
use zccp.Czmq.Simple.{simple}
use zccp.Codec.{code, hello, kind_of, ZccpMsg, zccp_msg_new}
use zccp.Codec.Wire.Get.{get_number1, get_number2, get_number4}
use zccp.Codec.Decode.{zccp_msg_decode, get_frame, get_command, get_fields, get_headers, get_items}
use zccp.Codec.Socket.{zccp_msg_recv}
use zccp.Client.{
  start_state, connecting_state, connected_state, connect_event, deliver_event, Command, Client,
}
use zccp.Client.Actions.{codes}
use zccp.Client.Engine.{s_client_execute}
use zccp.Client.Reactor.{s_client_new, status, s_client_handle_pipe, s_client_handle_protocol}
use zccp.Client.Protocol.{delivers, Row, own, inherited, row, frames_of}
use zccp.Client.Step.{IsReady, Ends}
use zccp.Client.Answer.{s_client_execute-Follows}
use zccp.Client.Start.{dialled, execute-connect, execute-connect_refused}
use zccp.Client.Start
use zccp.Client.Engine.{round}
use zccp.Client.Invariant.{IsSafe, ready}
use zccp.Client.Handle.{HasFrame, s_client_handle_protocol-IsSafe}
use zccp.Client.Pipe.{Call, command_of, connect, connecting, connecting-IsSafe, handle_pipe-execute}
use zccp.Client.Early.{call-fault}
use zccp.Client.Relapse.{invalid-waits}
use zccp.Client.Reachable.{Reachable, created, called, s_client_new-IsSafe, Reachable-IsSafe}
use zccp.Client.Api.{
  reply, Api, returns, waits, zccp_client_new, zccp_client_connect, zccp_client_subscribe,
  zccp_client_recv,
}
use zccp.Client.Replies.{
  zccp_client_recv-first, zccp_client_subscribe-success, zccp_client_connect-failure,
}

abbrev Table : Type 0
Table = List (Str × Str)

-- A DELIVER, and a client in "connected" that has it.
abbrev delivered : ZccpMsg Table
delivered = record (zccp_msg_new Table 7) {
  sender = some (codes "1000");
  address = some (codes "cpu");
  content = some (codes "92" ∷ []);
}

abbrev listening : Client Table
listening = record (s_client_new simple) {
  state = connected_state;
  dealing = true;
  msgin = some delivered;
}

listening-IsReady : IsReady simple listening
unfolding s_client_new zccp_msg_new
listening-IsReady = record { running = refl; no_alarm = refl; no_headers = refl; no_bytes = refl }

abbrev delivering : Row
delivering = record { effect = delivers; next = none; ends = false }

s_client_execute-Follows_example :
    Ends simple 0 listening listening-IsReady deliver_event delivering
      (codes "1000" ∷ codes "cpu" ∷ codes "92" ∷ [])
unfolding row own inherited
s_client_execute-Follows_example =
    s_client_execute-Follows simple 0 listening listening-IsReady deliver_event delivering
      (codes "1000" ∷ codes "cpu" ∷ codes "92" ∷ []) (λ h. cc) refl refl
      (delivered, codes "1000", codes "cpu", codes "92", [], refl, refl, refl, refl, refl)

-- A client that waits for HELLO-OK.
abbrev greeting : Client Table
greeting = record (s_client_new simple) { state = connecting_state; dealing = true }

greeting-IsSafe : IsSafe simple greeting
unfolding s_client_new zccp_msg_new
greeting-IsSafe = record {
  no_alarm = refl;
  no_timers = refl;
  no_headers = refl;
  no_bytes = refl;
  phase = inr refl;
  honest = tt;
  full_sent = tt;
  loaded = λ fs h k. cc;
}

abbrev hello_ok_frames : List Frame
hello_ok_frames = (0xAA ∷ 0xAA ∷ 2 ∷ 0 ∷ 0 ∷ 0 ∷ 0 ∷ []) ∷ []

same_message : (m n : ZccpMsg Table) → some m ≡ some n → m ≡ n
same_message m n e = cc

hello_ok-HasFrame :
    (m : ZccpMsg Table)
    → zccp_msg_recv simple false (some hello_ok_frames) ≡ some m
    → HasFrame simple m
unfolding zccp_msg_recv zccp_msg_decode get_frame get_command get_fields get_headers get_items
    get_number1 get_number2 get_number4 kind_of zccp_msg_new
hello_ok-HasFrame m e = subst (HasFrame simple) (same_message _ m e) (λ h. cc)

s_client_handle_protocol-IsSafe_example :
    (more : Bool) × (d : Client Table) × (s_client_handle_protocol simple 2
        (some hello_ok_frames)
        greeting
      ≡ ok (more, d))
    × IsSafe simple d
    × (more ≡ true → d.terminated ≡ false)
unfolding s_client_new
s_client_handle_protocol-IsSafe_example =
    s_client_handle_protocol-IsSafe simple 0 (some hello_ok_frames) greeting greeting-IsSafe refl
      refl hello_ok-HasFrame

-- A client that was told to connect.
abbrev pub asked : Client Table
asked = connecting simple (s_client_new simple) (codes "ipc://@/zccp") (pos 250)

pub asked-IsSafe : IsSafe simple asked
asked-IsSafe =
    connecting-IsSafe simple (s_client_new simple) (s_client_new-IsSafe simple)
      (codes "ipc://@/zccp") (pos 250)

pub asked-IsReady : IsReady simple asked
unfolding s_client_new
asked-IsReady = ready simple asked asked-IsSafe refl

pub asked-start : asked.state ≡ start_state
unfolding s_client_new
asked-start = refl

abbrev pub dialling : Client Table
dialling = dialled simple 0 asked asked-IsReady asked-start

pub dialling-ran :
    s_client_handle_pipe simple 2
      (some (command_of simple (connect (codes "ipc://@/zccp") (pos 250))))
      (s_client_new simple)
    ≡ ok (true, dialling)
unfolding status s_client_new
dialling-ran =
    handle_pipe-execute simple (s_client_new simple) 2 (connect (codes "ipc://@/zccp") (pos 250))
      connect_event asked refl
    ∙ ap (status simple)
        (execute-connect simple 0 asked asked-IsReady asked-start (codes "ipc://@/zccp") refl refl)

dialling-Reachable : Reachable simple dialling
unfolding s_client_new
dialling-Reachable =
    called (s_client_new simple) dialling 0 (connect (codes "ipc://@/zccp") (pos 250)) true created
      refl dialling-ran

Reachable-IsSafe_example : IsSafe simple dialling
Reachable-IsSafe_example = Reachable-IsSafe simple dialling dialling-Reachable

-- A CZMQ whose sockets connect to nothing.
abbrev refusing : Czmq
refusing = record simple { zsock_connect = λ endpoint. false }

abbrev hopeless : Client Table
hopeless = record (s_client_new refusing) { endpoint = some (codes "nowhere") }

hopeless-IsReady : IsReady refusing hopeless
unfolding s_client_new zccp_msg_new
hopeless-IsReady = record { running = refl; no_alarm = refl; no_headers = refl; no_bytes = refl }

hopeless-start : hopeless.state ≡ start_state
unfolding s_client_new
hopeless-start = refl

execute-connect_refused_example :
    (round refusing (record hopeless { next_event = connect_event; wakeup_timer = 0 })
      ≡ ok (Start.refused refusing 0 hopeless hopeless-IsReady hopeless-start))
    × (round refusing (Start.refused refusing 0 hopeless hopeless-IsReady hopeless-start) ≡ fault)
    × (s_client_execute refusing 2 connect_event hopeless ≡ fault)
execute-connect_refused_example =
    execute-connect_refused refusing 0 hopeless hopeless-IsReady hopeless-start (codes "nowhere")
      refl refl

abbrev message : Command
message = (codes "MESSAGE", codes "1000" ∷ codes "cpu" ∷ codes "92" ∷ [])

abbrev done : Command
done = (codes "SUCCESS", (0 ∷ []) ∷ [])

abbrev late : Api
late = zccp_client_new (reply done ∷ reply message ∷ [])

zccp_client_recv-first_example :
    zccp_client_recv simple late
    ≡ returns (
      some (codes "92"),
      record late {
        sender = some (codes "1000");
        address = some (codes "cpu");
        content = some (codes "92");
        arrivals = [];
      },
    )
unfolding zccp_client_new
zccp_client_recv-first_example =
    zccp_client_recv-first simple late (done ∷ []) (codes "1000") (codes "cpu") (codes "92") []
      ((refl, tt), tt) refl

abbrev early : Api
early = zccp_client_new (reply message ∷ reply done ∷ [])

zccp_client_subscribe-success_example :
    zccp_client_subscribe simple (codes "cpu") early
    ≡ returns (
      pos 0,
      record early {
        status = pos 0;
        commands = early.commands ++ (codes "SUBSCRIBE", codes "cpu" ∷ []) ∷ [];
        arrivals = [];
      },
    )
unfolding zccp_client_new
zccp_client_subscribe-success_example =
    zccp_client_subscribe-success simple (codes "cpu") early (message ∷ []) (pos 0) []
      ((refl, (refl, tt)), tt) refl

abbrev failed : Api
failed = zccp_client_new (reply (codes "FAILURE", (b'-' ∷ 0 ∷ []) ∷ codes "down" ∷ []) ∷ [])

zccp_client_connect-failure_example :
    zccp_client_connect simple (codes "ipc://@/zccp") (pos 250) failed ≡ waits
unfolding zccp_client_new
zccp_client_connect-failure_example =
    zccp_client_connect-failure simple (codes "ipc://@/zccp") (pos 250) failed []
      ((b'-' ∷ 0 ∷ []) ∷ codes "down" ∷ []) tt refl

-- INVALID and HELLO-OK at a client that waits for HELLO-OK.
abbrev invalid_frames : List Frame
invalid_frames = (0xAA ∷ 0xAA ∷ 12 ∷ []) ∷ []

abbrev refused : ZccpMsg Table
refused = zccp_msg_new Table 12

abbrev welcomed : ZccpMsg Table
welcomed = record (zccp_msg_new Table 2) { headers = some [] }

invalid-arrives : zccp_msg_recv simple false (some invalid_frames) ≡ some refused
unfolding zccp_msg_recv zccp_msg_decode get_frame get_command get_fields get_number1 get_number2
    kind_of
invalid-arrives = refl

hello_ok-arrives : zccp_msg_recv simple false (some hello_ok_frames) ≡ some welcomed
unfolding zccp_msg_recv zccp_msg_decode get_frame get_command get_fields get_headers get_items
    get_number1 get_number2 get_number4 kind_of
hello_ok-arrives = refl

invalid-waits_example :
    (c1 : Client Table) × (c2 : Client Table) × (s_client_handle_protocol simple 2
        (some invalid_frames)
        greeting
      ≡ ok (true, c1))
    × (c1.sent
        ≡ greeting.sent
          ++ frames_of simple hello (record greeting.msgout { id = code hello; routing_id = none })
            ∷ [])
    × (s_client_handle_protocol simple 2 (some hello_ok_frames) c1 ≡ ok (true, c2))
    × (c2.state ≡ connected_state)
    × (c2.sent ≡ c1.sent)
    × (c2.signalled ≡ greeting.signalled)
    × (zccp_client_subscribe simple (codes "cpu") (record late { arrivals = [] }) ≡ waits)
unfolding s_client_new kind_of zccp_msg_new
invalid-waits_example =
    invalid-waits simple 0 greeting invalid_frames hello_ok_frames refused welcomed late
      (codes "cpu") greeting-IsSafe refl refl invalid-arrives refl hello_ok-arrives refl

call-fault_example :
    (s_client_handle_pipe simple 2
        (some (command_of simple (Call.subscribe (codes "cpu"))))
        (s_client_new simple)
      ≡ fault)
    × (s_client_handle_pipe simple 2
          (some (command_of simple (Call.publish (codes "cpu") (codes "92"))))
          (s_client_new simple)
        ≡ fault)
unfolding s_client_new
call-fault_example =
    call-fault simple 0 (s_client_new simple) (codes "cpu") (codes "cpu") (codes "92")
      (s_client_new-IsSafe simple) refl refl
