-- ===== src/Session/Greet.antt =====
-- The handshake: from the caller's CONNECT to the broker's table of clients and back.
use zccp.Base.{
  ℕ, ℤ, suc, pos, ◌≡◌, refl, ap, ◌∙◌, true, false, not, List, [], ◌∷◌, ◌++◌, none, some, streq_refl,
  arith,
}
use zccp.Base.Results.{ok, ◌>>=◌}
use zccp.Czmq.{Str, Frame, Czmq}
use zccp.Codec.{hello, hello_ok, code, kind_of, ZccpMsg, zccp_msg_new}
use zccp.Codec.Access.{zccp_msg_identifier, zccp_msg_id}
use zccp.Codec.Encode.Size.{text, items}
use zccp.Codec.Decode.RoundTrip.{received, decode-frames}
use zccp.Codec.Wires.{routed, recv_routed}
use zccp.Codec.Socket.{zccp_msg_recv}
use zccp.Client.{
  start_state, connecting_state, connected_state, connect_event, hello_ok_event, Client,
}
use zccp.Client.Actions.{codes}
use zccp.Client.Engine.{event_of}
use zccp.Client.Reactor.{status, s_client_handle_pipe, s_client_handle_protocol}
use zccp.Client.Protocol.{succeeds, Row, own, inherited, row, frames_of}
use zccp.Client.Start.{dialled, execute-connect}
use zccp.Client.Invariant.{IsSafe, ready, is_harmless}
use zccp.Client.Pipe.{Call, command_of, connecting, connecting-IsSafe, handle_pipe-execute}
use zccp.Client.Reachable.{dialled-IsSafe}
use zccp.Client.Converse.{Went, message-Went, holding}
use zccp.Server
use zccp.Server.Actions.{write}
use zccp.Server.Engine.{s_client_execute, s_protocol_event}
use zccp.Server.Reactor.{new_client, s_server_client_message}
use zccp.Server.Memory.{update_self}
use zccp.Server.Outcome.{reply_frames, empty_msg, replied}
use zccp.Server.Requests.{greeted}
use zccp.Server.Join.{added, added-Safe, find_client-new}
use zccp.Server.Handle.{called, called-Safe, timed}
use zccp.Server.Enroll.{message-found}
use zccp.Server.Admit.{execute-hello, hello-Safe}

module _ (C : Czmq) where
  open C use {Hash, zframe_strhex, zsock_connect, print_int}

  -- The HELLO that the client sends.
  abbrev pub greeting : Client Hash → ZccpMsg Hash
  greeting c = record c.msgout { id = code hello; routing_id = none }

  greeting-arrives :
      (c : Client Hash) (peer : Frame)
      → c.msgout.identifier ≡ none
      → c.msgout.headers ≡ none
      → zccp_msg_recv C true (some (peer ∷ frames_of C hello (greeting c)))
        ≡ some (routed C peer (received C hello (greeting c)))
  unfolding items
  greeting-arrives c peer anonymous no_headers =
      recv_routed C peer (frames_of C hello (greeting c)) (received C hello (greeting c)) (
        decode-frames C hello (greeting c)
          (rw (anonymous, text) (tt, omega arith), rw (no_headers, items) (tt, omega arith)))

  greeting-identifier :
      (c : Client Hash) (peer : Frame)
      → c.msgout.identifier ≡ none
      → zccp_msg_identifier C (routed C peer (received C hello (greeting c))) ≡ some []
  unfolding received zccp_msg_identifier
  greeting-identifier c peer anonymous = ap (λ x. some (text x)) anonymous

  welcome-arrives :
      zccp_msg_recv C false (some (reply_frames C hello_ok))
      ≡ some (received C hello_ok (empty_msg C hello_ok))
  unfolding zccp_msg_recv zccp_msg_new items
  welcome-arrives = decode-frames C hello_ok (empty_msg C hello_ok) (tt, omega arith)

  abbrev hears : Row
  hears = record { effect = succeeds; next = some connected_state; ends = false }

  client-hears :
      (fuel : ℕ) (d : Client Hash)
      → IsSafe C d
      → d.terminated ≡ false
      → d.state ≡ connecting_state
      → Went C
          (holding C (received C hello_ok (empty_msg C hello_ok)) d)
          hears
          []
          (s_client_handle_protocol C (suc (suc fuel)) (some (reply_frames C hello_ok)) d)
  unfolding row own inherited event_of received kind_of zccp_msg_new code
  client-hears fuel d good alive waiting =
      message-Went C fuel (reply_frames C hello_ok) (received C hello_ok (empty_msg C hello_ok)) d
        hello_ok_event hears [] welcome-arrives refl good alive (λ h. cc) refl
        (ap (λ s. row s hello_ok_event) waiting) (ap (λ s. is_harmless s (some hears)) waiting) refl
        refl

  -- The broker's side: a client that is not in the table.
  module _ (fuel : ℕ) (c : Client Hash) (s : Server.Server Hash) (peer : Frame)
      (anonymous : c.msgout.identifier ≡ none) (no_headers : c.msgout.headers ≡ none)
      (broker : Server.Invariant.IsSafe C s) (unknown : s.clients (zframe_strhex peer) ≡ none) where
    abbrev msg : ZccpMsg Hash
    msg = routed C peer (received C hello (greeting c))

    abbrev newcomer : Server.Client Hash
    newcomer = called C (new_client C peer s.client_id) msg s.next_timer

    abbrev in_hand : Server.Server Hash
    in_hand =
        write C s.next_ptr newcomer
          (timed C s.next_ptr (new_client C peer s.client_id) (added C peer s))

    abbrev pub welcomed : Server.Server Hash
    welcomed = write C s.next_ptr (greeted C [] newcomer) (replied C hello_ok newcomer in_hand)

    in_hand-Safe : Server.Invariant.IsSafe C in_hand
    in_hand-Safe =
        called-Safe C s.next_ptr msg (new_client C peer s.client_id) (added C peer s)
          (added-Safe C peer s broker unknown)
          (update_self s.memory s.next_ptr (some (new_client C peer s.client_id)))

    in_hand-memory : in_hand.memory s.next_ptr ≡ some newcomer
    unfolding write
    in_hand-memory = update_self (added C peer s).memory s.next_ptr (some newcomer)

    broker-welcomes :
        s_server_client_message C
          (suc (suc (suc fuel)))
          (some (peer ∷ frames_of C hello (greeting c)))
          s
        ≡ ok (true, welcomed)
    unfolding s_protocol_event zccp_msg_id Server.Engine.event_of received kind_of zccp_msg_new code
        new_client
    broker-welcomes =
        message-found C (suc (suc (suc fuel))) peer (frames_of C hello (greeting c)) msg s
          (added C peer s) s.next_ptr (new_client C peer s.client_id)
          (find_client-new C peer s unknown) (added-Safe C peer s broker unknown)
          (update_self s.memory s.next_ptr (some (new_client C peer s.client_id)))
          (greeting-arrives c peer anonymous no_headers) refl
        ∙ ap (λ r. r >>= λ t. ok (true, t))
            (execute-hello C fuel s.next_ptr newcomer in_hand in_hand-Safe in_hand-memory msg []
              refl refl (greeting-identifier c peer anonymous))

    welcomed-sent : welcomed.sent ≡ s.sent ++ (peer ∷ reply_frames C hello_ok) ∷ []
    unfolding write new_client
    welcomed-sent = refl

    welcomed-known : welcomed.clients (zframe_strhex peer) ≡ some s.next_ptr
    unfolding write
    welcomed-known = rw (streq_refl (zframe_strhex peer))

    welcomed-memory : welcomed.memory s.next_ptr ≡ some (greeted C [] newcomer)
    unfolding write
    welcomed-memory = update_self in_hand.memory s.next_ptr (some (greeted C [] newcomer))

  -- Let a client be in its invariant, not terminated and in "start", with no identifier in its
  -- next message, its endpoint be one that can be connected to, and a broker be in its invariant
  -- and not know the client's routing id. Then the caller's CONNECT makes the client send frames
  -- on which the broker answers, to that client, frames on which the client signals SUCCESS with
  -- status 0. All three handlers end and return 0. After that the client is in its invariant, is
  -- not terminated and in "connected", and the broker is in its invariant and holds the client
  -- under its routing id, in "connected" and with the empty identifier; its patterns are the same.
  pub connect-arrives :
      (fuel : ℕ) (c : Client Hash) (endpoint : Str) (timeout : ℤ) (s : Server.Server Hash)
      (peer : Frame)
      → IsSafe C c
      → c.terminated ≡ false
      → c.state ≡ start_state
      → c.msgout.identifier ≡ none
      → zsock_connect endpoint ≡ true
      → Server.Invariant.IsSafe C s
      → s.clients (zframe_strhex peer) ≡ none
      → (c1 : Client Hash) × (t : Server.Server Hash) × (c2 : Client Hash) × (frames : List Frame)
        × (answer : List Frame) × (p : Server.Ptr) × (sc : Server.Client Hash)
        × (s_client_handle_pipe C
              (suc (suc fuel))
              (some (command_of C (Call.connect endpoint timeout)))
              c
            ≡ ok (true, c1))
        × (c1.sent ≡ c.sent ++ frames ∷ [])
        × (s_server_client_message C (suc (suc (suc fuel))) (some (peer ∷ frames)) s ≡ ok (true, t))
        × (t.sent ≡ s.sent ++ (peer ∷ answer) ∷ [])
        × (s_client_handle_protocol C (suc (suc fuel)) (some answer) c1 ≡ ok (true, c2))
        × (c2.signalled ≡ c.signalled ++ (codes "SUCCESS", print_int (pos 0) ∷ []) ∷ [])
        × (IsSafe C c2 × (c2.terminated ≡ false) × (c2.state ≡ connected_state))
        × Server.Invariant.IsSafe C t
        × (t.clients (zframe_strhex peer) ≡ some p)
        × (t.memory p ≡ some sc)
        × (sc.state ≡ Server.connected_state)
        × (sc.identifier ≡ some [])
        × (t.patterns ≡ s.patterns)
  unfolding status write
  connect-arrives fuel c endpoint timeout s peer safe running st anonymous reach broker unknown =
      let d = connecting C c endpoint timeout in
      let d-Safe = connecting-IsSafe C c safe endpoint timeout in
      let c1 = dialled C fuel d (ready C d d-Safe running) st in
      let (c2, heard, alive, g, good) =
        client-hears fuel c1 (dialled-IsSafe C fuel d d-Safe running st) running refl in
      (
        c1,
        welcomed fuel c s peer anonymous safe.no_headers broker unknown,
        c2,
        frames_of C hello (greeting c),
        reply_frames C hello_ok,
        s.next_ptr,
        _,
        handle_pipe-execute C c (suc (suc fuel)) (Call.connect endpoint timeout) connect_event d
              refl
            ∙ ap (status C)
                (execute-connect C fuel d (ready C d d-Safe running) st endpoint refl reach)
            ∙ ap (λ b. ok (not b, c1)) running,
        refl,
        broker-welcomes fuel c s peer anonymous safe.no_headers broker unknown,
        welcomed-sent fuel c s peer anonymous safe.no_headers broker unknown,
        heard,
        g.signalled,
        (good, alive, g.state),
        hello-Safe C fuel s.next_ptr
            (newcomer fuel c s peer anonymous safe.no_headers broker unknown)
            (in_hand fuel c s peer anonymous safe.no_headers broker unknown)
            (in_hand-Safe fuel c s peer anonymous safe.no_headers broker unknown)
            (in_hand-memory fuel c s peer anonymous safe.no_headers broker unknown) [],
        welcomed-known fuel c s peer anonymous safe.no_headers broker unknown,
        welcomed-memory fuel c s peer anonymous safe.no_headers broker unknown,
        refl,
        refl,
        refl,
      )
