-- ===== src/Session/Subscribe.antt =====
-- A subscription from the caller's call to the broker's patterns and back.
use zccp.Base.{
  ℕ, suc, pos, ◌≡◌, refl, sym, ap, subst, ◌∙◌, true, false, List, [], ◌∷◌, ◌++◌, append-nil, none,
  some, streq, ◌==◌, ◌&&◌, ◌||◌, arith,
}
use zccp.Base.Results.{ok}
use zccp.Czmq.{Str, Frame, Czmq}
use zccp.Codec.{subscribe, subscribe_ok, code, kind_of, ZccpMsg, zccp_msg_new}
use zccp.Codec.Access.{zccp_msg_set_expression}
use zccp.Codec.Encode.Size.{items}
use zccp.Codec.Decode.RoundTrip.{IsString, received, decode-frames}
use zccp.Codec.Wires.{routed, recv_routed}
use zccp.Codec.Socket.{zccp_msg_recv}
use zccp.Client.{connected_state, subscribing_state, subscribe_event, subscribe_ok_event, Client}
use zccp.Client.Actions.{codes}
use zccp.Client.Engine.{event_of}
use zccp.Client.Reactor.{s_client_handle_pipe, s_client_handle_protocol}
use zccp.Client.Protocol.{sends, succeeds, Row, own, inherited, row, frames_of}
use zccp.Client.Invariant.{IsSafe, is_harmless}
use zccp.Client.Pipe.{Call, command_of, asking, asking-IsSafe}
use zccp.Client.Converse.{Went, call-Went, message-Went, holding}
use zccp.Server
use zccp.Server.Reactor.{s_server_client_message}
use zccp.Server.Arrival.{IsPlain}
use zccp.Server.Outcome.{reply_frames, empty_msg}
use zccp.Server.Subscribers.{is_subscribed, is_subscribed-store}
use zccp.Server.Enroll.{enrolled, message-enrolled, enrolled-sent, enrolled-patterns}

module _ (C : Czmq) where
  open C use {Hash, zframe_strhex, zsys_vprintf, vprintf_plain, print_int}

  -- The SUBSCRIBE that the client sends for an expression.
  abbrev pub request : Str → Client Hash → ZccpMsg Hash
  request x c = record (zccp_msg_set_expression C c.msgout x) {
    id = code subscribe;
    routing_id = none;
  }

  -- The broker reads the expression.
  request-arrives :
      (x : Str) (c : Client Hash) (peer : Frame)
      → IsPlain x
      → c.msgout.headers ≡ none
      → zccp_msg_recv C true (some (peer ∷ frames_of C subscribe (request x c)))
        ≡ some (routed C peer (received C subscribe (request x c)))
  unfolding zccp_msg_set_expression items
  request-arrives x c peer (h, plain) no_headers =
      recv_routed C peer (frames_of C subscribe (request x c)) (received C subscribe (request x c))
        (decode-frames C subscribe (request x c) (
          subst IsString (sym (vprintf_plain x plain)) h,
          rw (no_headers, items) (tt, omega arith),
        ))

  request-expression :
      (x : Str) (c : Client Hash)
      → IsPlain x
      → (received C subscribe (request x c)).expression ≡ some x
  unfolding received zccp_msg_set_expression
  request-expression x c (h, plain) = ap some (vprintf_plain x plain)

  answer-arrives :
      zccp_msg_recv C false (some (reply_frames C subscribe_ok))
      ≡ some (received C subscribe_ok (empty_msg C subscribe_ok))
  unfolding zccp_msg_recv
  answer-arrives = decode-frames C subscribe_ok (empty_msg C subscribe_ok) tt

  abbrev asks : Row
  asks = record { effect = sends subscribe; next = some subscribing_state; ends = false }

  abbrev hears : Row
  hears = record { effect = succeeds; next = some connected_state; ends = false }

  pub client-asks :
      (fuel : ℕ) (c : Client Hash) (x : Str)
      → IsSafe C c
      → c.terminated ≡ false
      → c.state ≡ connected_state
      → Went C
          (asking C c x)
          asks
          []
          (s_client_handle_pipe C (suc (suc fuel)) (some (command_of C (Call.subscribe x))) c)
  unfolding row own inherited
  client-asks fuel c x safe running st =
      call-Went C fuel (Call.subscribe x) c (asking C c x) subscribe_event asks [] refl
        (asking-IsSafe C c safe x) running (λ h. cc) refl (ap (λ s. row s subscribe_event) st)
        (ap (λ s. is_harmless s (some asks)) st) refl refl

  module _ (fuel : ℕ) (c : Client Hash) (x : Str) (safe : IsSafe C c)
      (running : c.terminated ≡ false) (st : c.state ≡ connected_state) (plain : IsPlain x) where
    client-hears :
        (d : Client Hash)
        → IsSafe C d
        → d.terminated ≡ false
        → d.state ≡ subscribing_state
        → Went C
            (holding C (received C subscribe_ok (empty_msg C subscribe_ok)) d)
            hears
            []
            (s_client_handle_protocol C (suc (suc fuel)) (some (reply_frames C subscribe_ok)) d)
    unfolding row own inherited event_of received kind_of zccp_msg_new code
    client-hears d good alive sub =
        message-Went C fuel (reply_frames C subscribe_ok)
          (received C subscribe_ok (empty_msg C subscribe_ok)) d subscribe_ok_event hears []
          answer-arrives refl good alive (λ h. cc) refl (ap (λ s. row s subscribe_ok_event) sub)
          (ap (λ s. is_harmless s (some hears)) sub) refl refl

    -- Let a client and a broker be in their invariants, the client not be terminated, the broker
    -- hold the client under its routing id, both be in "connected", and the expression be shorter
    -- than 256 characters, without a 0 or a percent sign. Then the caller's SUBSCRIBE makes the
    -- client send frames on which the broker answers, to that client, frames on which the client
    -- signals SUCCESS with status 0 and is in "connected" again. All three handlers end and return
    -- 0. After that exactly this client is subscribed under exactly this expression in addition to
    -- what was subscribed before.
    pub subscribe-arrives :
        (s : Server.Server Hash) (p : Server.Ptr) (sc : Server.Client Hash) (peer : Frame)
        (expression : Str) (q : Server.Ptr)
        → Server.Invariant.IsSafe C s
        → s.clients (zframe_strhex peer) ≡ some p
        → s.memory p ≡ some sc
        → sc.state ≡ Server.connected_state
        → (c1 : Client Hash) × (t : Server.Server Hash) × (c2 : Client Hash) × (frames : List Frame)
          × (answer : List Frame) × (s_client_handle_pipe C
                (suc (suc fuel))
                (some (command_of C (Call.subscribe x)))
                c
              ≡ ok (true, c1))
          × (c1.sent ≡ c.sent ++ frames ∷ [])
          × (s_server_client_message C (suc (suc (suc fuel))) (some (peer ∷ frames)) s
              ≡ ok (true, t))
          × (t.sent ≡ s.sent ++ (peer ∷ answer) ∷ [])
          × (s_client_handle_protocol C (suc (suc fuel)) (some answer) c1 ≡ ok (true, c2))
          × (c2.signalled ≡ c.signalled ++ (codes "SUCCESS", print_int (pos 0) ∷ []) ∷ [])
          × (c2.state ≡ connected_state)
          × (is_subscribed expression q t.patterns
              ≡ ((streq x expression && (p == q)) || is_subscribed expression q s.patterns))
    unfolding received kind_of zccp_msg_new code
    subscribe-arrives s p sc peer expression q broker known m joined =
        let (c1, called, alive, f, good) = client-asks fuel c x safe running st in
        let (c2, heard, _, g, _) = client-hears c1 good alive f.state in
        let frames = frames_of C subscribe (request x c) in
        let msg = routed C peer (received C subscribe (request x c)) in
        let arrives = request-arrives x c peer plain safe.no_headers in
        let t =
          enrolled C fuel peer frames msg s p sc x broker known m joined arrives refl refl
            (request-expression x c plain) in
        (
          c1,
          t,
          c2,
          frames,
          reply_frames C subscribe_ok,
          called,
          f.sent,
          message-enrolled C fuel peer frames msg s p sc x broker known m joined arrives refl refl
              (request-expression x c plain),
          enrolled-sent C fuel peer frames msg s p sc x broker known m joined arrives refl refl
              (request-expression x c plain),
          heard,
          g.signalled
              ∙ ap (λ l. l ++ (codes "SUCCESS", print_int (pos 0) ∷ []) ∷ [])
                  (f.signalled ∙ append-nil c.signalled),
          g.state,
          ap (is_subscribed expression q) (
                enrolled-patterns C fuel peer frames msg s p sc x broker known m joined arrives refl
                  refl (request-expression x c plain))
              ∙ is_subscribed-store expression x q p s.patterns,
        )
