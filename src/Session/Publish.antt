-- ===== src/Session/Publish.antt =====
-- A PUBLISH from the publisher's call to what each subscriber's caller reads.
use zccp.Base.{
  ℕ, suc, ◌≡◌, refl, sym, ap, subst, ◌∙◌, true, false, List, [], ◌∷◌, ◌++◌, none, some, arith,
}
use zccp.Base.Results.{ok, ◌>>=◌}
use zccp.Czmq.{Str, Frame, Czmq}
use zccp.Codec.{publish, deliver, code, kind_of, kind_of-code, ZccpMsg, zccp_msg_new}
use zccp.Codec.Wire.Get.{IsText, c_string_self}
use zccp.Codec.Access.{
  zccp_msg_set_address, zccp_msg_set_content, zccp_msg_address, zccp_msg_content, zccp_msg_id,
}
use zccp.Codec.Encode.{message_field}
use zccp.Codec.Encode.Size.{items}
use zccp.Codec.Decode.RoundTrip.{IsString, received, decode-frames}
use zccp.Codec.Wires.{routed, recv_routed}
use zccp.Codec.Socket.{zccp_msg_recv}
use zccp.Client.{connected_state, publish_event, deliver_event, Client}
use zccp.Client.Actions.{codes}
use zccp.Client.Engine.{event_of}
use zccp.Client.Reactor.{s_client_handle_pipe, s_client_handle_protocol}
use zccp.Client.Protocol.{sends, delivers, Row, own, inherited, row, frames_of}
use zccp.Client.Invariant.{IsSafe, is_harmless}
use zccp.Client.Pipe.{Call, command_of, telling, telling-IsSafe}
use zccp.Client.Converse.{Went, call-Went, message-Went, holding}
use zccp.Client.Api.{Api, reply, returns, zccp_client_recv}
use zccp.Client.Replies.{zccp_client_recv-first}
use zccp.Server
use zccp.Server.Actions.{write}
use zccp.Server.Engine.{s_client_execute, s_protocol_event}
use zccp.Server.Reactor.{s_server_client_message}
use zccp.Server.Arrival.{IsPlain, execute-publish_arrives}
use zccp.Server.Publish.{recipients, deliveries, forwarded}
use zccp.Server.Publisher.{noted, done_publishing, recipients-Without, deliveries-update}
use zccp.Server.Handle.{called, called-Safe, timed}
use zccp.Server.Enroll.{asked, asked-memory, message-execute}

module _ (C : Czmq) where
  open C use {Hash, zframe_strhex, zsys_vprintf, vprintf_plain, print_int}

  -- The PUBLISH that the client sends.
  abbrev pub letter : Str → Str → Client Hash → ZccpMsg Hash
  letter a v c = record (telling C c a v).msgout { id = code publish; routing_id = none }

  letter-arrives :
      (a v : Str) (c : Client Hash) (peer : Frame)
      → IsPlain a
      → c.msgout.headers ≡ none
      → zccp_msg_recv C true (some (peer ∷ frames_of C publish (letter a v c)))
        ≡ some (routed C peer (received C publish (letter a v c)))
  unfolding zccp_msg_set_address zccp_msg_set_content items
  letter-arrives a v c peer (h, plain) no_headers =
      recv_routed C peer (frames_of C publish (letter a v c)) (received C publish (letter a v c)) (
        decode-frames C publish (letter a v c) (
          subst IsString (sym (vprintf_plain a plain)) h,
          rw (no_headers, items) (tt, omega arith),
        ))

  letter-address :
      (a v : Str) (c : Client Hash) (peer : Frame)
      → IsPlain a
      → zccp_msg_address C (routed C peer (received C publish (letter a v c))) ≡ some a
  unfolding received zccp_msg_set_address zccp_msg_set_content zccp_msg_address
  letter-address a v c peer (h, plain) = ap some (vprintf_plain a plain)

  letter-content :
      (a v : Str) (c : Client Hash) (peer : Frame)
      → zccp_msg_content C (routed C peer (received C publish (letter a v c))) ≡ some (v ∷ [])
  unfolding received zccp_msg_set_address zccp_msg_set_content zccp_msg_content message_field
  letter-content a v c peer = refl

  abbrev tells : Row
  tells = record { effect = sends publish; next = none; ends = false }

  abbrev reads : Row
  reads = record { effect = delivers; next = none; ends = false }

  -- The publisher's side.
  writer-tells :
      (fuel : ℕ) (w : Client Hash) (a v : Str)
      → IsSafe C w
      → w.terminated ≡ false
      → w.state ≡ connected_state
      → Went C
          (telling C w a v)
          tells
          []
          (s_client_handle_pipe C (suc (suc fuel)) (some (command_of C (Call.publish a v))) w)
  unfolding row own inherited zccp_msg_set_address zccp_msg_set_content
  writer-tells fuel w a v safe running st =
      call-Went C fuel (Call.publish a v) w (telling C w a v) publish_event tells [] refl
        (telling-IsSafe C w safe a v) running (λ h. cc) refl (ap (λ s. row s publish_event) st)
        (ap (λ s. is_harmless s (some tells)) st) refl refl

  -- A subscriber's side.
  reader-reads :
      (fuel : ℕ) (r : Client Hash) (i a v : Str) (frames : List Frame) (m : ZccpMsg Hash)
      → IsSafe C r
      → r.terminated ≡ false
      → r.state ≡ connected_state
      → zccp_msg_recv C false (some frames) ≡ some m
      → m.id ≡ code deliver
      → m.sender ≡ some i
      → m.address ≡ some a
      → m.content ≡ some (v ∷ [])
      → IsText v
      → Went C
          (holding C m r)
          reads
          (i ∷ a ∷ v ∷ [])
          (s_client_handle_protocol C (suc (suc fuel)) (some frames) r)
  unfolding row own inherited event_of
  reader-reads fuel r i a v frames m safe running st arrives number sender address content clean =
      message-Went C fuel frames m r deliver_event reads (i ∷ a ∷ v ∷ []) arrives
        (ap (λ n. event_of (kind_of n)) number ∙ ap event_of (kind_of-code deliver)) safe running
        (λ h. cc) refl (ap (λ s. row s deliver_event) st) (ap (λ s. is_harmless s (some reads)) st)
        refl
        (
          m,
          i,
          a,
          v,
          [],
          refl,
          sender,
          address,
          content,
          ap (λ x. i ∷ a ∷ x ∷ []) (sym (c_string_self v clean)),
        )

  module _ (fuel : ℕ) (w : Client Hash) (a v i : Str) (s : Server.Server Hash) (p : Server.Ptr)
      (sc : Server.Client Hash) (peer : Frame) (safe : IsSafe C w) (plain : IsPlain a)
      (plain_i : IsPlain i) (broker : Server.Invariant.IsSafe C s)
      (known : s.clients (zframe_strhex peer) ≡ some p) (m : s.memory p ≡ some sc)
      (joined : sc.state ≡ Server.connected_state) (named : sc.identifier ≡ some i) where
    abbrev msg : ZccpMsg Hash
    msg = routed C peer (received C publish (letter a v w))

    abbrev in_hand : Server.Server Hash
    in_hand = write C p (called C sc msg s.next_timer) (timed C p sc s)

    -- The broker that passed the message on.
    abbrev passed : List Frame → Server.Server Hash
    passed out = write C p (done_publishing C (called C sc msg s.next_timer)) (
        forwarded C out (recipients C p a in_hand.patterns)
          (noted C (called C sc msg s.next_timer) msg in_hand))

    broker-passes :
        (out : List Frame) × (n : ZccpMsg Hash) × (s_server_client_message C
            (suc (suc (suc fuel)))
            (some (peer ∷ frames_of C publish (letter a v w)))
            s
          ≡ ok (true, passed out))
        × (zccp_msg_recv C false (some out) ≡ some n)
        × (n.id ≡ code deliver)
        × (n.sender ≡ some i)
        × (n.address ≡ some a)
        × (n.content ≡ some (v ∷ []))
    unfolding s_protocol_event zccp_msg_id Server.Engine.event_of received kind_of zccp_msg_new code
    broker-passes =
        let frames = frames_of C publish (letter a v w) in
        let arrives = letter-arrives a v w peer plain safe.no_headers in
        let (out, n, run, back, number, sender, address, content, _) =
          execute-publish_arrives C fuel p (called C sc msg s.next_timer) in_hand msg i a (v ∷ [])
            (called-Safe C p msg sc s broker m)
            (asked-memory C fuel peer frames msg s p sc broker known m arrives refl) joined named
            refl (letter-address a v w peer plain) (letter-content a v w peer) plain_i plain in
        (
          out,
          n,
          message-execute C (suc (suc (suc fuel))) peer frames msg s p sc broker known m arrives
                refl
              ∙ ap (λ r. r >>= λ t. ok (true, t)) run,
          back,
          number,
          sender,
          address,
          content,
        )

    passed-sent :
        (out : List Frame)
        → (passed out).sent ≡ s.sent ++ deliveries C out s.memory (recipients C p a s.patterns)
    unfolding write
    passed-sent out =
        ap (λ l. s.sent ++ l)
          (deliveries-update C out (recipients C p a s.patterns) p s.memory
            (some (called C sc msg s.next_timer)) (recipients-Without C p a s.patterns))

    -- Let a publisher, a broker and a subscriber be in their invariants and in "connected",
    -- neither client be terminated, the broker hold the publisher under its routing id with an
    -- identifier, the address and the identifier be shorter than 256 characters, without a 0 or a
    -- percent sign, and the content be without a 0. Then the caller's PUBLISH makes the publisher
    -- send frames on which the broker sends one and the same message to every subscriber of a
    -- matching pattern but the publisher, once for each such pattern, and nothing else; a client
    -- that gets that message signals a MESSAGE with the identifier, the address and the content;
    -- and zccp_client_recv, with that reply next, returns this content. All handlers end and
    -- return 0.
    pub publish-arrives :
        (r : Client Hash) (api : Api)
        → w.terminated ≡ false
        → w.state ≡ connected_state
        → IsText v
        → IsSafe C r
        → r.terminated ≡ false
        → r.state ≡ connected_state
        → (w1 : Client Hash) × (t : Server.Server Hash) × (r1 : Client Hash) × (frames : List Frame)
          × (out : List Frame) × (s_client_handle_pipe C
                (suc (suc fuel))
                (some (command_of C (Call.publish a v)))
                w
              ≡ ok (true, w1))
          × (w1.sent ≡ w.sent ++ frames ∷ [])
          × (s_server_client_message C (suc (suc (suc fuel))) (some (peer ∷ frames)) s
              ≡ ok (true, t))
          × (t.sent ≡ s.sent ++ deliveries C out s.memory (recipients C p a s.patterns))
          × (s_client_handle_protocol C (suc (suc fuel)) (some out) r ≡ ok (true, r1))
          × (r1.signalled ≡ r.signalled ++ (codes "MESSAGE", i ∷ a ∷ v ∷ []) ∷ [])
          × (zccp_client_recv C
                (record api { arrivals = reply (codes "MESSAGE", i ∷ a ∷ v ∷ []) ∷ [] })
              ≡ returns (
                some v,
                record api { sender = some i; address = some a; content = some v; arrivals = [] },
              ))
    publish-arrives r api running st clean safe_r running_r st_r =
        let (w1, asked, _, f, _) = writer-tells fuel w a v safe running st in
        let (out, n, run, back, number, sender, address, content) = broker-passes in
        let (r1, heard, _, g, _) =
          reader-reads fuel r i a v out n safe_r running_r st_r back number sender address content
            clean in
        (
          w1,
          passed out,
          r1,
          frames_of C publish (letter a v w),
          out,
          asked,
          f.sent,
          run,
          passed-sent out,
          heard,
          g.signalled,
          zccp_client_recv-first C
              (record api { arrivals = reply (codes "MESSAGE", i ∷ a ∷ v ∷ []) ∷ [] }) [] i a v []
              tt refl,
        )
