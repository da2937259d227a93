-- ===== src/Server/Forward.antt =====
-- What a forward event does: one DELIVER to each subscriber, and nothing else.
use zccp.Base.{ℕ, suc, ◌≡◌, refl, ap, ◌∙◌, true, List, [], ◌∷◌, ◌++◌, Option, none, some, arith}
use zccp.Czmq.{Str, Frame, Czmq}
use zccp.Codec.{deliver, code, ZccpMsg, zccp_msg_new}
use zccp.Codec.Access.{
  zccp_msg_set_id, zccp_msg_set_sender, zccp_msg_set_address, zccp_msg_set_headers,
  zccp_msg_set_content,
}
use zccp.Codec.Encode.{zccp_msg_encode}
use zccp.Codec.Socket.{zccp_msg_send}
use zccp.Codec.Steps.{zccp_msg_encode_deliver, deliver_msg}
use zccp.Server.{
  Event, null_event, forward_event, connected_state, Ptr, Client, Server, ok, ◌>>=◌, or_fault,
}
use zccp.Server.Actions.{write, Action, send_reply, new_reply, get_content_to_publish}
use zccp.Server.Engine.{begin_round, run_state, run_connected, unless_deleted, s_client_execute}
use zccp.Server.Invariant.{IsIdle}
use zccp.Server.Memory.{
  read-write, write-write, unless_exception-write, send_reply-write, end_round-idle, loop-null,
  loop-round, execute-loop,
}
use mathlib.Core.Option

module _ (C : Czmq) where
  open C use {Hash, zhash_dup, zrex_matches}

  pub send-routed :
      (m : ZccpMsg Hash) (peer : Frame) (msg : List Frame)
      → m.routing_id ≡ some peer
      → zccp_msg_encode C (record m { routing_id = none }) ≡ some msg
      → zccp_msg_send C true m ≡ some (peer ∷ msg)
  unfolding zccp_msg_send
  send-routed m peer msg r e = rw (e, zccp_msg_send) (ground (arith, r))

  -- What the broker is to send on: sender, address, headers and content, encoded as a DELIVER.
  abbrev pub IsDelivery : Server Hash → List Frame → Type 0
  IsDelivery s frames =
      (i : Str) × (a : Str) × (s.sender ≡ some i)
      × (s.address ≡ some a)
      × (zccp_msg_encode_deliver C i a s.headers s.content ≡ some frames)

  -- The reply, once the fields are filled in.
  abbrev filled : Client Hash → Str → Str → Option Hash → Option (List Frame) → Client Hash
  filled c i a headers content = record c {
    reply =
        zccp_msg_set_content C
          (zccp_msg_set_headers C (zccp_msg_set_address C (zccp_msg_set_sender C c.reply i) a)
            (Option.map zhash_dup headers))
          content;
  }

  abbrev to_deliver : ZccpMsg Hash → Str → Str → Option Hash → Option (List Frame) → ZccpMsg Hash
  to_deliver r i a headers content =
      zccp_msg_set_id C
        (zccp_msg_set_content C
          (zccp_msg_set_headers C (zccp_msg_set_address C (zccp_msg_set_sender C r i) a)
            (Option.map zhash_dup headers))
          content)
        (code deliver)

  send-filled :
      (peer : Frame) (i a : Str) (headers : Option Hash) (content : Option (List Frame))
      (frames : List Frame)
      → zccp_msg_encode_deliver C i a headers content ≡ some frames
      → zccp_msg_send C true (to_deliver (new_reply C peer) i a headers content)
        ≡ some (peer ∷ frames)
  unfolding new_reply zccp_msg_new zccp_msg_set_id zccp_msg_set_content zccp_msg_set_headers
      zccp_msg_set_address zccp_msg_set_sender zccp_msg_encode_deliver deliver_msg
  send-filled peer i a headers content frames e =
      send-routed (to_deliver (new_reply C peer) i a headers content) peer frames refl e

  get_content-write :
      (q : Ptr) (c : Client Hash) (s : Server Hash) (i a : Str)
      → s.sender ≡ some i
      → s.address ≡ some a
      → get_content_to_publish C q (write C q c s)
        ≡ ok (write C q (filled c i a s.headers s.content) s)
  unfolding get_content_to_publish
  get_content-write q c s i a hi ha =
      rw (read-write C q c s, ◌>>=◌, ap or_fault hi, ap or_fault ha)
        (ap ok (write-write C q c (filled c i a s.headers s.content) s))

  -- A client after a DELIVER: a new reply, nothing pending, all else as before.
  abbrev pub served : Client Hash → Client Hash
  served c = record c {
    reply = new_reply C c.routing_id;
    event = forward_event;
    next_event = null_event;
    exception = null_event;
    wakeup_timer = 0;
  }

  pub served-IsIdle : (c : Client Hash) → IsIdle C c → IsIdle C (served c)
  served-IsIdle c h = record {
    emptied = h.emptied;
    fresh_reply = refl;
    no_alarm = refl;
    keyed = h.keyed;
    identified = h.identified;
  }

  -- The two actions of a forward event in the state "connected".
  run_forward :
      (send : Ptr → Event → Action C) (q : Ptr) (c : Client Hash) (s : Server Hash) (i a : Str)
      (frames : List Frame)
      → c.exception ≡ null_event
      → c.reply ≡ new_reply C c.routing_id
      → s.sender ≡ some i
      → s.address ≡ some a
      → zccp_msg_encode_deliver C i a s.headers s.content ≡ some frames
      → run_connected C send q forward_event (write C q c s)
        ≡ ok (
            write C q
              (record c { reply = new_reply C c.routing_id })
              (record s { sent = s.sent ++ (c.routing_id ∷ frames) ∷ [] }))
  unfolding run_connected
  run_forward send q c s i a frames x fresh hi ha enc =
      rw
        (
          unless_exception-write C q (get_content_to_publish C q) c s x,
          get_content-write q c s i a hi ha,
          ◌>>=◌,
          unless_exception-write C q (send_reply C q deliver) (filled c i a s.headers s.content) s
              x,
        )
        (send_reply-write C q deliver (filled c i a s.headers s.content) s (c.routing_id ∷ frames) (
          ap (λ r. zccp_msg_send C true (to_deliver r i a s.headers s.content)) fresh
          ∙ send-filled c.routing_id i a s.headers s.content frames enc))

  -- engine_send_event (client, forward_event): the subscriber gets the message, behind its routing
  -- id; its object is served, and nothing else changes.
  pub execute-forward :
      (fuel : ℕ) (q : Ptr) (c : Client Hash) (s : Server Hash) (frames : List Frame)
      → s.memory q ≡ some c
      → IsIdle C c
      → c.state ≡ connected_state
      → IsDelivery s frames
      → s_client_execute C (suc (suc fuel)) q forward_event s
        ≡ ok (write C q (served c) (record s { sent = s.sent ++ (c.routing_id ∷ frames) ∷ [] }))
  unfolding run_state begin_round unless_deleted
  execute-forward fuel q c s frames m h st (i, a, hi, ha, enc) =
      execute-loop C (suc (suc fuel)) q forward_event c s m h.no_alarm
      ∙ loop-round C (suc fuel) q (called c) s refl tt
      ∙ rw
          (
            ap
                (λ x.
                  run_state C (s_client_execute C (suc fuel)) q x forward_event
                    (write C q (begin_round C (called c)) s))
                st,
            run_forward (s_client_execute C (suc fuel)) q (begin_round C (called c)) s i a frames
                refl h.fresh_reply hi ha enc,
            ◌>>=◌,
            end_round-idle C q
                (record (begin_round C (called c)) { reply = new_reply C c.routing_id })
                (record s { sent = s.sent ++ (c.routing_id ∷ frames) ∷ [] }) h.emptied refl refl,
            ◌>>=◌,
          )
          (loop-null C fuel q (served c)
            (record s { sent = s.sent ++ (c.routing_id ∷ frames) ∷ [] }) refl)
    where
      called : Client Hash → Client Hash
      called c = record c { next_event = forward_event; wakeup_timer = 0 }
