-- ===== src/Server/Outcome.antt =====
-- How s_client_execute ends after one round: the client stays, or it is deleted. And what a reply
-- without fields sends.
use zccp.Base.{ℕ, suc, ◌≡◌, refl, ap, ◌∙◌, true, false, List, [], ◌∷◌, ◌++◌, some}
use zccp.Czmq.{Frame, Czmq}
use zccp.Codec.{Kind, code, kind_of-code, ZccpMsg, zccp_msg_new}
use zccp.Codec.Access.{zccp_msg_set_id, zccp_msg_set_routing_id}
use zccp.Codec.Encode.{content_frames}
use zccp.Codec.Encode.Size.{octets, zccp_msg_encode-octets}
use zccp.Codec.Socket.{zccp_msg_send}
use zccp.Server.{Event, null_event, terminate_event, Ptr, Client, Server, ok, ◌>>=◌, is_null}
use zccp.Server.Actions.{write, set_next_event, send_reply, new_reply}
use zccp.Server.Engine.{
  begin_round, run_state, loop, end_round, unless_deleted, s_client_execute, send_and_terminate,
  terminate,
}
use zccp.Server.Memory.{
  IsNamed, change-write, unless_exception-write, send_reply-write, end_round-idle,
  end_round-terminate, loop-null, loop-round, execute-loop,
}
use zccp.Server.Forward.{send-routed}
use zccp.Server.Leave.{without, delete_client-write}

module _ (C : Czmq) where
  open C use {Hash}

  -- A client as the actions of a round find it.
  abbrev pub begun : Event → Client Hash → Client Hash
  begun e c = record c {
    event = e;
    next_event = null_event;
    exception = null_event;
    wakeup_timer = 0;
  }

  abbrev pub idle_again : Client Hash → Client Hash
  idle_again d = record d { next_event = null_event }

  module _ (fuel : ℕ) (p : Ptr) (e : Event) (c d : Client Hash) (s t : Server Hash)
      (m : s.memory p ≡ some c) (w : c.wakeup_timer ≡ 0) (event : is_null e ≡ false)
      (named : IsNamed C e s.verbose)
      (run : run_state C (s_client_execute C (suc fuel)) p c.state e (write C p (begun e c) s)
        ≡ ok (write C p d t))
      (x : d.exception ≡ null_event) where
    start :
        s_client_execute C (suc (suc fuel)) p e s
        ≡ (ok (write C p d t) >>= end_round C p >>= unless_deleted C (loop C (suc fuel) p))
    unfolding begin_round
    start =
        execute-loop C (suc (suc fuel)) p e c s m w
        ∙ loop-round C (suc fuel) p (record c { next_event = e; wakeup_timer = 0 }) s event named
        ∙ ap (λ r. r >>= end_round C p >>= unless_deleted C (loop C (suc fuel) p)) run

    pub execute-idle :
        d.mailbox ≡ []
        → d.next_event ≡ null_event
        → s_client_execute C (suc (suc fuel)) p e s ≡ ok (write C p (idle_again d) t)
    unfolding unless_deleted
    execute-idle hm hn =
        start
        ∙ rw (end_round-idle C p d t hm x hn, ◌>>=◌) (loop-null C fuel p (idle_again d) t refl)

    pub execute-terminate :
        d.next_event ≡ terminate_event
        → t.clients d.hashkey ≡ some p
        → s_client_execute C (suc (suc fuel)) p e s ≡ ok (without C p d t)
    unfolding unless_deleted
    execute-terminate hn owned =
        start ∙ rw (end_round-terminate C p d t x hn, delete_client-write C p d t owned, ◌>>=◌)

  -- The frames of a message without fields, and the broker after it was sent.
  abbrev pub empty_msg : Kind → ZccpMsg Hash
  empty_msg k = zccp_msg_new Hash (code k)

  abbrev pub reply_frames : Kind → List Frame
  reply_frames k = octets C k (empty_msg k) ∷ content_frames C k (empty_msg k)

  abbrev pub replied : Kind → Client Hash → Server Hash → Server Hash
  replied k c s = record s { sent = s.sent ++ (c.routing_id ∷ reply_frames k) ∷ [] }

  abbrev pub renewed : Client Hash → Client Hash
  renewed c = record c { reply = new_reply C c.routing_id }

  send-empty :
      (k : Kind) (peer : Frame)
      → zccp_msg_send C true (zccp_msg_set_id C (new_reply C peer) (code k))
        ≡ some (peer ∷ reply_frames k)
  unfolding new_reply zccp_msg_new zccp_msg_set_id zccp_msg_set_routing_id
  send-empty k peer =
      send-routed C (zccp_msg_set_id C (new_reply C peer) (code k)) peer (reply_frames k) refl
        (zccp_msg_encode-octets C (empty_msg k) k (kind_of-code k) (λ h. refl))

  pub reply-write :
      (p : Ptr) (k : Kind) (c : Client Hash) (s : Server Hash)
      → c.reply ≡ new_reply C c.routing_id
      → send_reply C p k (write C p c s) ≡ ok (write C p (renewed c) (replied k c s))
  reply-write p k c s fresh = send_reply-write C p k c s (c.routing_id ∷ reply_frames k) (
      ap (λ r. zccp_msg_send C true (zccp_msg_set_id C r (code k))) fresh
      ∙ send-empty k c.routing_id)

  -- A client told to end.
  abbrev pub ending : Client Hash → Client Hash
  ending c = record c { next_event = terminate_event }

  pub terminate-write :
      (p : Ptr) (c : Client Hash) (s : Server Hash)
      → c.exception ≡ null_event
      → terminate C p (write C p c s) ≡ ok (write C p (ending c) s)
  unfolding terminate set_next_event
  terminate-write p c s x =
      unless_exception-write C p (set_next_event C p terminate_event) c s x
      ∙ change-write C p ending c s

  pub send_and_terminate-write :
      (p : Ptr) (k : Kind) (c : Client Hash) (s : Server Hash)
      → c.exception ≡ null_event
      → c.reply ≡ new_reply C c.routing_id
      → send_and_terminate C p k (write C p c s)
        ≡ ok (write C p (ending (renewed c)) (replied k c s))
  unfolding send_and_terminate terminate
  send_and_terminate-write p k c s x fresh =
      rw (unless_exception-write C p (send_reply C p k) c s x, reply-write p k c s fresh, ◌>>=◌)
        (terminate-write p (renewed c) (replied k c s) x)
