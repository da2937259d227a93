-- ===== src/Server/Enroll.antt =====
-- A SUBSCRIBE that comes through the router socket from a client in the table.
use zccp.Base.{ℕ, suc, ◌≡◌, refl, sym, ap, ◌∙◌, true, List, [], ◌∷◌, ◌++◌, some}
use zccp.Czmq.{Str, Frame, Czmq}
use zccp.Codec.{subscribe, subscribe_ok, kind_of, ZccpMsg}
use zccp.Codec.Access.{zccp_msg_routing_id, zccp_msg_id, zccp_msg_expression}
use zccp.Codec.Socket.{zccp_msg_recv}
use zccp.Server.{connected_state, Ptr, Client, Server, ok, ◌>>=◌, or_fault}
use zccp.Server.Actions.{write}
use zccp.Server.Patterns.{store}
use zccp.Server.Engine.{event_of, s_protocol_event, s_client_execute}
use zccp.Server.Reactor.{find_client, s_server_client_message}
use zccp.Server.Invariant.{IsSafe}
use zccp.Server.Memory.{update_self}
use zccp.Server.Outcome.{replied, reply_frames}
use zccp.Server.Join.{same_client, find_client-old}
use zccp.Server.Handle.{timed, called, called-Safe, accept_message-write}
use zccp.Server.Admit.{enlisted, confirmed, execute-subscribe, subscribe-Safe}

module _ (C : Czmq) where
  open C use {Hash, zframe_strhex, strhex_injective}

  -- A message that was received is handled as an event at the client of its routing id.
  pub message-found :
      (fuel : ℕ) (peer : Frame) (frames : List Frame) (msg : ZccpMsg Hash) (s t : Server Hash)
      (p : Ptr) (c : Client Hash)
      → find_client C peer s ≡ (p, t)
      → IsSafe C t
      → t.memory p ≡ some c
      → zccp_msg_recv C true (some (peer ∷ frames)) ≡ some msg
      → msg.routing_id ≡ some peer
      → s_server_client_message C fuel (some (peer ∷ frames)) s ≡ (
          s_client_execute C fuel p
            (s_protocol_event C msg)
            (write C p (called C c msg t.next_timer) (timed C p c t))
          >>= λ u. ok (true, u))
  unfolding s_server_client_message zccp_msg_routing_id
  message-found fuel peer frames msg s t p c found safe m arrives from =
      rw (arrives, s_server_client_message, ap or_fault from, ◌>>=◌)
        (ap (λ r. r >>= λ u. ok (true, u))
          (accept_message-write C fuel peer msg s t p c found m (safe.idle p c m).emptied))

  module _ (fuel : ℕ) (peer : Frame) (frames : List Frame) (msg : ZccpMsg Hash) (s : Server Hash)
      (p : Ptr) (c : Client Hash) (safe : IsSafe C s)
      (known : s.clients (zframe_strhex peer) ≡ some p) (m : s.memory p ≡ some c)
      (arrives : zccp_msg_recv C true (some (peer ∷ frames)) ≡ some msg)
      (from : msg.routing_id ≡ some peer) where
    -- The client with the message as its request, and the broker with its timer set anew.
    abbrev pub asking : Client Hash
    asking = called C c msg s.next_timer

    abbrev pub asked : Server Hash
    asked = write C p asking (timed C p c s)

    pub asked-Safe : IsSafe C asked
    asked-Safe = called-Safe C p msg c s safe m

    pub asked-memory : asked.memory p ≡ some asking
    unfolding write
    asked-memory = update_self s.memory p (some asking)

    pub message-execute :
        s_server_client_message C fuel (some (peer ∷ frames)) s
        ≡ (s_client_execute C fuel p (s_protocol_event C msg) asked >>= λ t. ok (true, t))
    message-execute =
        message-found fuel peer frames msg s s p c (find_client-old C peer s p known) safe m arrives
          from

    -- The routing id of the client in the table is the one that its key is made of.
    pub routing-peer : c.routing_id ≡ peer
    routing-peer =
        let (d, n, key) = safe.live (zframe_strhex peer) p known in
        strhex_injective c.routing_id peer (
          sym (safe.idle p c m).keyed
          ∙ ap (λ (x : Client Hash). x.hashkey) (same_client c d (sym m ∙ n))
          ∙ key)

  module _ (fuel : ℕ) (peer : Frame) (frames : List Frame) (msg : ZccpMsg Hash) (s : Server Hash)
      (p : Ptr) (c : Client Hash) (x : Str) (safe : IsSafe C s)
      (known : s.clients (zframe_strhex peer) ≡ some p) (m : s.memory p ≡ some c)
      (st : c.state ≡ connected_state)
      (arrives : zccp_msg_recv C true (some (peer ∷ frames)) ≡ some msg)
      (from : msg.routing_id ≡ some peer) (kind : kind_of msg.id ≡ some subscribe)
      (text : msg.expression ≡ some x) where
    -- The broker that answered SUBSCRIBE-OK.
    abbrev pub enrolled : Server Hash
    enrolled = write C p (confirmed C (called C c msg s.next_timer)) (
        replied C subscribe_ok c
          (enlisted C p x (write C p (called C c msg s.next_timer) (timed C p c s))))

    pub message-enrolled :
        s_server_client_message C (suc (suc (suc fuel))) (some (peer ∷ frames)) s
        ≡ ok (true, enrolled)
    unfolding s_protocol_event zccp_msg_id event_of zccp_msg_expression
    message-enrolled =
        message-execute (suc (suc (suc fuel))) peer frames msg s p c safe known m arrives from
        ∙ ap
            (λ k.
              s_client_execute C (suc (suc (suc fuel))) p (event_of k)
                (asked (suc fuel) peer frames msg s p c safe known m arrives from)
              >>= λ t. ok (true, t))
            kind
        ∙ ap (λ r. r >>= λ t. ok (true, t))
            (execute-subscribe C fuel p (called C c msg s.next_timer)
              (write C p (called C c msg s.next_timer) (timed C p c s))
              (called-Safe C p msg c s safe m)
              (asked-memory fuel peer frames msg s p c safe known m arrives from) msg x st refl
              text)

    pub enrolled-Safe : IsSafe C enrolled
    enrolled-Safe =
        subscribe-Safe C fuel p (called C c msg s.next_timer)
          (write C p (called C c msg s.next_timer) (timed C p c s)) (called-Safe C p msg c s safe m)
          (asked-memory fuel peer frames msg s p c safe known m arrives from) x st

    pub enrolled-sent : enrolled.sent ≡ s.sent ++ (peer ∷ reply_frames C subscribe_ok) ∷ []
    unfolding write
    enrolled-sent =
        ap (λ r. s.sent ++ (r ∷ reply_frames C subscribe_ok) ∷ [])
          (routing-peer fuel peer frames msg s p c safe known m arrives from)

    pub enrolled-patterns : enrolled.patterns ≡ store p x s.patterns
    unfolding write
    enrolled-patterns = refl
