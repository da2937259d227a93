-- ===== src/Server/Protocol.antt =====
-- The broker's side of the protocol as a table, after zccp_server.xml: what a client in a state
-- gets for an event.
use zccp.Base.{◌≡◌, List, [], ◌∷◌, ◌++◌, none, some}
use zccp.Czmq.{Str, Frame, Czmq}
use zccp.Codec.{Kind, hello_ok, subscribe_ok, goodbye_ok, invalid, ZccpMsg}
use zccp.Codec.Access.{zccp_msg_address}
use zccp.Server.{
  State, start_state, connected_state, Event, hello_event, subscribe_event, publish_event,
  direct_event, goodbye_event, expired_event, Ptr, Client, Server,
}
use zccp.Server.Forward.{IsDelivery}
use zccp.Server.Publish.{recipients, deliveries}
use zccp.Server.Publisher.{noted}
use zccp.Server.Outcome.{reply_frames}

-- A reply, after which the client is in a state; no reply; a last message; the end without one; a
-- DELIVER to the subscribers.
pub data Answer : Type 0 where
  replies : Kind → State → Answer
  ignores vanishes forwards : Answer
  leaves : Kind → Answer

unfoldable pub answer : State → Event → Answer
answer start_state hello_event = replies hello_ok connected_state
answer connected_state subscribe_event = replies subscribe_ok connected_state
answer connected_state publish_event = forwards
answer connected_state direct_event = ignores
answer _ goodbye_event = leaves goodbye_ok
answer _ expired_event = vanishes
answer _ _ = leaves invalid

module _ (C : Czmq) (p : Ptr) where
  open C use {Hash}

  module _ (c : Client Hash) (s t : Server Hash) where
    abbrev Sends : List (List Frame) → Type 0
    Sends msgs = t.sent ≡ s.sent ++ msgs

    -- The client lives on in a state.
    abbrev Stays : State → Type 0
    Stays st = (d : Client Hash) × (t.memory p ≡ some d) × (d.state ≡ st)

    -- The object is freed, and the table has no entry for the client.
    abbrev Gone : Type 0
    Gone = (t.memory p ≡ none) × (t.clients c.hashkey ≡ none)

    -- The broker went from s to t, and did so by the answer.
    abbrev pub IsAnswered : Answer → Type 0
    IsAnswered (replies k st) = Sends ((c.routing_id ∷ reply_frames C k) ∷ []) × Stays st
    IsAnswered ignores = (t.sent ≡ s.sent) × Stays c.state
    IsAnswered (leaves k) = Sends ((c.routing_id ∷ reply_frames C k) ∷ []) × Gone
    IsAnswered vanishes = (t.sent ≡ s.sent) × Gone
    IsAnswered forwards =
        (r : ZccpMsg Hash) × (a : Str) × (frames : List Frame) × (c.request ≡ some r)
        × (zccp_msg_address C r ≡ some a)
        × IsDelivery C (noted C c r s) frames
        × Sends (deliveries C frames s.memory (recipients C p a s.patterns))
        × Stays c.state
