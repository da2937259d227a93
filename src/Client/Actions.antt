-- ===== src/Client/Actions.antt =====
-- The actions of the client's state machine: those of zccp_client.c, and the sends and moves of the
-- engine.
pub use zccp.Czmq.{codes}
use zccp.Base.{
  ℤ, pos, negsuc, size_of_int, true, false, List, [], ◌∷◌, ◌++◌, Option, none, some, if◌then◌else◌,
}
use zccp.Base.Results.{Result, ok, ◌>>=◌, or_fault}
use zccp.Czmq.{Str, Frame, Czmq}
use zccp.Codec.{Kind, code, zccp_msg_new}
use zccp.Codec.Wire.Get.{c_string}
use zccp.Codec.Access.{zccp_msg_set_id, zccp_msg_content, zccp_msg_sender, zccp_msg_address}
use zccp.Codec.Socket.{zccp_msg_send}
use zccp.Client.{State, Event, error_event, Client, is_null}

module _ (C : Czmq) where
  open C use {Hash, zsock_connect, print_int}

  -- A piece of code that changes the client.
  abbrev pub Action : Type 0
  Action = Client Hash → Result (Client Hash)

  -- `if (!self->exception)` before each action.
  unfoldable pub unless_exception : Action → Action
  unless_exception action c = if is_null c.exception then action c else ok c

  unfoldable pub engine_set_next_event : Event → Client Hash → Client Hash
  engine_set_next_event e c = record c { next_event = e }

  unfoldable pub engine_set_exception : Event → Client Hash → Client Hash
  engine_set_exception e c = record c { exception = e }

  unfoldable pub engine_set_timeout : ℤ → Client Hash → Client Hash
  engine_set_timeout timeout c = record c { timeout = size_of_int timeout }

  -- `self->state = …`, and `self->terminated = true`.
  unfoldable pub set_state : State → Action
  set_state st c = ok (record c { state = st })

  unfoldable pub terminate : Action
  terminate c = ok (record c { terminated = true })

  -- "send …": number the message, send it, make a new one.
  unfoldable pub send : Kind → Action
  unfolding zccp_msg_set_id
  send k c = do
    msg ← or_fault (zccp_msg_send C false (zccp_msg_set_id C c.msgout (code k)))
    ok (record c { msgout = zccp_msg_new Hash 0; sent = c.sent ++ msg ∷ [] })

  -- zsock_send to the caller. A string that is NULL is a fault.
  unfoldable pub signal : Str → List Str → Action
  signal name rest c = ok (record c { signalled = c.signalled ++ (name, rest) ∷ [] })

  unfoldable pub connect_to_server_endpoint : Action
  unfolding engine_set_exception
  connect_to_server_endpoint c = do
    endpoint ← or_fault c.endpoint
    ok (
        if zsock_connect endpoint
        then record c { dealing = true }
        else engine_set_exception error_event c)

  unfoldable pub use_connect_timeout : Action
  unfolding engine_set_timeout
  use_connect_timeout c = ok (engine_set_timeout c.connect_timeout c)

  unfoldable pub use_presence_timeout : Action
  unfolding engine_set_timeout
  use_presence_timeout c = ok (engine_set_timeout c.presence_timeout c)

  unfoldable pub signal_success : Action
  unfolding signal
  signal_success = signal (codes "SUCCESS") (print_int (pos 0) ∷ [])

  unfoldable pub signal_server_not_present : Action
  unfolding signal
  signal_server_not_present =
      signal (codes "FAILURE") (print_int (negsuc 0) ∷ codes "Server is not reachable" ∷ [])

  -- What the client relies on of zmsg_popstr of CZMQ: the first frame of a message, taken off, as a
  -- C string; NULL if there is none.
  unfoldable pub zmsg_popstr : List Frame → Option Str × List Frame
  zmsg_popstr [] = (none, [])
  zmsg_popstr (frame ∷ frames) = (some (c_string frame), frames)

  unfoldable pub deliver_message_to_application : Action
  unfolding zccp_msg_content zccp_msg_sender zccp_msg_address zmsg_popstr signal
  deliver_message_to_application c = do
    msgin ← or_fault c.msgin
    frames ← or_fault (zccp_msg_content C msgin)
    let (popped, left) = zmsg_popstr frames
    sender ← or_fault (zccp_msg_sender C msgin)
    address ← or_fault (zccp_msg_address C msgin)
    content ← or_fault popped
    signal (codes "MESSAGE") (sender ∷ address ∷ content ∷ [])
        (record c { msgin = some (record msgin { content = some left }) })
