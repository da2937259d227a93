-- ===== src/Client/Method.antt =====
-- client_method of zccp_client.c: from an API command to an event.
use zccp.Base.{ℤ, pos, List, [], ◌∷◌, Option, none, some, if◌then◌else◌, streq}
use zccp.Base.Results.{Result, ok, stuck, ◌>>=◌, or_fault}
use zccp.Czmq.{Str, Czmq}
use zccp.Codec.Access.{zccp_msg_set_expression, zccp_msg_set_address, zccp_msg_set_content}
use zccp.Client.{Event, null_event, connect_event, subscribe_event, publish_event, Command, Client}
use zccp.Client.Actions.{codes}

module _ (C : Czmq) where
  open C use {Hash, atoi}

  -- What the handlers rely on of zsock_recv, for one 's' and one 'i' of its picture: NULL and 0
  -- where the message that it takes is too short.
  unfoldable pub recv_s : List Str → Option Str × List Str
  recv_s [] = (none, [])
  recv_s (part ∷ parts) = (some part, parts)

  unfoldable pub recv_i : List Str → ℤ × List Str
  recv_i [] = (pos 0, [])
  recv_i (part ∷ parts) = (atoi part, parts)

  -- The frames of the command behind its name. Where there are none, zsock_recv waits for another
  -- command, so that the handler does not end: `stuck`.
  unfoldable pub method_connect : List Str → Client Hash → Result (Event × Client Hash)
  unfolding recv_s recv_i
  method_connect [] c = stuck
  method_connect parts c =
      let (endpoint, rest) = recv_s parts in
      ok (connect_event, record c { endpoint = endpoint; connect_timeout = (recv_i rest).0 })

  -- The texts go to setters that take formats; a NULL there is a fault.
  unfoldable pub method_subscribe : List Str → Client Hash → Result (Event × Client Hash)
  unfolding recv_s zccp_msg_set_expression
  method_subscribe [] c = stuck
  method_subscribe parts c = do
    expression ← or_fault (recv_s parts).0
    ok (subscribe_event, record c { msgout = zccp_msg_set_expression C c.msgout expression })

  unfoldable pub method_publish : List Str → Client Hash → Result (Event × Client Hash)
  unfolding recv_s zccp_msg_set_address zccp_msg_set_content
  method_publish [] c = stuck
  method_publish parts c = do
    address ← or_fault (recv_s parts).0
    content ← or_fault (recv_s (recv_s parts).1).0
    ok (
      publish_event,
      record c {
        msgout =
            zccp_msg_set_content C (zccp_msg_set_address C c.msgout address) (some (content ∷ []));
      },
    )

  -- The tests of the method's name, in turn.
  unfoldable pub client_method : Command → Client Hash → Result (Event × Client Hash)
  unfolding method_connect method_subscribe method_publish
  client_method (method, parts) c =
      if streq method (codes "CONNECT")
      then method_connect parts c
      else if streq method (codes "SUBSCRIBE")
      then method_subscribe parts c
      else if streq method (codes "PUBLISH")
      then method_publish parts c
      else ok (null_event, c)
