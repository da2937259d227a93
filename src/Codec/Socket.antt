-- ===== src/Codec/Socket.antt =====
-- zccp_msg_recv and zccp_msg_send of zccp_msg.c, and the functions that encode or send a message
-- in one step. A socket is given by its type alone: does it answer ZMQ_ROUTER? What is sent is the
-- multipart message that the code hands to zmsg_send.
use zccp.Base.{Bool, true, false, List, [], ◌∷◌, Option, none, some}
use zccp.Czmq.{Frame, Czmq}
use zccp.Codec.{ZccpMsg}
use zccp.Codec.Dup.{zccp_msg_dup}
use zccp.Codec.Encode.{zccp_msg_encode}
use zccp.Codec.Decode.{zccp_msg_decode}

module _ (C : Czmq) where
  open C use {Hash}

  unfoldable pub set_routing : Option (ZccpMsg Hash) → Frame → Option (ZccpMsg Hash)
  set_routing none routing_id = none
  set_routing (some m) routing_id = some (record m { routing_id = some routing_id })

  -- A message from a router socket begins with the routing id, and needs one frame more.
  unfoldable pub zccp_msg_recv : Bool → Option (List Frame) → Option (ZccpMsg Hash)
  unfolding set_routing
  zccp_msg_recv router none = none
  zccp_msg_recv false (some msg) = zccp_msg_decode C (some msg)
  zccp_msg_recv true (some []) = none
  zccp_msg_recv true (some (routing_id ∷ [])) = none
  zccp_msg_recv true (some (routing_id ∷ frame ∷ msg)) =
      set_routing (zccp_msg_decode C (some (frame ∷ msg))) routing_id

  -- The message is what zmsg_recv_nowait gives, if one is waiting.
  unfoldable pub zccp_msg_recv_nowait : Bool → Option (List Frame) → Option (ZccpMsg Hash)
  unfolding set_routing
  zccp_msg_recv_nowait router none = none
  zccp_msg_recv_nowait false (some msg) = zccp_msg_decode C (some msg)
  zccp_msg_recv_nowait true (some []) = none
  zccp_msg_recv_nowait true (some (routing_id ∷ [])) = none
  zccp_msg_recv_nowait true (some (routing_id ∷ frame ∷ msg)) =
      set_routing (zccp_msg_decode C (some (frame ∷ msg))) routing_id

  prepend : Option Frame → List Frame → Option (List Frame)
  prepend none msg = none
  prepend (some routing_id) msg = some (routing_id ∷ msg)

  -- `none`: the process ends; for a router socket also by the assertion of a routing id.
  unfoldable pub zccp_msg_send : Bool → ZccpMsg Hash → Option (List Frame)
  unfolding prepend
  zccp_msg_send router m = elim (zccp_msg_encode C (record m { routing_id = none })) [
    | none ↦ none
    | some msg ↦ elim router [ true ↦ prepend m.routing_id msg | false ↦ some msg ]
  ]

  -- A message that was sent is gone; this sends a copy.
  unfoldable pub zccp_msg_send_again : Bool → ZccpMsg Hash → Option (List Frame)
  zccp_msg_send_again router m = elim (zccp_msg_dup C (some m)) [
    | none ↦ none
    | some copy ↦ zccp_msg_send router copy
  ]
