-- ===== src/Codec/Steps.antt =====
-- The functions of zccp_msg.c that encode or send a message in one step. Headers and content are
-- copied; NULL is `none`.
use zccp.Base.{Bool, List, Option}
use zccp.Czmq.{Str, Frame, Czmq}
use zccp.Codec.{
  hello, hello_ok, subscribe, subscribe_ok, publish, direct, deliver, goodbye, goodbye_ok, ping,
  ping_ok, invalid, code, ZccpMsg, zccp_msg_new,
}
use zccp.Codec.Access.{
  zccp_msg_set_identifier, zccp_msg_set_expression, zccp_msg_set_address, zccp_msg_set_sender,
  zccp_msg_set_headers, zccp_msg_set_content,
}
use zccp.Codec.Encode.{zccp_msg_encode}
use zccp.Codec.Socket.{zccp_msg_send}
use mathlib.Core.Option

module _ (C : Czmq) where
  open C use {Hash, zhash_dup}

  -- The object that both the encoder and the sender of a message build.
  unfoldable pub hello_msg : Str → Option Hash → ZccpMsg Hash
  hello_msg identifier headers =
      zccp_msg_set_headers C (zccp_msg_set_identifier C (zccp_msg_new Hash (code hello)) identifier)
        (Option.map zhash_dup headers)

  unfoldable pub hello_ok_msg : Option Hash → ZccpMsg Hash
  hello_ok_msg headers =
      zccp_msg_set_headers C (zccp_msg_new Hash (code hello_ok)) (Option.map zhash_dup headers)

  unfoldable pub subscribe_msg : Str → Option Hash → ZccpMsg Hash
  subscribe_msg expression headers =
      zccp_msg_set_headers C
        (zccp_msg_set_expression C (zccp_msg_new Hash (code subscribe)) expression)
        (Option.map zhash_dup headers)

  unfoldable pub subscribe_ok_msg : ZccpMsg Hash
  subscribe_ok_msg = zccp_msg_new Hash (code subscribe_ok)

  unfoldable pub publish_msg : Str → Option Hash → Option (List Frame) → ZccpMsg Hash
  publish_msg address headers content =
      zccp_msg_set_content C
        (zccp_msg_set_headers C (zccp_msg_set_address C (zccp_msg_new Hash (code publish)) address)
          (Option.map zhash_dup headers))
        content

  unfoldable pub direct_msg : Str → Option Hash → Option (List Frame) → ZccpMsg Hash
  direct_msg address headers content =
      zccp_msg_set_content C
        (zccp_msg_set_headers C (zccp_msg_set_address C (zccp_msg_new Hash (code direct)) address)
          (Option.map zhash_dup headers))
        content

  unfoldable pub deliver_msg : Str → Str → Option Hash → Option (List Frame) → ZccpMsg Hash
  deliver_msg sender address headers content =
      zccp_msg_set_content C
        (zccp_msg_set_headers C
          (zccp_msg_set_address C (zccp_msg_set_sender C (zccp_msg_new Hash (code deliver)) sender)
            address)
          (Option.map zhash_dup headers))
        content

  unfoldable pub goodbye_msg : ZccpMsg Hash
  goodbye_msg = zccp_msg_new Hash (code goodbye)

  unfoldable pub goodbye_ok_msg : Option Hash → ZccpMsg Hash
  goodbye_ok_msg headers =
      zccp_msg_set_headers C (zccp_msg_new Hash (code goodbye_ok)) (Option.map zhash_dup headers)

  unfoldable pub ping_msg : ZccpMsg Hash
  ping_msg = zccp_msg_new Hash (code ping)

  unfoldable pub ping_ok_msg : ZccpMsg Hash
  ping_ok_msg = zccp_msg_new Hash (code ping_ok)

  unfoldable pub invalid_msg : ZccpMsg Hash
  invalid_msg = zccp_msg_new Hash (code invalid)

  unfoldable pub zccp_msg_encode_hello : Str → Option Hash → Option (List Frame)
  unfolding hello_msg
  zccp_msg_encode_hello identifier headers = zccp_msg_encode C (hello_msg identifier headers)

  unfoldable pub zccp_msg_encode_hello_ok : Option Hash → Option (List Frame)
  unfolding hello_ok_msg
  zccp_msg_encode_hello_ok headers = zccp_msg_encode C (hello_ok_msg headers)

  unfoldable pub zccp_msg_encode_subscribe : Str → Option Hash → Option (List Frame)
  unfolding subscribe_msg
  zccp_msg_encode_subscribe expression headers =
      zccp_msg_encode C (subscribe_msg expression headers)

  unfoldable pub zccp_msg_encode_subscribe_ok : Option (List Frame)
  unfolding subscribe_ok_msg
  zccp_msg_encode_subscribe_ok = zccp_msg_encode C subscribe_ok_msg

  unfoldable pub zccp_msg_encode_publish :
      Str → Option Hash → Option (List Frame) → Option (List Frame)
  unfolding publish_msg
  zccp_msg_encode_publish address headers content =
      zccp_msg_encode C (publish_msg address headers content)

  unfoldable pub zccp_msg_encode_direct :
      Str → Option Hash → Option (List Frame) → Option (List Frame)
  unfolding direct_msg
  zccp_msg_encode_direct address headers content =
      zccp_msg_encode C (direct_msg address headers content)

  unfoldable pub zccp_msg_encode_deliver :
      Str → Str → Option Hash → Option (List Frame) → Option (List Frame)
  unfolding deliver_msg
  zccp_msg_encode_deliver sender address headers content =
      zccp_msg_encode C (deliver_msg sender address headers content)

  unfoldable pub zccp_msg_encode_goodbye : Option (List Frame)
  unfolding goodbye_msg
  zccp_msg_encode_goodbye = zccp_msg_encode C goodbye_msg

  unfoldable pub zccp_msg_encode_goodbye_ok : Option Hash → Option (List Frame)
  unfolding goodbye_ok_msg
  zccp_msg_encode_goodbye_ok headers = zccp_msg_encode C (goodbye_ok_msg headers)

  unfoldable pub zccp_msg_encode_ping : Option (List Frame)
  unfolding ping_msg
  zccp_msg_encode_ping = zccp_msg_encode C ping_msg

  unfoldable pub zccp_msg_encode_ping_ok : Option (List Frame)
  unfolding ping_ok_msg
  zccp_msg_encode_ping_ok = zccp_msg_encode C ping_ok_msg

  unfoldable pub zccp_msg_encode_invalid : Option (List Frame)
  unfolding invalid_msg
  zccp_msg_encode_invalid = zccp_msg_encode C invalid_msg

  unfoldable pub zccp_msg_send_hello : Bool → Str → Option Hash → Option (List Frame)
  unfolding hello_msg
  zccp_msg_send_hello output identifier headers =
      zccp_msg_send C output (hello_msg identifier headers)

  unfoldable pub zccp_msg_send_hello_ok : Bool → Option Hash → Option (List Frame)
  unfolding hello_ok_msg
  zccp_msg_send_hello_ok output headers = zccp_msg_send C output (hello_ok_msg headers)

  unfoldable pub zccp_msg_send_subscribe : Bool → Str → Option Hash → Option (List Frame)
  unfolding subscribe_msg
  zccp_msg_send_subscribe output expression headers =
      zccp_msg_send C output (subscribe_msg expression headers)

  unfoldable pub zccp_msg_send_subscribe_ok : Bool → Option (List Frame)
  unfolding subscribe_ok_msg
  zccp_msg_send_subscribe_ok output = zccp_msg_send C output subscribe_ok_msg

  unfoldable pub zccp_msg_send_publish :
      Bool → Str → Option Hash → Option (List Frame) → Option (List Frame)
  unfolding publish_msg
  zccp_msg_send_publish output address headers content =
      zccp_msg_send C output (publish_msg address headers content)

  unfoldable pub zccp_msg_send_direct :
      Bool → Str → Option Hash → Option (List Frame) → Option (List Frame)
  unfolding direct_msg
  zccp_msg_send_direct output address headers content =
      zccp_msg_send C output (direct_msg address headers content)

  unfoldable pub zccp_msg_send_deliver :
      Bool → Str → Str → Option Hash → Option (List Frame) → Option (List Frame)
  unfolding deliver_msg
  zccp_msg_send_deliver output sender address headers content =
      zccp_msg_send C output (deliver_msg sender address headers content)

  unfoldable pub zccp_msg_send_goodbye : Bool → Option (List Frame)
  unfolding goodbye_msg
  zccp_msg_send_goodbye output = zccp_msg_send C output goodbye_msg

  unfoldable pub zccp_msg_send_goodbye_ok : Bool → Option Hash → Option (List Frame)
  unfolding goodbye_ok_msg
  zccp_msg_send_goodbye_ok output headers = zccp_msg_send C output (goodbye_ok_msg headers)

  unfoldable pub zccp_msg_send_ping : Bool → Option (List Frame)
  unfolding ping_msg
  zccp_msg_send_ping output = zccp_msg_send C output ping_msg

  unfoldable pub zccp_msg_send_ping_ok : Bool → Option (List Frame)
  unfolding ping_ok_msg
  zccp_msg_send_ping_ok output = zccp_msg_send C output ping_ok_msg

  unfoldable pub zccp_msg_send_invalid : Bool → Option (List Frame)
  unfolding invalid_msg
  zccp_msg_send_invalid output = zccp_msg_send C output invalid_msg
