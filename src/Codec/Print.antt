-- ===== src/Codec/Print.antt =====
-- zccp_msg_print of zccp_msg.c: the lines that it hands to zsys_debug, in turn. A format with "%s"
-- in it is the text around the string.
pub mod Read
pub mod RoundTrip
use zccp.Base.{List, [], ◌∷◌, ◌++◌, Option, none, some}
use zccp.Czmq.{Str, codes, Frame, Czmq}
use zccp.Codec.{
  Kind, hello, hello_ok, subscribe, subscribe_ok, publish, direct, deliver, goodbye, goodbye_ok,
  ping, ping_ok, invalid, kind_of, ZccpMsg,
}

-- A string field, in quotes if it is there.
unfoldable pub text_line : Str → Option Str → Str
text_line name none = name ++ codes "="
text_line name (some s) = name ++ (codes "='" ++ (s ++ codes "'"))

unfoldable pub item_lines : List (Str × Str) → List Str
item_lines [] = []
item_lines ((key, item) ∷ items) =
    (codes "        " ++ (key ++ (codes "=" ++ item))) ∷ item_lines items

module _ (C : Czmq) where
  open C use {Hash, zhash_items, zmsg_print}

  unfoldable pub headers_lines : Option Hash → List Str
  unfolding item_lines
  headers_lines none = codes "    headers=" ∷ codes "(NULL)" ∷ []
  headers_lines (some headers) = codes "    headers=" ∷ item_lines (zhash_items headers)

  unfoldable pub content_lines : Option (List Frame) → List Str
  content_lines none = codes "    content=" ∷ codes "(NULL)" ∷ []
  content_lines (some content) = codes "    content=" ∷ zmsg_print content

  -- The cases of the switch.
  unfoldable pub print_lines : Kind → ZccpMsg Hash → List Str
  unfolding text_line headers_lines content_lines
  print_lines hello m =
      codes "ZCCP_MSG_HELLO:"
      ∷ text_line (codes "    identifier") m.identifier
      ∷ headers_lines m.headers
  print_lines hello_ok m = codes "ZCCP_MSG_HELLO_OK:" ∷ headers_lines m.headers
  print_lines subscribe m =
      codes "ZCCP_MSG_SUBSCRIBE:"
      ∷ text_line (codes "    expression") m.expression
      ∷ headers_lines m.headers
  print_lines subscribe_ok m = codes "ZCCP_MSG_SUBSCRIBE_OK:" ∷ []
  print_lines publish m =
      codes "ZCCP_MSG_PUBLISH:"
        ∷ text_line (codes "    address") m.address
        ∷ headers_lines m.headers
      ++ content_lines m.content
  print_lines direct m =
      codes "ZCCP_MSG_DIRECT:" ∷ text_line (codes "    address") m.address ∷ headers_lines m.headers
      ++ content_lines m.content
  print_lines deliver m =
      codes "ZCCP_MSG_DELIVER:"
        ∷ text_line (codes "    sender") m.sender
        ∷ text_line (codes "    address") m.address
        ∷ headers_lines m.headers
      ++ content_lines m.content
  print_lines goodbye m = codes "ZCCP_MSG_GOODBYE:" ∷ []
  print_lines goodbye_ok m = codes "ZCCP_MSG_GOODBYE_OK:" ∷ headers_lines m.headers
  print_lines ping m = codes "ZCCP_MSG_PING:" ∷ []
  print_lines ping_ok m = codes "ZCCP_MSG_PING_OK:" ∷ []
  print_lines invalid m = codes "ZCCP_MSG_INVALID:" ∷ []

  -- The switch; a number that is no message's prints nothing.
  unfoldable pub print_case : Option Kind → ZccpMsg Hash → List Str
  unfolding print_lines
  print_case none m = []
  print_case (some k) m = print_lines k m

  unfoldable pub zccp_msg_print : ZccpMsg Hash → List Str
  unfolding print_case
  zccp_msg_print m = print_case (kind_of m.id) m
