-- ===== src/Codec/Access.antt =====
-- The getters and setters of zccp_msg.c. A setter of a text takes a format; the callers of this
-- repository pass no arguments behind it.
use zccp.Base.{ℕ, uint64_of, List, Option, none, some}
use zccp.Czmq.{Str, codes, Frame, Czmq}
use zccp.Codec.{
  Kind, hello, hello_ok, subscribe, subscribe_ok, publish, direct, deliver, goodbye, goodbye_ok,
  ping, ping_ok, invalid, kind_of, ZccpMsg,
}
use mathlib.Core.Option

-- The switch of zccp_msg_command; `none` is a number that is no message's.
unfoldable pub command_name : Option Kind → Str
command_name (some hello) = codes "HELLO"
command_name (some hello_ok) = codes "HELLO_OK"
command_name (some subscribe) = codes "SUBSCRIBE"
command_name (some subscribe_ok) = codes "SUBSCRIBE_OK"
command_name (some publish) = codes "PUBLISH"
command_name (some direct) = codes "DIRECT"
command_name (some deliver) = codes "DELIVER"
command_name (some goodbye) = codes "GOODBYE"
command_name (some goodbye_ok) = codes "GOODBYE_OK"
command_name (some ping) = codes "PING"
command_name (some ping_ok) = codes "PING_OK"
command_name (some invalid) = codes "INVALID"
command_name none = codes "?"

module _ (C : Czmq) where
  open C use {Hash, zhash_new, zhash_update, zhash_lookup, zhash_size, zsys_vprintf, atol}

  unfoldable pub zccp_msg_routing_id : ZccpMsg Hash → Option Frame
  zccp_msg_routing_id m = m.routing_id

  unfoldable pub zccp_msg_set_routing_id : ZccpMsg Hash → Frame → ZccpMsg Hash
  zccp_msg_set_routing_id m routing_id = record m { routing_id = some routing_id }

  unfoldable pub zccp_msg_id : ZccpMsg Hash → ℕ
  zccp_msg_id m = m.id

  unfoldable pub zccp_msg_set_id : ZccpMsg Hash → ℕ → ZccpMsg Hash
  zccp_msg_set_id m id = record m { id = id }

  unfoldable pub zccp_msg_command : ZccpMsg Hash → Str
  unfolding command_name
  zccp_msg_command m = command_name (kind_of m.id)

  unfoldable pub zccp_msg_identifier : ZccpMsg Hash → Option Str
  zccp_msg_identifier m = m.identifier

  unfoldable pub zccp_msg_set_identifier : ZccpMsg Hash → Str → ZccpMsg Hash
  zccp_msg_set_identifier m format = record m { identifier = some (zsys_vprintf format) }

  unfoldable pub zccp_msg_headers : ZccpMsg Hash → Option Hash
  zccp_msg_headers m = m.headers

  -- Ownership goes to the caller.
  unfoldable pub zccp_msg_get_headers : ZccpMsg Hash → Option Hash × ZccpMsg Hash
  zccp_msg_get_headers m = (m.headers, record m { headers = none })

  unfoldable pub zccp_msg_set_headers : ZccpMsg Hash → Option Hash → ZccpMsg Hash
  zccp_msg_set_headers m headers = record m { headers = headers }

  unfoldable pub zccp_msg_headers_string : ZccpMsg Hash → Str → Option Str → Option Str
  zccp_msg_headers_string m key default_value = elim m.headers [
    | none ↦ default_value
    | some t ↦ elim (zhash_lookup t key) [ none ↦ default_value | some value ↦ some value ]
  ]

  -- The value of a header as a number, if there is one.
  unfoldable pub number_or : ℕ → Option Str → ℕ
  number_or default_value none = default_value
  number_or default_value (some string) = uint64_of (atol string)

  unfoldable pub zccp_msg_headers_number : ZccpMsg Hash → Str → ℕ → ℕ
  unfolding number_or
  zccp_msg_headers_number m key default_value = elim m.headers [
    | none ↦ default_value
    | some t ↦ number_or default_value (zhash_lookup t key)
  ]

  unfoldable pub headers_or_new : Option Hash → Hash
  headers_or_new none = zhash_new
  headers_or_new (some t) = t

  unfoldable pub zccp_msg_headers_insert : ZccpMsg Hash → Str → Str → ZccpMsg Hash
  unfolding headers_or_new
  zccp_msg_headers_insert m key format = record m {
    headers = some (zhash_update (headers_or_new m.headers) key (zsys_vprintf format));
  }

  -- `none`: zhash_size asserts that there is a table.
  unfoldable pub zccp_msg_headers_size : ZccpMsg Hash → Option ℕ
  zccp_msg_headers_size m = Option.map zhash_size m.headers

  unfoldable pub zccp_msg_expression : ZccpMsg Hash → Option Str
  zccp_msg_expression m = m.expression

  unfoldable pub zccp_msg_set_expression : ZccpMsg Hash → Str → ZccpMsg Hash
  zccp_msg_set_expression m format = record m { expression = some (zsys_vprintf format) }

  unfoldable pub zccp_msg_address : ZccpMsg Hash → Option Str
  zccp_msg_address m = m.address

  unfoldable pub zccp_msg_set_address : ZccpMsg Hash → Str → ZccpMsg Hash
  zccp_msg_set_address m format = record m { address = some (zsys_vprintf format) }

  unfoldable pub zccp_msg_content : ZccpMsg Hash → Option (List Frame)
  zccp_msg_content m = m.content

  unfoldable pub zccp_msg_get_content : ZccpMsg Hash → Option (List Frame) × ZccpMsg Hash
  zccp_msg_get_content m = (m.content, record m { content = none })

  unfoldable pub zccp_msg_set_content : ZccpMsg Hash → Option (List Frame) → ZccpMsg Hash
  zccp_msg_set_content m msg = record m { content = msg }

  unfoldable pub zccp_msg_sender : ZccpMsg Hash → Option Str
  zccp_msg_sender m = m.sender

  unfoldable pub zccp_msg_set_sender : ZccpMsg Hash → Str → ZccpMsg Hash
  zccp_msg_set_sender m format = record m { sender = some (zsys_vprintf format) }
