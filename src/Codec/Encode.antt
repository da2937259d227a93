-- ===== src/Codec/Encode.antt =====
-- zccp_msg_encode of zccp_msg.c: the size of the frame is added up first, then the fields are
-- written into a new frame of that size, then the content's frames are appended.
pub mod Size
use zccp.Base.{ℕ, ◌+◌, ◌≡◌, List, [], ◌∷◌, ◌++◌, Option, none, some, length}
use zccp.Czmq.{Str, Frame, Czmq}
use zccp.Codec.{
  Kind, hello, hello_ok, subscribe, subscribe_ok, publish, direct, deliver, goodbye, goodbye_ok,
  ping, ping_ok, invalid, kind_of, ZccpMsg,
}
use zccp.Codec.Wire.Put.{
  Buffer, Writer, ◌>>◌, nothing, put_number1, put_number2, put_number4, put_string, put_longstr,
}

-- The octets of the signature, 0xAAA0 | 10.
abbrev pub signature : ℕ
signature = 0xAAAA

-- A string field with its 1-byte length; NULL counts as the empty string.
unfoldable pub string_size : Option Str → ℕ
string_size none = 1
string_size (some s) = 1 + length s

unfoldable pub put_string? : Option Str → Writer
put_string? (some s) = put_string s
put_string? none = put_number1 0

-- The loop that adds up the dictionary's contents.
unfoldable pub items_bytes : List (Str × Str) → ℕ
items_bytes [] = 0
items_bytes ((key, item) ∷ items) = 1 + length key + (4 + length item) + items_bytes items

unfoldable pub put_items : List (Str × Str) → Writer
put_items [] = nothing
put_items ((key, item) ∷ items) = do put_string key; put_longstr item; put_items items

module _ (C : Czmq) where
  open C use {Hash, zhash_items, zhash_size, zframe_new}

  -- `headers_bytes` keeps its old value where there are no headers.
  unfoldable pub dictionary_bytes : Option Hash → ℕ → ℕ
  dictionary_bytes none old = old
  dictionary_bytes (some t) old = items_bytes (zhash_items t)

  unfoldable pub headers_bytes : ZccpMsg Hash → ℕ
  headers_bytes m = dictionary_bytes m.headers m.headers_bytes

  unfoldable pub put_headers : Option Hash → Writer
  put_headers none = put_number4 0
  put_headers (some t) = do put_number4 (zhash_size t); put_items (zhash_items t)

  -- The first switch: signature and number, then each field's size.
  unfoldable pub frame_size : Kind → ZccpMsg Hash → ℕ
  frame_size hello m = 3 + string_size m.identifier + (4 + headers_bytes m)
  frame_size hello_ok m = 3 + (4 + headers_bytes m)
  frame_size subscribe m = 3 + string_size m.expression + (4 + headers_bytes m)
  frame_size subscribe_ok m = 3
  frame_size publish m = 3 + string_size m.address + (4 + headers_bytes m)
  frame_size direct m = 3 + string_size m.address + (4 + headers_bytes m)
  frame_size deliver m = 3 + string_size m.sender + string_size m.address + (4 + headers_bytes m)
  frame_size goodbye m = 3
  frame_size goodbye_ok m = 3 + (4 + headers_bytes m)
  frame_size ping m = 3
  frame_size ping_ok m = 3
  frame_size invalid m = 3

  -- The second switch.
  unfoldable pub put_fields : Kind → ZccpMsg Hash → Writer
  put_fields hello m = do put_string? m.identifier; put_headers m.headers
  put_fields hello_ok m = put_headers m.headers
  put_fields subscribe m = do put_string? m.expression; put_headers m.headers
  put_fields subscribe_ok m = nothing
  put_fields publish m = do put_string? m.address; put_headers m.headers
  put_fields direct m = do put_string? m.address; put_headers m.headers
  put_fields deliver m = do put_string? m.sender; put_string? m.address; put_headers m.headers
  put_fields goodbye m = nothing
  put_fields goodbye_ok m = put_headers m.headers
  put_fields ping m = nothing
  put_fields ping_ok m = nothing
  put_fields invalid m = nothing

  -- Everything that goes into the data frame, in order.
  unfoldable pub put_frame : Kind → ZccpMsg Hash → Writer
  put_frame k m = do put_number2 signature; put_number1 m.id; put_fields k m

  -- The data frame. `none`: the code wrote behind its end.
  unfoldable pub encode_frame : Kind → ZccpMsg Hash → Option Frame
  encode_frame k m =
      elim (put_frame k m (record { written = []; ahead = zframe_new (frame_size k m) })) [
        | none ↦ none
        | some b ↦ some (b.written ++ b.ahead)
      ]

  -- The message field, a single empty frame if there is none.
  unfoldable pub message_field : ZccpMsg Hash → List Frame
  message_field m = elim m.content [ none ↦ [] ∷ [] | some frames ↦ frames ]

  unfoldable pub content_frames : Kind → ZccpMsg Hash → List Frame
  unfolding message_field
  content_frames publish m = message_field m
  content_frames direct m = message_field m
  content_frames deliver m = message_field m
  content_frames _ m = []

  -- `none`: the process ends, by `assert (false)` for a number that is no message's, or by a write
  -- behind the frame's end.
  unfoldable pub zccp_msg_encode : ZccpMsg Hash → Option (List Frame)
  zccp_msg_encode m = elim (kind_of m.id) [
    | none ↦ none
    | some k ↦ elim (encode_frame k m) [
      | none ↦ none
      | some frame ↦ some (frame ∷ content_frames k m)
    ]
  ]
