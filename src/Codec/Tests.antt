-- ===== src/Codec/Tests.antt =====
-- Runs of the codec, and its theorems at concrete inputs.
use zccp.Base.{
  ℕ, ◌++◌, streq, if◌then◌else◌, ◌≡◌, ◌≢◌, refl, List, [], ◌∷◌, Option, none, some, true, false,
  replicate, arith,
}
use zccp.Czmq.{Str, codes, Frame}
use zccp.Czmq.Simple.{simple}
use zccp.Codec.{ZccpMsg, kind_of, publish}
use zccp.Codec.Wire.Put.{put_octets}
use zccp.Codec.Encode.{
  string_size, put_string?, items_bytes, put_items, dictionary_bytes, headers_bytes, put_headers,
  frame_size, put_fields, put_frame, encode_frame, content_frames, zccp_msg_encode,
}
use zccp.Codec.Encode.Size.{octets, zccp_msg_encode-octets, items}
use zccp.Codec.Decode.{zccp_msg_decode}
use zccp.Codec.Decode.Grammar.{Message}
use zccp.Codec.Decode.Grammar.Exact.{decode-grammar}
use zccp.Codec.Decode.RoundTrip.{received, decode-encode}
use zccp.Codec.Access.{
  zccp_msg_headers_string, zccp_msg_headers_number, zccp_msg_headers_insert, zccp_msg_command,
  command_name,
}
use zccp.Codec.Headers.{headers-insert}
use zccp.Codec.Print.{zccp_msg_print, item_lines}
use zccp.Codec.Print.Read.{read_print}
use zccp.Codec.Print.RoundTrip.{read_print-print}
use zccp.Codec.Decode.Lookup.{headers_string-decode}
use zccp.Codec.Dup.{zccp_msg_dup, zccp_msg_dup_same, IsCopy}
use zccp.Codec.Wires.{recv-send, decode-encode_long, routed}
use zccp.Codec.Socket.{zccp_msg_send, zccp_msg_recv}

abbrev age : List (Str × Str)
age = (b'A' ∷ b'g' ∷ [], b'4' ∷ []) ∷ []

-- PUBLISH of "cpu" with one header and one frame of content.
abbrev reading : ZccpMsg (List (Str × Str))
reading = record {
  routing_id = some (9 ∷ []);
  id = 5;
  identifier = none;
  headers = some age;
  headers_bytes = 0;
  expression = none;
  address = some (b'c' ∷ b'p' ∷ b'u' ∷ []);
  content = some ((b'9' ∷ []) ∷ []);
  sender = none;
}

abbrev reading_frame : Frame
reading_frame =
    0xAA ∷ 0xAA ∷ 5 ∷ 3 ∷ b'c' ∷ b'p' ∷ b'u' ∷ 0 ∷ 0 ∷ 0 ∷ 1 ∷ 2 ∷ b'A' ∷ b'g' ∷ 0 ∷ 0 ∷ 0 ∷ 1
    ∷ b'4' ∷ []

encode_reading : zccp_msg_encode simple reading ≡ some (reading_frame ∷ (b'9' ∷ []) ∷ [])
unfolding zccp_msg_encode kind_of encode_frame put_frame put_fields put_string? put_headers
    put_items put_octets frame_size string_size headers_bytes dictionary_bytes items_bytes
    content_frames
encode_reading = refl

zccp_msg_encode-octets_example :
    zccp_msg_encode simple reading
    ≡ some (octets simple publish reading ∷ content_frames simple publish reading)
unfolding kind_of
zccp_msg_encode-octets_example = zccp_msg_encode-octets simple reading publish refl (λ e. cc)

decode-encode_example :
    (frames : List Frame) × (zccp_msg_encode simple reading ≡ some frames)
    × (zccp_msg_decode simple (some frames) ≡ some (received simple publish reading))
unfolding kind_of items
decode-encode_example = decode-encode simple reading publish refl (λ e. cc) (omega arith)

headers_string-decode_example :
    (frames : List Frame) × (n : ZccpMsg (List (Str × Str))) × (zccp_msg_encode simple reading
      ≡ some frames)
    × (zccp_msg_decode simple (some frames) ≡ some n)
    × ((key : Str) (default : Option Str)
        → zccp_msg_headers_string simple n key default
          ≡ zccp_msg_headers_string simple reading key default)
unfolding kind_of items
headers_string-decode_example =
    headers_string-decode simple reading publish refl (λ e. cc) (omega arith) refl

-- A copy of the PUBLISH.
zccp_msg_dup_same_example :
    (copy : ZccpMsg (List (Str × Str))) × (zccp_msg_dup simple (some reading) ≡ some copy)
    × IsCopy simple publish reading copy
    × (true ≡ true
        → (key : Str) (default : Option Str)
        → zccp_msg_headers_string simple copy key default
          ≡ zccp_msg_headers_string simple reading key default)
unfolding kind_of
zccp_msg_dup_same_example = zccp_msg_dup_same simple reading publish refl

recv-send_example :
    (msg : List Frame) × (zccp_msg_send simple false reading ≡ some msg)
    × (zccp_msg_recv simple true (some ((9 ∷ []) ∷ msg))
        ≡ some (routed simple (9 ∷ []) (received simple publish reading)))
    × (zccp_msg_send simple true reading ≡ some ((9 ∷ []) ∷ msg))
    × (zccp_msg_recv simple false (some msg) ≡ some (received simple publish reading))
unfolding kind_of items
recv-send_example = recv-send simple reading publish (9 ∷ []) refl (λ e. cc) (omega arith) refl

-- SUBSCRIBE with 300 times "x".
abbrev long_subscribe : ZccpMsg (List (Str × Str))
long_subscribe = record reading { id = 3; expression = some (replicate 300 b'x') }

decode-encode_long_example :
    (frames : List Frame) × (zccp_msg_encode simple long_subscribe ≡ some frames)
    × ((m' : ZccpMsg (List (Str × Str)))
        → zccp_msg_decode simple (some frames) ≡ some m'
        → m'.expression ≢ some (replicate 300 b'x'))
unfolding kind_of
decode-encode_long_example =
    decode-encode_long simple long_subscribe (replicate 300 b'x') refl (λ e. cc) refl (omega arith)

headers-insert_example :
    (zccp_msg_headers_string simple
        (zccp_msg_headers_insert simple reading (b'n' ∷ []) (5 ∷ []))
        (b'n' ∷ [])
        none
      ≡ (if streq (b'n' ∷ []) (b'n' ∷ [])
          then some (5 ∷ [])
          else zccp_msg_headers_string simple reading (b'n' ∷ []) none))
    × (zccp_msg_headers_number simple
          (zccp_msg_headers_insert simple reading (b'n' ∷ []) (5 ∷ []))
          (b'n' ∷ [])
          1
        ≡ (if streq (b'n' ∷ []) (b'n' ∷ [])
            then 5
            else zccp_msg_headers_number simple reading (b'n' ∷ []) 1))
headers-insert_example = headers-insert simple reading (b'n' ∷ []) (5 ∷ []) (b'n' ∷ []) none 1

command_reading : zccp_msg_command simple reading ≡ codes "PUBLISH"
unfolding zccp_msg_command command_name kind_of
command_reading = refl

read_print-print_example :
    read_print (zccp_msg_print simple reading)
    ≡ some (record {
      kind = publish;
      texts = some (codes "cpu") ∷ [];
      headers = some (codes "        Ag=4" ∷ []);
    })
unfolding item_lines kind_of
read_print-print_example = read_print-print simple publish reading refl

-- What a receiver makes of it.
abbrev arrived : ZccpMsg (List (Str × Str))
arrived = record reading { routing_id = none }

decode-grammar_example :
    (zccp_msg_decode simple (some (reading_frame ∷ (b'9' ∷ []) ∷ [])) ≡ some arrived
      → (xs : List ℕ) × (rest : List ℕ) × (reading_frame ≡ xs ++ rest)
        × Message simple ((b'9' ∷ []) ∷ []) xs arrived)
    × ((xs : List ℕ) (rest : List ℕ)
        → reading_frame ≡ xs ++ rest
        → Message simple ((b'9' ∷ []) ∷ []) xs arrived
        → zccp_msg_decode simple (some (reading_frame ∷ (b'9' ∷ []) ∷ [])) ≡ some arrived)
decode-grammar_example = decode-grammar simple reading_frame ((b'9' ∷ []) ∷ []) arrived
