-- ===== src/Codec/Decode/Numbers.antt =====
-- The number that zccp_msg_decode gives to what was encoded, as a sort of messages.
use zccp.Base.{◌≡◌, ap, ◌∙◌, Bool, true, false, List, ◌∷◌, some}
use zccp.Czmq.{Frame, Czmq}
use zccp.Codec.{
  Kind, hello, subscribe, publish, direct, goodbye, ping, kind_of, kind_of-code, ZccpMsg,
}
use zccp.Codec.Encode.{content_frames}
use zccp.Codec.Encode.Size.{octets}
use zccp.Codec.Decode.{zccp_msg_decode}
use zccp.Codec.Decode.Content.{decode-number}

-- What the protocol lets a client send on its own account.
abbrev pub is_request : Kind → Bool
is_request hello = true
is_request subscribe = true
is_request publish = true
is_request direct = true
is_request goodbye = true
is_request _ = false

abbrev pub is_not_ping : Kind → Bool
is_not_ping ping = false
is_not_ping _ = true

-- What comes of these frames, if anything, has a number of such a kind.
pub record IsOf (C : Czmq) (P : Kind → Bool) (frames : List Frame) : Type 0 where
  pub of_kind :
      (m : ZccpMsg C.Hash)
      → zccp_msg_decode C (some frames) ≡ some m
      → (k : Kind) × (kind_of m.id ≡ some k) × (P k ≡ true)

pub encoded-IsOf :
    (C : Czmq) (P : Kind → Bool) (k : Kind) (x : ZccpMsg C.Hash)
    → P k ≡ true
    → IsOf C P (octets C k x ∷ content_frames C k x)
encoded-IsOf C P k x h = record {
  of_kind =
      λ m e. (k, ap kind_of (decode-number C k x (content_frames C k x) m e) ∙ kind_of-code k, h);
}
