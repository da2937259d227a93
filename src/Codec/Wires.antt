-- ===== src/Codec/Wires.antt =====
-- From one socket to another: what zccp_msg_recv makes of what zccp_msg_send hands over. Between
-- a dealer and a router, the router puts the peer's routing id in front of what it receives, and
-- takes it off what it sends.
use zccp.Base.{
  ℕ, ◌≤◌, ◌%◌, ◌≡◌, ◌≢◌, refl, ap, List, [], ◌∷◌, ◌++◌, ◌∙◌, suc, zero, true, false, none, some,
  length, take, arith, Option-cases, inl, inr,
}
use zccp.Czmq.{Str, Frame, Czmq}
use zccp.Codec.{Kind, hello, subscribe, kind_of, code, ZccpMsg}
use zccp.Codec.Wire.Get.{get_string, get_number1, get_number2, get_octets, c_string}
use zccp.Codec.Encode.{content_frames, message_field, zccp_msg_encode}
use zccp.Codec.Encode.Size.{text, dictionary, octets, fields, IsFresh, zccp_msg_encode-octets}
use zccp.Codec.Decode.{get_frame, get_command, get_fields, zccp_msg_decode}
use zccp.Codec.Decode.RoundTrip.{Fits, received, decode-encode}
use zccp.Codec.Socket.{zccp_msg_send, zccp_msg_recv}

module _ (C : Czmq) where
  open C use {Hash}

  abbrev unrouted : ZccpMsg Hash → ZccpMsg Hash
  unrouted m = record m { routing_id = none }

  Fits-unrouted : (k : Kind) (m : ZccpMsg Hash) → Fits C k m → Fits C k (unrouted m)
  Fits-unrouted hello m h = h
  Fits-unrouted _ m h = h

  received-unrouted : (k : Kind) (m : ZccpMsg Hash) → received C k (unrouted m) ≡ received C k m
  unfolding received message_field
  received-unrouted hello m = refl
  received-unrouted _ m = refl

  abbrev pub routed : Frame → ZccpMsg Hash → ZccpMsg Hash
  routed peer m = record m { routing_id = some peer }

  pub recv_routed :
      (peer : Frame) (msg : List Frame) (m : ZccpMsg Hash)
      → zccp_msg_decode C (some msg) ≡ some m
      → zccp_msg_recv C true (some (peer ∷ msg)) ≡ some (routed peer m)
  unfolding zccp_msg_recv zccp_msg_decode
  recv_routed peer [] m e = cc
  recv_routed peer (frame ∷ msg) m e = rw e

  -- A message with a valid number and fields that fit passes between a dealer and a router, in
  -- both directions. From a dealer it arrives under the dealer's routing id. A router sends it
  -- behind the routing id that it holds, and the dealer receives it without one.
  pub recv-send :
      (m : ZccpMsg Hash) (k : Kind) (peer : Frame)
      → kind_of m.id ≡ some k
      → IsFresh C m
      → Fits C k m
      → m.routing_id ≡ some peer
      → (msg : List Frame) × (zccp_msg_send C false m ≡ some msg)
        × (zccp_msg_recv C true (some (peer ∷ msg)) ≡ some (routed peer (received C k m)))
        × (zccp_msg_send C true m ≡ some (peer ∷ msg))
        × (zccp_msg_recv C false (some msg) ≡ some (received C k m))
  unfolding zccp_msg_send zccp_msg_recv
  recv-send m k peer e fresh h r =
      let (msg, sent, back) = decode-encode C (unrouted m) k e fresh (Fits-unrouted k m h) in
      let arrived : zccp_msg_decode C (some msg) ≡ some (received C k m) =
        back ∙ ap some (received-unrouted k m) in
      (
        msg,
        rw (sent, zccp_msg_send),
        recv_routed peer msg (received C k m) arrived,
        rw (sent, zccp_msg_send) (ground (arith, r)),
        arrived,
      )

-- A string that is read is no longer than the octet before it says.
c_string-take-le : (n : ℕ) (bs : List ℕ) → length (c_string (take n bs)) ≤ n
c_string-take-le zero bs = omega arith
c_string-take-le (suc n) [] = omega arith
c_string-take-le (suc n) (b ∷ bs) = ground (arith, c_string-take-le n bs)

get_string-le :
    (n : ℕ) (bs : List ℕ) (s : Str) (rest : List ℕ)
    → get_string (n ∷ bs) ≡ some (s, rest)
    → length s ≤ n
unfolding get_string get_number1 get_octets
get_string-le n bs s rest e = ground (arith, c_string-take-le n bs)

module _ (C : Czmq) where
  open C use {Hash}

  -- The expression of a SUBSCRIBE frame is no longer than its length octet says.
  decode_subscribe-le :
      (n : ℕ) (bs : List ℕ) (m : ZccpMsg Hash) (s : Str)
      → zccp_msg_decode C (some ((0xAA ∷ 0xAA ∷ 3 ∷ n ∷ bs) ∷ [])) ≡ some m
      → m.expression ≡ some s
      → length s ≤ n
  unfolding zccp_msg_decode get_frame get_number2 get_number1 kind_of get_command get_fields
  decode_subscribe-le n bs m s e x = elim (Option-cases (get_string (n ∷ bs))) [
    | inl bad ↦ ground (arith, bad)
    | inr ((t, rest), good) ↦ ground (arith, get_string-le n bs t rest good)
  ]

  -- A SUBSCRIBE whose expression has 256 characters or more is sent without an error, and never
  -- arrives: whatever its receiver makes of it, it does not have that expression.
  pub decode-encode_long :
      (m : ZccpMsg Hash) (s : Str)
      → kind_of m.id ≡ some subscribe
      → IsFresh C m
      → m.expression ≡ some s
      → 256 ≤ length s
      → (frames : List Frame) × (zccp_msg_encode C m ≡ some frames)
        × ((m' : ZccpMsg Hash)
            → zccp_msg_decode C (some frames) ≡ some m'
            → m'.expression ≢ m.expression)
  unfolding octets fields code content_frames
  decode-encode_long m s e fresh x long = (
    octets C subscribe m ∷ [],
    zccp_msg_encode-octets C m subscribe e fresh,
    λ m' back same. absurd (
        omega (
          arith,
          decode_subscribe-le (length (text m.expression) % 256)
              (text m.expression ++ dictionary C m.headers) m' s back (same ∙ x),
        )),
  )
