-- ===== src/Codec/Decode/Lookup.antt =====
-- What a receiver finds when it looks a header up.
use zccp.Base.{◌≡◌, refl, true, List, some, Option, Option-cases, inl, inr}
use zccp.Czmq.{Str, Frame, Czmq}
use zccp.Codec.{Kind, subscribe_ok, goodbye, ping, ping_ok, invalid, kind_of, ZccpMsg}
use zccp.Codec.Access.{zccp_msg_headers_string}
use zccp.Codec.Dup.{has_headers}
use zccp.Codec.Encode.{zccp_msg_encode}
use zccp.Codec.Encode.Size.{IsFresh, items}
use zccp.Codec.Decode.{zccp_msg_decode}
use zccp.Codec.Decode.RoundTrip.{Fits, received, refill, insert_all, decode-encode, lookup-refill}

module _ (C : Czmq) where
  open C use {Hash, zhash_lookup, lookup-new}

  received-headers :
      (k : Kind) (m : ZccpMsg Hash)
      → has_headers C k ≡ true
      → (received C k m).headers ≡ some (refill C m.headers)
  unfolding received
  received-headers subscribe_ok m h = cc
  received-headers goodbye m h = cc
  received-headers ping m h = cc
  received-headers ping_ok m h = cc
  received-headers invalid m h = cc
  received-headers _ m h = refl

  refill-lookup :
      (m n : ZccpMsg Hash) (key : Str) (default : Option Str)
      → n.headers ≡ some (refill C m.headers)
      → zccp_msg_headers_string C n key default ≡ zccp_msg_headers_string C m key default
  unfolding zccp_msg_headers_string insert_all items
  refill-lookup m n key default e = elim (Option-cases m.headers) [
    | inl null ↦ rw (zccp_msg_headers_string, e, null, lookup-new key) refl
    | inr (t, full) ↦ rw (zccp_msg_headers_string, e, full, lookup-refill C t key) refl
  ]

  -- A message with headers, whose number is valid and whose fields fit, is encoded, what was encoded
  -- is decoded, and every lookup of a header in the decoded message gives what it gives in the
  -- message that was encoded: every header arrives with its value, and none is made up.
  pub headers_string-decode :
      (m : ZccpMsg Hash) (k : Kind)
      → kind_of m.id ≡ some k
      → IsFresh C m
      → Fits C k m
      → has_headers C k ≡ true
      → (frames : List Frame) × (n : ZccpMsg Hash) × (zccp_msg_encode C m ≡ some frames)
        × (zccp_msg_decode C (some frames) ≡ some n)
        × ((key : Str) (default : Option Str)
            → zccp_msg_headers_string C n key default ≡ zccp_msg_headers_string C m key default)
  headers_string-decode m k e fresh fits h =
      let (frames, encoded, decoded) = decode-encode C m k e fresh fits in
      (
        frames,
        received C k m,
        encoded,
        decoded,
        λ key default. refill-lookup m (received C k m) key default (received-headers k m h),
      )
