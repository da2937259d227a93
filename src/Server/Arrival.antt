-- ===== src/Server/Arrival.antt =====
-- A PUBLISH from the publisher's request to the message that each subscriber reads.
use zccp.Base.{ℕ, suc, ◌≡◌, ◌≢◌, refl, ap, sym, subst, ◌∙◌, false, List, none, some, All, arith}
use zccp.Czmq.{Str, Frame, Czmq}
use zccp.Codec.{deliver, code, kind_of-code, ZccpMsg, zccp_msg_new}
use zccp.Codec.Access.{
  zccp_msg_address, zccp_msg_content, zccp_msg_set_sender, zccp_msg_set_address,
  zccp_msg_set_headers, zccp_msg_set_content,
}
use zccp.Codec.Encode.{content_frames, message_field}
use zccp.Codec.Encode.Size.{items, zccp_msg_encode-octets}
use zccp.Codec.Decode.{zccp_msg_decode}
use zccp.Codec.Decode.RoundTrip.{IsString, received, insert_all, decode-encode}
use zccp.Codec.Socket.{zccp_msg_recv}
use zccp.Codec.Steps.{deliver_msg}
use zccp.Server.{connected_state, publish_event, Ptr, Client, Server, ok}
use zccp.Server.Actions.{write}
use zccp.Server.Engine.{s_client_execute}
use zccp.Server.Invariant.{IsSafe}
use zccp.Server.Publish.{recipients, forwarded}
use zccp.Server.Publisher.{noted, done_publishing, execute-publish}
use zccp.Server.Delivery.{delivery, encode_deliver-delivery}

-- Text that a message can hold and that is no format.
abbrev pub IsPlain : Str → Type 0
IsPlain s = IsString s × All (λ c. c ≢ b'%') s

module _ (C : Czmq) where
  open C use {Hash, zhash_new, zsys_vprintf, vprintf_plain}

  printed-IsString : (s : Str) → IsPlain s → IsString (zsys_vprintf s)
  printed-IsString s (h, plain) = subst IsString (sym (vprintf_plain s plain)) h

  abbrev pub arrived : Str → Str → List Frame → ZccpMsg Hash
  arrived i a msg = received C deliver (deliver_msg C i a none (some msg))

  delivery-decode :
      (i a : Str) (msg : List Frame)
      → IsPlain i
      → IsPlain a
      → zccp_msg_recv C false (some (delivery C i a none (some msg))) ≡ some (arrived i a msg)
  unfolding zccp_msg_recv deliver_msg zccp_msg_new zccp_msg_set_sender zccp_msg_set_address
      zccp_msg_set_headers zccp_msg_set_content items
  delivery-decode i a msg hi ha =
      let m = deliver_msg C i a none (some msg) in
      let (frames, enc, dec) =
        decode-encode C m deliver (kind_of-code deliver) (λ h. refl)
          (printed-IsString i hi, printed-IsString a ha, (tt, omega arith)) in
      let made = zccp_msg_encode-octets C m deliver (kind_of-code deliver) (λ h. refl) in
      subst (λ f. zccp_msg_decode C (some f) ≡ some (arrived i a msg))
        (same frames _ (sym enc ∙ made)) dec
    where
      same : (f g : List Frame) → some f ≡ some g → f ≡ g
      same f g e = cc

  -- The fields of that message.
  pub arrived-fields :
      (i a : Str) (msg : List Frame)
      → IsPlain i
      → IsPlain a
      → ((arrived i a msg).id ≡ code deliver)
        × ((arrived i a msg).sender ≡ some i)
        × ((arrived i a msg).address ≡ some a)
        × ((arrived i a msg).content ≡ some msg)
        × ((arrived i a msg).headers ≡ some zhash_new)
  unfolding received deliver_msg zccp_msg_new zccp_msg_set_sender zccp_msg_set_address
      zccp_msg_set_headers zccp_msg_set_content content_frames message_field insert_all items
  arrived-fields i a msg hi ha =
      (refl, ap some (vprintf_plain i hi.1), ap some (vprintf_plain a ha.1), refl, refl)

  -- In a well-formed broker, let a connected client with an identifier publish content under an
  -- address, where both texts are shorter than 256 characters and hold no 0 and no `%`. The event ends
  -- within three units of fuel; the same frames go, behind its routing id, to every recipient; and
  -- a dealer socket that gets them reads a DELIVER with that identifier as the sender, that
  -- address, exactly that content, and no headers, whatever headers the request had.
  pub execute-publish_arrives :
      (fuel : ℕ) (p : Ptr) (c : Client Hash) (s : Server Hash) (r : ZccpMsg Hash) (i a : Str)
      (msg : List Frame)
      → IsSafe C s
      → s.memory p ≡ some c
      → c.state ≡ connected_state
      → c.identifier ≡ some i
      → c.request ≡ some r
      → zccp_msg_address C r ≡ some a
      → zccp_msg_content C r ≡ some msg
      → IsPlain i
      → IsPlain a
      → (frames : List Frame) × (m : ZccpMsg Hash) × (s_client_execute C
            (suc (suc (suc fuel)))
            p
            publish_event
            s
          ≡ ok (
              write C p
                (done_publishing C c)
                (forwarded C frames (recipients C p a s.patterns) (noted C c r s))))
        × (zccp_msg_recv C false (some frames) ≡ some m)
        × (m.id ≡ code deliver)
        × (m.sender ≡ some i)
        × (m.address ≡ some a)
        × (m.content ≡ some msg)
        × (m.headers ≡ some zhash_new)
  execute-publish_arrives fuel p c s r i a msg safe m st hi hr ha hc pi pa =
      let (number, sender, address, content, headers) = arrived-fields i a msg pi pa in
      let frames = delivery C i a s.headers (zccp_msg_content C r) in
      let made =
        ap (λ h. delivery C i a h (zccp_msg_content C r)) safe.no_headers
        ∙ ap (λ x. delivery C i a none x) hc in
      (
        frames,
        arrived i a msg,
        execute-publish C fuel p c s r a frames safe m st hr ha
            (i, a, hi, ha, encode_deliver-delivery C i a s.headers (zccp_msg_content C r)),
        ap (λ f. zccp_msg_recv C false (some f)) made ∙ delivery-decode i a msg pi pa,
        number,
        sender,
        address,
        content,
        headers,
      )
