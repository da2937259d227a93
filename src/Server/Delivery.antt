-- ===== src/Server/Delivery.antt =====
-- What a publish event needs and leaves: the frames of the DELIVER, and the broker after it.
use zccp.Base.{◌≡◌, refl, subst, ◌∷◌, List, Option, some}
use zccp.Czmq.{Str, Frame, Czmq}
use zccp.Codec.{deliver, kind_of-code, ZccpMsg, zccp_msg_new}
use zccp.Codec.Access.{
  zccp_msg_address, zccp_msg_content, zccp_msg_set_sender, zccp_msg_set_address,
  zccp_msg_set_headers, zccp_msg_set_content,
}
use zccp.Codec.Encode.{content_frames}
use zccp.Codec.Encode.Size.{octets, zccp_msg_encode-octets}
use zccp.Codec.Steps.{zccp_msg_encode_deliver, deliver_msg}
use zccp.Server.{connected_state, Ptr, Client, Server}
use zccp.Server.Actions.{write}
use zccp.Server.Invariant.{IsSafe, IsIdle, write-Safe}
use zccp.Server.Forward.{IsDelivery}
use zccp.Server.Publish.{recipients, forwarded}
use zccp.Server.Loops.{serve_all-Safe, recipients-Subscribed}
use zccp.Server.Publisher.{
  noted, done_publishing, done_publishing-IsIdle, forwarded-write, recipients-Without,
}

module _ (C : Czmq) where
  open C use {Hash}

  -- The frames of a DELIVER.
  abbrev pub delivery : Str → Str → Option Hash → Option (List Frame) → List Frame
  delivery i a headers content =
      octets C deliver (deliver_msg C i a headers content)
      ∷ content_frames C deliver (deliver_msg C i a headers content)

  pub encode_deliver-delivery :
      (i a : Str) (headers : Option Hash) (content : Option (List Frame))
      → zccp_msg_encode_deliver C i a headers content ≡ some (delivery i a headers content)
  unfolding zccp_msg_encode_deliver deliver_msg zccp_msg_new zccp_msg_set_sender
      zccp_msg_set_address zccp_msg_set_headers zccp_msg_set_content
  encode_deliver-delivery i a headers content =
      zccp_msg_encode-octets C (deliver_msg C i a headers content) deliver (kind_of-code deliver)
        (λ h. refl)

  -- What a client in the state "connected" publishes can be delivered.
  pub noted-IsDelivery :
      (c : Client Hash) (s : Server Hash) (r : ZccpMsg Hash) (a : Str)
      → IsIdle C c
      → c.state ≡ connected_state
      → zccp_msg_address C r ≡ some a
      → (frames : List Frame) × IsDelivery C (noted C c r s) frames
  noted-IsDelivery c s r a h st ha =
      let (i, hi) = h.identified st in
      (
        delivery i a s.headers (zccp_msg_content C r),
        (i, a, hi, ha, encode_deliver-delivery i a s.headers (zccp_msg_content C r)),
      )

  pub published-Safe :
      (p : Ptr) (c : Client Hash) (s : Server Hash) (r : ZccpMsg Hash) (a : Str)
      (frames : List Frame)
      → IsSafe C s
      → s.memory p ≡ some c
      → IsSafe C (
          write C p
            (done_publishing C c)
            (forwarded C frames (recipients C p a s.patterns) (noted C c r s)))
  unfolding write
  published-Safe p c s r a frames safe m =
      let after = write C p (done_publishing C c) (noted C c r s) in
      let safe' : IsSafe C after =
        write-Safe C p c (done_publishing C c) s safe m
          (done_publishing-IsIdle C c (safe.idle p c m)) refl refl (λ x. x) in
      subst (IsSafe C)
        (forwarded-write C frames (recipients C p a s.patterns) p (done_publishing C c)
          (noted C c r s) (recipients-Without C p a s.patterns))
        (serve_all-Safe C (recipients C p a s.patterns) after safe'
          (recipients-Subscribed C after.memory p a s.patterns safe'.subscribed))
