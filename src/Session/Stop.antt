-- ===== src/Session/Stop.antt =====
-- A call of one caller that stops the broker for all.
use zccp.Base.{
  ℕ, suc, ◌%◌, ◌^◌, ◌<◌, ◌≤◌, ◌≢◌, ◌≡◌, refl, ap, true, false, List, [], ◌∷◌, ◌++◌, none, some, All,
  length,
}
use zccp.Base.Results.{ok}
use zccp.Czmq.{Str, Frame, Czmq}
use zccp.Codec.{subscribe}
use zccp.Codec.Access.{zccp_msg_set_expression}
use zccp.Codec.Wire.Get.{IsText}
use zccp.Codec.Decode.Overlong.{overlong-none}
use zccp.Codec.Encode.{content_frames}
use zccp.Codec.Decode.{zccp_msg_decode}
use zccp.Codec.Socket.{set_routing, zccp_msg_recv}
use zccp.Client.{connected_state, Client}
use zccp.Client.Reactor.{s_client_handle_pipe}
use zccp.Client.Protocol.{frames_of}
use zccp.Client.Invariant.{IsSafe}
use zccp.Client.Pipe.{Call, command_of}
use zccp.Server
use zccp.Server.Reactor.{s_server_client_message}
use zccp.Session.Subscribe.{request, client-asks}

module _ (C : Czmq) where
  open C use {Hash, vprintf_plain}

  recv-none :
      (peer frame : Frame) (msg : List Frame)
      → zccp_msg_decode C (some (frame ∷ msg)) ≡ none
      → zccp_msg_recv C true (some (peer ∷ frame ∷ msg)) ≡ none
  unfolding zccp_msg_recv
  recv-none peer frame msg e = ap (λ o. set_routing C o peer) e

  message-none :
      (fuel : ℕ) (input : List Frame) (s : Server.Server Hash)
      → zccp_msg_recv C true (some input) ≡ none
      → s_server_client_message C fuel (some input) s ≡ ok (false, s)
  unfolding s_server_client_message
  message-none fuel input s e = rw (s_server_client_message, e) refl

  lost :
      (x : Str) (c : Client Hash) (peer : Frame)
      → IsSafe C c
      → IsText x
      → All (λ a. a ≢ b'%') x
      → length x % 256 ≡ 0
      → 256 ≤ length x
      → length x < 2 ^ 26
      → zccp_msg_recv C true (some (peer ∷ frames_of C subscribe (request C x c))) ≡ none
  unfolding zccp_msg_set_expression content_frames
  lost x c peer safe clean plain r k l = recv-none peer _ [] (
      overlong-none C (request C x c) x (ap some (vprintf_plain x plain)) safe.no_headers clean r k
        l)

  -- Let a client be in its invariant, in "connected" and not terminated, and the expression be
  -- without a 0 or a percent sign and have a positive multiple of 256 characters, less than 2^26.
  -- Then the caller's SUBSCRIBE is handled without a fault, and what the client sends makes the
  -- handler of any broker, in any state, return -1, which ends the broker's reactor.
  pub subscribe-stops :
      (fuel : ℕ) (c : Client Hash) (x : Str) (peer : Frame) (s : Server.Server Hash)
      → IsSafe C c
      → c.terminated ≡ false
      → c.state ≡ connected_state
      → IsText x
      → All (λ a. a ≢ b'%') x
      → length x % 256 ≡ 0
      → 256 ≤ length x
      → length x < 2 ^ 26
      → (c1 : Client Hash) × (frames : List Frame) × (s_client_handle_pipe C
            (suc (suc fuel))
            (some (command_of C (Call.subscribe x)))
            c
          ≡ ok (true, c1))
        × (c1.sent ≡ c.sent ++ frames ∷ [])
        × (s_server_client_message C (suc (suc (suc fuel))) (some (peer ∷ frames)) s
            ≡ ok (false, s))
  subscribe-stops fuel c x peer s safe running st clean plain r k l =
      let (c1, called, _, f, _) = client-asks C fuel c x safe running st in
      (
        c1,
        frames_of C subscribe (request C x c),
        called,
        f.sent,
        message-none (suc (suc (suc fuel))) _ s (lost x c peer safe clean plain r k l),
      )
