-- ===== src/Network/Safety.antt =====
-- No message makes a handler of the network fault.
use zccp.Base.{
  refl, [], ◌≡◌, sym, ap, subst, Bool, true, false, List, ◌∷◌, some, streq, if◌then◌else◌, IsAmong,
  All, All-IsAmong, All-append,
}
use zccp.Base.Results.{Result, ok}
use zccp.Czmq.{Frame, Czmq}
use zccp.Codec.{deliver, kind_of, ZccpMsg}
use zccp.Codec.Decode.Numbers.{is_request, is_not_ping, IsOf}
use zccp.Client.Pipe.{Call, publish}
use zccp.Client.Relay.{Relays}
use zccp.Client.Relay.Handle.{IsNoPing, handle_protocol-Relays}
use zccp.Client.Relay.Call.{Asks, call-Relays, s_client_new-Relays}
use zccp.Codec.Socket.{zccp_msg_recv}
use zccp.Codec.Decode.Full.{Only, IsFull}
use zccp.Client
use zccp.Client.Reactor.{s_client_handle_protocol}
use zccp.Client.Invariant.{NotEmpty}
use zccp.Client.Handle.{HasFrame, s_client_handle_protocol-IsSafe}
use zccp.Client.Reachable.{s_client_new-IsSafe, call-IsSafe}
use zccp.Server
use zccp.Server.{Timer}
use zccp.Server.Invariant.{IsTimer}
use zccp.Server.Reactor.{s_server_client_message, s_client_handle_timeout}
use zccp.Server.Handle.{is_some}
use zccp.Server.Reachable.{configured-IsSafe, s_server_new-IsSafe}
use zccp.Server.Sends.{IsFullTo, SentFull, message-SentFull, timeout-SentFull}
use zccp.Network.{
  Network, with_broker, put_client, with_client, Reachable, started, configured, called, served,
  heard, expired,
}

pub has_frame : NotEmpty ([] ∷ [])
has_frame h = cc

module _ (C : Czmq) where
  open C use {Hash}

  -- All parts are in their invariants, and all messages of the broker have what a client reads.
  pub record IsSound (n : Network C) : Type 0 where
    pub broker_safe : Server.Invariant.IsSafe C n.broker
    pub clients_relay : (peer : Frame) → Relays C NotEmpty has_frame (n.clients peer)
    pub clients_safe : (peer : Frame) → Client.Invariant.IsSafe C (n.clients peer)
    pub told : All (IsFullTo C NotEmpty) n.broker.sent

  put_client-IsSafe :
      (peer : Frame) (d : Client.Client Hash) (clients : Frame → Client.Client Hash)
      → Client.Invariant.IsSafe C d
      → ((q : Frame) → Client.Invariant.IsSafe C (clients q))
      → (q : Frame) → Client.Invariant.IsSafe C (put_client C peer d clients q)
  unfolding put_client
  put_client-IsSafe peer d clients good safe q = go (streq peer q)
    where
      go : (b : Bool) → Client.Invariant.IsSafe C (if b then d else clients q)
      go true = good
      go false = safe q

  put_client-Relays :
      (peer : Frame) (d : Client.Client Hash) (clients : Frame → Client.Client Hash)
      → Relays C NotEmpty has_frame d
      → ((q : Frame) → Relays C NotEmpty has_frame (clients q))
      → (q : Frame) → Relays C NotEmpty has_frame (put_client C peer d clients q)
  unfolding put_client
  put_client-Relays peer d clients good all q = go (streq peer q)
    where
      go : (b : Bool) → Relays C NotEmpty has_frame (if b then d else clients q)
      go true = good
      go false = all q

  same_result : {A : Type 0} (r : Result A) (x y : A) → r ≡ ok x → r ≡ ok y → x ≡ y
  same_result r x y e f = cc

  client-IsSound :
      (n : Network C) (peer : Frame) (d : Client.Client Hash)
      → IsSound n
      → Client.Invariant.IsSafe C d
      → Relays C NotEmpty has_frame d
      → IsSound (with_client C peer d n)
  client-IsSound n peer d sound good relays = record {
    clients_relay = put_client-Relays peer d n.clients relays sound.clients_relay;
    broker_safe = sound.broker_safe;
    clients_safe = put_client-IsSafe peer d n.clients good sound.clients_safe;
    told = sound.told;
  }

  broker-IsSound :
      (n : Network C) (t : Server.Server Hash)
      → IsSound n
      → Server.Invariant.IsSafe C t
      → SentFull C NotEmpty n.broker t
      → IsSound (with_broker C t n)
  broker-IsSound n t sound good (new, sent, full) = record {
    broker_safe = good;
    clients_safe = sound.clients_safe;
    clients_relay = sound.clients_relay;
    told =
        subst (All (IsFullTo C NotEmpty)) (sym sent)
          (All-append (IsFullTo C NotEmpty) n.broker.sent new sound.told full);
  }

  -- What a client sent reaches the broker as a full message.
  serves :
      (n : Network C) (peer : Frame) (frames : List Frame)
      → IsSound n
      → IsAmong frames (n.clients peer).sent
      → (t : Server.Server Hash) × (s_server_client_message C 3 (some (peer ∷ frames)) n.broker
          ≡ ok (is_some (zccp_msg_recv C true (some (peer ∷ frames))), t))
        × Server.Invariant.IsSafe C t
        × SentFull C NotEmpty n.broker t
  serves n peer frames sound there =
      message-SentFull C NotEmpty has_frame 0 peer frames n.broker sound.broker_safe
        (All-IsAmong (IsFull C NotEmpty) frames (n.clients peer).sent
          (sound.clients_safe peer).full_sent there)
        (All-IsAmong (IsOf C is_request) frames (n.clients peer).sent
          (sound.clients_relay peer).asked there)

  pub full-HasFrame :
      (frames : List Frame) (m : ZccpMsg Hash)
      → IsFull C NotEmpty frames
      → zccp_msg_recv C false (some frames) ≡ some m
      → HasFrame C m
  unfolding zccp_msg_recv
  full-HasFrame frames m h e k none_left = (h.full m e).1 k [] none_left refl

  pub full-body :
      {Q : List Frame → Type 0} (frames : List Frame) (m : ZccpMsg Hash)
      → IsFull C Q frames
      → zccp_msg_recv C false (some frames) ≡ some m
      → kind_of m.id ≡ some deliver
      → Only Q m.content
  unfolding zccp_msg_recv
  full-body frames m h e k = (h.full m e).1 k

  pub no_ping :
      (frames : List Frame) (m : ZccpMsg Hash)
      → IsOf C is_not_ping frames
      → zccp_msg_recv C false (some frames) ≡ some m
      → IsNoPing C NotEmpty has_frame m
  unfolding zccp_msg_recv
  no_ping frames m h e = h.of_kind m e

  heard_told :
      (n : Network C) (peer : Frame) (frames : List Frame)
      → IsSound n
      → IsAmong (peer ∷ frames) n.broker.sent
      → IsFull C NotEmpty frames × IsOf C is_not_ping frames
  heard_told n peer frames sound there =
      All-IsAmong (IsFullTo C NotEmpty) (peer ∷ frames) n.broker.sent sound.told there

  asks : (k : Call) → Asks C NotEmpty has_frame k
  asks (publish address content) = λ h. cc
  asks _ = tt

  hears :
      (n : Network C) (peer : Frame) (frames : List Frame)
      → IsSound n
      → (n.clients peer).terminated ≡ false
      → (n.clients peer).dealing ≡ true
      → IsAmong (peer ∷ frames) n.broker.sent
      → (more : Bool) × (d : Client.Client Hash) × (s_client_handle_protocol C 2
            (some frames)
            (n.clients peer)
          ≡ ok (more, d))
        × Client.Invariant.IsSafe C d
        × (more ≡ true → d.terminated ≡ false)
  hears n peer frames sound running deals there =
      s_client_handle_protocol-IsSafe C 0 (some frames) (n.clients peer) (sound.clients_safe peer)
        running deals
        (λ m e.
          full-HasFrame frames m
            (All-IsAmong (IsFullTo C NotEmpty) (peer ∷ frames) n.broker.sent sound.told there).0 e)

  expires :
      (n : Network C) (timer : Timer)
      → IsSound n
      → IsAmong timer n.broker.timers
      → (t : Server.Server Hash) × (s_client_handle_timeout C 3 timer.client n.broker ≡ ok t)
        × Server.Invariant.IsSafe C t
        × SentFull C NotEmpty n.broker t
  expires n timer sound there =
      let (c, m, _, _) =
        All-IsAmong (IsTimer C n.broker.memory) timer n.broker.timers sound.broker_safe.timed
          there in
      timeout-SentFull C NotEmpty has_frame 0 timer.client c n.broker sound.broker_safe m

  -- In every reachable network the broker and every client are in their invariants, and every
  -- message that the broker ever sent is one that a client decodes, if at all, to a message that has
  -- a frame of content where it is a DELIVER, and not to a PING; and every message that a client ever
  -- sent is decoded, if at all, to a HELLO, SUBSCRIBE, PUBLISH, DIRECT or GOODBYE.
  pub Reachable-IsSound : (n : Network C) → Reachable C n → IsSound n
  unfolding Server.Reactor.s_server_new
  Reachable-IsSound _ (started client_id) = record {
    broker_safe = s_server_new-IsSafe C client_id;
    clients_safe = λ peer. s_client_new-IsSafe C;
    clients_relay = λ peer. s_client_new-Relays C NotEmpty has_frame;
    told = tt;
  }
  Reachable-IsSound _ (called n peer k more d r running ran) =
      let sound = Reachable-IsSound n r in
      client-IsSound n peer d sound
        (call-IsSafe C 0 (n.clients peer) k (more, d) (sound.clients_safe peer) running ran)
        (call-Relays C NotEmpty has_frame 0 (n.clients peer) d more (sound.clients_safe peer)
          running (sound.clients_relay peer) k (asks k) ran)
  Reachable-IsSound _ (served n peer frames more t r there ran) =
      let sound = Reachable-IsSound n r in
      let (u, run, good, full) = serves n peer frames sound there in
      subst (λ x. IsSound (with_broker C x n))
        (ap (λ (x : Bool × Server.Server Hash). x.1) (same_result _ _ (more, t) run ran))
        (broker-IsSound n u sound good full)
  Reachable-IsSound _ (heard n peer frames more d r running deals there ran) =
      let sound = Reachable-IsSound n r in
      let (more', e, run, good, _) = hears n peer frames sound running deals there in
      client-IsSound n peer d sound
        (subst (Client.Invariant.IsSafe C)
          (ap (λ (x : Bool × Client.Client Hash). x.1) (same_result _ (more', e) (more, d) run ran))
          good)
        (handle_protocol-Relays C NotEmpty has_frame 0 (some frames) (n.clients peer) d more
          (sound.clients_safe peer) running deals
          (λ m eq. full-HasFrame frames m (heard_told n peer frames sound there).0 eq)
          (λ m eq. full-body frames m (heard_told n peer frames sound there).0 eq)
          (λ m eq. no_ping frames m (heard_told n peer frames sound there).1 eq)
          (sound.clients_relay peer) ran)
  Reachable-IsSound _ (configured n v r) =
      let sound = Reachable-IsSound n r in
      record {
        broker_safe = configured-IsSafe C n.broker v sound.broker_safe;
        clients_safe = sound.clients_safe;
        clients_relay = sound.clients_relay;
        told = sound.told;
      }
  Reachable-IsSound _ (expired n timer t r there ran) =
      let sound = Reachable-IsSound n r in
      let (u, run, good, full) = expires n timer sound there in
      subst (λ x. IsSound (with_broker C x n)) (same_result _ u t run ran)
        (broker-IsSound n u sound good full)
