-- ===== src/Network/Integrity.antt =====
-- No content is made up: what a caller reads was published by a caller.
use zccp.Base.{
  ◌≡◌, refl, sym, ap, subst, ◌∙◌, ◌⊎◌, inl, inr, Bool, true, false, List, [], ◌∷◌, ◌++◌, some,
  streq, if◌then◌else◌, IsAmong, All, All-IsAmong, All-append,
}
use zccp.Base.Results.{Result, ok}
use zccp.Czmq.{Str, codes, Frame, Czmq}
use zccp.Codec.Wire.Get.{c_string}
use zccp.Codec.Decode.Numbers.{is_request, IsOf}
use zccp.Codec.Decode.Full.{IsFull}
use zccp.Client
use zccp.Client.{Command}
use zccp.Client.Pipe.{Call, publish}
use zccp.Client.Invariant.{NotEmpty}
use zccp.Client.Relay.{IsTold, Relays}
use zccp.Client.Relay.Handle.{handle_protocol-Relays}
use zccp.Client.Relay.Call.{s_client_new-Relays, Asks, call-Relays}
use zccp.Server
use zccp.Server.Reactor.{s_server_new}
use zccp.Server.Sends.{IsFullTo, SentFull, message-SentFull, timeout-SentFull}
use zccp.Server.Invariant.{IsTimer}
use zccp.Network.{
  Network, put_client, Reachable, started, configured, called, served, heard, expired,
}
use zccp.Network.Safety.{Reachable-IsSound, full-HasFrame, full-body, no_ping}

abbrev pub given : Call → List Str
given (publish address content) = content ∷ []
given _ = []

IsAmong-left : (v : Str) (xs ys : List Str) → IsAmong v xs → IsAmong v (xs ++ ys)
IsAmong-left v [] ys h = absurd h
IsAmong-left v (x ∷ xs) ys (inl e) = inl e
IsAmong-left v (x ∷ xs) ys (inr h) = inr (IsAmong-left v xs ys h)

IsAmong-right : (v : Str) (xs ys : List Str) → IsAmong v ys → IsAmong v (xs ++ ys)
IsAmong-right v [] ys h = h
IsAmong-right v (x ∷ xs) ys h = inr (IsAmong-right v xs ys h)

module _ (C : Czmq) where
  open C use {Hash}

  -- The contents that callers gave to PUBLISH on the way to a network.
  abbrev pub published : (n : Network C) → Reachable C n → List Str
  published _ (started client_id) = []
  published _ (called n peer k more d r running ran) = given k ++ published n r
  published _ (configured n verbose r) = published n r
  published _ (served n peer frames more t r there ran) = published n r
  published _ (heard n peer frames more d r running deals there ran) = published n r
  published _ (expired n timer t r there ran) = published n r

  module _ (Q : List Frame → Type 0) (empty : Q ([] ∷ [])) where
    record IsRelayed (n : Network C) : Type 0 where
      broker_carried : All (IsFullTo C Q) n.broker.sent
      clients_relay : (peer : Frame) → Relays C Q empty (n.clients peer)

    put_client-Relays :
        (peer : Frame) (d : Client.Client Hash) (clients : Frame → Client.Client Hash)
        → Relays C Q empty d
        → ((q : Frame) → Relays C Q empty (clients q))
        → (q : Frame) → Relays C Q empty (put_client C peer d clients q)
    unfolding put_client
    put_client-Relays peer d clients good all q = go (streq peer q)
      where
        go : (b : Bool) → Relays C Q empty (if b then d else clients q)
        go true = good
        go false = all q

    same_result : {A : Type 0} (r : Result A) (x y : A) → r ≡ ok x → r ≡ ok y → x ≡ y
    same_result r x y e f = cc

    sent-carried :
        (s t : Server.Server Hash)
        → All (IsFullTo C Q) s.sent
        → SentFull C Q s t
        → All (IsFullTo C Q) t.sent
    sent-carried s t h (new, sent, full) =
        subst (All (IsFullTo C Q)) (sym sent) (All-append (IsFullTo C Q) s.sent new h full)

    call-Asks : (k : Call) → ((v : Str) → IsAmong v (given k) → Q (v ∷ [])) → Asks C Q empty k
    call-Asks (publish address content) h = h content (inl refl)
    call-Asks _ h = tt

    relayed :
        (n : Network C) (r : Reachable C n)
        → ((v : Str) → IsAmong v (published n r) → Q (v ∷ []))
        → IsRelayed n
    unfolding s_server_new
    relayed _ (started client_id) h = record {
      broker_carried = tt;
      clients_relay = λ peer. s_client_new-Relays C Q empty;
    }
    relayed _ (called n peer k more d r running ran) h =
        let sound = Reachable-IsSound C n r in
        let before = relayed n r (λ v a. h v (IsAmong-right v (given k) (published n r) a)) in
        record {
          broker_carried = before.broker_carried;
          clients_relay =
              put_client-Relays peer d n.clients
                (call-Relays C Q empty 0 (n.clients peer) d more (sound.clients_safe peer) running
                  (before.clients_relay peer) k
                  (call-Asks k (λ v a. h v (IsAmong-left v (given k) (published n r) a))) ran)
                before.clients_relay;
        }
    relayed _ (served n peer frames more t r there ran) h =
        let sound = Reachable-IsSound C n r in
        let before = relayed n r h in
        let (u, run, _, full) =
          message-SentFull C Q empty 0 peer frames n.broker sound.broker_safe
            (All-IsAmong (IsFull C Q) frames (n.clients peer).sent
              (before.clients_relay peer).carried there)
            (All-IsAmong (IsOf C is_request) frames (n.clients peer).sent
              (before.clients_relay peer).asked there) in
        record {
          broker_carried =
              subst (λ (x : Server.Server Hash). All (IsFullTo C Q) x.sent)
                (ap (λ (x : Bool × Server.Server Hash). x.1) (same_result _ _ (more, t) run ran))
                (sent-carried n.broker u before.broker_carried full);
          clients_relay = before.clients_relay;
        }
    relayed _ (heard n peer frames more d r running deals there ran) h =
        let sound = Reachable-IsSound C n r in
        let before = relayed n r h in
        record {
          broker_carried = before.broker_carried;
          clients_relay =
              put_client-Relays peer d n.clients
                (handle_protocol-Relays C Q empty 0 (some frames) (n.clients peer) d more
                  (sound.clients_safe peer) running deals
                  (λ m e.
                    full-HasFrame C frames m
                      (All-IsAmong (IsFullTo C NotEmpty) (peer ∷ frames) n.broker.sent sound.told
                        there).0
                      e)
                  (λ m e.
                    full-body C frames m
                      (All-IsAmong (IsFullTo C Q) (peer ∷ frames) n.broker.sent
                        before.broker_carried there).0
                      e)
                  (λ m e.
                    no_ping C frames m
                      (All-IsAmong (IsFullTo C Q) (peer ∷ frames) n.broker.sent
                        before.broker_carried there).1
                      e)
                  (before.clients_relay peer) ran)
                before.clients_relay;
        }
    relayed _ (configured n v r) h =
        let before = relayed n r h in
        record { broker_carried = before.broker_carried; clients_relay = before.clients_relay }
    relayed _ (expired n timer t r there ran) h =
        let sound = Reachable-IsSound C n r in
        let before = relayed n r h in
        let (c, m, _, _) =
          All-IsAmong (IsTimer C n.broker.memory) timer n.broker.timers sound.broker_safe.timed
            there in
        let (u, run, _, full) =
          timeout-SentFull C Q empty 0 timer.client c n.broker sound.broker_safe m in
        record {
          broker_carried =
              subst (λ (x : Server.Server Hash). All (IsFullTo C Q) x.sent)
                (same_result _ u t run ran) (sent-carried n.broker u before.broker_carried full);
          clients_relay = before.clients_relay;
        }

  -- A content of one frame that is in a list, or empty.
  abbrev IsFrom : List Str → List Frame → Type 0
  IsFrom contents fs = (v : Str) × (fs ≡ v ∷ []) × ((v ≡ []) ⊎ IsAmong v contents)

  -- A MESSAGE whose content is in the list.
  abbrev pub IsPublished : List Str → Command → Type 0
  IsPublished contents (name, parts) =
      streq name (codes "MESSAGE") ≡ true
      → (sender : Str) × (address : Str) × (content : Str) × (parts
          ≡ sender ∷ address ∷ c_string content ∷ [])
        × ((content ≡ []) ⊎ IsAmong content contents)

  first : (f v : Frame) (rest : List Frame) → f ∷ rest ≡ v ∷ [] → f ≡ v
  first f v rest e = cc

  told-IsPublished :
      (contents : List Str) (cs : List Command)
      → All (IsTold C (IsFrom contents) ([], refl, inl refl)) cs
      → All (IsPublished contents) cs
  told-IsPublished contents [] h = tt
  told-IsPublished contents ((name, parts) ∷ cs) (h, hs) = (
    λ e.
        let (s, a, f, rest, hp, (v, hv, from)) = h e in
        (s, a, v, hp ∙ ap (λ x. s ∷ a ∷ c_string x ∷ []) (first f v rest hv), from),
    told-IsPublished contents cs hs,
  )

  -- Whatever the callers call and however messages are ordered, repeated or lost: every MESSAGE that a
  -- client of a reachable network ever signalled has a sender, an address and a content, and the
  -- content is one that some caller gave to PUBLISH on the way to this network, up to its first 0, or
  -- empty.
  pub messages-IsPublished :
      (n : Network C) (r : Reachable C n) (peer : Frame)
      → All (IsPublished (published n r)) (n.clients peer).signalled
  messages-IsPublished n r peer =
      let good =
        relayed (IsFrom (published n r)) ([], refl, inl refl) n r (λ v a. (v, refl, inr a)) in
      told-IsPublished (published n r) (n.clients peer).signalled (good.clients_relay peer).told
