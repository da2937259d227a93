-- ===== src/Client/Relay/Call.antt =====
-- The handler of API commands brings in the contents that the caller gives.
use zccp.Base.{
  ℕ, suc, ◌≡◌, ◌⊎◌, inl, inr, refl, sym, subst, ◌∙◌, Bool, true, false, List, [], ◌∷◌, none, some,
  Bool-cases, All-append,
}
use zccp.Base.Results.{Result, ok, fault}
use zccp.Czmq.{Frame, Czmq}
use zccp.Codec.{hello, code, zccp_msg_new}
use zccp.Codec.Access.{zccp_msg_set_expression, zccp_msg_set_address, zccp_msg_set_content}
use zccp.Codec.Decode.Full.{Only, IsFull, encoded-IsFull}
use zccp.Client.{
  start_state, Event, connect_event, subscribe_event, publish_event, deliver_event, Client,
}
use zccp.Client.Reactor.{s_client_new, status, s_client_handle_pipe}
use zccp.Client.Start.{dialled, execute-connect, execute-connect_refused}
use zccp.Client.Invariant.{IsSafe, is_raised, is_joined, ready}
use zccp.Client.Pipe.{
  Call, connect, subscribe, publish, verbose, destroy, command_of, connecting, asking, telling,
  raised_by, handle_pipe-execute, connecting-IsSafe, asking-IsSafe, telling-IsSafe,
}
use zccp.Client.Early.{unexpected-fault, call-fault}
use zccp.Codec.Decode.Numbers.{is_request, IsOf, encoded-IsOf}
use zccp.Client.Relay.{is_ping, Relays, same_client, execute-Relays}
use zccp.Client.Relay.Handle.{unchanged}

module _ (C : Czmq) (Q : List Frame → Type 0) (empty : Q ([] ∷ [])) where
  open C use {Hash, zsock_connect}

  status-ok :
      (r : Result (Client Hash)) (more : Bool) (d : Client Hash)
      → status C r ≡ ok (more, d)
      → r ≡ ok d
  unfolding status
  status-ok (ok x) more d e = cc
  status-ok fault more d e = cc
  status-ok _ more d e = cc

  no_fault : (r : Result (Bool × Client Hash)) (x : Bool × Client Hash) → r ≡ fault → r ≡ ok x → ⊥
  no_fault r x e f = cc

  -- What a call brings in.
  abbrev pub Asks : Call → Type 0
  Asks (publish address content) = Q (content ∷ [])
  Asks _ = Unit

  module _ (fuel : ℕ) (c d : Client Hash) (more : Bool) (safe : IsSafe C c)
      (running : c.terminated ≡ false) (relays : Relays C Q empty c) where
    raised-Relays :
        (k : Call) (e : Event) (x : Client Hash)
        → raised_by C c k ≡ some (e, x)
        → is_raised e ≡ true
        → (e ≡ deliver_event → ⊥)
        → is_ping e ≡ false
        → x.terminated ≡ false
        → is_joined x.state ≡ true
        → IsSafe C x
        → Relays C Q empty x
        → s_client_handle_pipe C (suc (suc fuel)) (some (command_of C k)) c ≡ ok (more, d)
        → Relays C Q empty d
    raised-Relays k e x h raise no_deliver np alive j good start ran =
        execute-Relays C Q empty fuel x d e good alive j raise (λ k. absurd (no_deliver k))
          (λ k. absurd (no_deliver k)) np start
          (status-ok _ more d (sym (handle_pipe-execute C c (suc (suc fuel)) k e x h) ∙ ran))

    one-Only : (content : Frame) → Q (content ∷ []) → Only Q (some (content ∷ []))
    one-Only content h fs e = subst Q (same e) h
      where
        same : some (content ∷ []) ≡ some fs → content ∷ [] ≡ fs
        same e = cc

    flag-Relays :
        (x : Client Hash)
        → x.sent ≡ c.sent
        → x.msgout.content ≡ c.msgout.content
        → x.signalled ≡ c.signalled
        → status C (ok x) ≡ ok (more, d)
        → Relays C Q empty d
    flag-Relays x es em eg ran =
        subst (Relays C Q empty)
          (same_client C Q empty (ok x) x d refl (status-ok (ok x) more d ran))
          (unchanged C Q empty c x es em eg relays)

    joined-Relays :
        (k : Call)
        → Asks k
        → is_joined c.state ≡ true
        → s_client_handle_pipe C (suc (suc fuel)) (some (command_of C k)) c ≡ ok (more, d)
        → Relays C Q empty d
    unfolding s_client_handle_pipe status zccp_msg_set_expression zccp_msg_set_address
        zccp_msg_set_content
    joined-Relays (connect endpoint timeout) asks j ran =
        raised-Relays (connect endpoint timeout) connect_event (connecting C c endpoint timeout)
          refl refl (λ h. cc) refl running j (connecting-IsSafe C c safe endpoint timeout)
          (unchanged C Q empty c (connecting C c endpoint timeout) refl refl refl relays) ran
    joined-Relays (subscribe expression) asks j ran =
        raised-Relays (subscribe expression) subscribe_event (asking C c expression) refl refl
          (λ h. cc) refl running j (asking-IsSafe C c safe expression)
          (unchanged C Q empty c (asking C c expression) refl refl refl relays) ran
    joined-Relays (publish address content) asks j ran =
        raised-Relays (publish address content) publish_event (telling C c address content) refl
          refl (λ h. cc) refl running j (telling-IsSafe C c safe address content)
          (record {
            carried = relays.carried;
            prepared = one-Only content asks;
            told = relays.told;
            asked = relays.asked;
          })
          ran
    joined-Relays verbose asks j ran = flag-Relays (record c { verbose = true }) refl refl refl ran
    joined-Relays destroy asks j ran =
        flag-Relays (record c { terminated = true }) refl refl refl ran

    -- In "start", CONNECT to an endpoint that can be connected to, or a flag.
    start-Relays :
        (k : Call)
        → c.state ≡ start_state
        → s_client_handle_pipe C (suc (suc fuel)) (some (command_of C k)) c ≡ ok (more, d)
        → Relays C Q empty d
    unfolding s_client_handle_pipe status zccp_msg_new
    start-Relays (connect endpoint timeout) st ran =
        let x = connecting C c endpoint timeout in
        let good = connecting-IsSafe C c safe endpoint timeout in
        elim (Bool-cases (zsock_connect endpoint)) [
          | inl reach ↦
              subst (Relays C Q empty)
                (same_client C Q empty _ (dialled C fuel x (ready C x good running) st) d
                  (execute-connect C fuel x (ready C x good running) st endpoint refl reach)
                  (status-ok _ more d (
                    sym (
                      handle_pipe-execute C c (suc (suc fuel)) (connect endpoint timeout)
                        connect_event x refl)
                    ∙ ran)))
                (record {
                  carried = All-append (IsFull C Q) c.sent _ relays.carried (
                    encoded-IsFull C Q hello
                        (record c.msgout { id = code hello; routing_id = none }) empty
                        relays.prepared,
                    tt,
                  );
                  prepared = λ fs h. cc;
                  told = relays.told;
                  asked = All-append (IsOf C is_request) c.sent _ relays.asked (
                    encoded-IsOf C is_request hello
                        (record c.msgout { id = code hello; routing_id = none }) refl,
                    tt,
                  );
                })
          | inr refuse ↦ absurd (
              no_fault _ (more, d)
                (unexpected-fault C (suc (suc fuel)) (connect endpoint timeout) c x connect_event
                  refl
                  (execute-connect_refused C fuel x (ready C x good running) st endpoint refl
                    refuse).2)
                ran)
        ]
    start-Relays (subscribe expression) st ran =
        absurd (no_fault _ (more, d) (call-fault C fuel c expression [] [] safe running st).0 ran)
    start-Relays (publish address content) st ran =
        absurd (no_fault _ (more, d) (call-fault C fuel c [] address content safe running st).1 ran)
    start-Relays verbose st ran = flag-Relays (record c { verbose = true }) refl refl refl ran
    start-Relays destroy st ran = flag-Relays (record c { terminated = true }) refl refl refl ran

    pub call-Relays :
        (k : Call)
        → Asks k
        → s_client_handle_pipe C (suc (suc fuel)) (some (command_of C k)) c ≡ ok (more, d)
        → Relays C Q empty d
    call-Relays k asks ran =
        let by_phase : ((c.state ≡ start_state) × (c.dealing ≡ false)) ⊎ (is_joined c.state ≡ true)
            → Relays C Q empty d =
          λ p. elim p [
            | inl (st, n) ↦ start-Relays k st ran
            | inr j ↦ joined-Relays k asks j ran
          ] in
        by_phase safe.phase

  pub s_client_new-Relays : Relays C Q empty (s_client_new C)
  unfolding s_client_new zccp_msg_new
  s_client_new-Relays = record { carried = tt; prepared = λ fs h. cc; told = tt; asked = tt }
