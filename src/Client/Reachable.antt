-- ===== src/Client/Reachable.antt =====
-- The states that the client actor can get into, from its start on, by the calls of its handlers.
use zccp.Base.{
  none, All-append, ℕ, suc, ℤ, not, ◌≡◌, ◌⊎◌, inl, inr, refl, sym, ap, subst, ◌∙◌, Bool, true,
  false, List, [], ◌∷◌, Option, some, Bool-cases,
}
use zccp.Base.Results.{Result, ok, fault}
use zccp.Czmq.{Str, Frame, Czmq}
use zccp.Codec.Decode.Full.{IsFull, encoded-IsFull}
use zccp.Codec.{hello, code, ZccpMsg, zccp_msg_new}
use zccp.Codec.Socket.{zccp_msg_recv}
use zccp.Client.{start_state, connect_event, Client}
use zccp.Client.Reactor.{
  s_client_new, status, s_client_handle_timeout, s_client_handle_wakeup, s_client_handle_pipe,
  s_client_handle_protocol,
}
use zccp.Client.Start.{dialled, execute-connect, execute-connect_refused}
use zccp.Client.Invariant.{NotEmpty, IsSafe, is_joined, ready}
use zccp.Client.Handle.{HasFrame, s_client_handle_protocol-IsSafe}
use zccp.Client.Early.{unexpected-fault, call-fault}
use zccp.Client.Pipe.{
  Call, connect, subscribe, publish, verbose, destroy, command_of, KeepsSafe, handle_pipe-execute,
  handle_pipe-IsSafe, connecting, connecting-IsSafe, flags-IsSafe,
}

module _ (C : Czmq) where
  open C use {Hash, zsock_connect}

  -- The id of a timer that is set.
  abbrev pub IsPending : ℕ → List ℕ → Type 0
  IsPending t [] = ⊥
  IsPending t (u ∷ ts) = (t ≡ u) ⊎ IsPending t ts

  -- A client as a sequence of handler calls leaves it. zloop calls a handler only while the last one
  -- returned 0; that of a message only once the dealer socket is connected; those of timers only
  -- for a timer that is set.
  pub data Reachable : Client Hash → Type 0 where
    created : Reachable (s_client_new C)
    called :
        (c d : Client Hash) (fuel : ℕ) (k : Call) (more : Bool)
        → Reachable c
        → c.terminated ≡ false
        → s_client_handle_pipe C (suc (suc fuel)) (some (command_of C k)) c ≡ ok (more, d)
        → Reachable d
    received :
        (c d : Client Hash) (fuel : ℕ) (input : Option (List Frame)) (more : Bool)
        → Reachable c
        → c.terminated ≡ false
        → c.dealing ≡ true
        → ((m : ZccpMsg Hash) → zccp_msg_recv C false input ≡ some m → HasFrame C m)
        → s_client_handle_protocol C (suc (suc fuel)) input c ≡ ok (more, d)
        → Reachable d
    expired :
        (c d : Client Hash) (fuel timer : ℕ) (more : Bool)
        → Reachable c
        → IsPending timer c.timers
        → s_client_handle_timeout C fuel c ≡ ok (more, d)
        → Reachable d
    woken :
        (c d : Client Hash) (fuel timer : ℕ) (more : Bool)
        → Reachable c
        → IsPending timer c.timers
        → s_client_handle_wakeup C fuel c ≡ ok (more, d)
        → Reachable d

  pub s_client_new-IsSafe : IsSafe C (s_client_new C)
  unfolding s_client_new zccp_msg_new
  s_client_new-IsSafe = record {
    no_alarm = refl;
    no_timers = refl;
    no_headers = refl;
    no_bytes = refl;
    phase = inl (refl, refl);
    honest = tt;
    full_sent = tt;
    loaded = λ fs h k. cc;
  }

  same_client :
      (r : Result (Bool × Client Hash)) (x y : Bool × Client Hash) → r ≡ ok x → r ≡ ok y → x.1 ≡ y.1
  same_client r x y e f = cc

  no_fault : (r : Result (Bool × Client Hash)) (x : Bool × Client Hash) → r ≡ fault → r ≡ ok x → ⊥
  no_fault r x e f = cc

  unset : (c : Client Hash) (t : ℕ) → IsSafe C c → IsPending t c.timers → ⊥
  unset c t safe h = subst (IsPending t) safe.no_timers h

  keeps :
      (r : Result (Bool × Client Hash)) (x : Bool × Client Hash)
      → KeepsSafe C r
      → r ≡ ok x
      → IsSafe C x.1
  keeps r x (more, d, run, good) e = subst (IsSafe C) (same_client r (more, d) x run e) good

  pub dialled-IsSafe :
      (fuel : ℕ) (c : Client Hash) (safe : IsSafe C c) (running : c.terminated ≡ false)
      (st : c.state ≡ start_state)
      → IsSafe C (dialled C fuel c (ready C c safe running) st)
  unfolding zccp_msg_new
  dialled-IsSafe fuel c safe running st = record {
    no_alarm = refl;
    no_timers = safe.no_timers;
    no_headers = refl;
    no_bytes = refl;
    phase = inr refl;
    honest = safe.honest;
    full_sent = All-append (IsFull C NotEmpty) c.sent _ safe.full_sent (
      encoded-IsFull C NotEmpty hello (record c.msgout { id = code hello; routing_id = none })
          (λ e. cc) safe.loaded,
      tt,
    );
    loaded = λ fs h k. cc;
  }

  -- In "start" a call that raises an event is CONNECT to an endpoint that can be connected to, or
  -- it fails the assertion.
  module _ (fuel : ℕ) (c : Client Hash) (safe : IsSafe C c) (running : c.terminated ≡ false)
      (st : c.state ≡ start_state) where
    start-connect :
        (endpoint : Str) (timeout : ℤ) (x : Bool × Client Hash)
        → s_client_handle_pipe C (suc (suc fuel)) (some (command_of C (connect endpoint timeout))) c
          ≡ ok x
        → IsSafe C x.1
    unfolding status
    start-connect endpoint timeout x ran =
        let d = connecting C c endpoint timeout in
        let good = connecting-IsSafe C c safe endpoint timeout in
        elim (Bool-cases (zsock_connect endpoint)) [
          | inl reach ↦
              keeps
                (s_client_handle_pipe C (suc (suc fuel))
                  (some (command_of C (connect endpoint timeout))) c)
                x
                (subst (KeepsSafe C)
                  (sym (
                    handle_pipe-execute C c (suc (suc fuel)) (connect endpoint timeout)
                      connect_event d refl
                    ∙ ap (status C)
                        (execute-connect C fuel d (ready C d good running) st endpoint refl reach)))
                  (
                    true,
                    dialled C fuel d (ready C d good running) st,
                    ap (λ (b : Bool). ok (not b, dialled C fuel d (ready C d good running) st))
                        running,
                    dialled-IsSafe fuel d good running st,
                  ))
                ran
          | inr refuse ↦ absurd (
              no_fault _ x
                (unexpected-fault C (suc (suc fuel)) (connect endpoint timeout) c d connect_event
                  refl
                  (execute-connect_refused C fuel d (ready C d good running) st endpoint refl
                    refuse).2)
                ran)
        ]

    start-call :
        (k : Call) (x : Bool × Client Hash)
        → s_client_handle_pipe C (suc (suc fuel)) (some (command_of C k)) c ≡ ok x
        → IsSafe C x.1
    unfolding s_client_handle_pipe status
    start-call (connect endpoint timeout) x ran = start-connect endpoint timeout x ran
    start-call (subscribe expression) x ran =
        absurd (no_fault _ x (call-fault C fuel c expression [] [] safe running st).0 ran)
    start-call (publish address content) x ran =
        absurd (no_fault _ x (call-fault C fuel c [] address content safe running st).1 ran)
    start-call verbose x ran =
        subst (IsSafe C)
          (same_client (status C (ok (record c { verbose = true })))
            (not c.terminated, record c { verbose = true }) x refl ran)
          (flags-IsSafe C c safe true c.terminated)
    start-call destroy x ran =
        subst (IsSafe C)
          (same_client (status C (ok (record c { terminated = true })))
            (false, record c { terminated = true }) x refl ran)
          (flags-IsSafe C c safe c.verbose true)

  -- A call that was handled.
  pub call-IsSafe :
      (fuel : ℕ) (c : Client Hash) (k : Call) (x : Bool × Client Hash)
      → IsSafe C c
      → c.terminated ≡ false
      → s_client_handle_pipe C (suc (suc fuel)) (some (command_of C k)) c ≡ ok x
      → IsSafe C x.1
  call-IsSafe fuel c k x safe running ran =
      let by_phase : ((c.state ≡ start_state) × (c.dealing ≡ false)) ⊎ (is_joined c.state ≡ true)
          → IsSafe C x.1 =
        λ p. elim p [
          | inl (st, n) ↦ start-call fuel c safe running st k x ran
          | inr j ↦
              keeps (s_client_handle_pipe C (suc (suc fuel)) (some (command_of C k)) c) x
                (handle_pipe-IsSafe C c fuel k safe running j) ran
        ] in
      by_phase safe.phase

  -- In every state that the client actor can get into no timer is set, no FAILURE was ever
  -- signalled to the caller, and the state is "start" with no endpoint connected, or one of
  -- "connecting", "connected", "subscribing" and "reconnecting". The messages that come in may be
  -- any, where a DELIVER has a frame of content.
  pub Reachable-IsSafe : (c : Client Hash) → Reachable c → IsSafe C c
  Reachable-IsSafe _ created = s_client_new-IsSafe
  Reachable-IsSafe _ (called c d fuel k more r running ran) =
      call-IsSafe fuel c k (more, d) (Reachable-IsSafe c r) running ran
  Reachable-IsSafe _ (received c d fuel input more r running deals frame ran) =
      let (more', e, run, good, h) =
        s_client_handle_protocol-IsSafe C fuel input c (Reachable-IsSafe c r) running deals frame in
      keeps (s_client_handle_protocol C (suc (suc fuel)) input c) (more, d) (more', e, run, good)
        ran
  Reachable-IsSafe _ (expired c d fuel t more r set ran) =
      absurd (unset c t (Reachable-IsSafe c r) set)
  Reachable-IsSafe _ (woken c d fuel t more r set ran) =
      absurd (unset c t (Reachable-IsSafe c r) set)
