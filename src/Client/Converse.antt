-- ===== src/Client/Converse.antt =====
-- One API command and one message of the server, from the handler to the row of the table.
use zccp.Base.{ℕ, suc, ◌≡◌, ◌≢◌, sym, ap, subst, ◌∙◌, Bool, true, false, not, List, some}
use zccp.Base.Results.{Result, ok}
use zccp.Czmq.{Str, Frame, Czmq}
use zccp.Codec.{kind_of, ZccpMsg}
use zccp.Codec.Access.{zccp_msg_id}
use zccp.Codec.Socket.{zccp_msg_recv}
use zccp.Client.{start_state, Event, Client, is_null}
use zccp.Client.Engine.{event_of, s_protocol_event, halt_unless, s_client_execute}
use zccp.Client.Reactor.{status, s_client_handle_pipe, execute_protocol, s_client_handle_protocol}
use zccp.Client.Protocol.{Row, row}
use zccp.Client.Step.{HasInput, Follows}
use zccp.Client.Answer.{s_client_execute-Follows}
use zccp.Client.Invariant.{IsSafe, ready, is_harmless, Follows-IsSafe}
use zccp.Client.Handle.{msgin-IsSafe}
use zccp.Client.Pipe.{Call, command_of, raised_by, handle_pipe-execute}

module _ (C : Czmq) where
  open C use {Hash}

  -- The handler returned 0, the client followed the row, and is in its invariant.
  abbrev pub Went : Client Hash → Row → List Str → Result (Bool × Client Hash) → Type 0
  Went c r parts run =
      (d : Client Hash) × (run ≡ ok (true, d))
      × (d.terminated ≡ false)
      × Follows C c d r parts
      × IsSafe C d

  goes_on :
      (fuel : ℕ) (c : Client Hash) (e : Event) (r : Row) (parts : List Str)
      → IsSafe C c
      → c.terminated ≡ false
      → c.state ≢ start_state
      → is_null e ≡ false
      → row c.state e ≡ some r
      → is_harmless c.state (some r) ≡ true
      → r.ends ≡ false
      → HasInput C r.effect c parts
      → Went c r parts (status C (s_client_execute C (suc (suc fuel)) e c))
  unfolding status
  goes_on fuel c e r parts safe running ne n hr harmless lives input =
      let (d, run, f) =
        s_client_execute-Follows C fuel c (ready C c safe running) e r parts ne n hr input in
      let alive : d.terminated ≡ false = f.ended ∙ lives in
      (
        d,
        ap (status C) run ∙ ap (λ b. ok (not b, d)) alive,
        alive,
        f,
        Follows-IsSafe C c d r parts safe harmless f,
      )

  pub call-Went :
      (fuel : ℕ) (k : Call) (c d : Client Hash) (e : Event) (r : Row) (parts : List Str)
      → raised_by C c k ≡ some (e, d)
      → IsSafe C d
      → d.terminated ≡ false
      → d.state ≢ start_state
      → is_null e ≡ false
      → row d.state e ≡ some r
      → is_harmless d.state (some r) ≡ true
      → r.ends ≡ false
      → HasInput C r.effect d parts
      → Went d r parts (s_client_handle_pipe C (suc (suc fuel)) (some (command_of C k)) c)
  call-Went fuel k c d e r parts h safe running ne n hr harmless lives input =
      subst (Went d r parts) (sym (handle_pipe-execute C c (suc (suc fuel)) k e d h))
        (goes_on fuel d e r parts safe running ne n hr harmless lives input)

  -- The client with the message that came in.
  abbrev pub holding : ZccpMsg Hash → Client Hash → Client Hash
  holding m c = record c { msgin = some m }

  handle_protocol-execute :
      (fuel : ℕ) (frames : List Frame) (m : ZccpMsg Hash) (c : Client Hash) (e : Event)
      → zccp_msg_recv C false (some frames) ≡ some m
      → event_of (kind_of m.id) ≡ some e
      → s_client_handle_protocol C fuel (some frames) c
        ≡ status C (s_client_execute C fuel e (holding m c))
  unfolding s_client_handle_protocol execute_protocol s_protocol_event halt_unless zccp_msg_id
  handle_protocol-execute fuel frames m c e arrives he =
      rw (arrives, s_client_handle_protocol)
        (ap
          (λ o.
            let (e, d) = halt_unless C o (holding m c) in status C (s_client_execute C fuel e d))
          he)

  pub message-Went :
      (fuel : ℕ) (frames : List Frame) (m : ZccpMsg Hash) (c : Client Hash) (e : Event) (r : Row)
      (parts : List Str)
      → zccp_msg_recv C false (some frames) ≡ some m
      → event_of (kind_of m.id) ≡ some e
      → IsSafe C c
      → c.terminated ≡ false
      → c.state ≢ start_state
      → is_null e ≡ false
      → row c.state e ≡ some r
      → is_harmless c.state (some r) ≡ true
      → r.ends ≡ false
      → HasInput C r.effect (holding m c) parts
      → Went (holding m c) r parts (s_client_handle_protocol C (suc (suc fuel)) (some frames) c)
  message-Went fuel frames m c e r parts arrives he safe running ne n hr harmless lives input =
      subst (Went (holding m c) r parts)
        (sym (handle_protocol-execute (suc (suc fuel)) frames m c e arrives he))
        (goes_on fuel (holding m c) e r parts (msgin-IsSafe C c m safe) running ne n hr harmless
          lives input)
