-- ===== src/Client/Early.antt =====
-- Calls of the class interface before CONNECT.
use zccp.Base.{ℕ, suc, ◌≡◌, refl, ap, ◌∙◌, false, some}
use zccp.Base.Results.{fault}
use zccp.Czmq.{Str, Czmq}
use zccp.Client.{start_state, Event, subscribe_event, publish_event, Client}
use zccp.Client.Engine.{s_client_execute}
use zccp.Client.Reactor.{status, s_client_handle_pipe}
use zccp.Client.Start.{execute-other}
use zccp.Client.Invariant.{IsSafe, ready}
use zccp.Client.Pipe.{
  Call, command_of, raised_by, handle_pipe-execute, asking, asking-IsSafe, telling, telling-IsSafe,
}

module _ (C : Czmq) where
  open C use {Hash}

  pub unexpected-fault :
      (fuel : ℕ) (k : Call) (c d : Client Hash) (e : Event)
      → raised_by C c k ≡ some (e, d)
      → s_client_execute C fuel e d ≡ fault
      → s_client_handle_pipe C fuel (some (command_of C k)) c ≡ fault
  unfolding status
  unexpected-fault fuel k c d e h run = handle_pipe-execute C c fuel k e d h ∙ ap (status C) run

  -- At a client in its invariant that is in "start" and not terminated, SUBSCRIBE and PUBLISH fail the
  -- assertion on events that are not expected, which ends the process.
  pub call-fault :
      (fuel : ℕ) (c : Client Hash) (expression address content : Str)
      → IsSafe C c
      → c.terminated ≡ false
      → c.state ≡ start_state
      → (s_client_handle_pipe C (suc (suc fuel)) (some (command_of C (Call.subscribe expression))) c
          ≡ fault)
        × (s_client_handle_pipe C
              (suc (suc fuel))
              (some (command_of C (Call.publish address content)))
              c
            ≡ fault)
  call-fault fuel c expression address content safe running st = (
    unexpected-fault (suc (suc fuel)) (Call.subscribe expression) c (asking C c expression)
        subscribe_event refl
        (execute-other C fuel (asking C c expression)
          (ready C (asking C c expression) (asking-IsSafe C c safe expression) running) st
          subscribe_event refl (λ h. cc)),
    unexpected-fault (suc (suc fuel)) (Call.publish address content) c (telling C c address content)
        publish_event refl
        (execute-other C fuel (telling C c address content)
          (ready C (telling C c address content) (telling-IsSafe C c safe address content) running)
          st publish_event refl (λ h. cc)),
  )
