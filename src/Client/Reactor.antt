-- ===== src/Client/Reactor.antt =====
-- The actor's start, and the handlers that zloop calls: an API command, a message of the server, a
-- timeout, a wakeup. The Boolean is whether a handler returns 0; -1 ends the reactor.
use zccp.Base.{ℕ, pos, Bool, true, false, not, List, [], Option, none, some, if◌then◌else◌, streq}
use zccp.Base.Results.{Result, ok, ◌>>=◌}
use zccp.Czmq.{Frame, Czmq}
use zccp.Codec.{ZccpMsg, zccp_msg_new}
use zccp.Codec.Socket.{zccp_msg_recv}
use zccp.Client.{start_state, null_event, expired_event, Command, Client}
use zccp.Client.Actions.{codes}
use zccp.Client.Engine.{s_protocol_event, s_client_execute}
use zccp.Client.Method.{client_method}

module _ (C : Czmq) where
  open C use {Hash}

  -- s_client_new with client_initialize.
  unfoldable pub s_client_new : Client Hash
  unfolding zccp_msg_new
  s_client_new = record {
    msgout = zccp_msg_new Hash 0;
    msgin = none;
    endpoint = none;
    connect_timeout = pos 0;
    presence_timeout = pos 3000;
    terminated = false;
    timeout = 0;
    state = start_state;
    event = null_event;
    next_event = null_event;
    exception = null_event;
    expiry_timer = 0;
    wakeup_timer = 0;
    wakeup_event = null_event;
    verbose = false;
    timers = [];
    dealing = false;
    sent = [];
    signalled = [];
  }

  -- `return self->terminated? -1: 0`.
  unfoldable pub status : Result (Client Hash) → Result (Bool × Client Hash)
  status r = do c ← r; ok (not c.terminated, c)

  unfoldable pub s_client_handle_timeout : ℕ → Client Hash → Result (Bool × Client Hash)
  unfolding status s_client_execute
  s_client_handle_timeout fuel c = status (s_client_execute C fuel expired_event c)

  unfoldable pub s_client_handle_wakeup : ℕ → Client Hash → Result (Bool × Client Hash)
  unfolding s_client_execute
  s_client_handle_wakeup fuel c = do d ← s_client_execute C fuel c.wakeup_event c; ok (true, d)

  unfoldable pub execute_method : ℕ → Command → Client Hash → Result (Client Hash)
  unfolding client_method s_client_execute
  execute_method fuel command c = do (e, d) ← client_method C command c; s_client_execute C fuel e d

  -- Frames behind what the method read are discarded.
  unfoldable pub s_client_handle_pipe :
      ℕ → Option Command → Client Hash → Result (Bool × Client Hash)
  unfolding execute_method status
  s_client_handle_pipe fuel none c = ok (false, c)
  s_client_handle_pipe fuel (some (method, parts)) c =
      if streq method (codes "VERBOSE")
      then status (ok (record c { verbose = true }))
      else if streq method (codes "$TERM")
      then status (ok (record c { terminated = true }))
      else status (execute_method fuel (method, parts) c)

  -- s_protocol_event has the client with the message already.
  unfoldable pub execute_protocol : ℕ → ZccpMsg Hash → Client Hash → Result (Client Hash)
  unfolding s_protocol_event s_client_execute
  execute_protocol fuel msgin c =
      let (e, d) = s_protocol_event C msgin (record c { msgin = some msgin }) in
      s_client_execute C fuel e d

  unfoldable pub s_client_handle_protocol :
      ℕ → Option (List Frame) → Client Hash → Result (Bool × Client Hash)
  unfolding zccp_msg_recv execute_protocol status
  s_client_handle_protocol fuel input c = elim (zccp_msg_recv C false input) [
    | none ↦ ok (false, c)
    | some msgin ↦ status (execute_protocol fuel msgin c)
  ]
