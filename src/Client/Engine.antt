-- ===== src/Client/Engine.antt =====
-- s_client_execute of zccp_client_engine.inc: the switch on the state, and the loop on events.
use zccp.Base.{
  ℕ, zero, suc, true, false, List, [], ◌∷◌, Option, none, some, if◌then◌else◌, ◌==◌, ◌||◌,
}
use zccp.Base.Results.{ok, fault, stuck, ◌>>=◌, ◌>>◌, skip}
use zccp.Czmq.{Czmq}
use zccp.Codec.{
  Kind, hello, hello_ok, subscribe, subscribe_ok, publish, direct, deliver, goodbye, goodbye_ok,
  ping, ping_ok, invalid, kind_of, ZccpMsg,
}
use zccp.Codec.Access.{zccp_msg_id}
use zccp.Client.{
  State, start_state, connecting_state, connected_state, subscribing_state, disconnecting_state,
  defaults_state, reconnecting_state, Event, null_event, connect_event, hello_ok_event,
  expired_event, subscribe_event, publish_event, direct_event, deliver_event, ping_event,
  close_connection_event, error_event, subscribe_ok_event, goodbye_ok_event, invalid_event, Client,
  is_null,
}
use zccp.Client.Actions.{
  Action, unless_exception, set_state, terminate, send, connect_to_server_endpoint,
  use_connect_timeout, use_presence_timeout, signal_success, signal_server_not_present,
  deliver_message_to_application,
}

-- The switch of s_protocol_event; `none` is its default.
unfoldable pub event_of : Option Kind → Option Event
event_of (some hello_ok) = some hello_ok_event
event_of (some subscribe) = some subscribe_event
event_of (some subscribe_ok) = some subscribe_ok_event
event_of (some publish) = some publish_event
event_of (some direct) = some direct_event
event_of (some deliver) = some deliver_event
event_of (some goodbye_ok) = some goodbye_ok_event
event_of (some ping) = some ping_event
event_of (some invalid) = some invalid_event
event_of _ = none

-- What the engine relies on of zloop_timer_end of CZMQ: the timers with that id are gone.
unfoldable pub end_timer : ℕ → List ℕ → List ℕ
end_timer id [] = []
end_timer id (t ∷ ts) = if t == id then end_timer id ts else t ∷ end_timer id ts

module _ (C : Czmq) where
  open C use {Hash}

  -- The default of the switch terminates the client.
  unfoldable pub halt_unless : Option Event → Client Hash → Event × Client Hash
  halt_unless (some e) c = (e, c)
  halt_unless none c = (null_event, record c { terminated = true })

  unfoldable pub s_protocol_event : ZccpMsg Hash → Client Hash → Event × Client Hash
  unfolding zccp_msg_id event_of halt_unless
  s_protocol_event msgin c = halt_unless (event_of (kind_of (zccp_msg_id C msgin))) c

  -- What each state but the first does on INVALID, and most of them on expired.
  unfoldable pub reconnect : Action C
  unfolding use_connect_timeout send set_state unless_exception
  reconnect = do
    unless_exception C (use_connect_timeout C)
    unless_exception C (send C hello)
    unless_exception C (set_state C reconnecting_state)

  -- An event that is not expected fails `assert (false)`.
  unfoldable pub run_start : Event → Action C
  unfolding connect_to_server_endpoint use_connect_timeout send set_state unless_exception
  run_start connect_event = do
    unless_exception C (connect_to_server_endpoint C)
    unless_exception C (use_connect_timeout C)
    unless_exception C (send C hello)
    unless_exception C (set_state C connecting_state)
  run_start _ = λ c. fault

  unfoldable pub run_connecting : Event → Action C
  unfolding signal_success use_presence_timeout set_state signal_server_not_present terminate
      reconnect unless_exception
  run_connecting hello_ok_event = do
    unless_exception C (signal_success C)
    unless_exception C (use_presence_timeout C)
    unless_exception C (set_state C connected_state)
  run_connecting expired_event = do
    unless_exception C (signal_server_not_present C)
    unless_exception C (terminate C)
  run_connecting invalid_event = reconnect
  run_connecting _ = skip

  unfoldable pub run_connected : Event → Action C
  unfolding send set_state deliver_message_to_application terminate reconnect unless_exception
  run_connected subscribe_event = do
    unless_exception C (send C subscribe)
    unless_exception C (set_state C subscribing_state)
  run_connected publish_event = unless_exception C (send C publish)
  run_connected direct_event = unless_exception C (send C direct)
  run_connected deliver_event = unless_exception C (deliver_message_to_application C)
  run_connected ping_event = unless_exception C (send C ping_ok)
  run_connected close_connection_event = do
    unless_exception C (send C goodbye)
    unless_exception C (set_state C disconnecting_state)
  run_connected error_event = unless_exception C (terminate C)
  run_connected expired_event = reconnect
  run_connected invalid_event = reconnect
  run_connected _ = skip

  unfoldable pub run_subscribing : Event → Action C
  unfolding signal_success set_state reconnect unless_exception
  run_subscribing subscribe_ok_event = do
    unless_exception C (signal_success C)
    unless_exception C (set_state C connected_state)
  run_subscribing expired_event = reconnect
  run_subscribing invalid_event = reconnect
  run_subscribing _ = skip

  unfoldable pub run_disconnecting : Event → Action C
  unfolding terminate reconnect unless_exception
  run_disconnecting goodbye_ok_event = unless_exception C (terminate C)
  run_disconnecting expired_event = unless_exception C (terminate C)
  run_disconnecting invalid_event = reconnect
  run_disconnecting _ = skip

  unfoldable pub run_defaults : Event → Action C
  unfolding reconnect
  run_defaults expired_event = reconnect
  run_defaults invalid_event = reconnect
  run_defaults _ = skip

  unfoldable pub run_reconnecting : Event → Action C
  unfolding set_state reconnect unless_exception
  run_reconnecting hello_ok_event = unless_exception C (set_state C connected_state)
  run_reconnecting expired_event = reconnect
  run_reconnecting invalid_event = reconnect
  run_reconnecting _ = skip

  unfoldable pub run_state : State → Event → Action C
  unfolding run_start run_connecting run_connected run_subscribing run_disconnecting run_defaults
      run_reconnecting
  run_state start_state = run_start
  run_state connecting_state = run_connecting
  run_state connected_state = run_connected
  run_state subscribing_state = run_subscribing
  run_state disconnecting_state = run_disconnecting
  run_state defaults_state = run_defaults
  run_state reconnecting_state = run_reconnecting

  -- The head of a round: the next event becomes the current one.
  unfoldable pub begin_round : Client Hash → Client Hash
  begin_round c = record c { event = c.next_event; next_event = null_event; exception = null_event }

  -- "If we had an exception event, interrupt normal programming".
  unfoldable pub raise_exception : Client Hash → Client Hash
  raise_exception c = record c {
    next_event = if is_null c.exception then c.next_event else c.exception;
  }

  unfoldable pub round : Action C
  unfolding begin_round run_state raise_exception
  round c = do d ← run_state c.state c.next_event (begin_round c); ok (raise_exception d)

  -- `while (!self->terminated && self->next_event != NULL_event)`. The fuel bounds the tests.
  unfoldable pub loop : ℕ → Action C
  unfolding round
  loop zero c = stuck
  loop (suc fuel) c = elim (c.terminated || is_null c.next_event) [
    | true ↦ ok c
    | false ↦ round c >>= loop fuel
  ]

  -- The event, and the cancelled wakeup timer.
  unfoldable pub begin_execute : Event → Client Hash → Client Hash
  unfolding end_timer
  begin_execute e c = record c {
    next_event = e;
    wakeup_timer = 0;
    timers = if c.wakeup_timer == 0 then c.timers else end_timer c.wakeup_timer c.timers;
  }

  unfoldable pub s_client_execute : ℕ → Event → Action C
  unfolding begin_execute loop
  s_client_execute fuel e c = loop fuel (begin_execute e c)
