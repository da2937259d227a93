-- ===== src/Server/Engine.antt =====
-- The state machine of zccp_server_engine.inc.
use zccp.Base.{ℕ, zero, suc, Bool, true, false, List, [], ◌∷◌, Option, none, some, if◌then◌else◌}
use zccp.Czmq.{Czmq}
use zccp.Codec.{
  Kind, hello, hello_ok, subscribe, subscribe_ok, publish, direct, deliver, goodbye, goodbye_ok,
  invalid, kind_of, ZccpMsg,
}
use zccp.Codec.Access.{zccp_msg_id}
use zccp.Server.{
  State, start_state, connected_state, external_state, Event, terminate_event, null_event,
  hello_event, subscribe_event, publish_event, direct_event, forward_event, goodbye_event,
  expired_event, Ptr, Client, Server, Result, ok, fault, stuck, ◌>>=◌, ◌>>◌, skip, is_null,
  is_terminate,
}
use zccp.Server.Actions.{
  read, write, Action, set_next_event, set_state, unless_exception, send_reply, register_new_client,
  store_new_subscription, forward_to_subscribers, get_content_to_publish, end_timer_if_set,
  delete_client,
}

-- The switch of s_protocol_event. Its default is terminate_event.
unfoldable pub event_of : Option Kind → Event
event_of (some hello) = hello_event
event_of (some subscribe) = subscribe_event
event_of (some publish) = publish_event
event_of (some direct) = direct_event
event_of (some goodbye) = goodbye_event
event_of _ = terminate_event

-- The test of s_client_filter_mailbox: each of the three states takes every event.
unfoldable pub event_is_valid : State → Bool
event_is_valid start_state = true
event_is_valid connected_state = true
event_is_valid external_state = true

module _ (C : Czmq) where
  open C use {Hash}

  unfoldable pub s_protocol_event : ZccpMsg Hash → Event
  unfolding zccp_msg_id event_of
  s_protocol_event request = event_of (kind_of (zccp_msg_id C request))

  -- The first request of the mailbox that the state takes, with its event and the other requests.
  unfoldable pub take_request :
      State → List (ZccpMsg Hash) → Option (Event × ZccpMsg Hash × List (ZccpMsg Hash))
  unfolding event_is_valid s_protocol_event
  take_request st [] = none
  take_request st (request ∷ mailbox) =
      if event_is_valid st
      then some (s_protocol_event request, request, mailbox)
      else elim (take_request st mailbox) [
        | none ↦ none
        | some (e, taken, rest) ↦ some (e, taken, request ∷ rest)
      ]

  unfoldable pub load_request :
      Ptr
      → Client Hash
      → Option (Event × ZccpMsg Hash × List (ZccpMsg Hash))
      → Server Hash
      → Result (Event × Server Hash)
  unfolding write
  load_request p c none s = ok (null_event, s)
  load_request p c (some (e, request, rest)) s =
      ok (e, write C p (record c { mailbox = rest; request = some request }) s)

  unfoldable pub s_client_filter_mailbox : Ptr → Server Hash → Result (Event × Server Hash)
  unfolding read take_request load_request
  s_client_filter_mailbox p s = do
    c ← read C p s
    load_request p c (take_request c.state c.mailbox) s

  unfoldable pub send_and_terminate : Ptr → Kind → Action C
  unfolding send_reply set_next_event unless_exception
  send_and_terminate p k = do
    unless_exception C p (send_reply C p k)
    unless_exception C p (set_next_event C p terminate_event)

  unfoldable pub terminate : Ptr → Action C
  unfolding set_next_event unless_exception
  terminate p = unless_exception C p (set_next_event C p terminate_event)

  unfoldable pub run_start : Ptr → Event → Action C
  unfolding send_and_terminate terminate set_state register_new_client
  run_start p hello_event = do
    unless_exception C p (register_new_client C p)
    unless_exception C p (send_reply C p hello_ok)
    unless_exception C p (set_state C p connected_state)
  run_start p goodbye_event = send_and_terminate p goodbye_ok
  run_start p expired_event = terminate p
  run_start p _ = send_and_terminate p invalid

  -- `send` is engine_send_event.
  unfoldable pub run_connected : (Ptr → Event → Action C) → Ptr → Event → Action C
  unfolding send_and_terminate terminate store_new_subscription forward_to_subscribers
      get_content_to_publish
  run_connected send p subscribe_event = do
    unless_exception C p (store_new_subscription C p)
    unless_exception C p (send_reply C p subscribe_ok)
  run_connected send p publish_event =
      unless_exception C p (forward_to_subscribers C (λ q. send q forward_event) p)
  run_connected send p direct_event = skip
  run_connected send p forward_event = do
    unless_exception C p (get_content_to_publish C p)
    unless_exception C p (send_reply C p deliver)
  run_connected send p goodbye_event = send_and_terminate p goodbye_ok
  run_connected send p expired_event = terminate p
  run_connected send p _ = send_and_terminate p invalid

  unfoldable pub run_external : Ptr → Event → Action C
  unfolding send_and_terminate terminate
  run_external p goodbye_event = send_and_terminate p goodbye_ok
  run_external p expired_event = terminate p
  run_external p _ = send_and_terminate p invalid

  unfoldable pub run_state : (Ptr → Event → Action C) → Ptr → State → Event → Action C
  unfolding run_start run_connected run_external
  run_state send p start_state e = run_start p e
  run_state send p connected_state e = run_connected send p e
  run_state send p external_state e = run_external p e

  -- `if (self->server->verbose)`: the log takes the event's name from a table that begins with the
  -- event 0. terminate_event is -1, so its name is a read outside of the table. The name of an
  -- exception is looked up in the same way; for NULL_event, which is none, there is no more to do.
  unfoldable pub name_event : Event → Action C
  name_event terminate_event s = if s.verbose then fault else ok s
  name_event _ s = ok s

  -- The head of a round: the next event becomes the current one.
  unfoldable pub begin_round : Client Hash → Client Hash
  begin_round c = record c { event = c.next_event; next_event = null_event; exception = null_event }

  unfoldable pub raise_exception : Client Hash → Client Hash
  raise_exception c = record c {
    next_event = if is_null c.exception then c.next_event else c.exception;
  }

  -- The next valid request of the mailbox, if any, becomes the next event.
  unfoldable pub next_request : Ptr → Server Hash → Result (Bool × Server Hash)
  unfolding s_client_filter_mailbox set_next_event
  next_request p s = do
    (e, t) ← s_client_filter_mailbox p s
    u ← set_next_event C p e t
    ok (true, u)

  -- What follows the actions: the tests of the next event, first for terminate_event, then for
  -- NULL_event. The Boolean says whether the loop goes on: it breaks once the client is deleted.
  unfoldable pub after_actions :
      Bool → Bool → Ptr → Client Hash → Server Hash → Result (Bool × Server Hash)
  unfolding delete_client next_request
  after_actions true null p c s = delete_client C c.hashkey s >>= (λ t. ok (false, t))
  after_actions false true p c s = next_request p s
  after_actions false false p c s = ok (true, s)

  unfoldable pub end_round : Ptr → Server Hash → Result (Bool × Server Hash)
  unfolding read write name_event raise_exception after_actions
  end_round p s = do
    c ← read C p s
    u ← name_event c.exception s
    let c' = raise_exception c
    after_actions (is_terminate c'.next_event) (is_null c'.next_event) p c' (write C p c' u)

  unfoldable pub round : (Ptr → Event → Action C) → Ptr → Server Hash → Result (Bool × Server Hash)
  unfolding read write begin_round name_event run_state end_round
  round send p s = do
    c ← read C p s
    u ← name_event c.next_event (write C p (begin_round c) s)
    t ← run_state send p c.state c.next_event u
    end_round p t

  -- The head of s_client_execute: set the next event, cancel a pending wakeup timer.
  unfoldable pub begin_execute : Ptr → Event → Action C
  unfolding read write end_timer_if_set
  begin_execute p e s = do
    c ← read C p s
    ok (
        write C p (record c { next_event = e; wakeup_timer = 0 })
          (record s { timers = end_timer_if_set c.wakeup_timer s.timers }))

  -- The next turn of the loop, unless the round broke out of it.
  unfoldable pub unless_deleted : Action C → Bool × Server Hash → Result (Server Hash)
  unless_deleted again (true, s) = again s
  unless_deleted again (false, s) = ok s

  -- `while (self->next_event != NULL_event)`. The fuel bounds the rounds and the depth to which
  -- clients send each other events.
  unfoldable pub loop : ℕ → Ptr → Action C
  unfolding read begin_execute round unless_deleted
  loop zero p s = stuck
  loop (suc fuel) p s = do
    c ← read C p s
    elim (is_null c.next_event) [
      | true ↦ ok s
      | false ↦
          round (λ q e t. begin_execute q e t >>= loop fuel q) p s >>= unless_deleted (loop fuel p)
    ]

  -- s_client_execute, which is also what engine_send_event does.
  unfoldable pub s_client_execute : ℕ → Ptr → Event → Action C
  unfolding begin_execute loop
  s_client_execute fuel p e s = begin_execute p e s >>= loop fuel p
