-- ===== src/Server/Reactor.antt =====
-- The handlers that zloop calls: a protocol message, a timeout, a wakeup.
use zccp.Base.{ℕ, ◌+◌, ◌%◌, ◌^◌, Bool, true, false, List, [], ◌∷◌, ◌++◌, Option, none, some}
use zccp.Czmq.{Frame, Czmq}
use zccp.Codec.{ZccpMsg}
use zccp.Codec.Access.{zccp_msg_routing_id}
use zccp.Codec.Socket.{zccp_msg_recv}
use zccp.Server.{
  start_state, null_event, expired_event, Ptr, Client, Server, Result, ok, ◌>>=◌, or_fault,
  update_key, is_null,
}
use zccp.Server.Actions.{read, write, Action, new_reply, end_timer_if_set}
use zccp.Server.Engine.{s_client_filter_mailbox, s_client_execute}

module _ (C : Czmq) where
  open C use {Hash, zframe_strhex}

  -- s_client_new: a cleared object with its keys; client_initialize does nothing.
  unfoldable pub new_client : Frame → ℕ → Client Hash
  unfolding new_reply
  new_client routing_id unique_id = record {
    request = none;
    reply = new_reply C routing_id;
    identifier = none;
    hashkey = zframe_strhex routing_id;
    routing_id = routing_id;
    unique_id = unique_id;
    mailbox = [];
    state = start_state;
    event = null_event;
    next_event = null_event;
    exception = null_event;
    expiry_timer = 0;
    wakeup_timer = 0;
    wakeup_event = null_event;
  }

  -- The object is put where no object is; the counter is an unsigned int.
  unfoldable pub s_client_new : Frame → Server Hash → Ptr × Server Hash
  unfolding new_client write
  s_client_new routing_id s = (
    s.next_ptr,
    write C s.next_ptr (new_client routing_id s.client_id)
        (record s { client_id = (s.client_id + 1) % 2 ^ 32; next_ptr = s.next_ptr + 1 }),
  )

  -- s_server_new with server_initialize, after the random start of the counter: no pattern, no
  -- client. Address 0 is NULL, and timer 0 is none, so both counts begin at 1.
  unfoldable pub s_server_new : ℕ → Server Hash
  s_server_new client_id = record {
    verbose = false;
    patterns = [];
    sender = none;
    address = none;
    headers = none;
    content = none;
    clients = λ key. none;
    client_id = client_id;
    timers = [];
    next_timer = 1;
    memory = λ p. none;
    next_ptr = 1;
    sent = [];
  }

  -- The client of a routing id: the one in the table, or a new one.
  unfoldable pub find_client : Frame → Server Hash → Ptr × Server Hash
  unfolding s_client_new
  find_client routing_id s = elim (s.clients (zframe_strhex routing_id)) [
    | some p ↦ (p, s)
    | none ↦
        let (p, t) = s_client_new routing_id s in
        (p, record t { clients = update_key t.clients (zframe_strhex routing_id) (some p) })
  ]

  -- End the old expiry timer, start a new one.
  unfoldable pub reset_expiry : Ptr → Action C
  unfolding read write end_timer_if_set
  reset_expiry p s = do
    c ← read C p s
    ok (
        write C p (record c { expiry_timer = s.next_timer })
          (record s {
            timers =
                end_timer_if_set c.expiry_timer s.timers
                ++ record { timer_id = s.next_timer; client = p } ∷ [];
            next_timer = s.next_timer + 1;
          }))

  -- zlist_append (client->mailbox, msg).
  unfoldable pub queue_request : Ptr → ZccpMsg Hash → Action C
  unfolding read write
  queue_request p msg s = do
    c ← read C p s
    ok (write C p (record c { mailbox = c.mailbox ++ msg ∷ [] }) s)

  -- What s_server_client_message does with a message that was received.
  unfoldable pub accept_message : ℕ → Frame → ZccpMsg Hash → Action C
  unfolding find_client reset_expiry queue_request s_client_filter_mailbox s_client_execute
  accept_message fuel routing_id msg s = do
    let (p, s₁) = find_client routing_id s
    s₂ ← reset_expiry p s₁
    s₃ ← queue_request p msg s₂
    (e, s₄) ← s_client_filter_mailbox C p s₃
    (elim (is_null e) [ true ↦ ok s₄ | false ↦ s_client_execute C fuel p e s₄ ])

  -- s_server_client_message. The Boolean is whether it returns 0; -1 ends the reactor.
  unfoldable pub s_server_client_message :
      ℕ → Option (List Frame) → Server Hash → Result (Bool × Server Hash)
  unfolding accept_message zccp_msg_recv zccp_msg_routing_id
  s_server_client_message fuel input s = elim (zccp_msg_recv C true input) [
    | none ↦ ok (false, s)
    | some msg ↦ do
      routing_id ← or_fault (zccp_msg_routing_id C msg)
      t ← accept_message fuel routing_id msg s
      ok (true, t)
  ]

  -- s_client_handle_timeout and s_client_handle_wakeup.
  unfoldable pub s_client_handle_timeout : ℕ → Ptr → Action C
  unfolding s_client_execute
  s_client_handle_timeout fuel p = s_client_execute C fuel p expired_event

  unfoldable pub s_client_handle_wakeup : ℕ → Ptr → Action C
  unfolding read s_client_execute
  s_client_handle_wakeup fuel p s = do c ← read C p s; s_client_execute C fuel p c.wakeup_event s
