-- ===== src/Server/Requests.antt =====
-- What the actions of HELLO and SUBSCRIBE do to a client whose object was just written.
use zccp.Base.{◌≡◌, ap, some}
use zccp.Czmq.{Str, Czmq}
use zccp.Codec.{hello_ok, subscribe_ok, ZccpMsg}
use zccp.Codec.Access.{zccp_msg_identifier, zccp_msg_expression}
use zccp.Server.{
  connected_state, Event, null_event, hello_event, subscribe_event, Ptr, Client, Server, Result, ok,
  ◌>>=◌, or_fault,
}
use zccp.Server.Actions.{
  write, set_state, send_reply, new_reply, register_new_client, store_new_subscription,
}
use zccp.Server.Patterns.{store}
use zccp.Server.Engine.{run_start, run_connected}
use zccp.Server.Memory.{read-write, write-write, change-write, unless_exception-write}
use zccp.Server.Outcome.{begun, replied, renewed, reply-write}

module _ (C : Czmq) where
  open C use {Hash}

  -- HELLO: the client is registered.
  abbrev pub greeted : Str → Client Hash → Client Hash
  greeted i c = record (renewed C (begun C hello_event c)) {
    identifier = some i;
    state = connected_state;
  }

  register-write :
      (p : Ptr) (c : Client Hash) (s : Server Hash) (r : ZccpMsg Hash) (i : Str)
      → c.request ≡ some r
      → zccp_msg_identifier C r ≡ some i
      → register_new_client C p (write C p c s)
        ≡ ok (write C p (record c { identifier = some i }) s)
  unfolding register_new_client
  register-write p c s r i hr hi =
      rw (read-write C p c s, ◌>>=◌, ap or_fault hr, ap or_fault hi)
        (ap ok (write-write C p c (record c { identifier = some i }) s))

  store_new_subscription-write :
      (p : Ptr) (c : Client Hash) (s : Server Hash) (r : ZccpMsg Hash) (x : Str)
      → c.request ≡ some r
      → zccp_msg_expression C r ≡ some x
      → store_new_subscription C p (write C p c s)
        ≡ ok (write C p c (record s { patterns = store p x s.patterns }))
  unfolding store_new_subscription write
  store_new_subscription-write p c s r x hr hx =
      rw (read-write C p c s, ◌>>=◌, ap or_fault hr, ap or_fault hx)

  pub run_hello :
      (p : Ptr) (c : Client Hash) (s : Server Hash) (r : ZccpMsg Hash) (i : Str)
      → c.exception ≡ null_event
      → c.reply ≡ new_reply C c.routing_id
      → c.request ≡ some r
      → zccp_msg_identifier C r ≡ some i
      → run_start C p hello_event (write C p c s)
        ≡ ok (
            write C p
              (record (renewed C c) { identifier = some i; state = connected_state })
              (replied C hello_ok c s))
  unfolding run_start set_state
  run_hello p c s r i x fresh hr hi =
      rw
        (
          unless_exception-write C p (register_new_client C p) c s x,
          register-write p c s r i hr hi,
          ◌>>=◌,
          unless_exception-write C p (send_reply C p hello_ok) (record c { identifier = some i }) s
              x,
          reply-write C p hello_ok (record c { identifier = some i }) s fresh,
          ◌>>=◌,
          unless_exception-write C p (set_state C p connected_state)
              (record (renewed C c) { identifier = some i }) (replied C hello_ok c s) x,
        )
        (change-write C p (λ d. record d { state = connected_state })
          (record (renewed C c) { identifier = some i }) (replied C hello_ok c s))

  pub run_subscribe :
      (send : Ptr → Event → Server Hash → Result (Server Hash)) (p : Ptr) (c : Client Hash)
      (s : Server Hash) (r : ZccpMsg Hash) (x : Str)
      → c.exception ≡ null_event
      → c.reply ≡ new_reply C c.routing_id
      → c.request ≡ some r
      → zccp_msg_expression C r ≡ some x
      → run_connected C send p subscribe_event (write C p c s)
        ≡ ok (
            write C p
              (renewed C c)
              (replied C subscribe_ok c (record s { patterns = store p x s.patterns })))
  unfolding run_connected
  run_subscribe send p c s r x n fresh hr hx =
      rw
        (
          unless_exception-write C p (store_new_subscription C p) c s n,
          store_new_subscription-write p c s r x hr hx,
          ◌>>=◌,
          unless_exception-write C p (send_reply C p subscribe_ok) c
              (record s { patterns = store p x s.patterns }) n,
        )
        (reply-write C p subscribe_ok c (record s { patterns = store p x s.patterns }) fresh)
