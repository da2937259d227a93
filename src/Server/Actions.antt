-- ===== src/Server/Actions.antt =====
-- The actions of the state machine: those of zccp_server.c, and the sends, moves and checks of the
-- engine, for the client at a pointer.
use zccp.Base.{ℕ, true, List, [], ◌∷◌, ◌++◌, Option, none, some, if◌then◌else◌, ◌==◌}
use zccp.Czmq.{Str, Frame, Czmq}
use zccp.Codec.{Kind, code, ZccpMsg, zccp_msg_new}
use zccp.Codec.Access.{
  zccp_msg_identifier, zccp_msg_expression, zccp_msg_address, zccp_msg_content, zccp_msg_set_id,
  zccp_msg_set_routing_id, zccp_msg_set_sender, zccp_msg_set_address, zccp_msg_set_headers,
  zccp_msg_set_content,
}
use zccp.Codec.Socket.{zccp_msg_send}
use zccp.Server.{
  State, Event, Ptr, Pattern, Client, Server, Timer, Result, ok, fault, ◌>>=◌, ◌>>◌, skip, or_fault,
  update, update_key, is_null,
}
use zccp.Server.Patterns.{store, drop_client}
use mathlib.Core.Option

-- What the engine relies on of zloop_timer_end of CZMQ: the timers with that id are gone.
unfoldable pub end_timer : ℕ → List Timer → List Timer
end_timer id [] = []
end_timer id (t ∷ ts) = if t.timer_id == id then end_timer id ts else t ∷ end_timer id ts

-- `if (timer) zloop_timer_end (loop, timer)`.
unfoldable pub end_timer_if_set : ℕ → List Timer → List Timer
unfolding end_timer
end_timer_if_set id ts = if id == 0 then ts else end_timer id ts

module _ (C : Czmq) where
  open C use {Hash, zhash_dup, zrex_matches}

  -- The object at an address.
  unfoldable pub read : Ptr → Server Hash → Result (Client Hash)
  read p s = or_fault (s.memory p)

  unfoldable pub write : Ptr → Client Hash → Server Hash → Server Hash
  write p c s = record s { memory = update s.memory p (some c) }

  -- A piece of code that changes the server.
  abbrev pub Action : Type 0
  Action = Server Hash → Result (Server Hash)

  unfoldable pub change : Ptr → (Client Hash → Client Hash) → Action
  unfolding read write
  change p f s = do c ← read p s; ok (write p (f c) s)

  -- engine_set_next_event, and the assignments `self->next_event = …`.
  unfoldable pub set_next_event : Ptr → Event → Action
  unfolding change
  set_next_event p e = change p (λ c. record c { next_event = e })

  unfoldable pub set_state : Ptr → State → Action
  unfolding change
  set_state p st = change p (λ c. record c { state = st })

  -- `if (!self->exception)` before each action.
  unfoldable pub unless_exception : Ptr → Action → Action
  unfolding read
  unless_exception p action s = do c ← read p s; if is_null c.exception then action s else ok s

  -- The new reply object after a send.
  unfoldable pub new_reply : Frame → ZccpMsg Hash
  unfolding zccp_msg_new zccp_msg_set_routing_id
  new_reply routing_id = zccp_msg_set_routing_id C (zccp_msg_new Hash 0) routing_id

  -- "send …": number the reply, send it through the router, make a new one.
  unfoldable pub send_reply : Ptr → Kind → Action
  unfolding read write zccp_msg_set_id new_reply
  send_reply p k s = do
    c ← read p s
    msg ← or_fault (zccp_msg_send C true (zccp_msg_set_id C c.reply (code k)))
    ok (
        write p (record c { reply = new_reply c.routing_id })
          (record s { sent = s.sent ++ msg ∷ [] }))

  -- strdup (zccp_msg_identifier (self->request)).
  unfoldable pub register_new_client : Ptr → Action
  unfolding read write zccp_msg_identifier
  register_new_client p s = do
    c ← read p s
    request ← or_fault c.request
    identifier ← or_fault (zccp_msg_identifier C request)
    ok (write p (record c { identifier = some identifier }) s)

  unfoldable pub store_new_subscription : Ptr → Action
  unfolding read zccp_msg_expression
  store_new_subscription p s = do
    c ← read p s
    request ← or_fault c.request
    expression ← or_fault (zccp_msg_expression C request)
    ok (record s { patterns = store p expression s.patterns })

  -- The loops of forward_to_subscribers over a pattern's clients and over the patterns. `send` is
  -- engine_send_event (client, forward_event). The lists are taken as the loops find them; the
  -- events that are sent leave them as they are (Forward.antt).
  unfoldable pub forward_clients : (Ptr → Action) → Ptr → List Ptr → Action
  forward_clients send self [] = skip
  forward_clients send self (q ∷ qs) = do
    (if q == self then skip else send q)
    forward_clients send self qs

  unfoldable pub forward_pattern : (Ptr → Action) → Ptr → Option Str → Pattern → Action
  unfolding forward_clients
  forward_pattern send self none x = λ s. fault
  forward_pattern send self (some address) x =
      if zrex_matches x.expression address then forward_clients send self x.clients else skip

  unfoldable pub forward_patterns : (Ptr → Action) → Ptr → Option Str → List Pattern → Action
  forward_patterns send self address [] = skip
  forward_patterns send self address (x ∷ xs) = do
    forward_pattern send self address x
    forward_patterns send self address xs

  unfoldable pub forward_to_subscribers : (Ptr → Action) → Ptr → Action
  unfolding read zccp_msg_address zccp_msg_content forward_patterns
  forward_to_subscribers send p s = do
    c ← read p s
    request ← or_fault c.request
    forward_patterns send p (zccp_msg_address C request) s.patterns (record s {
      sender = c.identifier;
      address = zccp_msg_address C request;
      content = zccp_msg_content C request;
    })

  -- zhash_dup and zmsg_dup of NULL are NULL.
  unfoldable pub get_content_to_publish : Ptr → Action
  unfolding read write zccp_msg_set_sender zccp_msg_set_address zccp_msg_set_headers
      zccp_msg_set_content
  get_content_to_publish p s = do
    c ← read p s
    sender ← or_fault s.sender
    address ← or_fault s.address
    ok (
        write p
          (record c {
            reply =
                zccp_msg_set_content C
                  (zccp_msg_set_headers C
                    (zccp_msg_set_address C (zccp_msg_set_sender C c.reply sender) address)
                    (Option.map zhash_dup s.headers))
                  s.content;
          })
          s)

  -- s_client_destroy with client_terminate: timers, then subscriptions, then the object itself.
  unfoldable pub s_client_destroy : Ptr → Action
  unfolding read end_timer_if_set drop_client
  s_client_destroy p s = do
    c ← read p s
    ok (record s {
      timers = end_timer_if_set c.expiry_timer (end_timer_if_set c.wakeup_timer s.timers);
      patterns = drop_client p s.patterns;
      memory = update s.memory p none;
    })

  -- zhash_delete (self->server->clients, self->hashkey), whose free function is s_client_free.
  unfoldable pub delete_client : Str → Action
  unfolding s_client_destroy
  delete_client key s = elim (s.clients key) [
    | none ↦ ok s
    | some p ↦ s_client_destroy p (record s { clients = update_key s.clients key none })
  ]
