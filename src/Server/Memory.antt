-- ===== src/Server/Memory.antt =====
-- How the pieces of code act on a client whose object was just written: every state of a run is
-- brought to the form `write p c s`.
use zccp.Base.{
  ℕ, suc, ◌≡◌, ◌≢◌, ap, ◌∙◌, true, false, List, [], ◌∷◌, ◌++◌, Option, none, some, if◌then◌else◌,
  arith, refl, sym, subst, ◌⊎◌, inl, inr, Bool,
}
use zccp.Czmq.{Frame, Czmq}
use zccp.Codec.{Kind, code, ZccpMsg}
use zccp.Codec.Access.{zccp_msg_set_id}
use zccp.Codec.Socket.{zccp_msg_send}
use zccp.Server.{
  Event, null_event, terminate_event, State, Ptr, Client, Server, ok, ◌>>=◌, update, is_null,
  is_terminate, Result, fault, stuck, hello_event, subscribe_event, publish_event, direct_event,
  forward_event, goodbye_event, expired_event,
}
use zccp.Server.Actions.{
  read, write, delete_client, Action, change, set_next_event, unless_exception, send_reply,
  new_reply, end_timer_if_set,
}
use zccp.Server.Engine.{
  begin_execute, s_client_filter_mailbox, take_request, end_round, raise_exception, next_request,
  after_actions, load_request, loop, begin_round, round, run_state, unless_deleted,
  s_client_execute, name_event,
}
use mathlib.Core.Path.{fun_ext}

pub update_self : {A : Type 0} (m : ℕ → Option A) (p : ℕ) (a : Option A) → update m p a p ≡ a
update_self m p a = ground arith

pub update_other :
    {A : Type 0} (m : ℕ → Option A) (p q : ℕ) (a : Option A) → p ≢ q → update m p a q ≡ m q
update_other m p q a h = ground arith

pub update_twice :
    {A : Type 0} (m : ℕ → Option A) (p : ℕ) (a b : Option A)
    → update (update m p a) p b ≡ update m p b
update_twice m p a b = fun_ext (λ q. ground arith)

module _ (C : Czmq) where
  open C use {Hash}

  pub read-write : (p : Ptr) (c : Client Hash) (s : Server Hash) → read C p (write C p c s) ≡ ok c
  unfolding read write
  read-write p c s = rw (update_self s.memory p (some c))

  pub write-write :
      (p : Ptr) (c d : Client Hash) (s : Server Hash) → write C p d (write C p c s) ≡ write C p d s
  unfolding write
  write-write p c d s =
      ap (λ m. record s { memory = m }) (update_twice s.memory p (some c) (some d))

  pub change-write :
      (p : Ptr) (f : Client Hash → Client Hash) (c : Client Hash) (s : Server Hash)
      → change C p f (write C p c s) ≡ ok (write C p (f c) s)
  unfolding change
  change-write p f c s = rw (read-write p c s) (ap ok (write-write p c (f c) s))

  pub unless_exception-write :
      (p : Ptr) (a : Action C) (c : Client Hash) (s : Server Hash)
      → c.exception ≡ null_event
      → unless_exception C p a (write C p c s) ≡ a (write C p c s)
  unfolding unless_exception
  unless_exception-write p a c s e = rw (read-write p c s, e)

  -- A reply that can be sent goes out, and a new reply object takes its place.
  pub send_reply-write :
      (p : Ptr) (k : Kind) (c : Client Hash) (s : Server Hash) (msg : List Frame)
      → zccp_msg_send C true (zccp_msg_set_id C c.reply (code k)) ≡ some msg
      → send_reply C p k (write C p c s)
        ≡ ok (
            write C p
              (record c { reply = new_reply C c.routing_id })
              (record s { sent = s.sent ++ msg ∷ [] }))
  unfolding send_reply
  send_reply-write p k c s msg e =
      rw (read-write p c s, e)
        (unfold write in
          ap (λ m. ok (record s { memory = m; sent = s.sent ++ msg ∷ [] }))
            (update_twice s.memory p (some c) _))

  pub begin_execute-write :
      (p : Ptr) (e : Event) (c : Client Hash) (s : Server Hash)
      → s.memory p ≡ some c
      → c.wakeup_timer ≡ 0
      → begin_execute C p e s ≡ ok (write C p (record c { next_event = e; wakeup_timer = 0 }) s)
  unfolding begin_execute read write end_timer_if_set
  begin_execute-write p e c s m w = rw (m, w)

  take_request-nil :
      (st : State) (mailbox : List (ZccpMsg Hash)) → mailbox ≡ [] → take_request C st mailbox ≡ none
  unfolding take_request
  take_request-nil st mailbox e = rw e

  pub filter_mailbox-write :
      (p : Ptr) (c : Client Hash) (s : Server Hash)
      → c.mailbox ≡ []
      → s_client_filter_mailbox C p (write C p c s) ≡ ok (null_event, write C p c s)
  unfolding s_client_filter_mailbox take_request
  filter_mailbox-write p c s e =
      rw (read-write p c s, ◌>>=◌, take_request-nil c.state c.mailbox e, load_request)

  next_request-write :
      (p : Ptr) (c : Client Hash) (s : Server Hash)
      → c.mailbox ≡ []
      → next_request C p (write C p c s)
        ≡ ok (true, write C p (record c { next_event = null_event }) s)
  unfolding next_request set_next_event
  next_request-write p c s e =
      rw (
        filter_mailbox-write p c s e,
        change-write p (λ d. record d { next_event = null_event }) c s,
      )

  raise_exception-null : (c : Client Hash) → c.exception ≡ null_event → raise_exception C c ≡ c
  unfolding raise_exception
  raise_exception-null c x =
      ap (λ e. record c { next_event = if is_null e then c.next_event else c.exception }) x

  name_event-null : (e : Event) (s : Server Hash) → e ≡ null_event → name_event C e s ≡ ok s
  unfolding name_event
  name_event-null e s h = rw (h, name_event) refl

  end_round-write :
      (p : Ptr) (c : Client Hash) (s : Server Hash)
      → c.exception ≡ null_event
      → end_round C p (write C p c s)
        ≡ after_actions C (is_terminate c.next_event) (is_null c.next_event) p c (write C p c s)
  unfolding end_round
  end_round-write p c s x =
      rw (read-write p c s, ◌>>=◌)
        (ap
            (λ r. r >>= λ u.
              after_actions C (is_terminate (raise_exception C c).next_event)
                (is_null (raise_exception C c).next_event) p (raise_exception C c)
                (write C p (raise_exception C c) u))
            (name_event-null c.exception (write C p c s) x)
          ∙ rw (write-write p c (raise_exception C c) s) (
              ap
                (λ d.
                  after_actions C (is_terminate d.next_event) (is_null d.next_event) p d
                    (write C p d s))
                (raise_exception-null c x)))

  -- A round that ends with no next event and an empty mailbox: the loop goes on, and will stop.
  pub end_round-idle :
      (p : Ptr) (c : Client Hash) (s : Server Hash)
      → c.mailbox ≡ []
      → c.exception ≡ null_event
      → c.next_event ≡ null_event
      → end_round C p (write C p c s)
        ≡ ok (true, write C p (record c { next_event = null_event }) s)
  unfolding after_actions
  end_round-idle p c s m x n =
      end_round-write p c s x
      ∙ ap (λ e. after_actions C (is_terminate e) (is_null e) p c (write C p c s)) n
      ∙ next_request-write p c s m

  -- A round that ends with terminate_event: the client is deleted, and the loop breaks.
  pub end_round-terminate :
      (p : Ptr) (c : Client Hash) (s : Server Hash)
      → c.exception ≡ null_event
      → c.next_event ≡ terminate_event
      → end_round C p (write C p c s)
        ≡ (delete_client C c.hashkey (write C p c s) >>= λ t. ok (false, t))
  unfolding after_actions
  end_round-terminate p c s x n =
      end_round-write p c s x
      ∙ ap (λ e. after_actions C (is_terminate e) (is_null e) p c (write C p c s)) n

  -- The loop stops at a client with no next event.
  pub loop-null :
      (fuel : ℕ) (p : Ptr) (c : Client Hash) (s : Server Hash)
      → c.next_event ≡ null_event
      → loop C (suc fuel) p (write C p c s) ≡ ok (write C p c s)
  unfolding loop
  loop-null fuel p c s n = rw (read-write p c s, ◌>>=◌, ap is_null n)

  -- What the log of a round needs: terminate_event has no name.
  abbrev pub IsNamed : Event → Bool → Type 0
  IsNamed terminate_event v = v ≡ false
  IsNamed _ v = Unit

  name_event-named : (e : Event) (s : Server Hash) → IsNamed e s.verbose → name_event C e s ≡ ok s
  unfolding name_event
  name_event-named terminate_event s h = rw h refl
  name_event-named null_event s h = refl
  name_event-named hello_event s h = refl
  name_event-named subscribe_event s h = refl
  name_event-named publish_event s h = refl
  name_event-named direct_event s h = refl
  name_event-named forward_event s h = refl
  name_event-named goodbye_event s h = refl
  name_event-named expired_event s h = refl

  round-write :
      (send : Ptr → Event → Action C) (p : Ptr) (c : Client Hash) (s : Server Hash)
      → round C send p (write C p c s) ≡ (
          name_event C c.next_event (write C p (begin_round C c) s)
          >>= run_state C send p c.state c.next_event
          >>= end_round C p)
  unfolding round
  round-write send p c s =
      rw (read-write p c s, ◌>>=◌, write-write p c (begin_round C c) s)
        (bind_bind (name_event C c.next_event (write C p (begin_round C c) s)))
    where
      bind_bind :
          (r : Result (Server Hash))
          → (r >>= λ u. run_state C send p c.state c.next_event u >>= end_round C p)
            ≡ (r >>= run_state C send p c.state c.next_event >>= end_round C p)
      bind_bind (ok s) = refl
      bind_bind fault = refl
      bind_bind stuck = refl

  verbose-write :
      (p : Ptr) (d : Client Hash) (s : Server Hash) → (write C p d s).verbose ≡ s.verbose
  unfolding write
  verbose-write p d s = refl

  -- One turn of the loop at a client with an event, whose name the log has.
  pub loop-round :
      (fuel : ℕ) (p : Ptr) (c : Client Hash) (s : Server Hash)
      → is_null c.next_event ≡ false
      → IsNamed c.next_event s.verbose
      → loop C (suc fuel) p (write C p c s) ≡ (
          run_state C
            (s_client_execute C fuel)
            p
            c.state
            c.next_event
            (write C p (begin_round C c) s)
          >>= end_round C p
          >>= unless_deleted C (loop C fuel p))
  unfolding loop s_client_execute
  loop-round fuel p c s n h =
      rw (read-write p c s, ◌>>=◌, n)
        (ap (λ r. r >>= unless_deleted C (loop C fuel p))
          (round-write (s_client_execute C fuel) p c s
            ∙ ap
                (λ r.
                  r
                  >>= run_state C (s_client_execute C fuel) p c.state c.next_event
                  >>= end_round C p)
                (name_event-named c.next_event (write C p (begin_round C c) s)
                  (named-write p (begin_round C c) s c.next_event h))))
    where
      named-write :
          (p : Ptr) (d : Client Hash) (s : Server Hash) (e : Event)
          → IsNamed e s.verbose
          → IsNamed e (write C p d s).verbose
      named-write p d s e h = subst (IsNamed e) (sym (verbose-write p d s)) h

  name_event-fault :
      (e : Event) (s : Server Hash)
      → e ≡ terminate_event
      → s.verbose ≡ true
      → name_event C e s ≡ fault
  unfolding name_event
  name_event-fault e s h v = rw (h, name_event, v) refl

  round-fault :
      (send : Ptr → Event → Action C) (p : Ptr) (c : Client Hash) (s : Server Hash)
      → c.next_event ≡ terminate_event
      → s.verbose ≡ true
      → round C send p (write C p c s) ≡ fault
  round-fault send p c s e v =
      round-write send p c s
      ∙ ap (λ r. r >>= run_state C send p c.state c.next_event >>= end_round C p)
          (name_event-fault c.next_event (write C p (begin_round C c) s) e
            (verbose-write p (begin_round C c) s ∙ v))

  -- The log of a verbose broker reads outside of the table at terminate_event.
  pub loop-fault :
      (fuel : ℕ) (p : Ptr) (c : Client Hash) (s : Server Hash)
      → c.next_event ≡ terminate_event
      → s.verbose ≡ true
      → loop C (suc fuel) p (write C p c s) ≡ fault
  unfolding loop s_client_execute
  loop-fault fuel p c s e v =
      rw (read-write p c s, ◌>>=◌, ap is_null e)
        (ap (λ r. r >>= unless_deleted C (loop C fuel p))
          (round-fault (s_client_execute C fuel) p c s e v))

  -- s_client_execute begins the loop with the event as the next one.
  pub execute-loop :
      (fuel : ℕ) (p : Ptr) (e : Event) (c : Client Hash) (s : Server Hash)
      → s.memory p ≡ some c
      → c.wakeup_timer ≡ 0
      → s_client_execute C fuel p e s
        ≡ loop C fuel p (write C p (record c { next_event = e; wakeup_timer = 0 }) s)
  unfolding s_client_execute
  execute-loop fuel p e c s m w = rw (begin_execute-write p e c s m w)

  pub execute-fault :
      (fuel : ℕ) (p : Ptr) (e : Event) (c : Client Hash) (s : Server Hash)
      → s.memory p ≡ some c
      → c.wakeup_timer ≡ 0
      → e ≡ terminate_event
      → s.verbose ≡ true
      → s_client_execute C (suc fuel) p e s ≡ fault
  execute-fault fuel p e c s m w h v =
      execute-loop (suc fuel) p e c s m w
      ∙ loop-fault fuel p (record c { next_event = e; wakeup_timer = 0 }) s h v

  -- An event has a name for the log, or it is terminate_event at a verbose broker.
  pub IsNamed-cases : (e : Event) (v : Bool) → IsNamed e v ⊎ ((e ≡ terminate_event) × (v ≡ true))
  IsNamed-cases terminate_event false = inl refl
  IsNamed-cases terminate_event true = inr (refl, refl)
  IsNamed-cases null_event v = inl tt
  IsNamed-cases hello_event v = inl tt
  IsNamed-cases subscribe_event v = inl tt
  IsNamed-cases publish_event v = inl tt
  IsNamed-cases direct_event v = inl tt
  IsNamed-cases forward_event v = inl tt
  IsNamed-cases goodbye_event v = inl tt
  IsNamed-cases expired_event v = inl tt
