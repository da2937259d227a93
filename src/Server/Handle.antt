-- ===== src/Server/Handle.antt =====
-- The handlers of Reactor.antt, from a message or a timeout to the event at the client.
use zccp.Base.{
  subst, All, sym, arith, ℕ, suc, ◌+◌, ◌≡◌, refl, ap, ◌∙◌, Bool, true, false, List, [], ◌∷◌, ◌++◌,
  Option, none, some, Option-cases, inl, inr,
}
use zccp.Czmq.{Frame, Czmq}
use zccp.Codec.{Kind, hello, subscribe, publish, kind_of, ZccpMsg}
use zccp.Codec.Access.{
  zccp_msg_routing_id, zccp_msg_id, zccp_msg_identifier, zccp_msg_expression, zccp_msg_address,
}
use zccp.Codec.Socket.{zccp_msg_recv}
use zccp.Codec.Decode.Complete.{HasFields, IsComplete, zccp_msg_recv-IsComplete}
use zccp.Server.{
  Timer, update, State, start_state, connected_state, external_state, expired_event,
  terminate_event, fault, Ptr, Client, Server, ok, ◌>>=◌, or_fault, is_null,
}
use zccp.Server.Actions.{read, write, end_timer_if_set}
use zccp.Server.Engine.{
  event_of, event_is_valid, take_request, load_request, s_protocol_event, s_client_filter_mailbox,
  s_client_execute,
}
use zccp.Server.Reactor.{
  s_client_new, find_client, reset_expiry, queue_request, accept_message, s_server_client_message,
  s_client_handle_timeout,
}
use zccp.Server.Invariant.{IsTimer, Memory, All-mono, write-Safe_timed, IsSafe}
use zccp.Server.Memory.{IsNamed, execute-fault, update_other, update_self, read-write, write-write}
use zccp.Server.Leave.{IsOther, others_timed}
use zccp.Server.Join.{find_client-Safe}
use zccp.Server.Step.{IsReady, EndsSafe, execute-EndsSafe}

abbrev pub is_some : {A : Type 0} → Option A → Bool
is_some none = false
is_some (some a) = true

append_last {ℓ} :
    (P : Timer → Type ℓ) (ts : List Timer) (t : Timer) → All P ts → P t → All P (ts ++ t ∷ [])
append_last P [] t h x = (x, tt)
append_last P (u ∷ ts) t (h, hs) x = (h, append_last P ts t hs x)

module _ (C : Czmq) where
  open C use {Hash, zframe_strhex}

  -- The broker with the client's expiry timer set anew.
  abbrev pub timed : Ptr → Client Hash → Server Hash → Server Hash
  timed p c s = record s {
    timers =
        end_timer_if_set c.expiry_timer s.timers
        ++ record { timer_id = s.next_timer; client = p } ∷ [];
    next_timer = s.next_timer + 1;
  }

  -- The client with the request that just came.
  abbrev pub called : Client Hash → ZccpMsg Hash → ℕ → Client Hash
  called c msg timer = record c { expiry_timer = timer; mailbox = []; request = some msg }

  reset_expiry-write :
      (p : Ptr) (c : Client Hash) (s : Server Hash)
      → s.memory p ≡ some c
      → reset_expiry C p s ≡ ok (write C p (record c { expiry_timer = s.next_timer }) (timed p c s))
  unfolding reset_expiry read
  reset_expiry-write p c s m = rw m

  queue_request-write :
      (p : Ptr) (msg : ZccpMsg Hash) (c : Client Hash) (s : Server Hash)
      → c.mailbox ≡ []
      → queue_request C p msg (write C p c s) ≡ ok (write C p (record c { mailbox = msg ∷ [] }) s)
  unfolding queue_request
  queue_request-write p msg c s empty =
      rw (read-write C p c s, ◌>>=◌)
        (ap ok (write-write C p c (record c { mailbox = c.mailbox ++ msg ∷ [] }) s)
          ∙ ap (λ x. ok (write C p (record c { mailbox = x ++ msg ∷ [] }) s)) empty)

  take_request-one :
      (st : State) (msg : ZccpMsg Hash)
      → take_request C st (msg ∷ []) ≡ some (s_protocol_event C msg, msg, [])
  unfolding take_request event_is_valid
  take_request-one start_state msg = refl
  take_request-one connected_state msg = refl
  take_request-one external_state msg = refl

  filter_mailbox-one :
      (p : Ptr) (msg : ZccpMsg Hash) (c : Client Hash) (s : Server Hash)
      → c.mailbox ≡ msg ∷ []
      → s_client_filter_mailbox C p (write C p c s)
        ≡ ok (s_protocol_event C msg, write C p (record c { mailbox = []; request = some msg }) s)
  unfolding s_client_filter_mailbox load_request
  filter_mailbox-one p msg c s one =
      rw (read-write C p c s, ◌>>=◌)
        (ap (λ x. load_request C p c (take_request C c.state x) (write C p c s)) one
          ∙ rw (take_request-one c.state msg) (
              ap (λ t. ok (s_protocol_event C msg, t))
                (write-write C p c (record c { mailbox = []; request = some msg }) s)))

  event_of-is_null : (o : Option Kind) → is_null (event_of o) ≡ false
  unfolding event_of
  event_of-is_null none = refl
  event_of-is_null (some hello) = refl
  event_of-is_null (some _) = refl

  pub request-IsReady :
      (msg : ZccpMsg Hash) (c : Client Hash) (o : Option Kind)
      → ((k : Kind) → o ≡ some k → HasFields C k msg)
      → c.request ≡ some msg
      → IsReady C (event_of o) c
  unfolding event_of zccp_msg_identifier zccp_msg_expression zccp_msg_address
  request-IsReady msg c none h e = tt
  request-IsReady msg c (some hello) h e = let (i, hi) = h hello refl in (msg, i, e, hi)
  request-IsReady msg c (some subscribe) h e = let (x, hx) = h subscribe refl in (msg, x, e, hx)
  request-IsReady msg c (some publish) h e = let (a, ha) = h publish refl in (msg, a, e, ha)
  request-IsReady msg c (some _) h e = tt

  other-IsTimer :
      (m : Memory C) (p : Ptr) (d : Client Hash) (t : Timer)
      → IsOther C m p t
      → IsTimer C (update m p (some d)) t
  other-IsTimer m p d t ((x, hx, hid, ne), other) =
      (x, update_other m p t.client (some d) (λ e. other (sym e)) ∙ hx, hid, ne)

  called_timed :
      (p : Ptr) (msg : ZccpMsg Hash) (c : Client Hash) (s : Server Hash)
      → IsSafe C s
      → s.memory p ≡ some c
      → All (IsTimer C (update s.memory p (some (called c msg s.next_timer)))) (timed p c s).timers
  called_timed p msg c s safe m =
      append_last _ (end_timer_if_set c.expiry_timer s.timers)
        (record { timer_id = s.next_timer; client = p })
        (All-mono C (other-IsTimer s.memory p (called c msg s.next_timer))
          (end_timer_if_set c.expiry_timer s.timers)
          (others_timed C s.memory p c m s.timers safe.timed))
        (
          called c msg s.next_timer,
          update_self s.memory p (some (called c msg s.next_timer)),
          refl,
          safe.counting,
        )

  pub called-Safe :
      (p : Ptr) (msg : ZccpMsg Hash) (c : Client Hash) (s : Server Hash)
      → IsSafe C s
      → s.memory p ≡ some c
      → IsSafe C (write C p (called c msg s.next_timer) (timed p c s))
  unfolding write
  called-Safe p msg c s safe m =
      let good = safe.idle p c m in
      write-Safe_timed C p c (called c msg s.next_timer) s (timed p c s).timers (s.next_timer + 1)
        safe m
        (record {
          emptied = refl;
          fresh_reply = good.fresh_reply;
          no_alarm = good.no_alarm;
          keyed = good.keyed;
          identified = good.identified;
        })
        refl (λ x. x) (called_timed p msg c s safe m) (λ e. omega arith)

  called-memory :
      (p : Ptr) (msg : ZccpMsg Hash) (c : Client Hash) (t : Server Hash)
      → (write C p (called c msg t.next_timer) (timed p c t)).memory p
        ≡ some (called c msg t.next_timer)
  unfolding write
  called-memory p msg c t = update_self t.memory p (some (called c msg t.next_timer))

  called-verbose :
      (p : Ptr) (msg : ZccpMsg Hash) (c : Client Hash) (t : Server Hash)
      → (write C p (called c msg t.next_timer) (timed p c t)).verbose ≡ t.verbose
  unfolding write
  called-verbose p msg c t = refl

  pub accept_message-write :
      (fuel : ℕ) (rid : Frame) (msg : ZccpMsg Hash) (s t : Server Hash) (p : Ptr) (c : Client Hash)
      → find_client C rid s ≡ (p, t)
      → t.memory p ≡ some c
      → c.mailbox ≡ []
      → accept_message C fuel rid msg s
        ≡ s_client_execute C fuel p
            (s_protocol_event C msg)
            (write C p (called c msg t.next_timer) (timed p c t))
  unfolding accept_message s_protocol_event
  accept_message-write fuel rid msg s t p c found m empty =
      rw
        (
          accept_message,
          found,
          reset_expiry-write p c t m,
          ◌>>=◌,
          queue_request-write p msg (record c { expiry_timer = t.next_timer }) (timed p c t) empty,
          ◌>>=◌,
          filter_mailbox-one p msg (record c { expiry_timer = t.next_timer; mailbox = msg ∷ [] })
              (timed p c t) refl,
          ◌>>=◌,
          event_of-is_null (kind_of (zccp_msg_id C msg)),
        )
        (ap
          (λ x.
            s_client_execute C fuel x.0 (s_protocol_event C msg)
              (write C p (called c msg t.next_timer) (timed p c t)))
          found)

  find_client-verbose :
      (rid : Frame) (s : Server Hash) → (find_client C rid s).1.verbose ≡ s.verbose
  unfolding find_client s_client_new write
  find_client-verbose rid s = by_lookup (s.clients (zframe_strhex rid)) refl
    where
      by_lookup :
          (o : Option Ptr)
          → s.clients (zframe_strhex rid) ≡ o
          → (find_client C rid s).1.verbose ≡ s.verbose
      by_lookup none e = rw (find_client, e) refl
      by_lookup (some p) e = rw (find_client, e) refl

  found-verbose :
      (rid : Frame) (s t : Server Hash) (p : Ptr)
      → find_client C rid s ≡ (p, t)
      → t.verbose ≡ s.verbose
  found-verbose rid s t p e =
      ap (λ (x : Ptr × Server Hash). x.1.verbose) (sym e) ∙ find_client-verbose rid s

  -- The message that comes in, if any, has an event that the log can name.
  abbrev pub IsNamedInput : Option (List Frame) → Bool → Type 0
  IsNamedInput input v =
      (msg : ZccpMsg Hash)
      → zccp_msg_recv C true input ≡ some msg
      → IsNamed C (s_protocol_event C msg) v

  -- A message with the fields of its number, and of an event that the log can name, is handled to the end.
  pub accept_message-EndsSafe :
      (fuel : ℕ) (rid : Frame) (msg : ZccpMsg Hash) (s : Server Hash)
      → IsSafe C s
      → IsComplete C msg
      → IsNamed C (s_protocol_event C msg) s.verbose
      → EndsSafe C (accept_message C (suc (suc (suc fuel))) rid msg s)
  unfolding s_protocol_event zccp_msg_id write
  accept_message-EndsSafe fuel rid msg s safe complete named =
      let (p, c, t, found, safe', m) = find_client-Safe C rid s safe in
      let (u, run, good) =
        execute-EndsSafe C fuel p (called c msg t.next_timer)
          (write C p (called c msg t.next_timer) (timed p c t)) (called-Safe p msg c t safe' m)
          (update_self t.memory p (some (called c msg t.next_timer))) (s_protocol_event C msg)
          (request-IsReady msg (called c msg t.next_timer) (kind_of msg.id) complete refl)
          (subst (IsNamed C (s_protocol_event C msg)) (sym (found-verbose rid s t p found))
            named) in
      (
        u,
        accept_message-write (suc (suc (suc fuel))) rid msg s t p c found m
              (safe'.idle p c m).emptied
            ∙ run,
        good,
      )

  -- The handler of a verbose broker at a message whose number has no event.
  pub s_server_client_message-fault :
      (fuel : ℕ) (input : Option (List Frame)) (s : Server Hash) (msg : ZccpMsg Hash)
      → IsSafe C s
      → zccp_msg_recv C true input ≡ some msg
      → s_protocol_event C msg ≡ terminate_event
      → s.verbose ≡ true
      → s_server_client_message C (suc (suc (suc fuel))) input s ≡ fault
  unfolding s_server_client_message zccp_msg_routing_id
  s_server_client_message-fault fuel input s msg safe n e v =
      let ((peer, r), complete) = zccp_msg_recv-IsComplete C input msg n in
      let (p, c, t, found, safe', m) = find_client-Safe C peer s safe in
      let idle = safe'.idle p c m in
      rw
        (
          n,
          s_server_client_message,
          ap or_fault r,
          ◌>>=◌,
          accept_message-write (suc (suc (suc fuel))) peer msg s t p c found m idle.emptied
              ∙ execute-fault C (suc (suc fuel)) p (s_protocol_event C msg)
                  (called c msg t.next_timer) (write C p (called c msg t.next_timer) (timed p c t))
                  (called-memory p msg c t) idle.no_alarm e
                  (called-verbose p msg c t ∙ found-verbose peer s t p found ∙ v),
        )
        refl

  -- Whatever comes in through the router socket, and if nothing does: the handler ends, reads no
  -- NULL and no dangling pointer, and leaves the broker well formed. It returns 0 exactly for a
  -- message that zccp_msg_recv accepts. A verbose broker must have a name for the event.
  pub s_server_client_message-IsSafe :
      (fuel : ℕ) (input : Option (List Frame)) (s : Server Hash)
      → IsSafe C s
      → IsNamedInput input s.verbose
      → (t : Server Hash) × (s_server_client_message C (suc (suc (suc fuel))) input s
          ≡ ok (is_some (zccp_msg_recv C true input), t))
        × IsSafe C t
  unfolding s_server_client_message zccp_msg_routing_id
  s_server_client_message-IsSafe fuel input s safe named =
      elim (Option-cases (zccp_msg_recv C true input)) [
        | inl n ↦ (s, rw (n, s_server_client_message), safe)
        | inr (msg, n) ↦
            let ((peer, r), complete) = zccp_msg_recv-IsComplete C input msg n in
            let (t, run, good) =
              accept_message-EndsSafe fuel peer msg s safe complete (named msg n) in
            (t, rw (n, s_server_client_message, ap or_fault r, ◌>>=◌, run), good)
      ]

  -- The handler of a timeout, called for a live client of a well-formed broker, ends, reads no
  -- NULL and no dangling pointer, and leaves the broker well formed.
  pub s_client_handle_timeout-IsSafe :
      (fuel : ℕ) (p : Ptr) (c : Client Hash) (s : Server Hash)
      → IsSafe C s
      → s.memory p ≡ some c
      → EndsSafe C (s_client_handle_timeout C (suc (suc (suc fuel))) p s)
  unfolding s_client_handle_timeout
  s_client_handle_timeout-IsSafe fuel p c s safe m =
      execute-EndsSafe C fuel p c s safe m expired_event tt tt
