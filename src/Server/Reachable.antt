-- ===== src/Server/Reachable.antt =====
-- The states that a broker can get into, from its start on, by messages and by timeouts.
use zccp.Base.{
  Option-cases, [], arith, All, ◌∷◌, ◌⊎◌, inl, inr, ℕ, suc, ◌≡◌, refl, sym, subst, ◌∙◌, Bool, true,
  List, Option, none, some,
}
use zccp.Czmq.{Frame, Czmq}
use zccp.Codec.Socket.{zccp_msg_recv}
use zccp.Codec.{ZccpMsg}
use zccp.Server.{terminate_event, fault, Timer, Client, Server, ok}
use zccp.Server.Engine.{s_protocol_event}
use zccp.Server.Memory.{IsNamed, IsNamed-cases}
use zccp.Server.Reactor.{s_server_new, s_server_client_message, s_client_handle_timeout}
use zccp.Server.Invariant.{Memory, IsTimer, IsSafe}
use zccp.Server.Step.{EndsSafe}
use zccp.Server.Handle.{
  IsNamedInput, s_server_client_message-fault, s_server_client_message-IsSafe,
  s_client_handle_timeout-IsSafe,
}

module _ (C : Czmq) where
  open C use {Hash}

  -- The timer is in the list.
  abbrev pub IsPending : Timer → List Timer → Type 0
  IsPending t [] = ⊥
  IsPending t (u ∷ ts) = (t ≡ u) ⊎ IsPending t ts

  -- A broker as a sequence of handler calls leaves it. The handler of a message gets whatever the
  -- socket gives; that of a timeout is called, with its client, for a timer that is set. Commands
  -- of the API can switch the log on and off in between.
  pub data Reachable : Server Hash → Type 0 where
    created : (client_id : ℕ) → Reachable (s_server_new C client_id)
    configured :
        (s : Server Hash) (verbose : Bool)
        → Reachable s
        → Reachable (record s { verbose = verbose })
    message :
        (s t : Server Hash) (fuel : ℕ) (input : Option (List Frame)) (more : Bool)
        → Reachable s
        → s_server_client_message C (suc (suc (suc fuel))) input s ≡ ok (more, t)
        → Reachable t
    timeout :
        (s t : Server Hash) (fuel : ℕ) (timer : Timer)
        → Reachable s
        → IsPending timer s.timers
        → s_client_handle_timeout C (suc (suc (suc fuel))) timer.client s ≡ ok t
        → Reachable t

  pub s_server_new-IsSafe : (client_id : ℕ) → IsSafe C (s_server_new C client_id)
  unfolding s_server_new
  s_server_new-IsSafe client_id = record {
    idle = λ p c h. absurd (none_some h);
    owned = λ p c h. absurd (none_some h);
    live = λ k p h. absurd (none_some h);
    unused = λ p h. refl;
    subscribed = tt;
    no_headers = refl;
    timed = tt;
    counting = λ e. omega arith;
  }
    where
      none_some : {A : Type 0} {a : A} → none ≡ some a → ⊥
      none_some h = cc

  same_state : (s t : Server Hash) → ok s ≡ ok t → s ≡ t
  same_state s t e = cc

  same_pair : (x y : Bool × Server Hash) → ok x ≡ ok y → x.1 ≡ y.1
  same_pair x y e = cc

  same_msg : (m n : ZccpMsg Hash) → some m ≡ some n → m ≡ n
  same_msg m n e = cc

  timer-live :
      (m : Memory C) (t : Timer) (ts : List Timer)
      → IsPending t ts
      → All (IsTimer C m) ts
      → IsTimer C m t
  timer-live m t [] set h = absurd set
  timer-live m t (u ∷ ts) (inl e) (h, hs) = subst (IsTimer C m) (sym e) h
  timer-live m t (u ∷ ts) (inr set) (h, hs) = timer-live m t ts set hs

  -- For every timer that is set in a well-formed broker, the client that its handler is called with
  -- is live; and the handler ends within three units of fuel, reads no NULL and no dangling
  -- pointer, fails no assertion, and leaves the broker well formed.
  pub s_client_handle_timeout_set :
      (s : Server Hash) (fuel : ℕ) (timer : Timer)
      → IsSafe C s
      → IsPending timer s.timers
      → ((c : Client Hash) × (s.memory timer.client ≡ some c))
        × EndsSafe C (s_client_handle_timeout C (suc (suc (suc fuel))) timer.client s)
  s_client_handle_timeout_set s fuel timer safe set =
      let (c, m, _, _) = timer-live s.memory timer s.timers set safe.timed in
      ((c, m), s_client_handle_timeout-IsSafe C fuel timer.client c s safe m)

  pub configured-IsSafe :
      (s : Server Hash) (v : Bool) → IsSafe C s → IsSafe C (record s { verbose = v })
  configured-IsSafe s v safe = record {
    idle = safe.idle;
    owned = safe.owned;
    live = safe.live;
    unused = safe.unused;
    subscribed = safe.subscribed;
    no_headers = safe.no_headers;
    timed = safe.timed;
    counting = safe.counting;
  }

  -- The log has a name for the event of what came in, or the handler faults.
  named_or_fault :
      (s : Server Hash) (fuel : ℕ) (input : Option (List Frame))
      → IsSafe C s
      → IsNamedInput C input s.verbose
        ⊎ (s_server_client_message C (suc (suc (suc fuel))) input s ≡ fault)
  named_or_fault s fuel input safe = elim (Option-cases (zccp_msg_recv C true input)) [
    | inl n ↦ inl (λ msg h. cc)
    | inr (msg, n) ↦ elim (IsNamed-cases C (s_protocol_event C msg) s.verbose) [
      | inl named ↦ inl (λ other h.
          subst (λ x. IsNamed C (s_protocol_event C x) s.verbose) (same_msg msg other (sym n ∙ h))
            named)
      | inr (e, v) ↦ inr (s_server_client_message-fault C fuel input s msg safe n e v)
    ]
  ]

  message-IsSafe :
      (s t : Server Hash) (fuel : ℕ) (input : Option (List Frame)) (more : Bool)
      → IsSafe C s
      → s_server_client_message C (suc (suc (suc fuel))) input s ≡ ok (more, t)
      → IsSafe C t
  message-IsSafe s t fuel input more safe e = elim (named_or_fault s fuel input safe) [
    | inl named ↦
        let (u, run, safe') = s_server_client_message-IsSafe C fuel input s safe named in
        subst (IsSafe C) (same_pair _ _ (sym run ∙ e)) safe'
    | inr broken ↦ cc (broken, e)
  ]

  pub Reachable-IsSafe : (s : Server Hash) → Reachable s → IsSafe C s
  Reachable-IsSafe s (created n) = s_server_new-IsSafe n
  Reachable-IsSafe _ (configured s v r) = configured-IsSafe s v (Reachable-IsSafe s r)
  Reachable-IsSafe _ (message s t fuel input more r e) =
      message-IsSafe s t fuel input more (Reachable-IsSafe s r) e
  Reachable-IsSafe _ (timeout s t fuel timer r set e) =
      let (_, (u, run, safe)) =
        s_client_handle_timeout_set s fuel timer (Reachable-IsSafe s r) set in
      subst (IsSafe C) (same_state u t (sym run ∙ e)) safe

  -- In every state that a broker can get into, if it is verbose and the router socket gives a
  -- message that zccp_msg_recv accepts and whose number has no event (a reply of the protocol, a
  -- PING, a PING-OK or an INVALID): the handler faults, since s_client_execute takes the name of
  -- the event -1 from s_event_name.
  pub s_server_client_message_unnamed :
      (s : Server Hash) (fuel : ℕ) (input : Option (List Frame)) (msg : ZccpMsg Hash)
      → Reachable s
      → zccp_msg_recv C true input ≡ some msg
      → s_protocol_event C msg ≡ terminate_event
      → s.verbose ≡ true
      → s_server_client_message C (suc (suc (suc fuel))) input s ≡ fault
  s_server_client_message_unnamed s fuel input msg r =
      s_server_client_message-fault C fuel input s msg (Reachable-IsSafe s r)
