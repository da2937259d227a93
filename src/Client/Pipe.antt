-- ===== src/Client/Pipe.antt =====
-- The handler of API commands on a client in its invariant. The commands are those that the class
-- interface sends, and $TERM of zactor_destroy.
use zccp.Base.{
  ℕ, suc, ℤ, ◌≡◌, ◌⊎◌, inl, inr, refl, sym, ap, subst, ◌∙◌, Bool, true, false, not, All, [], ◌∷◌,
  Option, none, some,
}
use zccp.Base.Results.{Result, ok, fault}
use zccp.Czmq.{Str, Frame, Czmq}
use zccp.Codec.Access.{zccp_msg_set_expression, zccp_msg_set_address, zccp_msg_set_content}
use zccp.Codec.Decode.Full.{Only, IsFull}
use zccp.Client.{
  start_state, Event, connect_event, subscribe_event, publish_event, deliver_event, Command, Client,
}
use zccp.Client.Actions.{codes}
use zccp.Client.Engine.{s_client_execute}
use zccp.Client.Method.{
  client_method, method_connect, method_subscribe, method_publish, recv_s, recv_i,
}
use zccp.Client.Reactor.{status, execute_method, s_client_handle_pipe}
use zccp.Client.Invariant.{NotEmpty, IsSafe, IsHonest, is_raised, is_joined, execute-IsSafe}

-- What a caller can ask for.
pub data Call : Type 0 where
  connect : Str → ℤ → Call
  subscribe : Str → Call
  publish : Str → Str → Call
  verbose destroy : Call

first_of_one : (content : Frame) → Only NotEmpty (some (content ∷ []))
first_of_one content fs h k = cc

module _ (C : Czmq) where
  open C use {Hash, zsock_connect, print_int, atoi}

  abbrev pub command_of : Call → Command
  command_of (connect endpoint timeout) = (codes "CONNECT", endpoint ∷ print_int timeout ∷ [])
  command_of (subscribe expression) = (codes "SUBSCRIBE", expression ∷ [])
  command_of (publish address content) = (codes "PUBLISH", address ∷ content ∷ [])
  command_of verbose = (codes "VERBOSE", [])
  command_of destroy = (codes "$TERM", [])

  -- A command is handled without a fault, and the client stays in its invariant.
  abbrev pub KeepsSafe : Result (Bool × Client Hash) → Type 0
  KeepsSafe r = (more : Bool) × (d : Client Hash) × (r ≡ ok (more, d)) × IsSafe C d

  with_status :
      (r : Result (Client Hash)) (d : Client Hash) → r ≡ ok d → IsSafe C d → KeepsSafe (status C r)
  unfolding status
  with_status r d run safe = (not d.terminated, d, ap (status C) run, safe)

  abbrev raised : ℕ → Option (Event × Client Hash) → Result (Bool × Client Hash)
  raised fuel none = fault
  raised fuel (some (e, d)) = status C (s_client_execute C fuel e d)

  module _ (c : Client Hash) where
    -- A method only fills fields, and the next message's.
    prepared-IsSafe :
        IsSafe C c
        → (d : Client Hash) → d.wakeup_timer ≡ c.wakeup_timer
        → d.timers ≡ c.timers
        → d.msgout.headers ≡ c.msgout.headers
        → d.msgout.headers_bytes ≡ c.msgout.headers_bytes
        → d.state ≡ c.state
        → d.dealing ≡ c.dealing
        → d.signalled ≡ c.signalled
        → d.sent ≡ c.sent
        → Only NotEmpty d.msgout.content
        → IsSafe C d
    prepared-IsSafe safe d alarm timers headers bytes st deals signals sent loaded = record {
      no_alarm = alarm ∙ safe.no_alarm;
      no_timers = timers ∙ safe.no_timers;
      no_headers = headers ∙ safe.no_headers;
      no_bytes = bytes ∙ safe.no_bytes;
      phase = go safe.phase;
      honest = subst (All IsHonest) (sym signals) safe.honest;
      full_sent = subst (All (IsFull C NotEmpty)) (sym sent) safe.full_sent;
      loaded = loaded;
    }
      where
        go :
            ((c.state ≡ start_state) × (c.dealing ≡ false)) ⊎ (is_joined c.state ≡ true)
            → ((d.state ≡ start_state) × (d.dealing ≡ false)) ⊎ (is_joined d.state ≡ true)
        go (inl (s, n)) = inl (st ∙ s, deals ∙ n)
        go (inr j) = inr (ap is_joined st ∙ j)

    abbrev pub connecting : Str → ℤ → Client Hash
    connecting endpoint timeout = record c {
      endpoint = some endpoint;
      connect_timeout = atoi (print_int timeout);
    }

    abbrev pub asking : Str → Client Hash
    asking expression = record c { msgout = zccp_msg_set_expression C c.msgout expression }

    abbrev pub telling : Str → Str → Client Hash
    telling address content = record c {
      msgout =
          zccp_msg_set_content C (zccp_msg_set_address C c.msgout address) (some (content ∷ []));
    }

    pub connecting-IsSafe :
        IsSafe C c → (endpoint : Str) (timeout : ℤ) → IsSafe C (connecting endpoint timeout)
    connecting-IsSafe safe endpoint timeout =
        prepared-IsSafe safe (connecting endpoint timeout) refl refl refl refl refl refl refl refl
          safe.loaded

    pub asking-IsSafe : IsSafe C c → (expression : Str) → IsSafe C (asking expression)
    unfolding zccp_msg_set_expression
    asking-IsSafe safe expression =
        prepared-IsSafe safe (asking expression) refl refl refl refl refl refl refl refl safe.loaded

    pub telling-IsSafe : IsSafe C c → (address content : Str) → IsSafe C (telling address content)
    unfolding zccp_msg_set_address zccp_msg_set_content
    telling-IsSafe safe address content =
        prepared-IsSafe safe (telling address content) refl refl refl refl refl refl refl refl
          (first_of_one content)

    -- Which event a call raises, at which client; none for the two that the handler does itself.
    abbrev pub raised_by : Call → Option (Event × Client Hash)
    raised_by (connect endpoint timeout) = some (connect_event, connecting endpoint timeout)
    raised_by (subscribe expression) = some (subscribe_event, asking expression)
    raised_by (publish address content) = some (publish_event, telling address content)
    raised_by _ = none

    pub handle_pipe-execute :
        (fuel : ℕ) (k : Call) (e : Event) (d : Client Hash)
        → raised_by k ≡ some (e, d)
        → s_client_handle_pipe C fuel (some (command_of k)) c
          ≡ status C (s_client_execute C fuel e d)
    unfolding s_client_handle_pipe execute_method client_method method_connect method_subscribe
        method_publish recv_s recv_i
    handle_pipe-execute fuel (connect endpoint timeout) e d h = ap (raised fuel) h
    handle_pipe-execute fuel (subscribe expression) e d h = ap (raised fuel) h
    handle_pipe-execute fuel (publish address content) e d h = ap (raised fuel) h
    handle_pipe-execute fuel verbose e d h = cc
    handle_pipe-execute fuel destroy e d h = cc

    pub flags-IsSafe :
        IsSafe C c → (v b : Bool) → IsSafe C (record c { verbose = v; terminated = b })
    flags-IsSafe safe v b =
        prepared-IsSafe safe (record c { verbose = v; terminated = b }) refl refl refl refl refl
          refl refl refl safe.loaded

    -- A call that raises an event, after CONNECT.
    raises_IsSafe :
        (fuel : ℕ) (k : Call) (e : Event) (d : Client Hash)
        → raised_by k ≡ some (e, d)
        → is_raised e ≡ true
        → (e ≡ deliver_event → ⊥)
        → d.terminated ≡ false
        → is_joined d.state ≡ true
        → IsSafe C d
        → KeepsSafe (s_client_handle_pipe C (suc (suc fuel)) (some (command_of k)) c)
    raises_IsSafe fuel k e d h raise no_deliver running j safe =
        let (f, run, good) =
          execute-IsSafe C fuel d e safe running j raise (λ x. absurd (no_deliver x)) in
        subst KeepsSafe (sym (handle_pipe-execute (suc (suc fuel)) k e d h))
          (with_status (s_client_execute C (suc (suc fuel)) e d) f run good)

    pub handle_pipe-IsSafe :
        (fuel : ℕ) (k : Call)
        → IsSafe C c
        → c.terminated ≡ false
        → is_joined c.state ≡ true
        → KeepsSafe (s_client_handle_pipe C (suc (suc fuel)) (some (command_of k)) c)
    unfolding s_client_handle_pipe zccp_msg_set_expression zccp_msg_set_address zccp_msg_set_content
    handle_pipe-IsSafe fuel (connect endpoint timeout) safe running j =
        raises_IsSafe fuel (connect endpoint timeout) connect_event (connecting endpoint timeout)
          refl refl (λ h. cc) running j (connecting-IsSafe safe endpoint timeout)
    handle_pipe-IsSafe fuel (subscribe expression) safe running j =
        raises_IsSafe fuel (subscribe expression) subscribe_event (asking expression) refl refl
          (λ h. cc) running j (asking-IsSafe safe expression)
    handle_pipe-IsSafe fuel (publish address content) safe running j =
        raises_IsSafe fuel (publish address content) publish_event (telling address content) refl
          refl (λ h. cc) running j (telling-IsSafe safe address content)
    handle_pipe-IsSafe fuel verbose safe running j =
        with_status (ok (record c { verbose = true })) (record c { verbose = true }) refl
          (flags-IsSafe safe true c.terminated)
    handle_pipe-IsSafe fuel destroy safe running j =
        with_status (ok (record c { terminated = true })) (record c { terminated = true }) refl
          (flags-IsSafe safe c.verbose true)
