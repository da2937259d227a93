-- ===== src/Client/Start.antt =====
-- The state "start": what CONNECT does there, and every other event.
use zccp.Base.{
  ℕ, suc, size_of_int, ◌≡◌, ◌≢◌, refl, ap, ◌∙◌, true, false, [], ◌∷◌, ◌++◌, none, some, arith,
  if◌then◌else◌,
}
use zccp.Base.Results.{ok, fault, ◌>>=◌, or_fault}
use zccp.Czmq.{Str, Czmq}
use zccp.Codec.{hello, code, zccp_msg_new}
use zccp.Client.{start_state, connecting_state, Event, connect_event, error_event, Client, is_null}
use zccp.Client.Actions.{
  Action, unless_exception, set_state, connect_to_server_endpoint, use_connect_timeout,
  engine_set_timeout, engine_set_exception,
}
use zccp.Client.Engine.{
  run_start, run_state, raise_exception, loop, round, begin_round, s_client_execute,
}
use zccp.Client.Protocol.{frames_of}
use zccp.Client.Round.{begun, execute-round, execute-ends, send-sends}
use zccp.Client.Step.{IsReady}

run_start-other : (C : Czmq) (e : Event) → e ≢ connect_event → run_start C e ≡ (λ c. fault)
unfolding run_start
run_start-other C connect_event ne = absurd (ne refl)
run_start-other C _ ne = refl

module _ (C : Czmq) (fuel : ℕ) (c : Client C.Hash) (good : IsReady C c)
    (st : c.state ≡ start_state) where
  open C use {zsock_connect}

  -- The client after a CONNECT to an endpoint that can be connected to.
  abbrev pub dialled : Client C.Hash
  dialled = record (begun C connect_event c) {
    dealing = true;
    timeout = size_of_int c.connect_timeout;
    msgout = zccp_msg_new C.Hash 0;
    sent =
        c.sent ++ frames_of C hello (record c.msgout { id = code hello; routing_id = none }) ∷ [];
    state = connecting_state;
  }

  connect-run :
      (endpoint : Str)
      → c.endpoint ≡ some endpoint
      → connect_to_server_endpoint C (begun C connect_event c)
        ≡ ok (
            if zsock_connect endpoint
            then record (begun C connect_event c) { dealing = true }
            else engine_set_exception C error_event (begun C connect_event c))
  unfolding connect_to_server_endpoint
  connect-run endpoint e = rw (ap or_fault e)

  pub execute-connect :
      (endpoint : Str)
      → c.endpoint ≡ some endpoint
      → zsock_connect endpoint ≡ true
      → s_client_execute C (suc (suc fuel)) connect_event c ≡ ok dialled
  unfolding run_state run_start unless_exception use_connect_timeout engine_set_timeout set_state
  execute-connect endpoint e reach =
      execute-ends C (suc fuel) connect_event c good.running good.no_alarm refl dialled
        (ap (λ x. run_state C x connect_event (begun C connect_event c)) st
          ∙ rw (connect-run endpoint e, reach)
              (rw (
                send-sends C hello
                  (record (begun C connect_event c) {
                    dealing = true;
                    timeout = size_of_int c.connect_timeout;
                  })
                  good.no_headers good.no_bytes)))
        refl refl (omega arith)

  -- What is not in the table fails the assertion.
  pub execute-other :
      (e : Event)
      → is_null e ≡ false
      → e ≢ connect_event
      → s_client_execute C (suc (suc fuel)) e c ≡ fault
  unfolding run_state run_start
  execute-other e n ne =
      execute-round C (suc fuel) e c good.running good.no_alarm n
      ∙ ap (λ x. run_state C x e (begun C e c) >>= λ d. loop C (suc fuel) (raise_exception C d)) st
      ∙ ap (λ (a : Action C). a (begun C e c) >>= λ d. loop C (suc fuel) (raise_exception C d))
          (run_start-other C e ne)

  -- The client after the round of a CONNECT to an endpoint that cannot be connected to: the
  -- exception error_event is the next event, no socket is connected and nothing was sent.
  abbrev pub refused : Client C.Hash
  refused = record (begun C connect_event c) { exception = error_event; next_event = error_event }

  refused-round :
      (endpoint : Str)
      → c.endpoint ≡ some endpoint
      → zsock_connect endpoint ≡ false
      → round C (record c { next_event = connect_event; wakeup_timer = 0 }) ≡ ok refused
  unfolding round begin_round run_state run_start unless_exception use_connect_timeout set_state
      raise_exception engine_set_exception
  refused-round endpoint e refuse =
      ap
        (λ x.
          run_state C x connect_event (begun C connect_event c) >>= λ d. ok (raise_exception C d))
        st
      ∙ rw (connect-run endpoint e, refuse) refl

  unexpected-round : round C refused ≡ fault
  unfolding round begin_round run_state run_start
  unexpected-round =
      ap (λ x. run_state C x error_event (begin_round C refused) >>= λ d. ok (raise_exception C d))
        st

  refused-execute :
      (endpoint : Str)
      → c.endpoint ≡ some endpoint
      → zsock_connect endpoint ≡ false
      → s_client_execute C (suc (suc fuel)) connect_event c ≡ fault
  unfolding run_state run_start unless_exception use_connect_timeout set_state loop round
      begin_round raise_exception engine_set_exception
  refused-execute endpoint e refuse =
      execute-round C (suc fuel) connect_event c good.running good.no_alarm refl
      ∙ ap
          (λ x. run_state C x connect_event (begun C connect_event c) >>= λ d.
            loop C (suc fuel) (raise_exception C d))
          st
      ∙ rw (connect-run endpoint e, refuse) (rw (good.running, st))

  -- In "start", at a client that is not terminated, has no wakeup timer set, no headers in its
  -- next message and an endpoint that cannot be connected to: the round of CONNECT ends, with
  -- error_event as exception and as next event, in the same state, with no socket connected and
  -- nothing sent; the round of that error_event fails the assertion on events that are not
  -- expected; and so does s_client_execute as a whole.
  pub execute-connect_refused :
      (endpoint : Str)
      → c.endpoint ≡ some endpoint
      → zsock_connect endpoint ≡ false
      → (round C (record c { next_event = connect_event; wakeup_timer = 0 }) ≡ ok refused)
        × (round C refused ≡ fault)
        × (s_client_execute C (suc (suc fuel)) connect_event c ≡ fault)
  execute-connect_refused endpoint e refuse =
      (refused-round endpoint e refuse, unexpected-round, refused-execute endpoint e refuse)
