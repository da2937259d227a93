-- ===== src/Client/Signals.antt =====
-- The rows of the table that send no message to the server.
use zccp.Base.{
  inr, size_of_int, ℕ, ◌≡◌, refl, sym, ap, ◌∙◌, Bool, true, false, List, [], ◌++◌, append-nil,
  Option, none, some,
}
use zccp.Base.Results.{ok, ◌>>=◌, or_fault}
use zccp.Czmq.{Str, Czmq}
use zccp.Codec.{ZccpMsg}
use zccp.Codec.Access.{zccp_msg_content, zccp_msg_sender, zccp_msg_address}
use zccp.Client.{
  State, connecting_state, connected_state, subscribing_state, reconnecting_state, Event,
  hello_ok_event, expired_event, deliver_event, subscribe_ok_event, Command, Client, is_null,
}
use zccp.Client.Actions.{
  unless_exception, set_state, terminate, signal, use_presence_timeout, signal_success,
  signal_server_not_present, deliver_message_to_application, engine_set_timeout, zmsg_popstr,
}
use zccp.Client.Engine.{run_connecting, run_connected, run_subscribing, run_reconnecting, run_state}
use zccp.Client.Protocol.{succeeds, fails, delivers, nothing, Row, sent_by, signalled_by, or_stay}
use zccp.Client.Round.{begun}
use zccp.Client.Step.{IsReady, HasInput, numbered, Ends, finish}

module _ (C : Czmq) (fuel : ℕ) (c : Client C.Hash) (good : IsReady C c) where
  -- A row without a message to the server: the final client is given by what it signals, its
  -- state, its timeout, its message and whether it ended.
  abbrev after_signal :
      Event → List Command → State → ℕ → Option (ZccpMsg C.Hash) → Bool → Client C.Hash
  after_signal e signals st timeout msgin ended = record (begun C e c) {
    signalled = c.signalled ++ signals;
    state = st;
    timeout = timeout;
    msgin = msgin;
    terminated = ended;
  }

  quiet :
      (e : Event) (r : Row) (parts : List Str) (timeout : ℕ) (msgin : Option (ZccpMsg C.Hash))
      (ended : Bool)
      → is_null e ≡ false
      → sent_by C r.effect (numbered C r.effect c.msgout) ≡ []
      → ended ≡ r.ends
      → run_state C c.state e (begun C e c)
        ≡ ok (
            after_signal e
              (signalled_by C r.effect parts)
              (or_stay C r.next c.state)
              timeout
              msgin
              ended)
      → Ends C fuel c good e r parts
  quiet e r parts timeout msgin ended n silent end run =
      finish C fuel c good e
        (after_signal e (signalled_by C r.effect parts) (or_stay C r.next c.state) timeout msgin
          ended)
        r parts n run refl refl
        (record {
          sent = sym (append-nil c.sent) ∙ ap (λ x. c.sent ++ x) (sym silent);
          signalled = refl;
          state = refl;
          ended = end;
          timers = refl;
          dealing = refl;
          no_alarm = refl;
          no_headers = good.no_headers;
          no_bytes = good.no_bytes;
          kept = inr refl;
        })

  pub greets :
      c.state ≡ connecting_state
      → Ends C fuel c good hello_ok_event
          (record { effect = succeeds; next = some connected_state; ends = false })
          []
  unfolding run_state run_connecting unless_exception signal_success signal use_presence_timeout
      engine_set_timeout set_state
  greets st =
      quiet hello_ok_event _ [] (size_of_int c.presence_timeout) c.msgin c.terminated refl refl
        good.running (ap (λ x. run_state C x hello_ok_event (begun C hello_ok_event c)) st)

  pub gives_up :
      c.state ≡ connecting_state
      → Ends C fuel c good expired_event (record { effect = fails; next = none; ends = true }) []
  unfolding run_state run_connecting unless_exception signal_server_not_present signal terminate
  gives_up st =
      quiet expired_event _ [] c.timeout c.msgin true refl refl refl
        (ap (λ x. run_state C x expired_event (begun C expired_event c)) st)

  pub confirms :
      c.state ≡ subscribing_state
      → Ends C fuel c good subscribe_ok_event
          (record { effect = succeeds; next = some connected_state; ends = false })
          []
  unfolding run_state run_subscribing unless_exception signal_success signal set_state
  confirms st =
      quiet subscribe_ok_event _ [] c.timeout c.msgin c.terminated refl refl good.running
        (ap (λ x. run_state C x subscribe_ok_event (begun C subscribe_ok_event c)) st)

  pub resumes :
      c.state ≡ reconnecting_state
      → Ends C fuel c good hello_ok_event
          (record { effect = nothing; next = some connected_state; ends = false })
          []
  unfolding run_state run_reconnecting unless_exception set_state
  resumes st =
      finish C fuel c good hello_ok_event
        (record (begun C hello_ok_event c) { state = connected_state }) _ [] refl
        (ap (λ x. run_state C x hello_ok_event (begun C hello_ok_event c)) st) refl refl
        (record {
          sent = sym (append-nil c.sent);
          signalled = sym (append-nil c.signalled);
          state = refl;
          ended = good.running;
          timers = refl;
          dealing = refl;
          no_alarm = refl;
          no_headers = good.no_headers;
          no_bytes = good.no_bytes;
          kept = inr refl;
        })

  pub terminates :
      (e : Event)
      → is_null e ≡ false
      → run_state C c.state e ≡ unless_exception C (terminate C)
      → Ends C fuel c good e (record { effect = nothing; next = none; ends = true }) []
  unfolding unless_exception terminate
  terminates e n run =
      finish C fuel c good e (record (begun C e c) { terminated = true }) _ [] n
        (ap (λ a. a (begun C e c)) run) refl refl
        (record {
          sent = sym (append-nil c.sent);
          signalled = sym (append-nil c.signalled);
          state = refl;
          ended = refl;
          timers = refl;
          dealing = refl;
          no_alarm = refl;
          no_headers = good.no_headers;
          no_bytes = good.no_bytes;
          kept = inr refl;
        })

  pub hands_on :
      (parts : List Str)
      → c.state ≡ connected_state
      → HasInput C delivers c parts
      → Ends C fuel c good deliver_event
          (record { effect = delivers; next = none; ends = false })
          parts
  unfolding run_state run_connected unless_exception deliver_message_to_application zmsg_popstr
      zccp_msg_content zccp_msg_sender zccp_msg_address signal
  hands_on parts st (m, sender, address, frame, rest, hm, hs, ha, hc, hp) =
      quiet deliver_event _ parts c.timeout (some (record m { content = some rest })) c.terminated
        refl refl good.running
        (ap (λ x. run_state C x deliver_event (begun C deliver_event c)) st
          ∙ rw (ap or_fault hm, ◌>>=◌, ap or_fault hc, ap or_fault hs, ap or_fault ha, hp))
