-- ===== src/Server/Admit.antt =====
-- HELLO in the state "start" and SUBSCRIBE in the state "connected", each handled to the end.
use zccp.Base.{ℕ, suc, ◌≡◌, refl, ap, ◌∙◌, some}
use zccp.Czmq.{Str, Czmq}
use zccp.Codec.{hello_ok, subscribe_ok, ZccpMsg}
use zccp.Codec.Access.{zccp_msg_identifier, zccp_msg_expression}
use zccp.Server.{
  start_state, connected_state, Event, hello_event, subscribe_event, Ptr, Client, Server, Result,
  ok,
}
use zccp.Server.Actions.{write}
use zccp.Server.Patterns.{store}
use zccp.Server.Engine.{run_state, s_client_execute}
use zccp.Server.Invariant.{IsSafe, IsIdle, write-Safe}
use zccp.Server.Subscriptions.{store-IsPattern}
use zccp.Server.Requests.{greeted, run_hello, run_subscribe}
use zccp.Server.Outcome.{begun, execute-idle, replied, renewed}

module _ (C : Czmq) where
  open C use {Hash}

  -- The broker with a client's subscription, and the client after it.
  abbrev pub enlisted : Ptr → Str → Server Hash → Server Hash
  enlisted p x s = record s { patterns = store p x s.patterns }

  abbrev pub confirmed : Client Hash → Client Hash
  confirmed c = renewed C (begun C subscribe_event c)

  module _ (fuel : ℕ) (p : Ptr) (c : Client Hash) (s : Server Hash) (safe : IsSafe C s)
      (m : s.memory p ≡ some c) where
    good : IsIdle C c
    good = safe.idle p c m

    abbrev send : Ptr → Event → Server Hash → Result (Server Hash)
    send = s_client_execute C (suc (suc fuel))

    pub execute-hello :
        (r : ZccpMsg Hash) (i : Str)
        → c.state ≡ start_state
        → c.request ≡ some r
        → zccp_msg_identifier C r ≡ some i
        → s_client_execute C (suc (suc (suc fuel))) p hello_event s
          ≡ ok (write C p (greeted C i c) (replied C hello_ok c s))
    unfolding run_state write
    execute-hello r i st hr hi =
        execute-idle C (suc fuel) p hello_event c (greeted C i c) s (replied C hello_ok c s) m
          good.no_alarm refl tt
          (ap (λ x. run_state C send p x hello_event (write C p (begun C hello_event c) s)) st
            ∙ run_hello C p (begun C hello_event c) s r i refl good.fresh_reply hr hi)
          refl good.emptied refl

    pub hello-Safe : (i : Str) → IsSafe C (write C p (greeted C i c) (replied C hello_ok c s))
    unfolding write
    hello-Safe i =
        write-Safe C p c (greeted C i c) s safe m
          (record {
            emptied = good.emptied;
            fresh_reply = refl;
            no_alarm = refl;
            keyed = good.keyed;
            identified = λ x. (i, refl);
          })
          refl refl (λ x. refl)

    pub execute-subscribe :
        (r : ZccpMsg Hash) (x : Str)
        → c.state ≡ connected_state
        → c.request ≡ some r
        → zccp_msg_expression C r ≡ some x
        → s_client_execute C (suc (suc (suc fuel))) p subscribe_event s
          ≡ ok (write C p (confirmed c) (replied C subscribe_ok c (enlisted p x s)))
    unfolding run_state write
    execute-subscribe r x st hr hx =
        execute-idle C (suc fuel) p subscribe_event c (confirmed c) s
          (replied C subscribe_ok c (enlisted p x s)) m good.no_alarm refl tt
          (ap (λ y. run_state C send p y subscribe_event (write C p (begun C subscribe_event c) s))
              st
            ∙ run_subscribe C send p (begun C subscribe_event c) s r x refl good.fresh_reply hr hx)
          refl good.emptied refl

    pub subscribe-Safe :
        (x : Str)
        → c.state ≡ connected_state
        → IsSafe C (write C p (confirmed c) (replied C subscribe_ok c (enlisted p x s)))
    unfolding write
    subscribe-Safe x st =
        let safe' : IsSafe C (enlisted p x s) = record {
          idle = safe.idle;
          owned = safe.owned;
          live = safe.live;
          unused = safe.unused;
          subscribed = store-IsPattern C s.memory p x s.patterns (c, m, st) safe.subscribed;
          no_headers = safe.no_headers;
          timed = safe.timed;
          counting = safe.counting;
        } in
        write-Safe C p c (confirmed c) (enlisted p x s) safe' m
          (record {
            emptied = good.emptied;
            fresh_reply = refl;
            no_alarm = refl;
            keyed = good.keyed;
            identified = good.identified;
          })
          refl refl (λ y. y)
