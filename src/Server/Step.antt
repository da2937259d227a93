-- ===== src/Server/Step.antt =====
-- s_client_execute for every event that a request or a timeout can raise, in each of the states.
use zccp.Base.{streq_refl, none, ℕ, suc, ◌≡◌, refl, ap, ◌∙◌, false, some}
use zccp.Czmq.{Str, Czmq}
use zccp.Codec.{Kind, hello_ok, subscribe_ok, goodbye_ok, invalid, ZccpMsg}
use zccp.Codec.Access.{zccp_msg_identifier, zccp_msg_expression, zccp_msg_address}
use zccp.Server.{
  State, start_state, connected_state, external_state, Event, terminate_event, null_event,
  hello_event, subscribe_event, publish_event, direct_event, forward_event, goodbye_event,
  expired_event, Ptr, Client, Server, Result, ok, is_null, update, update_key,
}
use zccp.Server.Actions.{write}
use zccp.Server.Engine.{
  run_start, run_connected, run_external, run_state, send_and_terminate, terminate,
  s_client_execute,
}
use zccp.Server.Invariant.{IsSafe, IsIdle, write-Safe}
use zccp.Server.Publish.{recipients, forwarded}
use zccp.Server.Publisher.{noted, done_publishing, execute-publish}
use zccp.Server.Delivery.{noted-IsDelivery, published-Safe}
use zccp.Server.Memory.{update_self, IsNamed}
use zccp.Server.Protocol.{Answer, replies, ignores, vanishes, forwards, leaves, answer, IsAnswered}
use zccp.Server.Requests.{greeted}
use zccp.Server.Admit.{
  enlisted, confirmed, execute-hello, hello-Safe, execute-subscribe, subscribe-Safe,
}
use zccp.Server.Leave.{without, without-Safe}
use zccp.Server.Outcome.{
  begun, execute-idle, execute-terminate, replied, renewed, ending, terminate-write,
  send_and_terminate-write,
}

module _ (C : Czmq) where
  open C use {Hash}

  -- What an event needs of the client: its request has the field that the actions read.
  -- A forward event is sent by another client's actions only.
  abbrev pub IsReady : Event → Client Hash → Type 0
  IsReady hello_event c =
      (r : ZccpMsg Hash) × (i : Str) × (c.request ≡ some r) × (zccp_msg_identifier C r ≡ some i)
  IsReady subscribe_event c =
      (r : ZccpMsg Hash) × (x : Str) × (c.request ≡ some r) × (zccp_msg_expression C r ≡ some x)
  IsReady publish_event c =
      (r : ZccpMsg Hash) × (a : Str) × (c.request ≡ some r) × (zccp_msg_address C r ≡ some a)
  IsReady null_event c = ⊥
  IsReady forward_event c = ⊥
  IsReady _ c = Unit

  -- The code ends, and leaves the broker well formed.
  abbrev pub EndsSafe : Result (Server Hash) → Type 0
  EndsSafe r = (t : Server Hash) × (r ≡ ok t) × IsSafe C t

  module _ (fuel : ℕ) (p : Ptr) (c : Client Hash) (s : Server Hash) (safe : IsSafe C s)
      (m : s.memory p ≡ some c) where
    good : IsIdle C c
    good = safe.idle p c m

    abbrev send : Ptr → Event → Server Hash → Result (Server Hash)
    send = s_client_execute C (suc (suc fuel))

    -- The event is handled to the end, by the answer, and the broker is well formed after it.
    abbrev pub Ends : Event → Answer → Type 0
    Ends e a =
        (t : Server Hash) × (s_client_execute C (suc (suc (suc fuel))) p e s ≡ ok t)
        × IsSafe C t
        × IsAnswered C p c s t a

    here : (d : Client Hash) → update s.memory p (some d) p ≡ some d
    here d = update_self s.memory p (some d)

    gone :
        (update s.memory p none p ≡ none) × (update_key s.clients c.hashkey none c.hashkey ≡ none)
    gone = (update_self s.memory p none, rw (streq_refl c.hashkey))

    -- A last message is sent, and the client is deleted.
    leave :
        (e : Event) (k : Kind)
        → is_null e ≡ false
        → IsNamed C e s.verbose
        → run_state C send p c.state e ≡ send_and_terminate C p k
        → Ends e (leaves k)
    unfolding write
    leave e k n named r = (
      without C p (ending C (renewed C (begun C e c))) (replied C k (begun C e c) s),
      execute-terminate C (suc fuel) p e c (ending C (renewed C (begun C e c))) s
          (replied C k (begun C e c) s) m good.no_alarm n named
          (ap (λ a. a (write C p (begun C e c) s)) r
            ∙ send_and_terminate-write C p k (begun C e c) s refl good.fresh_reply)
          refl refl (safe.owned p c m),
      without-Safe C p c 0 s safe m,
      (refl, gone),
    )

    expire : run_state C send p c.state expired_event ≡ terminate C p → Ends expired_event vanishes
    unfolding write
    expire r = (
      without C p (ending C (begun C expired_event c)) s,
      execute-terminate C (suc fuel) p expired_event c (ending C (begun C expired_event c)) s s m
          good.no_alarm refl tt
          (ap (λ a. a (write C p (begun C expired_event c) s)) r
            ∙ terminate-write C p (begun C expired_event c) s refl)
          refl refl (safe.owned p c m),
      without-Safe C p c 0 s safe m,
      (refl, gone),
    )

    hello_step :
        c.state ≡ start_state
        → IsReady hello_event c
        → Ends hello_event (replies hello_ok connected_state)
    unfolding write
    hello_step st (r, i, hr, hi) = (
      write C p (greeted C i c) (replied C hello_ok c s),
      execute-hello C fuel p c s safe m r i st hr hi,
      hello-Safe C fuel p c s safe m i,
      (refl, (greeted C i c, here (greeted C i c), refl)),
    )

    subscribe_step :
        c.state ≡ connected_state
        → IsReady subscribe_event c
        → Ends subscribe_event (replies subscribe_ok connected_state)
    unfolding write
    subscribe_step st (r, x, hr, hx) = (
      write C p (confirmed C c) (replied C subscribe_ok c (enlisted C p x s)),
      execute-subscribe C fuel p c s safe m r x st hr hx,
      subscribe-Safe C fuel p c s safe m x st,
      (refl, (confirmed C c, here (confirmed C c), st)),
    )

    direct_step : c.state ≡ connected_state → Ends direct_event ignores
    unfolding run_state run_connected write
    direct_step st =
        let after : Client Hash = begun C direct_event c in
        (
          write C p after s,
          execute-idle C (suc fuel) p direct_event c after s s m good.no_alarm refl tt
              (ap (λ y. run_state C send p y direct_event (write C p after s)) st) refl good.emptied
              refl,
          write-Safe C p c after s safe m
              (record {
                emptied = good.emptied;
                fresh_reply = good.fresh_reply;
                no_alarm = refl;
                keyed = good.keyed;
                identified = good.identified;
              })
              refl refl (λ y. y),
          (refl, (after, here after, refl)),
        )

    publish_step : c.state ≡ connected_state → IsReady publish_event c → Ends publish_event forwards
    unfolding write
    publish_step st (r, a, hr, ha) =
        let (frames, d) = noted-IsDelivery C c s r a good st ha in
        (
          write C p (done_publishing C c)
              (forwarded C frames (recipients C p a s.patterns) (noted C c r s)),
          execute-publish C fuel p c s r a frames safe m st hr ha d,
          published-Safe C p c s r a frames safe m,
          (
            r,
            a,
            frames,
            hr,
            ha,
            d,
            refl,
            (
              done_publishing C c,
              update_self (forwarded C frames (recipients C p a s.patterns) (noted C c r s)).memory
                  p (some (done_publishing C c)),
              refl,
            ),
          ),
        )

    at_start :
        c.state ≡ start_state
        → (e : Event) → IsReady e c
        → IsNamed C e s.verbose
        → Ends e (answer start_state e)
    unfolding answer run_state run_start
    at_start st hello_event r n = hello_step st r
    at_start st expired_event r n = expire (ap (λ x. run_state C send p x expired_event) st)
    at_start st goodbye_event r n =
        leave goodbye_event goodbye_ok refl tt (ap (λ x. run_state C send p x goodbye_event) st)
    at_start st null_event r n = absurd r
    at_start st forward_event r n = absurd r
    at_start st terminate_event r n =
        leave terminate_event invalid refl n (ap (λ x. run_state C send p x terminate_event) st)
    at_start st subscribe_event r n =
        leave subscribe_event invalid refl tt (ap (λ x. run_state C send p x subscribe_event) st)
    at_start st publish_event r n =
        leave publish_event invalid refl tt (ap (λ x. run_state C send p x publish_event) st)
    at_start st direct_event r n =
        leave direct_event invalid refl tt (ap (λ x. run_state C send p x direct_event) st)

    at_connected :
        c.state ≡ connected_state
        → (e : Event) → IsReady e c
        → IsNamed C e s.verbose
        → Ends e (answer connected_state e)
    unfolding answer run_state run_connected
    at_connected st subscribe_event r n = subscribe_step st r
    at_connected st publish_event r n = publish_step st r
    at_connected st direct_event r n = direct_step st
    at_connected st expired_event r n = expire (ap (λ x. run_state C send p x expired_event) st)
    at_connected st goodbye_event r n =
        leave goodbye_event goodbye_ok refl tt (ap (λ x. run_state C send p x goodbye_event) st)
    at_connected st null_event r n = absurd r
    at_connected st forward_event r n = absurd r
    at_connected st terminate_event r n =
        leave terminate_event invalid refl n (ap (λ x. run_state C send p x terminate_event) st)
    at_connected st hello_event r n =
        leave hello_event invalid refl tt (ap (λ x. run_state C send p x hello_event) st)

    at_external :
        c.state ≡ external_state
        → (e : Event) → IsReady e c
        → IsNamed C e s.verbose
        → Ends e (answer external_state e)
    unfolding answer run_state run_external
    at_external st expired_event r n = expire (ap (λ x. run_state C send p x expired_event) st)
    at_external st goodbye_event r n =
        leave goodbye_event goodbye_ok refl tt (ap (λ x. run_state C send p x goodbye_event) st)
    at_external st null_event r n = absurd r
    at_external st forward_event r n = absurd r
    at_external st hello_event r n =
        leave hello_event invalid refl tt (ap (λ x. run_state C send p x hello_event) st)
    at_external st terminate_event r n =
        leave terminate_event invalid refl n (ap (λ x. run_state C send p x terminate_event) st)
    at_external st subscribe_event r n =
        leave subscribe_event invalid refl tt (ap (λ x. run_state C send p x subscribe_event) st)
    at_external st publish_event r n =
        leave publish_event invalid refl tt (ap (λ x. run_state C send p x publish_event) st)
    at_external st direct_event r n =
        leave direct_event invalid refl tt (ap (λ x. run_state C send p x direct_event) st)

    by_state :
        (st : State)
        → c.state ≡ st
        → (e : Event) → IsReady e c
        → IsNamed C e s.verbose
        → Ends e (answer st e)
    by_state start_state st = at_start st
    by_state connected_state st = at_connected st
    by_state external_state st = at_external st

    -- An event at a live client of a well-formed broker, with what its actions need of the client's
    -- request, and unless the event is terminate_event and the broker verbose, is handled to the end within three units of fuel, without a read of NULL or of a
    -- dangling pointer. The table of answers says what is sent, to whom, and whether and in which
    -- state the client lives on; and the broker is well formed after it.
    pub s_client_execute_answers :
        (e : Event) → IsReady e c → IsNamed C e s.verbose → Ends e (answer c.state e)
    s_client_execute_answers = by_state c.state refl

    pub execute-EndsSafe :
        (e : Event)
        → IsReady e c
        → IsNamed C e s.verbose
        → EndsSafe (s_client_execute C (suc (suc (suc fuel))) p e s)
    execute-EndsSafe e r n =
        let (t, run, good, _) = s_client_execute_answers e r n in (t, run, good)
