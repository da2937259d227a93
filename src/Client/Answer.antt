-- ===== src/Client/Answer.antt =====
-- The table of Protocol.antt against the switch of s_client_execute, state by state.
use zccp.Base.{ℕ, ◌≡◌, ◌≢◌, refl, ap, subst, sym, false, List, [], Option, none, some}
use zccp.Czmq.{Str, Czmq}
use zccp.Codec.{subscribe, publish, direct, goodbye, ping_ok}
use zccp.Client.{
  State, start_state, connecting_state, connected_state, subscribing_state, disconnecting_state,
  defaults_state, reconnecting_state, Event, null_event, hello_ok_event, expired_event,
  subscribe_event, publish_event, direct_event, deliver_event, ping_event, close_connection_event,
  error_event, subscribe_ok_event, goodbye_ok_event, invalid_event, Client, is_null,
}
use zccp.Client.Engine.{
  run_connecting, run_connected, run_subscribing, run_disconnecting, run_defaults, run_reconnecting,
  run_state,
}
use zccp.Client.Protocol.{Effect, sends, delivers, Row, own, inherited, row}
use zccp.Client.Step.{IsReady, HasInput, Ends, discards, stays_sending, moves_sending, reconnects}
use zccp.Client.Signals.{greets, gives_up, confirms, resumes, terminates, hands_on}

module _ (C : Czmq) (fuel : ℕ) (c : Client C.Hash) (good : IsReady C c) where
  -- A row is followed; one that delivers, for each message with its fields.
  abbrev FollowsFor : Effect → Event → Row → Type 0
  FollowsFor delivers e r =
      (parts : List Str) → HasInput C delivers c parts → Ends C fuel c good e r parts
  FollowsFor _ e r = Ends C fuel c good e r []

  abbrev FollowsAny : Event → Option Row → Type 0
  FollowsAny e none = Unit {0}
  FollowsAny e (some r) = FollowsFor r.effect e r

  at_connecting :
      c.state ≡ connecting_state
      → (e : Event) → is_null e ≡ false
      → FollowsAny e (row connecting_state e)
  unfolding row own inherited run_state run_connecting
  at_connecting st null_event n = cc
  at_connecting st hello_ok_event n = greets C fuel c good st
  at_connecting st expired_event n = gives_up C fuel c good st
  at_connecting st invalid_event n =
      reconnects C fuel c good invalid_event n (ap (λ x. run_state C x invalid_event) st)
  at_connecting st e n = discards C fuel c good e n (ap (λ x. run_state C x e) st)

  at_connected :
      c.state ≡ connected_state
      → (e : Event) → is_null e ≡ false
      → FollowsAny e (row connected_state e)
  unfolding row own inherited run_state run_connected
  at_connected st null_event n = cc
  at_connected st subscribe_event n =
      moves_sending C fuel c good subscribe_event subscribe subscribing_state n
        (ap (λ x. run_state C x subscribe_event) st)
  at_connected st publish_event n =
      stays_sending C fuel c good publish_event publish n (ap (λ x. run_state C x publish_event) st)
  at_connected st direct_event n =
      stays_sending C fuel c good direct_event direct n (ap (λ x. run_state C x direct_event) st)
  at_connected st deliver_event n = λ parts h. hands_on C fuel c good parts st h
  at_connected st ping_event n =
      stays_sending C fuel c good ping_event ping_ok n (ap (λ x. run_state C x ping_event) st)
  at_connected st close_connection_event n =
      moves_sending C fuel c good close_connection_event goodbye disconnecting_state n
        (ap (λ x. run_state C x close_connection_event) st)
  at_connected st error_event n =
      terminates C fuel c good error_event n (ap (λ x. run_state C x error_event) st)
  at_connected st expired_event n =
      reconnects C fuel c good expired_event n (ap (λ x. run_state C x expired_event) st)
  at_connected st invalid_event n =
      reconnects C fuel c good invalid_event n (ap (λ x. run_state C x invalid_event) st)
  at_connected st e n = discards C fuel c good e n (ap (λ x. run_state C x e) st)

  at_subscribing :
      c.state ≡ subscribing_state
      → (e : Event) → is_null e ≡ false
      → FollowsAny e (row subscribing_state e)
  unfolding row own inherited run_state run_subscribing
  at_subscribing st null_event n = cc
  at_subscribing st subscribe_ok_event n = confirms C fuel c good st
  at_subscribing st expired_event n =
      reconnects C fuel c good expired_event n (ap (λ x. run_state C x expired_event) st)
  at_subscribing st invalid_event n =
      reconnects C fuel c good invalid_event n (ap (λ x. run_state C x invalid_event) st)
  at_subscribing st e n = discards C fuel c good e n (ap (λ x. run_state C x e) st)

  at_disconnecting :
      c.state ≡ disconnecting_state
      → (e : Event) → is_null e ≡ false
      → FollowsAny e (row disconnecting_state e)
  unfolding row own inherited run_state run_disconnecting
  at_disconnecting st null_event n = cc
  at_disconnecting st goodbye_ok_event n =
      terminates C fuel c good goodbye_ok_event n (ap (λ x. run_state C x goodbye_ok_event) st)
  at_disconnecting st expired_event n =
      terminates C fuel c good expired_event n (ap (λ x. run_state C x expired_event) st)
  at_disconnecting st invalid_event n =
      reconnects C fuel c good invalid_event n (ap (λ x. run_state C x invalid_event) st)
  at_disconnecting st e n = discards C fuel c good e n (ap (λ x. run_state C x e) st)

  at_defaults :
      c.state ≡ defaults_state
      → (e : Event) → is_null e ≡ false
      → FollowsAny e (row defaults_state e)
  unfolding row own inherited run_state run_defaults
  at_defaults st null_event n = cc
  at_defaults st expired_event n =
      reconnects C fuel c good expired_event n (ap (λ x. run_state C x expired_event) st)
  at_defaults st invalid_event n =
      reconnects C fuel c good invalid_event n (ap (λ x. run_state C x invalid_event) st)
  at_defaults st e n = discards C fuel c good e n (ap (λ x. run_state C x e) st)

  at_reconnecting :
      c.state ≡ reconnecting_state
      → (e : Event) → is_null e ≡ false
      → FollowsAny e (row reconnecting_state e)
  unfolding row own inherited run_state run_reconnecting
  at_reconnecting st null_event n = cc
  at_reconnecting st hello_ok_event n = resumes C fuel c good st
  at_reconnecting st expired_event n =
      reconnects C fuel c good expired_event n (ap (λ x. run_state C x expired_event) st)
  at_reconnecting st invalid_event n =
      reconnects C fuel c good invalid_event n (ap (λ x. run_state C x invalid_event) st)
  at_reconnecting st e n = discards C fuel c good e n (ap (λ x. run_state C x e) st)

  by_state :
      (st : State)
      → c.state ≡ st
      → st ≢ start_state
      → (e : Event) → is_null e ≡ false
      → FollowsAny e (row st e)
  by_state start_state st ne = absurd (ne refl)
  by_state connecting_state st ne = at_connecting st
  by_state connected_state st ne = at_connected st
  by_state subscribing_state st ne = at_subscribing st
  by_state disconnecting_state st ne = at_disconnecting st
  by_state defaults_state st ne = at_defaults st
  by_state reconnecting_state st ne = at_reconnecting st

  with_input :
      (a : Effect) (e : Event) (r : Row) (parts : List Str)
      → FollowsFor a e r
      → HasInput C a c parts
      → Ends C fuel c good e r parts
  with_input delivers e r parts f h = f parts h
  with_input (sends k) e r parts f h = subst (Ends C fuel c good e r) (sym h) f
  with_input _ e r parts f h = subst (Ends C fuel c good e r) (sym h) f

  -- At a client that is not terminated, has no wakeup timer set and no headers in its next
  -- message: in every state but "start", every event is handled to the end by two tests of the
  -- loop, without a fault, and follows its row of the table: what is sent to the server and
  -- signalled to the caller, the next state, and whether the client ends. A row that hands a
  -- DELIVER on needs the message to have a sender, an address and a frame of content.
  pub s_client_execute-Follows :
      (e : Event) (r : Row) (parts : List Str)
      → c.state ≢ start_state
      → is_null e ≡ false
      → row c.state e ≡ some r
      → HasInput C r.effect c parts
      → Ends C fuel c good e r parts
  s_client_execute-Follows e r parts ne n hr h =
      with_input r.effect e r parts (subst (FollowsAny e) hr (by_state c.state refl ne e n)) h
