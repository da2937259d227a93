-- ===== src/Client/Relapse.antt =====
-- What INVALID does to a client whose caller waits for a reply.
use zccp.Base.{
  ℕ, suc, ◌≡◌, refl, ap, ◌∙◌, Bool, true, false, List, [], ◌∷◌, ◌++◌, append-nil, arith, none, some,
}
use zccp.Base.Results.{ok}
use zccp.Czmq.{Str, Frame, Czmq}
use zccp.Codec.{hello, hello_ok, invalid, code, kind_of, ZccpMsg}
use zccp.Codec.Socket.{zccp_msg_recv}
use zccp.Client.{
  State, connecting_state, subscribing_state, reconnecting_state, connected_state, hello_ok_event,
  invalid_event, Client,
}
use zccp.Client.Engine.{event_of}
use zccp.Client.Reactor.{s_client_handle_protocol}
use zccp.Client.Protocol.{sends, nothing, Row, own, inherited, row, frames_of}
use zccp.Client.Invariant.{IsSafe, is_harmless}
use zccp.Client.Converse.{message-Went}
use zccp.Client.Api.{
  Api, waits, zccp_client_subscribe, s_accept_reply, accept_from, status_of, send_command,
}

abbrev greets_again : Row
greets_again = record { effect = sends hello; next = some reconnecting_state; ends = false }

abbrev resumes_quietly : Row
resumes_quietly = record { effect = nothing; next = some connected_state; ends = false }

-- The states in which the caller waits for SUCCESS.
abbrev pub is_awaited : State → Bool
is_awaited connecting_state = true
is_awaited subscribing_state = true
is_awaited _ = false

row-invalid : (st : State) → is_awaited st ≡ true → row st invalid_event ≡ some greets_again
unfolding row own inherited
row-invalid st h = ground arith

harmless-invalid : (st : State) → is_awaited st ≡ true → is_harmless st (some greets_again) ≡ true
harmless-invalid st h = refl

awaited-start : (st : State) → is_awaited st ≡ true → st ≡ State.start_state → ⊥
awaited-start st h e = cc (ap is_awaited e, h)

module _ (C : Czmq) where
  open C use {Hash}

  -- Let the caller of a client in its invariant, which is not terminated, wait for SUCCESS, that
  -- is, let the client be in "connecting" or "subscribing", and let it get INVALID and then HELLO-
  -- OK. Both handlers end and return 0, the client sends HELLO in between and is in "connected"
  -- after that; but it has signalled nothing, and without a reply zccp_client_subscribe waits.
  pub invalid-waits :
      (fuel : ℕ) (c : Client Hash) (lost welcome : List Frame) (m n : ZccpMsg Hash) (api : Api)
      (expression : Str)
      → IsSafe C c
      → c.terminated ≡ false
      → is_awaited c.state ≡ true
      → zccp_msg_recv C false (some lost) ≡ some m
      → kind_of m.id ≡ some invalid
      → zccp_msg_recv C false (some welcome) ≡ some n
      → kind_of n.id ≡ some hello_ok
      → (c1 : Client Hash) × (c2 : Client Hash) × (s_client_handle_protocol C
            (suc (suc fuel))
            (some lost)
            c
          ≡ ok (true, c1))
        × (c1.sent
            ≡ c.sent
              ++ frames_of C hello (record c.msgout { id = code hello; routing_id = none }) ∷ [])
        × (s_client_handle_protocol C (suc (suc fuel)) (some welcome) c1 ≡ ok (true, c2))
        × (c2.state ≡ connected_state)
        × (c2.sent ≡ c1.sent)
        × (c2.signalled ≡ c.signalled)
        × (zccp_client_subscribe C expression (record api { arrivals = [] }) ≡ waits)
  unfolding row own inherited event_of zccp_client_subscribe s_accept_reply accept_from status_of
      send_command
  invalid-waits fuel c lost welcome m n api expression safe running st arrives km arrives' kn =
      let (c1, run1, alive, f, good) =
        message-Went C fuel lost m c invalid_event greets_again [] arrives (ap event_of km) safe
          running (awaited-start c.state st) refl (row-invalid c.state st)
          (harmless-invalid c.state st) refl refl in
      let (c2, run2, _, g, _) =
        message-Went C fuel welcome n c1 hello_ok_event resumes_quietly [] arrives' (ap event_of kn)
          good alive (λ h. cc (f.state, h)) refl (ap (λ s. row s hello_ok_event) f.state)
          (ap (λ s. is_harmless s (some resumes_quietly)) f.state) refl refl in
      (
        c1,
        c2,
        run1,
        f.sent,
        run2,
        g.state,
        g.sent ∙ append-nil c1.sent,
        g.signalled ∙ append-nil c1.signalled ∙ f.signalled ∙ append-nil c.signalled,
        refl,
      )
