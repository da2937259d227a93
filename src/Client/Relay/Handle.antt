-- ===== src/Client/Relay/Handle.antt =====
-- The handlers of the client keep what Relay.antt says of contents.
use zccp.Base.{
  arith, ℕ, suc, ◌≡◌, inl, inr, refl, sym, ap, subst, ◌∙◌, Bool, true, false, not, List, [], ◌∷◌,
  Option, some, Option-cases, All,
}
use zccp.Base.Results.{Result, ok}
use zccp.Czmq.{Frame, Czmq}
use zccp.Codec.{Kind, deliver, kind_of, ZccpMsg}
use zccp.Codec.Socket.{zccp_msg_recv}
use zccp.Codec.Decode.Complete.{IsComplete, zccp_msg_recv-IsComplete_dealer}
use zccp.Codec.Decode.Full.{Only, IsFull}
use zccp.Codec.Decode.Numbers.{is_request, is_not_ping, IsOf}
use zccp.Client.{Event, Client}
use zccp.Client.Engine.{event_of}
use zccp.Client.Reactor.{status, execute_protocol, s_client_handle_protocol}
use zccp.Client.Invariant.{IsSafe}
use zccp.Client.Handle.{
  HasFrame, ended_by, msgin-IsSafe, delivery_of, dealing-joined, event_of-is_raised,
  event_of-deliver, execute_protocol-null, execute_protocol-event, execute_protocol-IsSafe,
}
use zccp.Client.Relay.{is_ping, IsTold, Relays, same_client, execute-Relays}

module _ (C : Czmq) (Q : List Frame → Type 0) (empty : Q ([] ∷ [])) where
  open C use {Hash, zsock_connect}

  -- What Relays is about did not change.
  pub unchanged :
      (c d : Client Hash)
      → d.sent ≡ c.sent
      → d.msgout.content ≡ c.msgout.content
      → d.signalled ≡ c.signalled
      → Relays C Q empty c
      → Relays C Q empty d
  unchanged c d es em eg r = record {
    carried = subst (All (IsFull C Q)) (sym es) r.carried;
    prepared = subst (Only Q) (sym em) r.prepared;
    told = subst (All (IsTold C Q empty)) (sym eg) r.told;
    asked = subst (All (IsOf C is_request)) (sym es) r.asked;
  }

  same_msg : (a b : ZccpMsg Hash) → some a ≡ some b → a ≡ b
  same_msg a b e = cc

  -- The number of a message that is not a PING.
  abbrev pub IsNoPing : ZccpMsg Hash → Type 0
  IsNoPing m = (k : Kind) × (kind_of m.id ≡ some k) × (is_not_ping k ≡ true)

  no_ping_event :
      (k : Kind) (e : Event) → is_not_ping k ≡ true → event_of (some k) ≡ some e → is_ping e ≡ false
  unfolding event_of
  no_ping_event k e h n = ground arith

  execute_protocol-Relays :
      (fuel : ℕ) (m : ZccpMsg Hash) (c d : Client Hash)
      → IsSafe C c
      → c.terminated ≡ false
      → c.dealing ≡ true
      → IsComplete C m
      → HasFrame C m
      → (kind_of m.id ≡ some deliver → Only Q m.content)
      → IsNoPing m
      → Relays C Q empty c
      → execute_protocol C (suc (suc fuel)) m c ≡ ok d
      → Relays C Q empty d
  unfolding ended_by
  execute_protocol-Relays fuel m c d safe running deals complete frame brought np relays ran =
      elim (Option-cases (event_of (kind_of m.id))) [
        | inl n ↦
            subst (Relays C Q empty)
              (same_client C Q empty _ (ended_by C c m) d
                (execute_protocol-null C fuel m c safe.no_alarm n) ran)
              (unchanged c (ended_by C c m) refl refl refl relays)
        | inr (e, n) ↦
            execute-Relays C Q empty fuel (record c { msgin = some m }) d e
              (msgin-IsSafe C c m safe) running (dealing-joined C c safe deals)
              (event_of-is_raised (kind_of m.id) e n)
              (λ h.
                delivery_of C c m complete frame (event_of-deliver (kind_of m.id) (n ∙ ap some h)))
              (λ h x k.
                subst (λ y. Only Q y.content) (same_msg m x k)
                  (brought (event_of-deliver (kind_of m.id) (n ∙ ap some h))))
              (let (k, number, other) = np in
                no_ping_event k e other (ap event_of (sym number) ∙ n))
              (unchanged c (record c { msgin = some m }) refl refl refl relays)
              (sym (execute_protocol-event C (suc (suc fuel)) m c e n) ∙ ran)
      ]

  same_pair :
      (r : Result (Bool × Client Hash)) (x y : Bool × Client Hash) → r ≡ ok x → r ≡ ok y → x.1 ≡ y.1
  same_pair r x y e f = cc

  pub handle_protocol-Relays :
      (fuel : ℕ) (input : Option (List Frame)) (c d : Client Hash) (more : Bool)
      → IsSafe C c
      → c.terminated ≡ false
      → c.dealing ≡ true
      → ((m : ZccpMsg Hash) → zccp_msg_recv C false input ≡ some m → HasFrame C m)
      → ((m : ZccpMsg Hash)
          → zccp_msg_recv C false input ≡ some m
          → kind_of m.id ≡ some deliver
          → Only Q m.content)
      → ((m : ZccpMsg Hash) → zccp_msg_recv C false input ≡ some m → IsNoPing m)
      → Relays C Q empty c
      → s_client_handle_protocol C (suc (suc fuel)) input c ≡ ok (more, d)
      → Relays C Q empty d
  unfolding s_client_handle_protocol status
  handle_protocol-Relays fuel input c d more safe running deals frame brought np relays ran =
      elim (Option-cases (zccp_msg_recv C false input)) [
        | inl n ↦
            subst (Relays C Q empty)
              (same_pair (s_client_handle_protocol C (suc (suc fuel)) input c) (false, c) (more, d)
                (rw (n, s_client_handle_protocol)) ran)
              relays
        | inr (m, n) ↦
            let (x, run, _) =
              execute_protocol-IsSafe C fuel m c safe running deals
                (zccp_msg_recv-IsComplete_dealer C input m n) (frame m n) in
            subst (Relays C Q empty)
              (same_pair (s_client_handle_protocol C (suc (suc fuel)) input c) (not x.terminated, x)
                (more, d) (rw (n, s_client_handle_protocol, run, status)) ran)
              (execute_protocol-Relays fuel m c x safe running deals
                (zccp_msg_recv-IsComplete_dealer C input m n) (frame m n) (brought m n) (np m n)
                relays run)
      ]
