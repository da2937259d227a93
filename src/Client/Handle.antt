-- ===== src/Client/Handle.antt =====
-- The handlers of Reactor.antt on a client in its invariant.
use zccp.Base.{
  none, ℕ, suc, ◌≡◌, ◌≢◌, ◌⊎◌, inl, inr, refl, ap, ◌∙◌, Bool, true, false, not, List, [], ◌∷◌,
  Option, some, Option-cases, arith,
}
use zccp.Base.Results.{ok}
use zccp.Czmq.{Str, Frame, Czmq}
use zccp.Codec.{Kind, deliver, kind_of, ZccpMsg}
use zccp.Codec.Wire.Get.{c_string}
use zccp.Codec.Access.{zccp_msg_id}
use zccp.Codec.Socket.{zccp_msg_recv}
use zccp.Codec.Decode.Complete.{IsComplete, zccp_msg_recv-IsComplete_dealer}
use zccp.Client.{start_state, Event, null_event, deliver_event, Client}
use zccp.Client.Engine.{event_of, s_protocol_event, halt_unless, loop, s_client_execute}
use zccp.Client.Reactor.{status, execute_protocol, s_client_handle_protocol}
use zccp.Client.Round.{loop_null, begin_execute-idle}
use zccp.Client.Invariant.{IsSafe, is_raised, is_joined, HasDelivery, execute-IsSafe}

pub event_of-is_raised : (o : Option Kind) (e : Event) → event_of o ≡ some e → is_raised e ≡ true
unfolding event_of
event_of-is_raised o e h = ground arith

pub event_of-deliver : (o : Option Kind) → event_of o ≡ some deliver_event → o ≡ some deliver
unfolding event_of
event_of-deliver o h = ground arith

module _ (C : Czmq) where
  open C use {Hash, zsock_connect}

  -- A DELIVER with a frame of content; nothing is asked of other messages.
  abbrev pub HasFrame : ZccpMsg Hash → Type 0
  HasFrame m = kind_of m.id ≡ some deliver → m.content ≢ some []

  -- No event: only a pending wakeup is cancelled.
  execute-null :
      (fuel : ℕ) (c : Client Hash)
      → c.wakeup_timer ≡ 0
      → s_client_execute C (suc fuel) null_event c
        ≡ ok (record c { next_event = null_event; wakeup_timer = 0 })
  unfolding s_client_execute
  execute-null fuel c alarm =
      ap (loop C (suc fuel)) (begin_execute-idle C null_event c alarm)
      ∙ loop_null C (suc fuel) (record c { next_event = null_event; wakeup_timer = 0 }) refl
          (omega arith)

  null-IsSafe :
      (c : Client Hash) (b : Bool)
      → IsSafe C c
      → IsSafe C (record c { next_event = null_event; wakeup_timer = 0; terminated = b })
  null-IsSafe c b safe = record {
    no_alarm = refl;
    no_timers = safe.no_timers;
    no_headers = safe.no_headers;
    no_bytes = safe.no_bytes;
    phase = safe.phase;
    honest = safe.honest;
    full_sent = safe.full_sent;
    loaded = safe.loaded;
  }

  pub msgin-IsSafe :
      (c : Client Hash) (m : ZccpMsg Hash) → IsSafe C c → IsSafe C (record c { msgin = some m })
  msgin-IsSafe c m safe = record {
    no_alarm = safe.no_alarm;
    no_timers = safe.no_timers;
    no_headers = safe.no_headers;
    no_bytes = safe.no_bytes;
    phase = safe.phase;
    honest = safe.honest;
    full_sent = safe.full_sent;
    loaded = safe.loaded;
  }

  pub delivery_of :
      (c : Client Hash) (m : ZccpMsg Hash)
      → IsComplete C m
      → HasFrame m
      → kind_of m.id ≡ some deliver
      → HasDelivery C (record c { msgin = some m })
  delivery_of c m complete frame k =
      let (s, a, frames, hs, ha, hc) = complete deliver k in go frames s a hs ha hc
    where
      go :
          (frames : List Frame) (s a : Str)
          → m.sender ≡ some s
          → m.address ≡ some a
          → m.content ≡ some frames
          → HasDelivery C (record c { msgin = some m })
      go [] s a hs ha hc = absurd (frame k hc)
      go (f ∷ rest) s a hs ha hc =
          (s ∷ a ∷ c_string f ∷ [], (m, s, a, f, rest, refl, hs, ha, hc, refl))

  pub dealing-joined : (c : Client Hash) → IsSafe C c → c.dealing ≡ true → is_joined c.state ≡ true
  dealing-joined c safe h = go safe.phase
    where
      go :
          ((c.state ≡ start_state) × (c.dealing ≡ false)) ⊎ (is_joined c.state ≡ true)
          → is_joined c.state ≡ true
      go (inl (st, no_dealing)) = cc
      go (inr j) = j

  -- A message without an event of its own ends the client.
  unfoldable pub ended_by : Client Hash → ZccpMsg Hash → Client Hash
  ended_by c m = record c {
    msgin = some m;
    next_event = null_event;
    wakeup_timer = 0;
    terminated = true;
  }

  pub execute_protocol-null :
      (fuel : ℕ) (m : ZccpMsg Hash) (c : Client Hash)
      → c.wakeup_timer ≡ 0
      → event_of (kind_of m.id) ≡ none
      → execute_protocol C (suc (suc fuel)) m c ≡ ok (ended_by c m)
  unfolding execute_protocol s_protocol_event halt_unless zccp_msg_id ended_by
  execute_protocol-null fuel m c alarm n =
      ap
        (λ o.
          let (e, d) = halt_unless C o (record c { msgin = some m }) in
          s_client_execute C (suc (suc fuel)) e d)
        n
      ∙ execute-null (suc fuel) (record c { msgin = some m; terminated = true }) alarm

  pub execute_protocol-event :
      (fuel : ℕ) (m : ZccpMsg Hash) (c : Client Hash) (e : Event)
      → event_of (kind_of m.id) ≡ some e
      → execute_protocol C fuel m c ≡ s_client_execute C fuel e (record c { msgin = some m })
  unfolding execute_protocol s_protocol_event halt_unless zccp_msg_id
  execute_protocol-event fuel m c e n =
      ap
        (λ o.
          let (e, d) = halt_unless C o (record c { msgin = some m }) in s_client_execute C fuel e d)
        n

  pub execute_protocol-IsSafe :
      (fuel : ℕ) (m : ZccpMsg Hash) (c : Client Hash)
      → IsSafe C c
      → c.terminated ≡ false
      → c.dealing ≡ true
      → IsComplete C m
      → HasFrame m
      → (d : Client Hash) × (execute_protocol C (suc (suc fuel)) m c ≡ ok d) × IsSafe C d
  unfolding ended_by
  execute_protocol-IsSafe fuel m c safe running deals complete frame =
      elim (Option-cases (event_of (kind_of m.id))) [
        | inl n ↦ (
          ended_by c m,
          execute_protocol-null fuel m c safe.no_alarm n,
          null-IsSafe (record c { msgin = some m }) true (msgin-IsSafe c m safe),
        )
        | inr (e, n) ↦
            let (d, run, good) =
              execute-IsSafe C fuel (record c { msgin = some m }) e (msgin-IsSafe c m safe) running
                (dealing-joined c safe deals) (event_of-is_raised (kind_of m.id) e n)
                (λ h.
                  delivery_of c m complete frame
                    (event_of-deliver (kind_of m.id) (n ∙ ap some h))) in
            (d, execute_protocol-event (suc (suc fuel)) m c e n ∙ run, good)
      ]

  -- After CONNECT reached an endpoint, at a client in its invariant that is not terminated, the
  -- handler of a message takes whatever comes in: it ends within two tests of the loop and without
  -- a fault, and the client stays in its invariant, where the message, if it is a DELIVER, has a
  -- frame of content. If it returns 0, the client is not terminated.
  pub s_client_handle_protocol-IsSafe :
      (fuel : ℕ) (input : Option (List Frame)) (c : Client Hash)
      → IsSafe C c
      → c.terminated ≡ false
      → c.dealing ≡ true
      → ((m : ZccpMsg Hash) → zccp_msg_recv C false input ≡ some m → HasFrame m)
      → (more : Bool) × (d : Client Hash) × (s_client_handle_protocol C (suc (suc fuel)) input c
          ≡ ok (more, d))
        × IsSafe C d
        × (more ≡ true → d.terminated ≡ false)
  unfolding s_client_handle_protocol status
  s_client_handle_protocol-IsSafe fuel input c safe running deals frame =
      elim (Option-cases (zccp_msg_recv C false input)) [
        | inl n ↦ (false, c, rw (n, s_client_handle_protocol), safe, λ h. running)
        | inr (m, n) ↦
            let (d, run, good) =
              execute_protocol-IsSafe fuel m c safe running deals
                (zccp_msg_recv-IsComplete_dealer C input m n) (frame m n) in
            (
              not d.terminated,
              d,
              rw (n, s_client_handle_protocol, run, status),
              good,
              λ h. not_not d.terminated h,
            )
      ]
    where
      not_not : (b : Bool) → not b ≡ true → b ≡ false
      not_not true h = cc
      not_not false h = refl
