-- ===== src/Client/Round.antt =====
-- One event of the client: the loop makes one round, if the round ends with no next event.
use zccp.Base.{
  ℕ, zero, suc, ◌<◌, ◌≡◌, refl, ap, ◌∙◌, Bool, true, false, [], ◌∷◌, ◌++◌, none, ◌||◌, ◌==◌,
  if◌then◌else◌, arith,
}
use zccp.Base.Results.{Result, ok, fault, stuck, ◌>>=◌}
use zccp.Czmq.{Czmq}
use zccp.Codec.{Kind, kind_of-code, code, zccp_msg_new}
use zccp.Codec.Access.{zccp_msg_set_id}
use zccp.Codec.Encode.Size.{zccp_msg_encode-octets}
use zccp.Codec.Socket.{zccp_msg_send}
use zccp.Client.{Event, null_event, Client, is_null}
use zccp.Client.Actions.{send}
use zccp.Client.Engine.{
  end_timer, round, begin_round, run_state, raise_exception, loop, begin_execute, s_client_execute,
}
use zccp.Client.Protocol.{frames_of}

or_true : (b : Bool) → (b || true) ≡ true
or_true true = refl
or_true false = refl

bind_assoc :
    {A B D : Type 0} (r : Result A) (f : A → B) (g : B → Result D)
    → ((r >>= λ a. ok (f a)) >>= g) ≡ (r >>= λ a. g (f a))
bind_assoc (ok a) f g = refl
bind_assoc fault f g = refl
bind_assoc stuck f g = refl

module _ (C : Czmq) where
  open C use {Hash}

  -- The client as the actions of a round find it.
  abbrev pub begun : Event → Client Hash → Client Hash
  begun e c = record c {
    event = e;
    next_event = null_event;
    exception = null_event;
    wakeup_timer = 0;
  }

  pub loop_null :
      (fuel : ℕ) (d : Client Hash) → d.next_event ≡ null_event → 0 < fuel → loop C fuel d ≡ ok d
  unfolding loop
  loop_null zero d n more = absurd (omega arith)
  loop_null (suc fuel) d n more =
      ap (λ b. elim b [ true ↦ ok d | false ↦ round C d >>= loop C fuel ])
        (ap (λ e. d.terminated || is_null e) n ∙ or_true d.terminated)

  raise_exception-null : (d : Client Hash) → d.exception ≡ null_event → raise_exception C d ≡ d
  unfolding raise_exception
  raise_exception-null d x =
      ap (λ e. record d { next_event = if is_null e then d.next_event else d.exception }) x

  pub begin_execute-idle :
      (e : Event) (c : Client Hash)
      → c.wakeup_timer ≡ 0
      → begin_execute C e c ≡ record c { next_event = e; wakeup_timer = 0 }
  unfolding begin_execute
  begin_execute-idle e c alarm =
      ap
        (λ (n : ℕ). record c {
          next_event = e;
          wakeup_timer = 0;
          timers = if n == 0 then c.timers else end_timer c.wakeup_timer c.timers;
        })
        alarm

  module _ (fuel : ℕ) (e : Event) (c : Client Hash) (running : c.terminated ≡ false)
      (alarm : c.wakeup_timer ≡ 0) (event : is_null e ≡ false) where
    -- The first round, whatever it comes to.
    pub execute-round :
        s_client_execute C (suc fuel) e c
        ≡ (run_state C c.state e (begun e c) >>= λ d. loop C fuel (raise_exception C d))
    unfolding s_client_execute loop round begin_round
    execute-round =
        ap (loop C (suc fuel)) (begin_execute-idle e c alarm)
        ∙ ap (λ (b : Bool). elim b [ true ↦ ok called | false ↦ round C called >>= loop C fuel ])
            (ap (λ (b : Bool). b || is_null e) running ∙ event)
        ∙ bind_assoc (run_state C c.state e (begun e c)) (raise_exception C) (loop C fuel)
      where
        called : Client Hash
        called = record c { next_event = e; wakeup_timer = 0 }

    -- A round that leaves no exception and no next event is the last one.
    pub execute-ends :
        (d : Client Hash)
        → run_state C c.state e (begun e c) ≡ ok d
        → d.exception ≡ null_event
        → d.next_event ≡ null_event
        → 0 < fuel
        → s_client_execute C (suc fuel) e c ≡ ok d
    execute-ends d run x n more =
        execute-round
        ∙ ap (λ r. r >>= λ d. loop C fuel (raise_exception C d)) run
        ∙ ap (loop C fuel) (raise_exception-null d x)
        ∙ loop_null fuel d n more

  -- A message is numbered, encoded and sent, whatever its fields are.
  pub send-sends :
      (k : Kind) (c : Client Hash)
      → c.msgout.headers ≡ none
      → c.msgout.headers_bytes ≡ 0
      → send C k c
        ≡ ok (record c {
          msgout = zccp_msg_new Hash 0;
          sent = c.sent ++ frames_of C k (record c.msgout { id = code k; routing_id = none }) ∷ [];
        })
  unfolding send zccp_msg_send zccp_msg_set_id
  send-sends k c none_yet fresh = rw (
    zccp_msg_encode-octets C (record c.msgout { id = code k; routing_id = none }) k (kind_of-code k)
        (λ h. fresh),
    zccp_msg_send,
    ◌>>=◌,
  )
