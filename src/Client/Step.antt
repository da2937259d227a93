-- ===== src/Client/Step.antt =====
-- What it means that the client follows a row of the table; the rows that discard an event or send a
-- message to the server.
use zccp.Base.{
  ◌⊎◌, inl, inr, size_of_int, ℕ, suc, ◌≡◌, refl, sym, ap, ◌∙◌, false, List, [], ◌∷◌, ◌++◌,
  append-nil, Option, none, some, arith,
}
use zccp.Base.Results.{ok, ◌>>◌, skip}
use zccp.Czmq.{Str, Frame, Czmq}
use zccp.Codec.{Kind, hello, code, ZccpMsg, zccp_msg_new}
use zccp.Codec.Wire.Get.{c_string}
use zccp.Client.{State, reconnecting_state, Event, null_event, Client, is_null}
use zccp.Client.Actions.{unless_exception, set_state, send, use_connect_timeout, engine_set_timeout}
use zccp.Client.Engine.{run_state, reconnect, s_client_execute}
use zccp.Client.Protocol.{
  Effect, sends, delivers, nothing, Row, frames_of, sent_by, signalled_by, or_stay,
}
use zccp.Client.Round.{begun, execute-ends, send-sends}

module _ (C : Czmq) where
  open C use {Hash, zsock_connect}

  -- The client between two events.
  pub record IsReady (c : Client Hash) : Type 0 where
    pub running : c.terminated ≡ false
    pub no_alarm : c.wakeup_timer ≡ 0
    pub no_headers : c.msgout.headers ≡ none
    pub no_bytes : c.msgout.headers_bytes ≡ 0

  -- What an effect needs: a DELIVER with its fields and a frame of content.
  abbrev pub HasInput : Effect → Client Hash → List Str → Type 0
  HasInput delivers c parts =
      (m : ZccpMsg Hash) × (sender : Str) × (address : Str) × (frame : Frame) × (rest : List Frame)
      × (c.msgin ≡ some m)
      × (m.sender ≡ some sender)
      × (m.address ≡ some address)
      × (m.content ≡ some (frame ∷ rest))
      × (parts ≡ sender ∷ address ∷ c_string frame ∷ [])
  HasInput _ c parts = parts ≡ []

  abbrev pub numbered : Effect → ZccpMsg Hash → ZccpMsg Hash
  numbered (sends k) m = record m { id = code k; routing_id = none }
  numbered _ m = m

  -- From c to d by a row: what was sent and signalled, the state, and whether the client ended.
  pub record Follows (c d : Client Hash) (r : Row) (parts : List Str) : Type 0 where
    pub sent : d.sent ≡ c.sent ++ sent_by C r.effect (numbered r.effect c.msgout)
    pub signalled : d.signalled ≡ c.signalled ++ signalled_by C r.effect parts
    pub state : d.state ≡ or_stay C r.next c.state
    pub ended : d.terminated ≡ r.ends
    pub timers : d.timers ≡ c.timers
    pub dealing : d.dealing ≡ c.dealing
    pub no_alarm : d.wakeup_timer ≡ 0
    pub no_headers : d.msgout.headers ≡ none
    pub no_bytes : d.msgout.headers_bytes ≡ 0
    pub kept : (d.msgout.content ≡ none) ⊎ (d.msgout.content ≡ c.msgout.content)

  module _ (fuel : ℕ) (c : Client Hash) (good : IsReady c) where
    abbrev pub Ends : Event → Row → List Str → Type 0
    Ends e r parts =
        (d : Client Hash) × (s_client_execute C (suc (suc fuel)) e c ≡ ok d) × Follows c d r parts

    pub finish :
        (e : Event) (d : Client Hash) (r : Row) (parts : List Str)
        → is_null e ≡ false
        → run_state C c.state e (begun C e c) ≡ ok d
        → d.exception ≡ null_event
        → d.next_event ≡ null_event
        → Follows c d r parts
        → Ends e r parts
    finish e d r parts n run x m h =
        (d, execute-ends C (suc fuel) e c good.running good.no_alarm n d run x m (omega arith), h)

    pub discards :
        (e : Event)
        → is_null e ≡ false
        → run_state C c.state e ≡ skip
        → Ends e (record { effect = nothing; next = none; ends = false }) []
    discards e n run =
        finish e (begun C e c) _ [] n (ap (λ a. a (begun C e c)) run) refl refl (record {
          sent = sym (append-nil c.sent);
          signalled = sym (append-nil c.signalled);
          state = refl;
          ended = good.running;
          timers = refl;
          dealing = refl;
          no_alarm = refl;
          no_headers = good.no_headers;
          no_bytes = good.no_bytes;
          kept = inr refl;
        })

    abbrev after_send : Event → Kind → State → ℕ → Client Hash
    after_send e k st timeout = record (begun C e c) {
      msgout = zccp_msg_new Hash 0;
      sent = c.sent ++ frames_of C k (record c.msgout { id = code k; routing_id = none }) ∷ [];
      state = st;
      timeout = timeout;
    }

    sent_Follows :
        (e : Event) (k : Kind) (next : Option State) (timeout : ℕ)
        → Follows c
            (after_send e k (or_stay C next c.state) timeout)
            (record { effect = sends k; next = next; ends = false })
            []
    unfolding zccp_msg_new
    sent_Follows e k next timeout = record {
      sent = refl;
      signalled = sym (append-nil c.signalled);
      state = refl;
      ended = good.running;
      timers = refl;
      dealing = refl;
      no_alarm = refl;
      no_headers = refl;
      no_bytes = refl;
      kept = inl refl;
    }

    pub stays_sending :
        (e : Event) (k : Kind)
        → is_null e ≡ false
        → run_state C c.state e ≡ unless_exception C (send C k)
        → Ends e (record { effect = sends k; next = none; ends = false }) []
    unfolding unless_exception
    stays_sending e k n run =
        finish e (after_send e k c.state c.timeout) _ [] n
          (ap (λ a. a (begun C e c)) run
            ∙ send-sends C k (begun C e c) good.no_headers good.no_bytes)
          refl refl (sent_Follows e k none c.timeout)

    pub moves_sending :
        (e : Event) (k : Kind) (st : State)
        → is_null e ≡ false
        → run_state C c.state e
          ≡ (unless_exception C (send C k) >> unless_exception C (set_state C st))
        → Ends e (record { effect = sends k; next = some st; ends = false }) []
    unfolding unless_exception set_state
    moves_sending e k st n run =
        finish e (after_send e k st c.timeout) _ [] n
          (ap (λ a. a (begun C e c)) run
            ∙ rw (send-sends C k (begun C e c) good.no_headers good.no_bytes))
          refl refl (sent_Follows e k (some st) c.timeout)

    pub reconnects :
        (e : Event)
        → is_null e ≡ false
        → run_state C c.state e ≡ reconnect C
        → Ends e (record { effect = sends hello; next = some reconnecting_state; ends = false }) []
    unfolding reconnect unless_exception set_state use_connect_timeout engine_set_timeout
    reconnects e n run =
        let dialled : Client Hash = record (begun C e c) {
          timeout = size_of_int c.connect_timeout;
        } in
        finish e (after_send e hello reconnecting_state (size_of_int c.connect_timeout)) _ [] n
          (ap (λ a. a (begun C e c)) run
            ∙ rw (send-sends C hello dialled good.no_headers good.no_bytes))
          refl refl (sent_Follows e hello (some reconnecting_state) (size_of_int c.connect_timeout))
