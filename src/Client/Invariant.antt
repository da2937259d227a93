-- ===== src/Client/Invariant.antt =====
-- What holds of the client between two events, and that the rows of the table keep it.
use zccp.Base.{
  inl, ◌≢◌, ℕ, suc, ◌≡◌, ◌⊎◌, inr, refl, sym, ap, subst, ◌∙◌, Bool, true, false, ◌&&◌, List, [],
  Option, none, some, All, All-append, streq, arith,
}
use zccp.Base.Results.{ok}
use zccp.Czmq.{Str, Frame, Czmq}
use zccp.Client.{
  State, start_state, connecting_state, connected_state, subscribing_state, reconnecting_state,
  Event, null_event, expired_event, deliver_event, close_connection_event, error_event, Command,
  Client, is_null,
}
use zccp.Client.Actions.{codes}
use zccp.Client.Engine.{s_client_execute}
use zccp.Client.Protocol.{
  Effect, sends, succeeds, fails, delivers, Row, own, inherited, row, or_stay, signalled_by,
  sent_by,
}
use zccp.Codec.{code, ZccpMsg}
use zccp.Codec.Decode.Full.{Only, IsFull, encoded-IsFull}
use zccp.Client.Step.{IsReady, HasInput, Follows, numbered}
use zccp.Client.Answer.{s_client_execute-Follows}

-- The events that the two handlers raise. No handler raises the others: nothing sets a timer, and
-- no action sets close_connection.
abbrev pub is_raised : Event → Bool
is_raised null_event = false
is_raised expired_event = false
is_raised close_connection_event = false
is_raised error_event = false
is_raised _ = true

-- The states between CONNECT and the end.
abbrev pub is_joined : State → Bool
is_joined connecting_state = true
is_joined connected_state = true
is_joined subscribing_state = true
is_joined reconnecting_state = true
is_joined _ = false

abbrev pub next_of : Option State → State → State
next_of none st = st
next_of (some next) st = next

abbrev pub is_honest : Effect → Bool
is_honest fails = false
is_honest _ = true

abbrev pub is_harmless : State → Option Row → Bool
is_harmless st none = false
is_harmless st (some r) = is_honest r.effect && is_joined (next_of r.next st)

rows_harmless :
    (st : State) (e : Event)
    → is_joined st ≡ true
    → is_raised e ≡ true
    → is_harmless st (row st e) ≡ true
unfolding row own inherited
rows_harmless st e h k = ground arith

pub delivers_raised :
    (st : State) (e : Event) (r : Row) → row st e ≡ some r → r.effect ≡ delivers → e ≡ deliver_event
unfolding row own inherited
delivers_raised st e r h k = ground arith

-- A reply to the caller that reports no failure.
abbrev pub IsHonest : Command → Type 0
IsHonest (name, rest) = streq name (codes "FAILURE") ≡ false

-- A content with a frame.
abbrev pub NotEmpty : List Frame → Type 0
NotEmpty fs = fs ≢ []

module _ (C : Czmq) where
  open C use {Hash, print_int}

  pub record IsSafe (c : Client Hash) : Type 0 where
    pub no_alarm : c.wakeup_timer ≡ 0
    pub no_timers : c.timers ≡ []
    pub no_headers : c.msgout.headers ≡ none
    pub no_bytes : c.msgout.headers_bytes ≡ 0
    pub phase : ((c.state ≡ start_state) × (c.dealing ≡ false)) ⊎ (is_joined c.state ≡ true)
    pub honest : All IsHonest c.signalled
    pub full_sent : All (IsFull C NotEmpty) c.sent
    pub loaded : Only NotEmpty c.msgout.content

  signalled_by-IsHonest :
      (a : Effect) (parts : List Str) → is_honest a ≡ true → All IsHonest (signalled_by C a parts)
  signalled_by-IsHonest succeeds parts h = (refl, tt)
  signalled_by-IsHonest delivers parts h = (refl, tt)
  signalled_by-IsHonest fails parts h = cc
  signalled_by-IsHonest _ parts h = tt

  or_stay-next_of : (next : Option State) (st : State) → or_stay C next st ≡ next_of next st
  or_stay-next_of none st = refl
  or_stay-next_of (some next) st = refl

  sent_by-IsFull :
      (a : Effect) (m : ZccpMsg Hash)
      → Only NotEmpty m.content
      → All (IsFull C NotEmpty) (sent_by C a (numbered C a m))
  sent_by-IsFull (sends k) m h =
      (encoded-IsFull C NotEmpty k (record m { id = code k; routing_id = none }) (λ e. cc) h, tt)
  sent_by-IsFull _ m h = tt

  still_loaded :
      (c d : Client Hash)
      → Only NotEmpty c.msgout.content
      → (d.msgout.content ≡ none) ⊎ (d.msgout.content ≡ c.msgout.content)
      → Only NotEmpty d.msgout.content
  still_loaded c d h (inl e) fs k = cc
  still_loaded c d h (inr e) fs k = h fs (sym e ∙ k)

  -- A harmless row keeps the client safe.
  pub Follows-IsSafe :
      (c d : Client Hash) (r : Row) (parts : List Str)
      → IsSafe c
      → is_harmless c.state (some r) ≡ true
      → Follows C c d r parts
      → IsSafe d
  Follows-IsSafe c d r parts safe h f =
      let (honest, joined) =
        and_parts (is_honest r.effect) (is_joined (next_of r.next c.state)) h in
      record {
        no_alarm = f.no_alarm;
        no_timers = f.timers ∙ safe.no_timers;
        no_headers = f.no_headers;
        no_bytes = f.no_bytes;
        phase = inr (ap is_joined (f.state ∙ or_stay-next_of r.next c.state) ∙ joined);
        honest = subst (All IsHonest) (sym f.signalled) (
            All-append IsHonest c.signalled (signalled_by C r.effect parts) safe.honest
              (signalled_by-IsHonest r.effect parts honest));
        full_sent = subst (All (IsFull C NotEmpty)) (sym f.sent) (
            All-append (IsFull C NotEmpty) c.sent
              (sent_by C r.effect (numbered C r.effect c.msgout)) safe.full_sent
              (sent_by-IsFull r.effect c.msgout safe.loaded));
        loaded = still_loaded c d safe.loaded f.kept;
      }
    where
      and_parts : (a b : Bool) → (a && b) ≡ true → (a ≡ true) × (b ≡ true)
      and_parts true b e = (refl, e)
      and_parts false b e = cc

  -- The DELIVER that a deliver event needs.
  abbrev pub HasDelivery : Client Hash → Type 0
  HasDelivery c = (parts : List Str) × HasInput C delivers c parts

  input_of :
      (a : Effect) (c : Client Hash)
      → (a ≡ delivers → HasDelivery c)
      → (parts : List Str) × HasInput C a c parts
  input_of delivers c f = f refl
  input_of (sends k) c f = ([], refl)
  input_of _ c f = ([], refl)

  joined_row :
      (st : State) (e : Event)
      → is_joined st ≡ true
      → is_raised e ≡ true
      → (o : Option Row) → row st e ≡ o
      → (r : Row) × (row st e ≡ some r) × (is_harmless st (some r) ≡ true)
  joined_row st e j h none eq = cc (ap (is_harmless st) eq, rows_harmless st e j h)
  joined_row st e j h (some r) eq = (r, eq, sym (ap (is_harmless st) eq) ∙ rows_harmless st e j h)

  pub ready : (c : Client Hash) → IsSafe c → c.terminated ≡ false → IsReady C c
  ready c safe running = record {
    running = running;
    no_alarm = safe.no_alarm;
    no_headers = safe.no_headers;
    no_bytes = safe.no_bytes;
  }

  raised_null : (e : Event) → is_raised e ≡ true → is_null e ≡ false
  raised_null null_event h = cc
  raised_null _ h = refl

  -- An event that a handler raises, after CONNECT, follows its row.
  pub execute-Follows :
      (fuel : ℕ) (c : Client Hash) (e : Event)
      → IsSafe c
      → c.terminated ≡ false
      → is_joined c.state ≡ true
      → is_raised e ≡ true
      → (e ≡ deliver_event → HasDelivery c)
      → (r : Row) × (parts : List Str) × (d : Client Hash) × (row c.state e ≡ some r)
        × HasInput C r.effect c parts
        × (s_client_execute C (suc (suc fuel)) e c ≡ ok d)
        × Follows C c d r parts
        × (is_harmless c.state (some r) ≡ true)
  execute-Follows fuel c e safe running j h input =
      let (r, eq, harmless) = joined_row c.state e j h (row c.state e) refl in
      let (parts, hi) = input_of r.effect c (λ k. input (delivers_raised c.state e r eq k)) in
      let (d, run, f) =
        s_client_execute-Follows C fuel c (ready c safe running) e r parts
          (λ s. not_start (sym (ap is_joined s) ∙ j)) (raised_null e h) eq hi in
      (r, parts, d, eq, hi, run, f, harmless)
    where
      not_start : false ≡ true → ⊥
      not_start e = cc

  pub execute-IsSafe :
      (fuel : ℕ) (c : Client Hash) (e : Event)
      → IsSafe c
      → c.terminated ≡ false
      → is_joined c.state ≡ true
      → is_raised e ≡ true
      → (e ≡ deliver_event → HasDelivery c)
      → (d : Client Hash) × (s_client_execute C (suc (suc fuel)) e c ≡ ok d) × IsSafe d
  execute-IsSafe fuel c e safe running j h input =
      let (r, parts, d, _, _, run, f, harmless) = execute-Follows fuel c e safe running j h input in
      (d, run, Follows-IsSafe c d r parts safe harmless f)
