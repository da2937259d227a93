-- ===== src/Client/Relay.antt =====
-- Where the contents come from that the client sends and hands on: from its caller and from the
-- broker.
pub mod Handle
pub mod Call
use zccp.Base.{
  ℕ, suc, ◌≡◌, ◌≢◌, ◌⊎◌, inl, inr, refl, sym, ap, subst, ◌∙◌, Bool, true, false, not, List, [], ◌∷◌,
  ◌++◌, Option, none, some, Option-cases, All, All-append, streq, arith,
}
use zccp.Base.Results.{Result, ok}
use zccp.Czmq.{Str, codes, Frame, Czmq}
use zccp.Codec.{Kind, deliver, code, kind_of, ZccpMsg}
use zccp.Codec.Wire.Get.{c_string}
use zccp.Codec.Decode.Numbers.{is_request, IsOf, encoded-IsOf}
use zccp.Codec.Decode.Full.{Only, IsFull, encoded-IsFull}
use zccp.Client.{State, ping_event, Event, deliver_event, Command, Client}
use zccp.Client.Engine.{s_client_execute}
use zccp.Client.Protocol.{
  Effect, sends, succeeds, fails, delivers, Row, row, own, inherited, signalled_by, sent_by,
}
use zccp.Client.Step.{HasInput, Follows, numbered}
use zccp.Client.Invariant.{
  IsSafe, is_raised, is_joined, delivers_raised, HasDelivery, execute-Follows,
}

abbrev pub is_ping : Event → Bool
is_ping ping_event = true
is_ping _ = false

module _ (C : Czmq) (Q : List Frame → Type 0) (empty : Q ([] ∷ [])) where
  open C use {Hash, print_int}

  -- A MESSAGE to the caller has the first frame of such a content.
  abbrev pub IsTold : Command → Type 0
  IsTold (name, parts) =
      streq name (codes "MESSAGE") ≡ true
      → (sender : Str) × (address : Str) × (frame : Frame) × (rest : List Frame) × (parts
          ≡ sender ∷ address ∷ c_string frame ∷ [])
        × Q (frame ∷ rest)

  pub record Relays (c : Client Hash) : Type 0 where
    pub carried : All (IsFull C Q) c.sent
    pub prepared : Only Q c.msgout.content
    pub told : All IsTold c.signalled
    pub asked : All (IsOf C is_request) c.sent

  sent_by-IsFull :
      (a : Effect) (m : ZccpMsg Hash)
      → Only Q m.content
      → All (IsFull C Q) (sent_by C a (numbered C a m))
  sent_by-IsFull (sends k) m h =
      (encoded-IsFull C Q k (record m { id = code k; routing_id = none }) empty h, tt)
  sent_by-IsFull _ m h = tt

  -- What a row sends is a request, but for the answer to a PING.
  abbrev sends_request : Effect → Bool
  sends_request (sends k) = is_request k
  sends_request _ = true

  row-sends_request :
      (st : State) (e : Event) (r : Row)
      → is_ping e ≡ false
      → row st e ≡ some r
      → sends_request r.effect ≡ true
  unfolding row own inherited
  row-sends_request st e r np h = ground arith

  sent_by-IsOf :
      (a : Effect) (m : ZccpMsg Hash)
      → sends_request a ≡ true
      → All (IsOf C is_request) (sent_by C a (numbered C a m))
  sent_by-IsOf (sends k) m h =
      (encoded-IsOf C is_request k (record m { id = code k; routing_id = none }) h, tt)
  sent_by-IsOf _ m h = tt

  -- The content of the message that a deliver event is about.
  abbrev pub Brought : Client Hash → Type 0
  Brought c = (m : ZccpMsg Hash) → c.msgin ≡ some m → Only Q m.content

  signalled_by-IsTold :
      (a : Effect) (c : Client Hash) (parts : List Str)
      → (a ≡ delivers → Brought c)
      → HasInput C a c parts
      → All IsTold (signalled_by C a parts)
  signalled_by-IsTold succeeds c parts h hi = (λ e. cc, tt)
  signalled_by-IsTold fails c parts h hi = (λ e. cc, tt)
  signalled_by-IsTold delivers c parts h (m, s, a, f, rest, hm, hs, ha, hc, hp) =
      (λ e. (s, a, f, rest, hp, h refl m hm (f ∷ rest) hc), tt)
  signalled_by-IsTold _ c parts h hi = tt

  still_Only : (o p : Option (List Frame)) → Only Q o → (p ≡ none) ⊎ (p ≡ o) → Only Q p
  still_Only o p h (inl e) fs k = cc
  still_Only o p h (inr e) fs k = h fs (sym e ∙ k)

  pub Follows-Relays :
      (c d : Client Hash) (r : Row) (parts : List Str)
      → Relays c
      → (r.effect ≡ delivers → Brought c)
      → sends_request r.effect ≡ true
      → HasInput C r.effect c parts
      → Follows C c d r parts
      → Relays d
  Follows-Relays c d r parts relays brought request hi f = record {
    carried = subst (All (IsFull C Q)) (sym f.sent) (
        All-append (IsFull C Q) c.sent _ relays.carried
          (sent_by-IsFull r.effect c.msgout relays.prepared));
    prepared = still_Only c.msgout.content d.msgout.content relays.prepared f.kept;
    told = subst (All IsTold) (sym f.signalled) (
        All-append IsTold c.signalled _ relays.told
          (signalled_by-IsTold r.effect c parts brought hi));
    asked = subst (All (IsOf C is_request)) (sym f.sent) (
        All-append (IsOf C is_request) c.sent _ relays.asked
          (sent_by-IsOf r.effect c.msgout request));
  }

  pub same_client : (r : Result (Client Hash)) (x y : Client Hash) → r ≡ ok x → r ≡ ok y → x ≡ y
  same_client r x y e f = cc

  pub execute-Relays :
      (fuel : ℕ) (c d : Client Hash) (e : Event)
      → IsSafe C c
      → c.terminated ≡ false
      → is_joined c.state ≡ true
      → is_raised e ≡ true
      → (e ≡ deliver_event → HasDelivery C c)
      → (e ≡ deliver_event → Brought c)
      → is_ping e ≡ false
      → Relays c
      → s_client_execute C (suc (suc fuel)) e c ≡ ok d
      → Relays d
  execute-Relays fuel c d e safe running j h input brought np relays ran =
      let (r, parts, x, eq, hi, run, f, _) = execute-Follows C fuel c e safe running j h input in
      subst Relays (same_client (s_client_execute C (suc (suc fuel)) e c) x d run ran) (
        Follows-Relays c x r parts relays (λ k. brought (delivers_raised c.state e r eq k))
          (row-sends_request c.state e r np eq) hi f)
