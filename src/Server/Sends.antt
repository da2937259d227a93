-- ===== src/Server/Sends.antt =====
-- Every DELIVER that the broker sends has a content of a sort, if every PUBLISH that it gets has one.
use zccp.Base.{
  ℕ, suc, ◌≡◌, refl, sym, ap, subst, ◌∙◌, Bool, true, false, List, [], ◌∷◌, ◌++◌, append-nil,
  Option, none, some, All, Option-cases, inl, inr, arith,
}
use zccp.Czmq.{Str, Frame, Czmq}
use zccp.Codec.{
  Kind, hello, hello_ok, subscribe, subscribe_ok, direct, goodbye, goodbye_ok, ping, ping_ok,
  invalid, publish, deliver, kind_of, ZccpMsg, zccp_msg_new,
}
use zccp.Codec.Access.{
  zccp_msg_routing_id, zccp_msg_id, zccp_msg_content, zccp_msg_set_sender, zccp_msg_set_address,
  zccp_msg_set_headers, zccp_msg_set_content,
}
use zccp.Codec.Decode.{zccp_msg_decode}
use zccp.Codec.Decode.Full.{Only, HasBody, IsFull, encoded-IsFull}
use zccp.Codec.Decode.Numbers.{is_request, is_not_ping, IsOf, encoded-IsOf}
use zccp.Codec.Decode.Complete.{zccp_msg_recv-IsComplete}
use zccp.Codec.Socket.{set_routing, zccp_msg_recv}
use zccp.Codec.Steps.{deliver_msg}
use zccp.Server.{State, Event, expired_event, Ptr, Client, Server, ok, ◌>>=◌, or_fault}
use zccp.Server.Actions.{write}
use zccp.Server.Engine.{event_of, s_protocol_event}
use zccp.Server.Reactor.{find_client, s_server_client_message, s_client_handle_timeout}
use zccp.Server.Invariant.{IsSafe}
use zccp.Server.Memory.{update_self, IsNamed}
use zccp.Server.Publish.{deliveries, recipients}
use zccp.Server.Delivery.{delivery, encode_deliver-delivery}
use zccp.Server.Outcome.{reply_frames, empty_msg}
use zccp.Server.Protocol.{Answer, replies, ignores, vanishes, forwards, leaves, answer, IsAnswered}
use zccp.Server.Join.{find_client-Safe, find_client-old, find_client-new}
use zccp.Server.Step.{s_client_execute_answers}
use zccp.Server.Handle.{is_some, called, called-Safe, timed, accept_message-write, request-IsReady}

-- A reply has no content, and is not a PING.
abbrev is_bare : Kind → Bool
is_bare publish = false
is_bare deliver = false
is_bare ping = false
is_bare _ = true

abbrev is_bare_answer : Answer → Bool
is_bare_answer (replies k st) = is_bare k
is_bare_answer (leaves k) = is_bare k
is_bare_answer _ = true

answer_bare : (st : State) (e : Event) → is_bare_answer (answer st e) ≡ true
unfolding answer
answer_bare st e = ground arith

abbrev is_forwards : Answer → Bool
is_forwards forwards = true
is_forwards _ = false

forwards-publish :
    (st : State) (o : Option Kind) → is_forwards (answer st (event_of o)) ≡ true → o ≡ some publish
unfolding answer event_of
forwards-publish st o h = ground arith

module _ (C : Czmq) (Q : List Frame → Type 0) where
  open C use {Hash}

  -- A message to a client: what is behind the routing id has such a body and is not a PING.
  abbrev pub IsFullTo : List Frame → Type 0
  IsFullTo [] = Unit
  IsFullTo (peer ∷ frames) = IsFull C Q frames × IsOf C is_not_ping frames

  -- The broker sent only such messages, if any.
  abbrev pub SentFull : Server Hash → Server Hash → Type 0
  SentFull s t = (new : List (List Frame)) × (t.sent ≡ s.sent ++ new) × All IsFullTo new

module _ (C : Czmq) (Q : List Frame → Type 0) (empty : Q ([] ∷ [])) where
  open C use {Hash}

  nothing_sent : (s t : Server Hash) → t.sent ≡ s.sent → SentFull C Q s t
  nothing_sent s t e = ([], e ∙ sym (append-nil s.sent), tt)

  bare-is_not_ping : (k : Kind) → is_bare k ≡ true → is_not_ping k ≡ true
  bare-is_not_ping k h = ground arith

  reply-IsFull :
      (k : Kind)
      → is_bare k ≡ true
      → IsFull C Q (reply_frames C k) × IsOf C is_not_ping (reply_frames C k)
  unfolding zccp_msg_new
  reply-IsFull k h = (
    encoded-IsFull C Q k (empty_msg C k) empty (λ fs h. cc),
    encoded-IsOf C is_not_ping k (empty_msg C k) (bare-is_not_ping k h),
  )

  deliveries-IsFull :
      (frames : List Frame) (m : Ptr → Option (Client Hash)) (qs : List Ptr)
      → IsFull C Q frames × IsOf C is_not_ping frames
      → All (IsFullTo C Q) (deliveries C frames m qs)
  unfolding deliveries
  deliveries-IsFull frames m [] h = tt
  deliveries-IsFull frames m (q ∷ qs) h = (h, deliveries-IsFull frames m qs h)

  delivery-IsFull :
      (i a : Str) (headers : Option Hash) (content : Option (List Frame)) (frames : List Frame)
      → Only Q content
      → some (delivery C i a headers content) ≡ some frames
      → IsFull C Q frames × IsOf C is_not_ping frames
  unfolding deliver_msg zccp_msg_new zccp_msg_set_sender zccp_msg_set_address zccp_msg_set_headers
      zccp_msg_set_content
  delivery-IsFull i a headers content frames ne e = (
    subst (IsFull C Q) (same e)
        (encoded-IsFull C Q deliver (deliver_msg C i a headers content) empty ne),
    subst (IsOf C is_not_ping) (same e)
        (encoded-IsOf C is_not_ping deliver (deliver_msg C i a headers content) refl),
  )
    where
      same :
          some (delivery C i a headers content) ≡ some frames
          → delivery C i a headers content ≡ frames
      same e = cc

  -- What an answer sends.
  answered-SentFull :
      (p : Ptr) (c : Client Hash) (s t : Server Hash) (a : Answer)
      → is_bare_answer a ≡ true
      → (is_forwards a ≡ true → (r : ZccpMsg Hash) → c.request ≡ some r → Only Q r.content)
      → IsAnswered C p c s t a
      → SentFull C Q s t
  unfolding zccp_msg_content
  answered-SentFull p c s t (replies k st) bare full (sent, _) =
      (_, sent, (reply-IsFull k bare, tt))
  answered-SentFull p c s t (leaves k) bare full (sent, _) = (_, sent, (reply-IsFull k bare, tt))
  answered-SentFull p c s t ignores bare full (same, _) = nothing_sent s t same
  answered-SentFull p c s t vanishes bare full (same, _) = nothing_sent s t same
  answered-SentFull p c s t forwards bare full
        (r, a, frames, hr, ha, (i, b, hi, hb, enc), sent, _) =
      (
        _,
        sent,
        deliveries-IsFull frames s.memory (recipients C p a s.patterns) (
            delivery-IsFull i b s.headers (zccp_msg_content C r) frames (full refl r hr)
              (sym (encode_deliver-delivery C i b s.headers (zccp_msg_content C r)) ∙ enc)),
      )

  recv-decode :
      (peer : Frame) (frames : List Frame) (msg : ZccpMsg Hash)
      → zccp_msg_recv C true (some (peer ∷ frames)) ≡ some msg
      → (m : ZccpMsg Hash) × (zccp_msg_decode C (some frames) ≡ some m)
        × (msg ≡ record m { routing_id = some peer })
  unfolding zccp_msg_recv set_routing
  recv-decode peer [] msg e = cc
  recv-decode peer (frame ∷ rest) msg e = go (zccp_msg_decode C (some (frame ∷ rest))) e refl
    where
      go :
          (o : Option (ZccpMsg Hash))
          → set_routing C o peer ≡ some msg
          → zccp_msg_decode C (some (frame ∷ rest)) ≡ o
          → (m : ZccpMsg Hash) × (zccp_msg_decode C (some (frame ∷ rest)) ≡ some m)
            × (msg ≡ record m { routing_id = some peer })
      go none h k = cc
      go (some m) h k = (m, k, cc)

  recv-HasBody :
      (peer : Frame) (frames : List Frame) (msg : ZccpMsg Hash)
      → IsFull C Q frames
      → zccp_msg_recv C true (some (peer ∷ frames)) ≡ some msg
      → HasBody C Q msg
  recv-HasBody peer frames msg h e =
      let (m, dec, same) = recv-decode peer frames msg e in
      subst (HasBody C Q) (sym same) (h.full m dec)

  find_client-sent : (rid : Frame) (s : Server Hash) → (find_client C rid s).1.sent ≡ s.sent
  find_client-sent rid s = elim (Option-cases (s.clients (C.zframe_strhex rid))) [
    | inl n ↦ ap (λ x. x.1.sent) (find_client-new C rid s n)
    | inr (p, n) ↦ ap (λ x. x.1.sent) (find_client-old C rid s p n)
  ]

  -- A request has an event of its own.
  request-IsNamed_kind :
      (k : Kind) (v : Bool) → is_request k ≡ true → IsNamed C (event_of (some k)) v
  unfolding event_of
  request-IsNamed_kind hello v h = tt
  request-IsNamed_kind subscribe v h = tt
  request-IsNamed_kind publish v h = tt
  request-IsNamed_kind direct v h = tt
  request-IsNamed_kind goodbye v h = tt
  request-IsNamed_kind hello_ok v h = cc
  request-IsNamed_kind subscribe_ok v h = cc
  request-IsNamed_kind deliver v h = cc
  request-IsNamed_kind goodbye_ok v h = cc
  request-IsNamed_kind ping v h = cc
  request-IsNamed_kind ping_ok v h = cc
  request-IsNamed_kind invalid v h = cc

  request-IsNamed :
      (v : Bool) (peer : Frame) (frames : List Frame) (msg : ZccpMsg Hash)
      → IsOf C is_request frames
      → zccp_msg_recv C true (some (peer ∷ frames)) ≡ some msg
      → IsNamed C (event_of (kind_of msg.id)) v
  request-IsNamed v peer frames msg h e =
      let (m, dec, same) = recv-decode peer frames msg e in
      let (k, number, request) = h.of_kind m dec in
      subst (λ o. IsNamed C (event_of o) v) (sym (ap (λ x. kind_of x.id) same ∙ number))
        (request-IsNamed_kind k v request)

  -- A broker in its invariant that gets such a request stays in its invariant and sends such ones.
  pub message-SentFull :
      (fuel : ℕ) (peer : Frame) (frames : List Frame) (s : Server Hash)
      → IsSafe C s
      → IsFull C Q frames
      → IsOf C is_request frames
      → (t : Server Hash) × (s_server_client_message C
            (suc (suc (suc fuel)))
            (some (peer ∷ frames))
            s
          ≡ ok (is_some (zccp_msg_recv C true (some (peer ∷ frames))), t))
        × IsSafe C t
        × SentFull C Q s t
  unfolding s_server_client_message zccp_msg_routing_id s_protocol_event zccp_msg_id write
  message-SentFull fuel peer frames s safe full request =
      elim (Option-cases (zccp_msg_recv C true (some (peer ∷ frames)))) [
        | inl n ↦ (s, rw (n, s_server_client_message), safe, nothing_sent s s refl)
        | inr (msg, n) ↦
            let ((rid, r), complete) = zccp_msg_recv-IsComplete C (some (peer ∷ frames)) msg n in
            let body = recv-HasBody peer frames msg full n in
            let (p, c, t, found, safe', m) = find_client-Safe C rid s safe in
            let asking = called C c msg t.next_timer in
            let asked = write C p asking (timed C p c t) in
            let e = event_of (kind_of msg.id) in
            let (u, run, good, answered) =
              s_client_execute_answers C fuel p asking asked (called-Safe C p msg c t safe' m)
                (update_self t.memory p (some asking)) e
                (request-IsReady C msg asking (kind_of msg.id) complete refl)
                (request-IsNamed asked.verbose peer frames msg request n) in
            let (new, sent, all) =
              answered-SentFull p asking asked u (answer c.state e) (answer_bare c.state e)
                (λ h q eq.
                  subst (λ x. Only Q x.content) (same_message eq)
                    (body.0 (forwards-publish c.state (kind_of msg.id) h)))
                answered in
            (
              u,
              rw (
                n,
                s_server_client_message,
                ap or_fault r,
                ◌>>=◌,
                accept_message-write C (suc (suc (suc fuel))) rid msg s t p c found m
                    (safe'.idle p c m).emptied,
                run,
              ),
              good,
              (
                new,
                sent ∙ ap (λ l. l ++ new) (ap (λ x. x.1.sent) (sym found) ∙ find_client-sent rid s),
                all,
              ),
            )
      ]
    where
      same_message : {a b : ZccpMsg Hash} → some a ≡ some b → a ≡ b
      same_message e = cc

  timeout-vanishes : (st : State) → answer st expired_event ≡ vanishes
  unfolding answer
  timeout-vanishes st = ground arith

  -- A timeout sends nothing.
  pub timeout-SentFull :
      (fuel : ℕ) (p : Ptr) (c : Client Hash) (s : Server Hash)
      → IsSafe C s
      → s.memory p ≡ some c
      → (t : Server Hash) × (s_client_handle_timeout C (suc (suc (suc fuel))) p s ≡ ok t)
        × IsSafe C t
        × SentFull C Q s t
  unfolding s_client_handle_timeout
  timeout-SentFull fuel p c s safe m =
      let (t, run, good, answered) =
        s_client_execute_answers C fuel p c s safe m expired_event tt tt in
      let gone = subst (IsAnswered C p c s t) (timeout-vanishes c.state) answered in
      (t, run, good, nothing_sent s t gone.0)
