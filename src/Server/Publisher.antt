-- ===== src/Server/Publisher.antt =====
-- A publish event, from the publisher's side: the round that runs forward_to_subscribers.
use zccp.Base.{
  ℕ, suc, ◌≡◌, ◌≢◌, refl, ap, ◌∙◌, inl, inr, List, [], ◌∷◌, ◌++◌, Option, some, ◌==◌, arith,
  Bool-cases,
}
use zccp.Czmq.{Str, Frame, Czmq}
use zccp.Codec.{ZccpMsg}
use zccp.Codec.Access.{zccp_msg_address, zccp_msg_content}
use zccp.Server.{
  null_event, publish_event, forward_event, connected_state, Pattern, Ptr, Client, Server, ok,
  ◌>>=◌, or_fault, update,
}
use zccp.Server.Actions.{write, forward_patterns, forward_to_subscribers}
use zccp.Server.Engine.{begin_round, run_state, run_connected, unless_deleted, s_client_execute}
use zccp.Server.Invariant.{Without, IsIdle, IsSafe, Memory, write-Safe}
use zccp.Server.Memory.{
  read-write, unless_exception-write, end_round-idle, loop-null, loop-round, execute-loop,
}
use zccp.Server.Forward.{IsDelivery}
use zccp.Server.Publish.{others, recipients, serve, serve_all, routing_of, deliveries, forwarded}
use zccp.Server.Loops.{forward_patterns-forwarded}
use mathlib.Core.Path.{fun_ext}

others-Without : (p : Ptr) (qs : List Ptr) → Without p (others p qs)
unfolding others
others-Without p [] = tt
others-Without p (q ∷ qs) = elim (Bool-cases (q == p)) [
  | inl e ↦ rw e (others-Without p qs)
  | inr e ↦ rw e ((λ same. ground arith), others-Without p qs)
]

append-Without : (p : Ptr) (qs rs : List Ptr) → Without p qs → Without p rs → Without p (qs ++ rs)
append-Without p [] rs h k = k
append-Without p (q ∷ qs) rs (h, hs) k = (h, append-Without p qs rs hs k)

module _ (C : Czmq) where
  open C use {Hash, zrex_matches}

  pub recipients-Without : (p : Ptr) (a : Str) (xs : List Pattern) → Without p (recipients C p a xs)
  unfolding recipients
  recipients-Without p a [] = tt
  recipients-Without p a (x ∷ xs) = elim (Bool-cases (zrex_matches x.expression a)) [
    | inl e ↦ rw e (
        append-Without p (others p x.clients) (recipients C p a xs) (others-Without p x.clients)
          (recipients-Without p a xs))
    | inr e ↦ rw e (recipients-Without p a xs)
  ]

  serve-update :
      (q p : Ptr) (m : Memory C) (x : Option (Client Hash))
      → q ≢ p
      → serve C q (update m p x) ≡ update (serve C q m) p x
  unfolding serve
  serve-update q p m x ne = fun_ext (λ r. ground arith)

  serve_all-update :
      (qs : List Ptr) (p : Ptr) (m : Memory C) (x : Option (Client Hash))
      → Without p qs
      → serve_all C qs (update m p x) ≡ update (serve_all C qs m) p x
  unfolding serve_all
  serve_all-update [] p m x h = refl
  serve_all-update (q ∷ qs) p m x (h, hs) =
      ap (serve_all C qs) (serve-update q p m x h) ∙ serve_all-update qs p (serve C q m) x hs

  pub deliveries-update :
      (frames : List Frame) (qs : List Ptr) (p : Ptr) (m : Memory C) (x : Option (Client Hash))
      → Without p qs
      → deliveries C frames (update m p x) qs ≡ deliveries C frames m qs
  unfolding deliveries routing_of
  deliveries-update frames [] p m x h = refl
  deliveries-update frames (q ∷ qs) p m x (h, hs) =
      ground (arith, deliveries-update frames qs p m x hs)

  -- Serving others leaves a client's object alone.
  pub forwarded-write :
      (frames : List Frame) (qs : List Ptr) (p : Ptr) (c : Client Hash) (s : Server Hash)
      → Without p qs
      → forwarded C frames qs (write C p c s) ≡ write C p c (forwarded C frames qs s)
  unfolding write
  forwarded-write frames qs p c s h = λ i. record s {
    memory = serve_all-update qs p s.memory (some c) h i;
    sent = s.sent ++ deliveries-update frames qs p s.memory (some c) h i;
  }

  -- What forward_to_subscribers notes down of a request.
  abbrev pub noted : Client Hash → ZccpMsg Hash → Server Hash → Server Hash
  noted c request s = record s {
    sender = c.identifier;
    address = zccp_msg_address C request;
    content = zccp_msg_content C request;
  }

  -- The publisher after the event.
  abbrev pub done_publishing : Client Hash → Client Hash
  done_publishing c = record c {
    event = publish_event;
    next_event = null_event;
    exception = null_event;
    wakeup_timer = 0;
  }

  pub done_publishing-IsIdle : (c : Client Hash) → IsIdle C c → IsIdle C (done_publishing c)
  done_publishing-IsIdle c h = record {
    emptied = h.emptied;
    fresh_reply = h.fresh_reply;
    no_alarm = refl;
    keyed = h.keyed;
    identified = h.identified;
  }

  forward_to_subscribers-write :
      (fuel : ℕ) (p : Ptr) (c : Client Hash) (s : Server Hash) (request : ZccpMsg Hash) (a : Str)
      (frames : List Frame)
      → IsSafe C (write C p c s)
      → c.request ≡ some request
      → zccp_msg_address C request ≡ some a
      → IsDelivery C (noted c request s) frames
      → forward_to_subscribers C
          (λ q. s_client_execute C (suc (suc fuel)) q forward_event)
          p
          (write C p c s)
        ≡ ok (write C p c (forwarded C frames (recipients C p a s.patterns) (noted c request s)))
  unfolding forward_to_subscribers write
  forward_to_subscribers-write fuel p c s request a frames safe req ha d =
      rw (read-write C p c s, ◌>>=◌, ap or_fault req)
        (ap
            (λ x.
              forward_patterns C (λ q. s_client_execute C (suc (suc fuel)) q forward_event) p x
                s.patterns (noted c request (write C p c s)))
            ha
          ∙ forward_patterns-forwarded C fuel p a s.patterns (noted c request (write C p c s))
              frames safe safe.subscribed d
          ∙ ap ok (
              forwarded-write frames (recipients C p a s.patterns) p c (noted c request s)
                (recipients-Without p a s.patterns)))

  run_publish :
      (fuel : ℕ) (p : Ptr) (c : Client Hash) (s : Server Hash) (request : ZccpMsg Hash) (a : Str)
      (frames : List Frame)
      → IsSafe C (write C p c s)
      → c.exception ≡ null_event
      → c.request ≡ some request
      → zccp_msg_address C request ≡ some a
      → IsDelivery C (noted c request s) frames
      → run_connected C (s_client_execute C (suc (suc fuel))) p publish_event (write C p c s)
        ≡ ok (write C p c (forwarded C frames (recipients C p a s.patterns) (noted c request s)))
  unfolding run_connected
  run_publish fuel p c s request a frames safe x req ha d =
      unless_exception-write C p
        (forward_to_subscribers C (λ q. s_client_execute C (suc (suc fuel)) q forward_event) p) c s
        x
      ∙ forward_to_subscribers-write fuel p c s request a frames safe req ha d

  -- In a well-formed broker, at a connected client whose request has an address, a publish event
  -- ends within three units of fuel, given the frames of the DELIVER. Those frames go, each time
  -- behind its routing id, to every subscriber of a pattern that matches the address but the
  -- publisher, once for each such pattern, in the order of the patterns; the broker notes down
  -- sender, address and content; the publisher and those served have their events cleared and the
  -- latter a new reply. Nothing else changes.
  pub execute-publish :
      (fuel : ℕ) (p : Ptr) (c : Client Hash) (s : Server Hash) (request : ZccpMsg Hash) (a : Str)
      (frames : List Frame)
      → IsSafe C s
      → s.memory p ≡ some c
      → c.state ≡ connected_state
      → c.request ≡ some request
      → zccp_msg_address C request ≡ some a
      → IsDelivery C (noted c request s) frames
      → s_client_execute C (suc (suc (suc fuel))) p publish_event s
        ≡ ok (
            write C p
              (done_publishing c)
              (forwarded C frames (recipients C p a s.patterns) (noted c request s)))
  unfolding run_state begin_round unless_deleted
  execute-publish fuel p c s request a frames safe m st req ha d =
      let good = safe.idle p c m in
      execute-loop C (suc (suc (suc fuel))) p publish_event c s m good.no_alarm
      ∙ loop-round C (suc (suc fuel)) p called s refl tt
      ∙ rw
          (
            ap
                (λ x.
                  run_state C (s_client_execute C (suc (suc fuel))) p x publish_event
                    (write C p (done_publishing c) s))
                st,
            run_publish fuel p (done_publishing c) s request a frames
                (write-Safe C p c (done_publishing c) s safe m (done_publishing-IsIdle c good) refl
                  refl (λ x. x))
                refl req ha d,
            ◌>>=◌,
            end_round-idle C p (done_publishing c) after good.emptied refl refl,
            ◌>>=◌,
          )
          (loop-null C (suc fuel) p (done_publishing c) after refl)
    where
      called : Client Hash
      called = record c { next_event = publish_event; wakeup_timer = 0 }

      after : Server Hash
      after = forwarded C frames (recipients C p a s.patterns) (noted c request s)
