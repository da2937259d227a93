-- ===== src/Programs/Message.antt =====
-- A message of zccp_sh on its way: from the arguments over the client's actor and the broker that
-- zccpd runs to the caller of a subscriber.
use zccp.Base.{
  ℕ, suc, pos, ◌≡◌, refl, ap, ◌∙◌, true, false, List, [], ◌∷◌, ◌++◌, map, none, some, arith,
}
use zccp.Base.Results.{ok}
use zccp.Czmq.{Str, codes, Frame, Czmq}
use zccp.Codec.{zccp_msg_new}
use zccp.Codec.Wire.Get.{IsText}
use zccp.Client.{connected_state, Client}
use zccp.Client.Reactor.{s_client_new, status, s_client_handle_pipe, s_client_handle_protocol}
use zccp.Client.Invariant.{IsSafe}
use zccp.Client.Pipe.{Call, command_of, flags-IsSafe}
use zccp.Client.Reachable.{s_client_new-IsSafe}
use zccp.Client.Api.{reply, zccp_client_new}
use zccp.Server
use zccp.Server.Reactor.{s_server_client_message}
use zccp.Server.Arrival.{IsPlain}
use zccp.Server.Publish.{recipients, deliveries}
use zccp.Session.Greet.{connect-arrives}
use zccp.Session.Publish.{publish-arrives}
use zccp.Programs.Shell.{returned, endpoint, zccp_sh}
use zccp.Programs.Runs.{zccp_sh-publish}

module _ (C : Czmq) where
  open C use {Hash, zframe_strhex, zsock_connect, print_int}

  -- The actor that was told VERBOSE.
  abbrev pub chatty : Client Hash
  chatty = record (s_client_new C) { verbose = true }

  chatty-ran :
      (fuel : ℕ)
      → s_client_handle_pipe C fuel (some (command_of C Call.verbose)) (s_client_new C)
        ≡ ok (true, chatty)
  unfolding s_client_handle_pipe status s_client_new
  chatty-ran fuel = refl

  chatty-IsSafe : IsSafe C chatty
  unfolding s_client_new
  chatty-IsSafe = flags-IsSafe C (s_client_new C) (s_client_new-IsSafe C) true false

  -- Let the endpoint be one that can be connected to, a broker be in its invariant and not know the
  -- routing id of zccp_sh's client, a subscriber be in its invariant, in "connected" and not
  -- terminated, the address be shorter than 256 characters, without a 0 or a percent sign, and the
  -- body be without a 0. Then zccp_sh with the address and the body returns, on what its actor
  -- signals, having called VERBOSE, CONNECT and PUBLISH; the actor handles these calls and the
  -- broker's answer, and the broker the two messages of the actor, without a fault and returning 0;
  -- on the second message the broker sends one and the same message to every subscriber of a pattern
  -- that matches the address, but to the new client, and nothing else; and on that message the
  -- subscriber signals a MESSAGE with the address, the body and an empty sender.
  pub zccp_sh-arrives :
      (fuel : ℕ) (decimal : ℕ → Str) (program address body : Str) (s : Server.Server Hash)
      (peer : Frame) (r : Client Hash)
      → zsock_connect endpoint ≡ true
      → IsPlain address
      → IsText body
      → Server.Invariant.IsSafe C s
      → s.clients (zframe_strhex peer) ≡ none
      → IsSafe C r
      → r.terminated ≡ false
      → r.state ≡ connected_state
      → (c1 : Client Hash) × (c2 : Client Hash) × (c3 : Client Hash) × (t1 : Server.Server Hash)
        × (t2 : Server.Server Hash) × (r1 : Client Hash) × (p : Server.Ptr) × (greeting : List
            Frame)
        × (answer : List Frame) × (letter : List Frame) × (out : List Frame) × (s_client_handle_pipe
              C
              (suc (suc fuel))
              (some (command_of C Call.verbose))
              (s_client_new C)
            ≡ ok (true, chatty))
        × (s_client_handle_pipe C
              (suc (suc fuel))
              (some (command_of C (Call.connect endpoint (pos 1000))))
              chatty
            ≡ ok (true, c1))
        × (s_server_client_message C (suc (suc (suc fuel))) (some (peer ∷ greeting)) s
            ≡ ok (true, t1))
        × (s_client_handle_protocol C (suc (suc fuel)) (some answer) c1 ≡ ok (true, c2))
        × (zccp_sh C decimal 0 (program ∷ address ∷ body ∷ []) (map reply c2.signalled)
            ≡ returned ((codes "ARGS:" ++ (decimal 3 ++ codes "\n")) ∷ []) (
                command_of C Call.verbose
                ∷ command_of C (Call.connect endpoint (pos 1000))
                ∷ command_of C (Call.publish address body)
                ∷ []))
        × (s_client_handle_pipe C
              (suc (suc fuel))
              (some (command_of C (Call.publish address body)))
              c2
            ≡ ok (true, c3))
        × (s_server_client_message C (suc (suc (suc fuel))) (some (peer ∷ letter)) t1
            ≡ ok (true, t2))
        × (t2.sent ≡ t1.sent ++ deliveries C out t1.memory (recipients C p address s.patterns))
        × (t1.clients (zframe_strhex peer) ≡ some p)
        × (s_client_handle_protocol C (suc (suc fuel)) (some out) r ≡ ok (true, r1))
        × (r1.signalled ≡ r.signalled ++ (codes "MESSAGE", [] ∷ address ∷ body ∷ []) ∷ [])
        × (t1.sent ≡ s.sent ++ (peer ∷ answer) ∷ [])
        × (c1.sent ≡ greeting ∷ [])
        × (c3.sent ≡ c2.sent ++ letter ∷ [])
  unfolding s_client_new zccp_msg_new
  zccp_sh-arrives fuel decimal program address body s peer r reach plain clean broker unknown safe_r
        running_r st_r =
      let (
        c1,
        t1,
        c2,
        greeting,
        answer,
        p,
        sc,
        asked,
        c1_sent,
        welcomes,
        t1_sent,
        heard,
        told,
        (good, alive, at),
        broker1,
        known,
        m,
        joined,
        named,
        same,
      ) =
        connect-arrives C fuel chatty endpoint (pos 1000) s peer chatty-IsSafe refl refl refl reach
          broker unknown in
      let (c3, t2, r1, letter, out, sends, c3_sent, passes, t2_sent, reads, r1_told, _) =
        publish-arrives C fuel c2 address body [] t1 p sc peer good plain ((tt, omega arith), tt)
          broker1 known m joined named r (zccp_client_new []) alive at clean safe_r running_r
          st_r in
      (
        c1,
        c2,
        c3,
        t1,
        t2,
        r1,
        p,
        greeting,
        answer,
        letter,
        out,
        chatty-ran (suc (suc fuel)),
        asked,
        welcomes,
        heard,
        ap (λ cs. zccp_sh C decimal 0 (program ∷ address ∷ body ∷ []) (map reply cs)) told
            ∙ zccp_sh-publish C decimal 0 program address body [] [] tt,
        sends,
        passes,
        t2_sent ∙ ap (λ ps. t1.sent ++ deliveries C out t1.memory (recipients C p address ps)) same,
        known,
        reads,
        r1_told,
        t1_sent,
        c1_sent,
        c3_sent,
      )
