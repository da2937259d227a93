-- ===== src/Network.antt =====
-- One broker and any number of clients, each under a routing id. The sockets are what was ever sent
-- through them: a handler may be called with any message that was sent to it, in any order, more than
-- once or never, so that what is shown does not rest on how ZeroMQ orders, repeats or drops messages.
pub mod Safety
pub mod Integrity
mod Examples
mod Scenario
use zccp.Base.{ℕ, ◌≡◌, Bool, true, false, List, ◌∷◌, some, streq, if◌then◌else◌, IsAmong}
use zccp.Base.Results.{ok}
use zccp.Czmq.{Frame, Czmq}
use zccp.Client.{Client}
use zccp.Client.Reactor.{s_client_new, s_client_handle_pipe, s_client_handle_protocol}
use zccp.Client.Pipe.{Call, command_of}
use zccp.Server.{Timer, Server}
use zccp.Server.Reactor.{s_server_new, s_server_client_message, s_client_handle_timeout}

module _ (C : Czmq) where
  open C use {Hash}

  pub record Network : Type 0 where
    pub broker : Server Hash
    pub clients : Frame → Client Hash

  abbrev pub with_broker : Server Hash → Network → Network
  with_broker s n = record n { broker = s }

  unfoldable pub put_client : Frame → Client Hash → (Frame → Client Hash) → Frame → Client Hash
  put_client peer c clients q = if streq peer q then c else clients q

  -- The broker with its log switched on or off.
  abbrev pub with_verbose : Bool → Network → Network
  with_verbose verbose n = with_broker (record n.broker { verbose = verbose }) n

  abbrev pub with_client : Frame → Client Hash → Network → Network
  with_client peer c n = record n { clients = put_client peer c n.clients }

  -- Every client is fresh; those that never connect do not matter.
  abbrev pub initial : ℕ → Network
  initial client_id = record { broker = s_server_new C client_id; clients = λ peer. s_client_new C }

  -- The networks that calls and messages lead to. A caller may call anything at any time; a call that
  -- ends the caller's process leads nowhere. The broker's log can be switched on and off. A client hears messages once its socket is connected.
  pub data Reachable : Network → Type 0 where
    started : (client_id : ℕ) → Reachable (initial client_id)
    configured : (n : Network) (verbose : Bool) → Reachable n → Reachable (with_verbose verbose n)
    called :
        (n : Network) (peer : Frame) (k : Call) (more : Bool) (d : Client Hash)
        → Reachable n
        → (n.clients peer).terminated ≡ false
        → s_client_handle_pipe C 2 (some (command_of C k)) (n.clients peer) ≡ ok (more, d)
        → Reachable (with_client peer d n)
    served :
        (n : Network) (peer : Frame) (frames : List Frame) (more : Bool) (t : Server Hash)
        → Reachable n
        → IsAmong frames (n.clients peer).sent
        → s_server_client_message C 3 (some (peer ∷ frames)) n.broker ≡ ok (more, t)
        → Reachable (with_broker t n)
    heard :
        (n : Network) (peer : Frame) (frames : List Frame) (more : Bool) (d : Client Hash)
        → Reachable n
        → (n.clients peer).terminated ≡ false
        → (n.clients peer).dealing ≡ true
        → IsAmong (peer ∷ frames) n.broker.sent
        → s_client_handle_protocol C 2 (some frames) (n.clients peer) ≡ ok (more, d)
        → Reachable (with_client peer d n)
    expired :
        (n : Network) (timer : Timer) (t : Server Hash)
        → Reachable n
        → IsAmong timer n.broker.timers
        → s_client_handle_timeout C 3 timer.client n.broker ≡ ok t
        → Reachable (with_broker t n)
