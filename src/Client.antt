-- ===== src/Client.antt =====
-- The client actor: zccp_client.c with the engine that it includes, zccp_client_engine.inc, and the
-- class interface at the end of that file. This file has the actor's state; the children hold the
-- functions and what is proved of them.
pub mod Actions
pub mod Engine
pub mod Method
pub mod Reactor
pub mod Protocol
pub mod Round
pub mod Step
pub mod Signals
pub mod Answer
pub mod Start
pub mod Invariant
pub mod Handle
pub mod Pipe
pub mod Converse
pub mod Reachable
pub mod Api
pub mod Replies
pub mod Relapse
pub mod Early
pub mod Relay
pub mod Examples
use zccp.Base.{ℕ, ℤ, Bool, true, false, List, Option}
use zccp.Czmq.{Str, Frame}
use zccp.Codec.{ZccpMsg}

-- state_t and event_t.
pub data State : Type 0 where
  start_state connecting_state connected_state subscribing_state : State
  disconnecting_state defaults_state reconnecting_state : State

pub data Event : Type 0 where
  null_event connect_event hello_ok_event expired_event subscribe_event publish_event : Event
  direct_event deliver_event ping_event close_connection_event error_event : Event
  subscribe_ok_event goodbye_ok_event invalid_event : Event

-- A message between the caller and the actor: the first frame, which is a name, and the others.
abbrev pub Command : Type 0
Command = Str × List Str

-- client_t and s_client_t, which begins with it. `timers` are the ids of the reactor's timers,
-- `sent` is what went out through the dealer socket so far, `signalled` what went to the caller
-- through the pipe. `dealing` is whether the dealer socket was connected to an endpoint. The
-- sockets themselves are left out.
pub record Client (Hash : Type 0) : Type 0 where
  pub msgout : ZccpMsg Hash
  pub msgin : Option (ZccpMsg Hash)
  pub endpoint : Option Str
  pub connect_timeout : ℤ
  pub presence_timeout : ℤ
  pub terminated : Bool
  pub timeout : ℕ
  pub state : State
  pub event : Event
  pub next_event : Event
  pub exception : Event
  pub expiry_timer : ℕ
  pub wakeup_timer : ℕ
  pub wakeup_event : Event
  pub verbose : Bool
  pub timers : List ℕ
  pub dealing : Bool
  pub sent : List (List Frame)
  pub signalled : List Command

-- `==` with NULL_event.
abbrev pub is_null : Event → Bool
is_null null_event = true
is_null _ = false
