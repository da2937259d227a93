-- ===== src/Server.antt =====
-- The broker: zccp_server.c with the engine that it includes, zccp_server_engine.inc. This file
-- has the state; the children hold the functions and what is proved of them.
pub mod Patterns
pub mod Actions
pub mod Invariant
pub mod Memory
pub mod Forward
pub mod Publish
pub mod Loops
pub mod Publisher
pub mod Subscriptions
pub mod Subscribers
pub mod Leave
pub mod Outcome
pub mod Delivery
pub mod Requests
pub mod Admit
pub mod Enroll
pub mod Sends
pub mod Config
pub mod Protocol
pub mod Arrival
pub mod Step
pub mod Join
pub mod Handle
pub mod Reachable
pub mod Engine
pub mod Reactor
mod Tests
pub mod Examples
use zccp.Base.{
  ℕ, zero, suc, ◌+◌, Bool, true, false, List, [], ◌∷◌, Option, none, some, ◌==◌, streq,
  if◌then◌else◌,
}
use zccp.Czmq.{Str, Frame, Czmq}
pub use zccp.Base.Results.{Result, ok, fault, stuck, ◌>>=◌, ◌>>◌, or_fault, skip}
use zccp.Codec.{ZccpMsg}

-- state_t and event_t.
pub data State : Type 0 where
  start_state connected_state external_state : State

pub data Event : Type 0 where
  terminate_event null_event hello_event subscribe_event publish_event direct_event : Event
  forward_event goodbye_event expired_event : Event

-- The address of a client's object.
abbrev pub Ptr : Type 0
Ptr = ℕ

-- pattern_t. The compiled expression is `zrex_matches` at the expression.
pub record Pattern : Type 0 where
  pub expression : Str
  pub clients : List Ptr

-- client_t and s_client_t, which begins with it. The log prefix is left out. A timer that is not
-- set is 0, as in the source.
pub record Client (Hash : Type 0) : Type 0 where
  pub request : Option (ZccpMsg Hash)
  pub reply : ZccpMsg Hash
  pub identifier : Option Str
  pub hashkey : Str
  pub routing_id : Frame
  pub unique_id : ℕ
  pub mailbox : List (ZccpMsg Hash)
  pub state : State
  pub event : Event
  pub next_event : Event
  pub exception : Event
  pub expiry_timer : ℕ
  pub wakeup_timer : ℕ
  pub wakeup_event : Event

-- A timer of the reactor: its id, and the client that its handler is called with.
pub record Timer : Type 0 where
  pub timer_id : ℕ
  pub client : Ptr

-- server_t and s_server_t, with the reactor's timers, the memory that holds the client objects
-- (`none` where there is no live one) with the next free address, and what was sent through the
-- router socket so far. Sockets and configuration are left out; of the settings there is verbose,
-- which s_client_execute reads.
pub record Server (Hash : Type 0) : Type 0 where
  pub verbose : Bool
  pub patterns : List Pattern
  pub sender : Option Str
  pub address : Option Str
  pub headers : Option Hash
  pub content : Option (List Frame)
  pub clients : Str → Option Ptr
  pub client_id : ℕ
  pub timers : List Timer
  pub next_timer : ℕ
  pub memory : Ptr → Option (Client Hash)
  pub next_ptr : Ptr
  pub sent : List (List Frame)

abbrev pub update : {A : Type 0} → (ℕ → Option A) → ℕ → Option A → ℕ → Option A
update f p a q = if p == q then a else f q

abbrev pub update_key : (Str → Option Ptr) → Str → Option Ptr → Str → Option Ptr
update_key f k a j = if streq k j then a else f j

-- `==` with NULL_event, and with terminate_event.
abbrev pub is_null : Event → Bool
is_null null_event = true
is_null _ = false

abbrev pub is_terminate : Event → Bool
is_terminate terminate_event = true
is_terminate _ = false
