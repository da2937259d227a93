-- ===== src/Client/Api.antt =====
-- The class interface at the end of zccp_client_engine.inc: the calls that send commands to the
-- actor and wait for its replies.
use zccp.Base.{
  ℤ, pos, negsuc, is_nonzero, List, [], ◌∷◌, ◌++◌, Option, none, some, if◌then◌else◌, streq,
}
use zccp.Czmq.{Str, Czmq}
use zccp.Client.{Command}
use zccp.Client.Actions.{codes}
use zccp.Client.Method.{recv_s, recv_i}

-- What zstr_recv of the actor's replies meets in turn.
pub data Arrival : Type 0 where
  reply : Command → Arrival
  interrupted : Arrival

-- zccp_client_t with what went to the actor and what will come from it.
pub record Api : Type 0 where
  pub status : ℤ
  pub reason : Option Str
  pub sender : Option Str
  pub address : Option Str
  pub content : Option Str
  pub commands : List Command
  pub arrivals : List Arrival

-- The filters that the calls pass to s_accept_reply.
pub data Filter : Type 0 where
  success failure delivery : Filter

abbrev pub name_of : Filter → Str
name_of success = codes "SUCCESS"
name_of failure = codes "FAILURE"
name_of delivery = codes "MESSAGE"

-- A call returns, or waits for a reply that does not come.
pub data Outcome {ℓ} (A : Type ℓ) : Type ℓ where
  returns : A → Outcome A
  waits : Outcome A

-- The loop over the filters: a filter that does not match discards the rest of the message.
unfoldable pub match_filter : List Filter → Str → List Str → Option (Filter × List Str)
match_filter [] name parts = none
match_filter (f ∷ fs) name parts =
    if streq name (name_of f) then some (f, parts) else match_filter fs name []

unfoldable pub zccp_client_new : List Arrival → Api
zccp_client_new arrivals = record {
  status = pos 0;
  reason = none;
  sender = none;
  address = none;
  content = none;
  commands = [];
  arrivals = arrivals;
}

-- The getters.
unfoldable pub zccp_client_status : Api → ℤ
zccp_client_status api = api.status

unfoldable pub zccp_client_reason : Api → Option Str
zccp_client_reason api = api.reason

unfoldable pub zccp_client_sender : Api → Option Str
zccp_client_sender api = api.sender

unfoldable pub zccp_client_address : Api → Option Str
zccp_client_address api = api.address

unfoldable pub zccp_client_content : Api → Option Str
zccp_client_content api = api.content

-- zsock_send to the actor.
unfoldable pub send_command : Str → List Str → Api → Api
send_command name parts api = record api { commands = api.commands ++ (name, parts) ∷ [] }

-- The strings that are freed before a reply is read.
abbrev pub cleared : Filter → Api → Api
cleared success api = api
cleared failure api = record api { reason = none }
cleared delivery api = record api { sender = none; address = none; content = none }

module _ (C : Czmq) where
  open C use {atoi, print_int}

  -- zsock_recv with the filter's picture.
  unfoldable pub load : Filter → List Str → Api → Api
  unfolding recv_s recv_i
  load success parts api = record api { status = (recv_i C parts).0 }
  load failure parts api =
      let (status, rest) = recv_i C parts in
      record api { status = status; reason = (recv_s C rest).0 }
  load delivery parts api =
      let (sender, rest) = recv_s C parts in
      let (address, rest') = recv_s C rest in
      record api { sender = sender; address = address; content = (recv_s C rest').0 }

  -- zsock_recv reads the rest of the message; where nothing is left of it, the next message.
  unfoldable pub load_next : Filter → List Str → Api → List Arrival → Outcome (ℤ × Api)
  unfolding load
  load_next f (part ∷ parts) api rest =
      returns (pos 0, record (load f (part ∷ parts) (cleared f api)) { arrivals = rest })
  load_next f [] api [] = waits
  load_next f [] api (interrupted ∷ rest) =
      returns (pos 0, record (cleared f api) { arrivals = rest })
  load_next f [] api (reply (name, parts) ∷ rest) =
      returns (pos 0, record (load f (name ∷ parts) (cleared f api)) { arrivals = rest })

  unfoldable pub accept_from : List Filter → Api → List Arrival → Outcome (ℤ × Api)
  unfolding match_filter load_next
  accept_from filters api [] = waits
  accept_from filters api (interrupted ∷ rest) = returns (negsuc 0, record api { arrivals = rest })
  accept_from filters api (reply (name, parts) ∷ rest) = elim (match_filter filters name parts) [
    | none ↦ accept_from filters api rest
    | some (f, left) ↦ load_next f left api rest
  ]

  unfoldable pub s_accept_reply : List Filter → Api → Outcome (ℤ × Api)
  unfolding accept_from
  s_accept_reply filters api = accept_from filters api api.arrivals

  -- `if (s_accept_reply (…)) return -1; return self->status;`
  unfoldable pub status_of : Outcome (ℤ × Api) → Outcome (ℤ × Api)
  status_of waits = waits
  status_of (returns (rc, api)) = returns (if is_nonzero rc then negsuc 0 else api.status, api)

  unfoldable pub zccp_client_connect : Str → ℤ → Api → Outcome (ℤ × Api)
  unfolding send_command s_accept_reply status_of
  zccp_client_connect endpoint timeout api = status_of (
      s_accept_reply (success ∷ failure ∷ [])
        (send_command (codes "CONNECT") (endpoint ∷ print_int timeout ∷ []) api))

  unfoldable pub zccp_client_subscribe : Str → Api → Outcome (ℤ × Api)
  unfolding send_command s_accept_reply status_of
  zccp_client_subscribe expression api = status_of (
      s_accept_reply (success ∷ failure ∷ [])
        (send_command (codes "SUBSCRIBE") (expression ∷ []) api))

  -- It has no return statement.
  unfoldable pub zccp_client_publish : Str → Str → Api → Api
  unfolding send_command
  zccp_client_publish address content api =
      send_command (codes "PUBLISH") (address ∷ content ∷ []) api

  unfoldable pub zccp_client_verbose : Api → Api
  unfolding send_command
  zccp_client_verbose api = send_command (codes "VERBOSE") [] api

  unfoldable pub content_of : Outcome (ℤ × Api) → Outcome (Option Str × Api)
  content_of waits = waits
  content_of (returns (rc, api)) = returns (if is_nonzero rc then none else api.content, api)

  unfoldable pub zccp_client_recv : Api → Outcome (Option Str × Api)
  unfolding s_accept_reply content_of
  zccp_client_recv api = content_of (s_accept_reply (delivery ∷ []) api)
