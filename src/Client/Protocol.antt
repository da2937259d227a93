-- ===== src/Client/Protocol.antt =====
-- The client's side of the protocol as a table, after zccp_client.xml: each state has rows of its
-- own, and all but the first inherit those of "defaults".
use zccp.Base.{Bool, true, false, List, [], ◌∷◌, Option, none, some, pos, negsuc}
use zccp.Czmq.{Str, Frame, Czmq}
use zccp.Codec.{Kind, hello, subscribe, publish, direct, goodbye, ping_ok, ZccpMsg}
use zccp.Codec.Encode.{content_frames}
use zccp.Codec.Encode.Size.{octets}
use zccp.Client.{
  State, start_state, connecting_state, connected_state, subscribing_state, disconnecting_state,
  reconnecting_state, Event, connect_event, hello_ok_event, expired_event, subscribe_event,
  publish_event, direct_event, deliver_event, ping_event, close_connection_event, error_event,
  subscribe_ok_event, goodbye_ok_event, invalid_event, Command,
}
use zccp.Client.Actions.{codes}

-- What a row does: a message to the server, a signal to the caller, the content of a DELIVER to
-- the caller, or nothing of these.
pub data Effect : Type 0 where
  sends : Kind → Effect
  succeeds fails delivers nothing : Effect

-- The effect, the next state if the row names one, and whether the row terminates the client.
pub record Row : Type 0 where
  pub effect : Effect
  pub next : Option State
  pub ends : Bool

abbrev stays : Effect → Option Row
stays a = some (record { effect = a; next = none; ends = false })

abbrev moves : Effect → State → Option Row
moves a st = some (record { effect = a; next = some st; ends = false })

abbrev finishes : Effect → Option Row
finishes a = some (record { effect = a; next = none; ends = true })

-- The rows that a state has of its own.
unfoldable pub own : State → Event → Option Row
own start_state connect_event = moves (sends hello) connecting_state
own connecting_state hello_ok_event = moves succeeds connected_state
own connecting_state expired_event = finishes fails
own connected_state subscribe_event = moves (sends subscribe) subscribing_state
own connected_state publish_event = stays (sends publish)
own connected_state direct_event = stays (sends direct)
own connected_state deliver_event = stays delivers
own connected_state ping_event = stays (sends ping_ok)
own connected_state close_connection_event = moves (sends goodbye) disconnecting_state
own connected_state error_event = finishes nothing
own subscribing_state subscribe_ok_event = moves succeeds connected_state
own disconnecting_state goodbye_ok_event = finishes nothing
own disconnecting_state expired_event = finishes nothing
own reconnecting_state hello_ok_event = moves nothing connected_state
own _ _ = none

-- The rows of the state "defaults": any other event is discarded.
unfoldable pub inherited : Event → Option Row
inherited expired_event = moves (sends hello) reconnecting_state
inherited invalid_event = moves (sends hello) reconnecting_state
inherited _ = stays nothing

abbrev or_inherit : State → Option Row → Option Row → Option Row
or_inherit start_state r d = r
or_inherit _ (some r) d = some r
or_inherit _ none d = d

unfoldable pub row : State → Event → Option Row
unfolding own inherited
row st e = or_inherit st (own st e) (inherited e)

module _ (C : Czmq) where
  open C use {Hash, print_int}

  -- The frames of a message under a number, without a routing id.
  abbrev pub frames_of : Kind → ZccpMsg Hash → List Frame
  frames_of k m = octets C k m ∷ content_frames C k m

  -- What a row sends, given the message that the client prepared.
  abbrev pub sent_by : Effect → ZccpMsg Hash → List (List Frame)
  sent_by (sends k) m = frames_of k m ∷ []
  sent_by _ m = []

  -- What a row signals, given the DELIVER in its fields.
  abbrev pub signalled_by : Effect → List Str → List Command
  signalled_by succeeds m = (codes "SUCCESS", print_int (pos 0) ∷ []) ∷ []
  signalled_by fails m =
      (codes "FAILURE", print_int (negsuc 0) ∷ codes "Server is not reachable" ∷ []) ∷ []
  signalled_by delivers m = (codes "MESSAGE", m) ∷ []
  signalled_by _ m = []

  abbrev pub or_stay : Option State → State → State
  or_stay none st = st
  or_stay (some next) st = next
