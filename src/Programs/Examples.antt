-- ===== src/Programs/Examples.antt =====
-- The theorems on the programs at concrete inputs.
use zccp.Base.{false, ℕ, pos, ◌+◌, Bool, ◌≡◌, refl, true, List, [], ◌∷◌, ◌++◌, map, some, arith}
use zccp.Base.Results.{ok}
use zccp.Czmq.{Str, codes, Frame}
use zccp.Czmq.Simple.{simple}
use zccp.Client
use zccp.Client.{Command}
use zccp.Client.Reactor.{s_client_new, s_client_handle_pipe, s_client_handle_protocol}
use zccp.Client.Pipe.{Call, command_of}
use zccp.Client.Api.{Arrival, reply, interrupted}
use zccp.Server
use zccp.Server.Reactor.{s_server_new, s_server_client_message}
use zccp.Server.Reachable.{s_server_new-IsSafe}
use zccp.Server.Arrival.{IsPlain}
use zccp.Server.Publish.{recipients, deliveries}
use zccp.Server.Config.{Settings, new_settings}
use zccp.Server.Config.Safety.{HasConfig}
use zccp.Server.Config.Examples.{plain}
use zccp.Server.Examples.{Table, start, peer_a}
use zccp.Session.Examples.{attached, attached-IsSafe, attached-running}
use zccp.Programs.Shell.{returned, after_line, endpoint, zccp_sh}
use zccp.Programs.Daemon.{zccpd, serve}
use zccp.Server.Config.{
  s_server_api_message, execute_command, arg, bind, s_server_config_self, with_options,
  adopt_config, place, zeroed, put_at,
}
use zccp.Programs.Reading.{IsNotice}
use zccp.Programs.Ending.{is_proper}
use zccp.Programs.Runs.{zccp_sh_ends, zccp_sh-subscribe}
use zccp.Programs.Message.{chatty, zccp_sh-arrives}

-- printf of one digit.
abbrev decimal : ℕ → Str
decimal n = (b'0' + n) ∷ []

abbrev accepted : Arrival
accepted = reply (codes "SUCCESS", (0 ∷ []) ∷ [])

abbrev notice : Command
notice = (codes "MESSAGE", codes "x" ∷ codes "cpu" ∷ codes "92" ∷ [])

notice-IsNotice : IsNotice notice
notice-IsNotice e = (codes "x", codes "cpu", codes "92", refl)

-- A MESSAGE without its parts, between the answers and an interrupt.
abbrev broken : List Arrival
broken = accepted ∷ accepted ∷ reply (codes "MESSAGE", []) ∷ interrupted ∷ []

zccp_sh_ends_example :
    is_proper (zccp_sh simple decimal 5 (codes "zccp_sh" ∷ codes "c" ∷ []) broken) ≡ true
zccp_sh_ends_example =
    zccp_sh_ends simple decimal 5 (codes "zccp_sh" ∷ codes "c" ∷ []) broken (omega arith)

zccp_sh-subscribe_example :
    zccp_sh simple decimal 2
      (codes "zccp_sh" ∷ codes "c" ∷ [])
      (accepted ∷ reply notice ∷ accepted ∷ reply notice ∷ interrupted ∷ [])
    ≡ returned (codes "ARGS:2\n" ∷ codes "Content=92 sender=x address=cpu\n" ∷ []) (
        (codes "VERBOSE", [])
        ∷ (codes "CONNECT", endpoint ∷ (1000 ∷ []) ∷ [])
        ∷ (codes "SUBSCRIBE", codes "c" ∷ [])
        ∷ [])
unfolding after_line
zccp_sh-subscribe_example =
    zccp_sh-subscribe simple decimal 2 (codes "zccp_sh") (codes "c") [] (notice ∷ []) (notice ∷ [])
      (pos 0) (some []) tt ((refl, (refl, tt)), tt) (notice-IsNotice, tt) (omega arith)

cpu-IsPlain : IsPlain (codes "cpu")
cpu-IsPlain = (
  ((omega arith, (omega arith, (omega arith, tt))), omega arith),
  (omega arith, (omega arith, (omega arith, tt))),
)

zccp_sh-arrives_example :
    (c1 : Client.Client Table) × (c2 : Client.Client Table) × (c3 : Client.Client Table)
    × (t1 : Server.Server Table) × (t2 : Server.Server Table) × (r1 : Client.Client Table)
    × (p : Server.Ptr) × (greeting : List Frame) × (answer : List Frame) × (letter : List Frame)
    × (out : List Frame) × (s_client_handle_pipe simple 2
          (some (command_of simple Call.verbose))
          (s_client_new simple)
        ≡ ok (true, chatty simple))
    × (s_client_handle_pipe simple 2
          (some (command_of simple (Call.connect endpoint (pos 1000))))
          (chatty simple)
        ≡ ok (true, c1))
    × (s_server_client_message simple 3 (some (peer_a ∷ greeting)) start ≡ ok (true, t1))
    × (s_client_handle_protocol simple 2 (some answer) c1 ≡ ok (true, c2))
    × (zccp_sh simple decimal 0
          (codes "zccp_sh" ∷ codes "cpu" ∷ codes "92" ∷ [])
          (map reply c2.signalled)
        ≡ returned ((codes "ARGS:" ++ (decimal 3 ++ codes "\n")) ∷ []) (
            command_of simple Call.verbose
            ∷ command_of simple (Call.connect endpoint (pos 1000))
            ∷ command_of simple (Call.publish (codes "cpu") (codes "92"))
            ∷ []))
    × (s_client_handle_pipe simple 2
          (some (command_of simple (Call.publish (codes "cpu") (codes "92"))))
          c2
        ≡ ok (true, c3))
    × (s_server_client_message simple 3 (some (peer_a ∷ letter)) t1 ≡ ok (true, t2))
    × (t2.sent
        ≡ t1.sent
          ++ deliveries simple out t1.memory (recipients simple p (codes "cpu") start.patterns))
    × (t1.clients peer_a ≡ some p)
    × (s_client_handle_protocol simple 2 (some out) attached ≡ ok (true, r1))
    × (r1.signalled
        ≡ attached.signalled ++ (codes "MESSAGE", [] ∷ codes "cpu" ∷ codes "92" ∷ []) ∷ [])
    × (t1.sent ≡ start.sent ++ (peer_a ∷ answer) ∷ [])
    × (c1.sent ≡ greeting ∷ [])
    × (c3.sent ≡ c2.sent ++ letter ∷ [])
unfolding s_server_new
zccp_sh-arrives_example =
    zccp_sh-arrives simple 0 decimal (codes "zccp_sh") (codes "cpu") (codes "92") start peer_a
      attached refl cpu-IsPlain (omega arith, (omega arith, tt)) (s_server_new-IsSafe simple 7) refl
      attached-IsSafe attached-running refl

-- The commands of zccpd at the broker's handler of commands.
zccpd_run :
    (s : Settings Bool) × (t : Settings Bool) × (new_settings simple plain ≡ ok s)
    × (serve simple plain zccpd s ≡ ok (true, t))
    × (t.verbose ≡ true)
    × (t.bound ≡ endpoint ∷ [])
    × HasConfig simple plain t
unfolding zccpd s_server_api_message execute_command arg bind new_settings s_server_config_self
    with_options adopt_config place zeroed put_at
zccpd_run =
    let s = with_options simple plain false (place simple plain false (zeroed simple plain)) in
    (record s { server_config = s.config }, _, refl, refl, refl, refl, (false, refl))
