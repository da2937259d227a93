-- ===== src/Network/Examples.antt =====
-- The theorems on the network at concrete inputs: a client that was told to connect.
use zccp.Base.{pos, refl, true}
use zccp.Czmq.Simple.{simple}
use zccp.Client
use zccp.Client.Actions.{codes}
use zccp.Client.Reactor.{s_client_new}
use zccp.Client.Pipe.{connect}
use zccp.Client.Examples.{dialling, dialling-ran}
use zccp.Server
use zccp.Server.Examples.{peer_a}
use zccp.Network.{Network, with_client, initial, Reachable, started, called}
use zccp.Network.Safety.{IsSound, Reachable-IsSound}

abbrev begun : Network simple
begun = with_client simple peer_a dialling (initial simple 7)

begun-Reachable : Reachable simple begun
unfolding s_client_new
begun-Reachable =
    called (initial simple 7) peer_a (connect (codes "ipc://@/zccp") (pos 250)) true dialling
      (started 7) refl dialling-ran

Reachable-IsSound_example : IsSound simple begun
Reachable-IsSound_example = Reachable-IsSound simple begun begun-Reachable
