-- ===== src/Programs/Daemon.antt =====
-- main of zccpd.c: what it sends to the broker's actor, and what the broker's handler of commands makes of it.
use zccp.Base.{Bool, true, false, List, [], ◌∷◌, some}
use zccp.Base.Results.{Result, ok, ◌>>=◌}
use zccp.Czmq.{Str, codes, Czmq}
use zccp.Server.Config.{Zconfig, Settings, s_server_api_message}

-- The messages of the two zsock_send.
unfoldable pub zccpd : List (List Str)
zccpd = (codes "VERBOSE" ∷ []) ∷ (codes "BIND" ∷ codes "ipc://@/zccp" ∷ []) ∷ []

module _ (C : Czmq) (Z : Zconfig) where
  open Z use {Tree, root, zsock_bind}

  -- zloop calls the handler for one message after another, while it returns 0.
  abbrev pub serve : List (List Str) → Settings Tree → Result (Bool × Settings Tree)
  serve [] s = ok (true, s)
  serve (msg ∷ msgs) s = s_server_api_message C Z (some msg) s >>= λ (more, t). elim more [
    | true ↦ serve msgs t
    | false ↦ ok (false, t)
  ]
