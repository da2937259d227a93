-- ===== src/Programs/Shell.antt =====
-- main of zccp_sh.c over the calls of Client/Api.antt, from its arguments and what the actor replies
-- to what it prints and the commands that went to the actor.
use zccp.Base.{
  ℕ, suc, zero, pos, ℤ, is_nonzero, List, [], ◌∷◌, ◌++◌, Option, none, some, if◌then◌else◌, length,
}
use zccp.Czmq.{Str, codes, Czmq}
use zccp.Client.{Command}
use zccp.Client.Api.{
  Arrival, Api, Outcome, returns, waits, zccp_client_new, zccp_client_sender, zccp_client_address,
  zccp_client_verbose, zccp_client_connect, zccp_client_subscribe, zccp_client_publish,
  zccp_client_recv,
}

-- How a run ends: main returns 0, a call waits for a reply that does not come, printf gets NULL for a
-- "%s", or the fuel of the loop is used up. What was printed until then is in all of them.
pub data Ending : Type 0 where
  returned : List Str → List Command → Ending
  waiting crashed exhausted : List Str → Ending

unfoldable pub after_line : Str → Ending → Ending
after_line line (returned lines commands) = returned (line ∷ lines) commands
after_line line (waiting lines) = waiting (line ∷ lines)
after_line line (crashed lines) = crashed (line ∷ lines)
after_line line (exhausted lines) = exhausted (line ∷ lines)

abbrev pub endpoint : Str
endpoint = codes "ipc://@/zccp"

-- The text of printf for a message that came.
abbrev pub content_line : Str → Str → Str → Str
content_line content sender address =
    codes "Content="
    ++ (content ++ (codes " sender=" ++ (sender ++ (codes " address=" ++ (address ++ codes "\n")))))

unfoldable pub print_content : Str → Option Str → Option Str → Option Str
print_content content (some sender) (some address) = some (content_line content sender address)
print_content content _ _ = none

module _ (C : Czmq) where
  -- The loop over zccp_client_recv.
  unfoldable pub show : ℕ → Api → Ending
  unfolding zccp_client_recv zccp_client_sender zccp_client_address print_content after_line
  show zero api = exhausted []
  show (suc fuel) api = elim (zccp_client_recv C api) [
    | waits ↦ waiting []
    | returns (none, client) ↦ returned [] client.commands
    | returns (some content, client) ↦
        elim (print_content content (zccp_client_sender client) (zccp_client_address client)) [
          | none ↦ crashed []
          | some line ↦ after_line line (show fuel client)
        ]
  ]

  -- The part after the connection, by the arguments behind the program's name.
  unfoldable pub talk : ℕ → List Str → Api → Ending
  unfolding show zccp_client_subscribe zccp_client_publish
  talk fuel (pattern_ ∷ []) client = elim (zccp_client_subscribe C pattern_ client) [
    | waits ↦ waiting []
    | returns (status, after) ↦ show fuel after
  ]
  talk fuel (address ∷ body ∷ []) client =
      returned [] (zccp_client_publish C address body client).commands
  talk fuel _ client = returned [] client.commands

  unfoldable pub connected : ℕ → List Str → Outcome (ℤ × Api) → Ending
  unfolding talk
  connected fuel args waits = waiting []
  connected fuel args (returns (status, client)) =
      if is_nonzero status then returned [] client.commands else talk fuel args client

  unfoldable pub run : ℕ → List Str → List Arrival → Ending
  unfolding connected zccp_client_new zccp_client_verbose zccp_client_connect
  run fuel args arrivals =
      connected fuel args (
        zccp_client_connect C endpoint (pos 1000)
          (zccp_client_verbose C (zccp_client_new arrivals)))

  -- Without an argument no client is made.
  unfoldable pub checked : ℕ → List Str → List Arrival → Ending
  unfolding run
  checked fuel (program ∷ arg ∷ args) arrivals = run fuel (arg ∷ args) arrivals
  checked fuel _ arrivals = returned (codes "syntax: zccp_sh type [ body ]\n" ∷ []) []

  -- `decimal` is printf's "%d".
  unfoldable pub zccp_sh : (ℕ → Str) → ℕ → List Str → List Arrival → Ending
  unfolding checked after_line
  zccp_sh decimal fuel argv arrivals =
      after_line (codes "ARGS:" ++ (decimal (length argv) ++ codes "\n"))
        (checked fuel argv arrivals)
