-- ===== src/Server/Config/Examples.antt =====
-- The theorems on the settings at concrete inputs.
use zccp.Base.{pos, ◌≡◌, refl, Bool, true, false, [], ◌∷◌, none, some, arith}
use zccp.Base.Results.{ok}
use zccp.Czmq.{codes}
use zccp.Czmq.Simple.{simple}
use zccp.Server.Config.{Zconfig, Settings, s_server_api_message}
use zccp.Server.Config.Safety.{
  bind_command, configure_command, frames_of, HasConfig, AnswersConfig, created,
  new_settings-HasConfig, api_message-ends, configure-dangles,
}

-- Trees without content; one file can be loaded.
abbrev pub plain : Zconfig
plain = record {
  Tree = Bool;
  root = false;
  zconfig_load = λ file. elim file [ [] ↦ none | ◌∷◌ c rest ↦ some true ];
  zconfig_put = λ tree path value. tree;
  zconfig_resolve = λ tree path default_value. default_value;
  sections = λ tree path. [];
  zconfig_name = λ tree. [];
  zsock_bind = λ endpoint. pos 9000;
}

abbrev settings : Settings Bool
settings = (new_settings-HasConfig simple plain).0

api_message-ends_example : AnswersConfig simple plain (
    s_server_api_message simple plain
      (some (frames_of (bind_command (codes "tcp://*:*"))))
      settings)
api_message-ends_example =
    api_message-ends simple plain settings (bind_command (codes "tcp://*:*"))
      (created settings (new_settings-HasConfig simple plain).1)

-- A broker whose two pointers share the tree at address 1.
abbrev shared : Settings Bool
shared = record {
  verbose = false;
  port = pos 0;
  timeout = 60000;
  config = 1;
  server_config = 1;
  logs_to_stdout = true;
  configs = λ p. some true;
  next_config = 2;
  bound = [];
  replies = [];
}

configure-dangles_example :
    (t : Settings Bool) × (s_server_api_message simple plain
        (some (frames_of (configure_command [])))
        shared
      ≡ ok (true, t))
    × (t.configs t.server_config ≡ none)
    × HasConfig simple plain t
configure-dangles_example = configure-dangles simple plain [] shared refl (λ e. omega arith) refl
