-- ===== src/Server/Config.antt =====
-- The part of s_server_t that its caller sets up, and the handlers that change it: s_server_config_self,
-- s_server_apply_config, s_server_api_message and s_watch_server_config of zccp_server_engine.inc.
-- Configuration trees have addresses, so that a pointer to a destroyed one is seen. The flag verbose
-- is also a field of the broker's state in zccp.Server, where s_client_execute reads it.
pub mod Safety
pub mod Examples
use zccp.Base.{
  ℕ, ℤ, pos, size_of_int, is_nonzero, ◌+◌, ◌==◌, Bool, true, false, ◌||◌, List, [], ◌∷◌, ◌++◌,
  Option, none, some, if◌then◌else◌, streq,
}
use zccp.Base.Results.{Result, ok, fault, ◌>>=◌, or_fault}
use zccp.Czmq.{Str, codes, Czmq}

-- What the code uses of zconfig and of zsock_bind. `sections` are the children of the section that
-- zconfig_locate finds, none if it finds no section. zsock_bind gives the port, or -1.
pub record Zconfig : Type 1 where
  pub Tree : Type 0
  pub root : Tree
  pub zconfig_load : Str → Option Tree
  pub zconfig_put : Tree → Str → Str → Tree
  pub zconfig_resolve : Tree → Str → Str → Str
  pub sections : Tree → Str → List Tree
  pub zconfig_name : Tree → Str
  pub zsock_bind : Str → ℤ

-- `configs` is the memory that holds the trees. `bound` are the endpoints that zsock_bind was called
-- with, `replies` what went to the caller.
pub record Settings (Tree : Type 0) : Type 0 where
  pub verbose : Bool
  pub port : ℤ
  pub timeout : ℕ
  pub config : ℕ
  pub server_config : ℕ
  pub logs_to_stdout : Bool
  pub configs : ℕ → Option Tree
  pub next_config : ℕ
  pub bound : List Str
  pub replies : List (List Str)

unfoldable pub put_at {ℓ} : {A : Type ℓ} → (ℕ → Option A) → ℕ → Option A → ℕ → Option A
put_at m p a q = if p == q then a else m q

module _ (C : Czmq) (Z : Zconfig) where
  open C use {atoi, print_int}
  open Z use {
    Tree, root, zconfig_load, zconfig_put, zconfig_resolve, sections, zconfig_name, zsock_bind,
  }

  abbrev pub Setting : Type 0
  Setting = Settings Tree → Result (Settings Tree)

  unfoldable pub number_of : Tree → Str → Str → ℤ
  number_of config path default_value = atoi (zconfig_resolve config path default_value)

  -- The options of a tree.
  unfoldable pub with_options : Tree → Settings Tree → Settings Tree
  unfolding number_of
  with_options config s = record s {
    verbose = s.verbose || is_nonzero (number_of config (codes "server/verbose") (codes "0"));
    timeout = size_of_int (number_of config (codes "server/timeout") (codes "60000"));
    logs_to_stdout =
        if is_nonzero (number_of config (codes "server/background") (codes "0"))
        then s.logs_to_stdout
        else true;
  }

  unfoldable pub s_server_config_self : Setting
  unfolding with_options
  s_server_config_self s = do config ← or_fault (s.configs s.config); ok (with_options config s)

  -- The loop over the sections; "echo" only prints.
  unfoldable pub bind_sections : List Tree → List Str
  bind_sections [] = []
  bind_sections (section ∷ rest) =
      let after = bind_sections rest in
      if streq (zconfig_name section) (codes "bind")
      then zconfig_resolve section (codes "endpoint") (codes "?") ∷ after
      else after

  unfoldable pub with_bound : Tree → Settings Tree → Settings Tree
  unfolding bind_sections
  with_bound config s = record s {
    bound = s.bound ++ bind_sections (sections config (codes "zccp_server"));
  }

  unfoldable pub s_server_apply_config : Setting
  unfolding with_bound s_server_config_self
  s_server_apply_config s = do
    config ← or_fault (s.configs s.config)
    s_server_config_self (with_bound config s)

  -- A tree takes a fresh address, which self->config then holds.
  unfoldable pub place : Tree → Settings Tree → Settings Tree
  unfolding put_at
  place tree s = record s {
    config = s.next_config;
    configs = put_at s.configs s.next_config (some tree);
    next_config = s.next_config + 1;
  }

  -- zconfig_destroy (&self->config).
  unfoldable pub destroy_config : Settings Tree → Settings Tree
  unfolding put_at
  destroy_config s = record s { configs = put_at s.configs s.config none }

  -- self->server.config = self->config.
  unfoldable pub adopt_config : Setting
  adopt_config s = ok (record s { server_config = s.config })

  unfoldable pub configured : Option Tree → Setting
  unfolding place s_server_apply_config adopt_config
  configured none s = ok (place root s)
  configured (some tree) s = do t ← s_server_apply_config (place tree s); adopt_config t

  unfoldable pub configure : Str → Setting
  unfolding destroy_config configured
  configure config_file s = configured (zconfig_load config_file) (destroy_config s)

  -- zconfig_put, and what is left of "server/animate".
  unfoldable pub with_path : Str → Str → Tree → Settings Tree → Settings Tree
  unfolding put_at
  with_path path value config s = record s {
    configs = put_at s.configs s.config (some (zconfig_put config path value));
    verbose = if streq path (codes "server/animate") then is_nonzero (atoi value) else s.verbose;
  }

  unfoldable pub set_path : Str → Str → Setting
  unfolding with_path s_server_config_self
  set_path path value s = do
    config ← or_fault (s.configs s.config)
    s_server_config_self (with_path path value config s)

  unfoldable pub bind : Str → Setting
  bind endpoint s = ok (record s { port = zsock_bind endpoint; bound = s.bound ++ endpoint ∷ [] })

  -- One string after another; NULL where the message has no more frames is a fault.
  unfoldable pub arg : List Str → Result (Str × List Str)
  arg [] = fault
  arg (x ∷ xs) = ok (x, xs)

  -- server_method answers no other command.
  unfoldable pub server_method : Str → List Str → Option (List Str)
  server_method method args = none

  unfoldable pub reply_with : Option (List Str) → Settings Tree → Settings Tree
  reply_with none s = s
  reply_with (some reply) s = record s { replies = s.replies ++ reply ∷ [] }

  unfoldable pub execute_command : Str → List Str → Setting
  unfolding arg bind configure set_path server_method reply_with
  execute_command method args s =
      if streq method (codes "VERBOSE")
      then ok (record s { verbose = true })
      else if streq method (codes "BIND")
      then arg args >>= (λ (endpoint, rest). bind endpoint s)
      else if streq method (codes "PORT")
      then ok (record s { replies = s.replies ++ (codes "PORT" ∷ print_int s.port ∷ []) ∷ [] })
      else if streq method (codes "CONFIGURE")
      then arg args >>= (λ (config_file, rest). configure config_file s)
      else if streq method (codes "SET")
      then arg args >>= (λ (path, rest). arg rest >>= (λ (value, more). set_path path value s))
      else ok (reply_with (server_method method args) s)

  -- The Boolean is whether it returns 0.
  unfoldable pub s_server_api_message :
      Option (List Str) → Settings Tree → Result (Bool × Settings Tree)
  unfolding arg execute_command
  s_server_api_message none s = ok (false, s)
  s_server_api_message (some msg) s = do
    (method, args) ← arg msg
    (if streq method (codes "$TERM")
        then ok (false, s)
        else execute_command method args s >>= (λ t. ok (true, t)))

  -- `reloaded` is the tree that zconfig_reload read, where the file has changed and it could be read.
  unfoldable pub s_watch_server_config : Option Tree → Setting
  unfolding place destroy_config s_server_config_self adopt_config
  s_watch_server_config none s = ok s
  s_watch_server_config (some reloaded) s = do
    t ← s_server_config_self (place reloaded (destroy_config s))
    adopt_config t

  -- zmalloc. Address 0 is NULL, so the count begins at 1.
  unfoldable pub zeroed : Settings Tree
  zeroed = record {
    verbose = false;
    port = pos 0;
    timeout = 0;
    config = 0;
    server_config = 0;
    logs_to_stdout = false;
    configs = λ p. none;
    next_config = 1;
    bound = [];
    replies = [];
  }

  -- What s_server_new does of this.
  unfoldable pub new_settings : Result (Settings Tree)
  unfolding zeroed place s_server_config_self adopt_config
  new_settings = do t ← s_server_config_self (place root zeroed); adopt_config t
