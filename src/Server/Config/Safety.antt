-- ===== src/Server/Config/Safety.antt =====
-- The trees that the broker's settings point to.
use zccp.Base.{
  ℕ, ◌≡◌, ◌≢◌, refl, ap, subst, ◌∙◌, Bool, true, false, List, [], ◌∷◌, Option, none, some, arith,
}
use zccp.Base.Results.{Result, ok, ◌>>=◌, or_fault}
use zccp.Czmq.{Str, codes, Czmq}
use zccp.Server.Config.{
  Zconfig, Settings, with_options, with_bound, with_path, adopt_config, zeroed, put_at,
  s_server_config_self, s_server_apply_config, place, destroy_config, configured, configure,
  set_path, bind, arg, execute_command, s_server_api_message, s_watch_server_config, new_settings,
}

-- The commands that the actor documents, with the strings that each needs.
pub data Command : Type 0 where
  verbose_command term_command port_command : Command
  bind_command configure_command : Str → Command
  set_command : Str → Str → Command

abbrev pub frames_of : Command → List Str
frames_of verbose_command = codes "VERBOSE" ∷ []
frames_of term_command = codes "$TERM" ∷ []
frames_of port_command = codes "PORT" ∷ []
frames_of (bind_command endpoint) = codes "BIND" ∷ endpoint ∷ []
frames_of (configure_command file) = codes "CONFIGURE" ∷ file ∷ []
frames_of (set_command path value) = codes "SET" ∷ path ∷ value ∷ []

put_at_self : {A : Type 0} (m : ℕ → Option A) (p : ℕ) (a : Option A) → put_at m p a p ≡ a
unfolding put_at
put_at_self m p a = ground arith

put_at_other :
    {A : Type 0} (m : ℕ → Option A) (p q : ℕ) (a : Option A) → p ≢ q → put_at m p a q ≡ m q
unfolding put_at
put_at_other m p q a ne = ground arith

module _ (C : Czmq) (Z : Zconfig) where
  open Z use {Tree, root, zconfig_load, zconfig_put}

  -- self->config points to a tree.
  abbrev pub HasConfig : Settings Tree → Type 0
  HasConfig s = (tree : Tree) × (s.configs s.config ≡ some tree)

  abbrev pub KeepsConfig : Result (Settings Tree) → Type 0
  KeepsConfig r = (t : Settings Tree) × (r ≡ ok t) × HasConfig t

  config_self-KeepsConfig :
      (s : Settings Tree) → HasConfig s → KeepsConfig (s_server_config_self C Z s)
  unfolding s_server_config_self with_options
  config_self-KeepsConfig s (tree, h) = (
    with_options C Z tree s,
    ap (λ o. or_fault o >>= λ c. ok (with_options C Z c s)) h,
    (tree, h),
  )

  apply_config-KeepsConfig :
      (s : Settings Tree) → HasConfig s → KeepsConfig (s_server_apply_config C Z s)
  unfolding s_server_apply_config with_bound
  apply_config-KeepsConfig s (tree, h) =
      let (t, run, good) = config_self-KeepsConfig (with_bound C Z tree s) (tree, h) in
      (t, ap (λ o. or_fault o >>= λ c. s_server_config_self C Z (with_bound C Z c s)) h ∙ run, good)

  place-HasConfig : (tree : Tree) (s : Settings Tree) → HasConfig (place C Z tree s)
  unfolding place
  place-HasConfig tree s = (tree, put_at_self s.configs s.next_config (some tree))

  adopted :
      (r : Result (Settings Tree))
      → KeepsConfig r
      → (t : Settings Tree) × ((r >>= adopt_config C Z) ≡ ok t)
        × HasConfig t
        × (t.server_config ≡ t.config)
  unfolding adopt_config
  adopted r (t, run, (tree, h)) =
      (record t { server_config = t.config }, ap (λ x. x >>= adopt_config C Z) run, (tree, h), refl)

  keep :
      {r : Result (Settings Tree)}
      → ((t : Settings Tree) × (r ≡ ok t) × HasConfig t × (t.server_config ≡ t.config))
      → KeepsConfig r
  keep (t, run, good, same) = (t, run, good)

  configured-KeepsConfig :
      (loaded : Option Tree) (s : Settings Tree) → KeepsConfig (configured C Z loaded s)
  unfolding configured
  configured-KeepsConfig none s = (place C Z root s, refl, place-HasConfig root s)
  configured-KeepsConfig (some tree) s = keep (
      adopted (s_server_apply_config C Z (place C Z tree s))
        (apply_config-KeepsConfig (place C Z tree s) (place-HasConfig tree s)))

  set_path-KeepsConfig :
      (path value : Str) (s : Settings Tree) → HasConfig s → KeepsConfig (set_path C Z path value s)
  unfolding set_path with_path
  set_path-KeepsConfig path value s (tree, h) =
      let (t, run, good) = config_self-KeepsConfig (with_path C Z path value tree s) (
        zconfig_put tree path value,
        put_at_self s.configs s.config (some (zconfig_put tree path value)),
      ) in
      (
        t,
        ap (λ o. or_fault o >>= λ c. s_server_config_self C Z (with_path C Z path value c s)) h
            ∙ run,
        good,
      )

  -- A command is handled without a fault, and self->config points to a tree.
  abbrev pub AnswersConfig : Result (Bool × Settings Tree) → Type 0
  AnswersConfig r = (more : Bool) × (t : Settings Tree) × (r ≡ ok (more, t)) × HasConfig t

  answering : (r : Result (Settings Tree)) → KeepsConfig r → AnswersConfig (r >>= λ t. ok (true, t))
  answering r (t, run, good) = (true, t, ap (λ r. r >>= λ t. ok (true, t)) run, good)

  pub api_message-HasConfig :
      (k : Command) (s : Settings Tree)
      → HasConfig s
      → AnswersConfig (s_server_api_message C Z (some (frames_of k)) s)
  unfolding s_server_api_message arg execute_command bind configure destroy_config
  api_message-HasConfig verbose_command s h = (true, record s { verbose = true }, refl, h)
  api_message-HasConfig term_command s h = (false, s, refl, h)
  api_message-HasConfig port_command s h = (true, _, refl, h)
  api_message-HasConfig (bind_command endpoint) s h = (true, _, refl, h)
  api_message-HasConfig (configure_command file) s h =
      answering (configure C Z file s)
        (configured-KeepsConfig (zconfig_load file) (destroy_config C Z s))
  api_message-HasConfig (set_command path value) s h =
      answering (set_path C Z path value s) (set_path-KeepsConfig path value s h)

  pub watch-HasConfig :
      (reloaded : Option Tree) (s : Settings Tree)
      → HasConfig s
      → KeepsConfig (s_watch_server_config C Z reloaded s)
  unfolding s_watch_server_config
  watch-HasConfig none s h = (s, refl, h)
  watch-HasConfig (some tree) s h = keep (
      adopted (s_server_config_self C Z (place C Z tree (destroy_config C Z s))) (
        config_self-KeepsConfig (place C Z tree (destroy_config C Z s))
          (place-HasConfig tree (destroy_config C Z s))))

  pub new_settings-HasConfig : KeepsConfig (new_settings C Z)
  unfolding new_settings
  new_settings-HasConfig = keep (
      adopted (s_server_config_self C Z (place C Z root (zeroed C Z)))
        (config_self-KeepsConfig (place C Z root (zeroed C Z)) (place-HasConfig root (zeroed C Z))))

  -- The settings as s_server_new, the caller's commands and reloads of the file leave them.
  pub data IsRunning : Settings Tree → Type 0 where
    created : (t : Settings Tree) → new_settings C Z ≡ ok t → IsRunning t
    commanded :
        (s t : Settings Tree) (k : Command) (more : Bool)
        → IsRunning s
        → s_server_api_message C Z (some (frames_of k)) s ≡ ok (more, t)
        → IsRunning t
    watched :
        (s t : Settings Tree) (reloaded : Option Tree)
        → IsRunning s
        → s_watch_server_config C Z reloaded s ≡ ok t
        → IsRunning t

  same_result : {A : Type 0} (r : Result A) (x y : A) → r ≡ ok x → r ≡ ok y → x ≡ y
  same_result r x y e f = cc

  running-HasConfig : (s : Settings Tree) → IsRunning s → HasConfig s
  running-HasConfig _ (created t e) =
      let (u, run, good) = new_settings-HasConfig in
      subst HasConfig (same_result (new_settings C Z) u t run e) good
  running-HasConfig _ (commanded s t k more r e) =
      let (m, u, run, good) = api_message-HasConfig k s (running-HasConfig s r) in
      subst HasConfig
        (ap (λ (x : Bool × Settings Tree). x.1)
          (same_result (s_server_api_message C Z (some (frames_of k)) s) (m, u) (more, t) run e))
        good
  running-HasConfig _ (watched s t reloaded r e) =
      let (u, run, good) = watch-HasConfig reloaded s (running-HasConfig s r) in
      subst HasConfig (same_result (s_watch_server_config C Z reloaded s) u t run e) good

  -- In every state that s_server_new, the caller's commands and reloads of the configuration file lead
  -- to, the handler of the caller's next command, which has the strings that it needs, ends without a
  -- fault, and self->config points to a tree after it.
  pub api_message-ends :
      (s : Settings Tree) (k : Command)
      → IsRunning s
      → AnswersConfig (s_server_api_message C Z (some (frames_of k)) s)
  api_message-ends s k r = api_message-HasConfig k s (running-HasConfig s r)

  -- CONFIGURE with a file that cannot be loaded leaves server.config on the tree that was destroyed,
  -- if it was self->config, and the address of the new tree is another one.
  pub configure-dangles :
      (file : Str) (s : Settings Tree)
      → s.server_config ≡ s.config
      → s.next_config ≢ s.config
      → zconfig_load file ≡ none
      → (t : Settings Tree) × (s_server_api_message C Z
            (some (frames_of (configure_command file)))
            s
          ≡ ok (true, t))
        × (t.configs t.server_config ≡ none)
        × HasConfig t
  unfolding s_server_api_message arg execute_command configure configured place destroy_config
  configure-dangles file s same fresh missing =
      let left = destroy_config C Z s in
      (
        place C Z root left,
        ap (λ o. configured C Z o left >>= λ t. ok (true, t)) missing,
        put_at_other left.configs s.next_config s.server_config (some root) (λ e. fresh (e ∙ same))
            ∙ ap (put_at s.configs s.config none) same
            ∙ put_at_self s.configs s.config none,
        place-HasConfig root left,
      )
