-- ===== src/Main/Stages.antt =====
-- What a run of main comes to.
use nd.Base.{
  ℕ, ◌≡◌, refl, inl, inr, Bool, true, false, Bool-cases, Option, none, some, List, ◌>>=◌, arith,
}
use nd.Hash.{c_string}
use nd.Log.Printf.{Logger}
use nd.Log.Setup.{Init, started, log_init, log_read_conf, unset}
use nd.Log.Setup.Laws.{Initialised, all_good, log_init-Initialised}
use nd.Log.Setup.Laws
use nd.Server
use nd.Main.{
  Conf, World, signal_handler_init, req_init, conf_path, after_log, after_load, after_args,
  main_stages,
}

-- main got as far as log_init, with the configuration of its arguments.
pub record Loaded (w : World) (args : List (List ℕ)) (conf : Conf) : Type 0 where
  pub dir : List ℕ
  pub name : List ℕ
  pub path : conf_path args ≡ some (dir, name)
  pub quiet : w.ignores_sigpipe ≡ true
  pub loaded : w.load (c_string dir) (c_string name) ≡ some conf

-- main got past log_init.
pub record Logging (w : World) (args : List (List ℕ)) (conf : Conf) : Type 0 where
  pub loaded : Loaded w args conf
  pub allocates : w.system.allocates ≡ true
  pub logs : all_good w.system (log_read_conf conf.log unset).1 ≡ true

-- main got as far as server_init.
pub record Reached (w : World) (args : List (List ℕ)) (conf : Conf) : Type 0 where
  pub logging : Logging w args conf
  pub room : w.gives_post_data ≡ true

-- The first stage that fails, where all before it went well.
pub data Failed (w : World) (args : List (List ℕ)) : Type 0 where
  usage : conf_path args ≡ none → Failed w args
  sigpipe :
      (dir name : List ℕ)
      → conf_path args ≡ some (dir, name)
      → w.ignores_sigpipe ≡ false
      → Failed w args
  unloaded :
      (dir name : List ℕ)
      → conf_path args ≡ some (dir, name)
      → w.ignores_sigpipe ≡ true
      → w.load (c_string dir) (c_string name) ≡ none
      → Failed w args
  unlogged :
      (conf : Conf)
      → Loaded w args conf
      → w.system.allocates ≡ true
      → all_good w.system (log_read_conf conf.log unset).1 ≡ false
      → Failed w args
  no_room : (conf : Conf) → Logging w args conf → w.gives_post_data ≡ false → Failed w args

-- The path and the configuration are one.
one_conf :
    {w : World} {args : List (List ℕ)} {conf : Conf} {dir name : List ℕ} {o : Option Conf}
    → conf_path args ≡ some (dir, name)
    → w.load (c_string dir) (c_string name) ≡ o
    → Loaded w args conf
    → o ≡ some conf
one_conf path e l = grind (arith, path, e, l.path, l.loaded)

-- Where a stage fails, main does not reach server_init, with any configuration.
Failed-Reached :
    {w : World} {args : List (List ℕ)} (conf : Conf) → Failed w args → Reached w args conf → ⊥
Failed-Reached conf (usage e) r = grind (arith, e, r.logging.loaded.path)
Failed-Reached conf (sigpipe dir name path n) r = grind (arith, n, r.logging.loaded.quiet)
Failed-Reached conf (unloaded dir name path quiet e) r =
    grind (arith, one_conf path e r.logging.loaded)
Failed-Reached conf (unlogged conf' l a n) r =
    grind (arith, one_conf l.path l.loaded r.logging.loaded, n, r.logging.logs)
Failed-Reached conf (no_room conf' l n) r = grind (arith, n, r.room)

-- What the stages come to, up to server_init: a fault where malloc gives log_init no buffers, the end
-- with status 1 at the first stage that fails, or server_init.
pub data Staged {A : Type 0} (fail : A) (serve : Server.Conf → A) (w : World) (args : List (List ℕ))
    : Option A → Type 0 where
  faults :
      (conf : Conf)
      → Loaded w args conf
      → w.system.allocates ≡ false
      → Staged fail serve w args none
  fails : Failed w args → Staged fail serve w args (some fail)
  serves : (conf : Conf) → Reached w args conf → Staged fail serve w args (some (serve conf.server))

module _ {A : Type 0} (fail : A) (serve : Server.Conf → A) (w : World) (args : List (List ℕ)) where
  after_log_full :
      (conf : Conf) (lg : Logger) (log_filename logwf_filename : List ℕ) (to_stderr : Bool)
      → w.gives_post_data ≡ false
      → after_log fail serve w conf (started lg log_filename logwf_filename to_stderr) ≡ fail
  unfolding after_log req_init
  after_log_full conf lg log_filename logwf_filename to_stderr n = ground (arith, n)

  after_log_room :
      (conf : Conf) (lg : Logger) (log_filename logwf_filename : List ℕ) (to_stderr : Bool)
      → w.gives_post_data ≡ true
      → after_log fail serve w conf (started lg log_filename logwf_filename to_stderr)
        ≡ serve conf.server
  unfolding after_log req_init
  after_log_room conf lg log_filename logwf_filename to_stderr g = ground (arith, g)

  init_Staged :
      (conf : Conf) (o : Option Init)
      → Loaded w args conf
      → Initialised w.system (log_read_conf conf.log unset).1 o
      → Staged fail serve w args (o >>= (λ i. some (after_log fail serve w conf i)))
  unfolding after_log
  init_Staged conf o l (Laws.faults a) = faults conf l a
  init_Staged conf o l (Laws.ends a b) = fails (unlogged conf l a b)
  init_Staged conf o l (Laws.runs lg a b new) =
      let logging : Logging w args conf = record { loaded = l; allocates = a; logs = b } in
      elim (Bool-cases w.gives_post_data) [
        | inr n ↦ rw (after_log_full conf lg _ _ _ n) (fails (no_room conf logging n))
        | inl g ↦
            rw (after_log_room conf lg _ _ _ g)
              (serves conf (record { logging = logging; room = g }))
      ]

  load_Staged :
      (dir name : List ℕ) (o : Option Conf)
      → conf_path args ≡ some (dir, name)
      → w.ignores_sigpipe ≡ true
      → w.load (c_string dir) (c_string name) ≡ o
      → Staged fail serve w args (after_load fail serve w o)
  unfolding after_load
  load_Staged dir name none path quiet e = fails (unloaded dir name path quiet e)
  load_Staged dir name (some conf) path quiet e =
      init_Staged conf (log_init w.system conf.log unset)
        (record { dir = dir; name = name; path = path; quiet = quiet; loaded = e })
        (log_init-Initialised w.system conf.log unset)

  args_Staged :
      (o : Option (List ℕ × List ℕ))
      → conf_path args ≡ o
      → Staged fail serve w args (after_args fail serve w o)
  unfolding after_args signal_handler_init
  args_Staged none e = fails (usage e)
  args_Staged (some (dir, name)) e = elim (Bool-cases w.ignores_sigpipe) [
    | inr n ↦
        let f : after_args fail serve w (some (dir, name)) ≡ some fail = ground (arith, n) in
        rw f (fails (sigpipe dir name e n))
    | inl q ↦
        let f : after_args fail serve w (some (dir, name))
            ≡ after_load fail serve w (w.load (c_string dir) (c_string name)) =
          ground (arith, q) in
        rw f (load_Staged dir name (w.load (c_string dir) (c_string name)) e q refl)
  ]

  pub main_stages-Staged : Staged fail serve w args (main_stages fail serve w args)
  unfolding main_stages
  main_stages-Staged = args_Staged (conf_path args) refl
