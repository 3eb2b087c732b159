-- ===== src/Main.antt =====
-- main of src/main.cpp with req_init of src/req.cpp: the stages of the start, in order. What the
-- operating system, the configuration and libevent answer is given.
pub mod Stages
pub mod Ended
pub mod Loop
use nd.Base.{
  ℕ, ◌+◌, Bool, true, false, not, Option, none, some, List, [], ◌∷◌, ltb, if◌then◌else◌, ◌>>=◌,
  codes, ℤ, pos, negsuc,
}
use nd.Hash.{c_string}
use nd.File.{dirname, basename}
use nd.Log.Setup
use nd.Log.Setup.{System, Init, exited, started, log_init, unset}
use nd.Server
use nd.Server.{Settings, server_init}

-- What a loaded configuration holds for the two modules that read it.
pub record Conf : Type 0 where
  pub log : Setup.Conf
  pub server : Server.Conf

-- `load` is what Configure.load finds at a directory and a name: `none` where it does not return 0.
pub record World : Type 0 where
  pub ignores_sigpipe : Bool
  pub load : List ℕ → List ℕ → Option Conf
  pub system : System
  pub gives_post_data : Bool
  pub makes_server : Bool
  pub binds : ℤ → Bool

-- The status of the process, and the port that was served on the way, if one was.
pub record Exit : Type 0 where
  pub status : ℕ
  pub served : Option ℤ

abbrev pub failed : Exit
failed = record { status = 1; served = none }

-- sigaction.
unfoldable pub signal_handler_init : World → ℤ
signal_handler_init w = if w.ignores_sigpipe then pos 0 else negsuc 0

unfoldable pub req_init : World → ℤ
req_init w = if w.gives_post_data then pos 0 else negsuc 0

-- The test of a result, and of ENSURE.
abbrev pub is_nonzero : ℤ → Bool
is_nonzero (pos n) = ltb 0 n
is_nonzero (negsuc n) = true

-- conf_dir and conf_name, by the arguments behind argv[0].
unfoldable pub conf_path : List (List ℕ) → Option (List ℕ × List ℕ)
conf_path [] = some (codes "./conf", codes "ndsim.conf")
conf_path (path ∷ []) = some (dirname path false, basename path)
conf_path (dir ∷ name ∷ []) = some (dir, name)
conf_path (dir ∷ name ∷ more ∷ args) = none

abbrev pub unset_server : Settings
unset_server = record { port = pos 0; thread_num = pos 0; timeout_s = pos 0 }

abbrev pub exit_of : ℤ × Settings × Option ℤ → Exit
exit_of (ret, s, served) = record { status = if is_nonzero ret then 1 else 0; served = served }

-- `fail` is what `return 1` comes to, and `serve` what server_init and the rest come to.
module _ {A : Type 0} (fail : A) (serve : Server.Conf → A) where
  -- From req_init on.
  unfoldable pub after_log : World → Conf → Init → A
  unfolding req_init
  after_log w conf exited = fail
  after_log w conf (started lg log_filename logwf_filename to_stderr) =
      if is_nonzero (req_init w) then fail else serve conf.server

  -- From log_init on.
  unfoldable pub after_load : World → Option Conf → Option A
  unfolding after_log
  after_load w none = some fail
  after_load w (some conf) = log_init w.system conf.log unset >>= (λ i. some (after_log w conf i))

  unfoldable pub after_args : World → Option (List ℕ × List ℕ) → Option A
  unfolding signal_handler_init after_load
  after_args w none = some fail
  after_args w (some (conf_dir, conf_name)) =
      if is_nonzero (signal_handler_init w)
      then some fail
      else after_load w (w.load (c_string conf_dir) (c_string conf_name))

  -- `none` is a fault.
  unfoldable pub main_stages : World → List (List ℕ) → Option A
  unfolding conf_path after_args
  main_stages w args = after_args w (conf_path args)

abbrev pub serve_once : World → Server.Conf → Exit
serve_once w conf = exit_of (server_init w.makes_server w.binds conf unset_server)

-- With no request in the loop of server_run. Main/Loop has main with its requests.
unfoldable pub main : World → List (List ℕ) → Option Exit
unfolding main_stages
main w args = main_stages failed (serve_once w) w args
