-- ===== src/Main/Ended.antt =====
-- What a run of main comes to, with what is served, and with the requests that come.
use nd.Base.{ℕ, ◌≡◌, ◌⊎◌, false, ◌&&◌, Option, none, some, List, if◌then◌else◌, ℤ}
use nd.Server.{Settings, server_init}
use nd.Server.Start.{Started, server_init-Started}
use nd.Server.Start
use nd.Main.{Conf, World, Exit, failed, unset_server, exit_of, serve_once, main}
use nd.Main.Stages.{Reached, Loaded, Failed, Staged, main_stages-Staged}
use nd.Main.Stages

-- A run faults where malloc gives log_init no buffers, ends with status 1 and nothing served where a
-- stage fails or the port or the timeout is not configured, or ends with status 0, whether a port was
-- served or not.
pub data Ran (w : World) (args : List (List ℕ)) : Option Exit → Type 0 where
  faults : (conf : Conf) → Loaded w args conf → w.system.allocates ≡ false → Ran w args none
  fails : Failed w args → Ran w args (some failed)
  lacks :
      (conf : Conf)
      → Reached w args conf
      → (conf.server.port ≡ none) ⊎ (conf.server.timeout_s ≡ none)
      → Ran w args (some failed)
  ends :
      (conf : Conf) (port timeout : ℤ)
      → Reached w args conf
      → conf.server.port ≡ some port
      → conf.server.timeout_s ≡ some timeout
      → Ran w args (
          some (record {
            status = 0;
            served = if w.makes_server && w.binds port then some port else none;
          }))

module _ (w : World) (args : List (List ℕ)) where
  server_Ran :
      (conf : Conf) (r : ℤ × Settings × Option ℤ)
      → Reached w args conf
      → Started w.makes_server w.binds conf.server r
      → Ran w args (some (exit_of r))
  server_Ran conf r c (Start.refused s why) = lacks conf c why
  server_Ran conf r c (Start.ran s port timeout t u) = ends conf s.port timeout.0 c port timeout.1

  Staged-Ran : {o : Option Exit} → Staged failed (serve_once w) w args o → Ran w args o
  Staged-Ran (Stages.faults conf l a) = faults conf l a
  Staged-Ran (Stages.fails why) = fails why
  Staged-Ran (Stages.serves conf c) =
      server_Ran conf (server_init w.makes_server w.binds conf.server unset_server) c
        (server_init-Started w.makes_server w.binds conf.server unset_server)

  -- main as long as no request comes. It faults only where the configuration of its arguments is
  -- loaded and malloc gives log_init no buffers. It ends with status 1 and serves nothing where it
  -- was called with more than two arguments, or else the signal handler could not be set, or else
  -- the configuration at the path of the arguments was not loaded, or else the logger could not be
  -- started from that configuration, or else there was no buffer for bodies, or else the port or the
  -- timeout is not in it. In every other case it ends with status 0, after it has served the port of
  -- that configuration, or none, if libevent made no server or could not bind the port.
  pub main-Ran : Ran w args (main w args)
  unfolding main
  main-Ran = Staged-Ran (main_stages-Staged failed (serve_once w) w args)
