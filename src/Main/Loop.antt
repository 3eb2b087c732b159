-- ===== src/Main/Loop.antt =====
-- main of src/main.cpp with the requests that come in the loop of server_run.
use nd.Base.{ℕ, ◌≡◌, false, Option, none, some, List, [], if◌then◌else◌, codes}
use nd.HttpClient.World.{Parts}
use nd.Req.Handler.{Reply, Ctx}
use nd.Req.Serving.{Arrival, AllServable}
use nd.Req.Memory.{Gives, Memory, Run, goes_on, and_then}
use nd.Req.Memory.Laws.{all_given}
use nd.Req.Memory.Leaks.{IsFresh}
use nd.Server
use nd.Server.Loop
use nd.Server.Loop.{Outcome}
use nd.Server.Loop.Laws.{Session, server_init-Session}
use nd.Main.{Conf, World, unset_server, main_stages, is_nonzero}
use nd.Main.Stages.{Loaded, Reached, Failed, Staged, main_stages-Staged}
use nd.Main.Stages

-- The status of the process, the replies to each request, and what is left.
abbrev pub Ended : Type 0
Ended = ℕ × List (List Reply) × Ctx × Memory

abbrev pub ended : Outcome → Run Ended
ended q = goes_on (if is_nonzero q.0 then 1 else 0, q.1, q.2, q.3)

module _ (parse : List ℕ → Option Parts) (todo : List (Gives × Arrival)) (c : Ctx) (m : Memory)
    (w : World) where
  abbrev pub unserved : Run Ended
  unserved = goes_on (1, [], c, m)

  abbrev pub serve_loop : Server.Conf → Run Ended
  serve_loop conf =
      and_then (Loop.server_init parse w.makes_server w.binds todo c m conf unset_server) ended

  -- `none` is a fault on the way to server_init.
  unfoldable pub main_serving : List (List ℕ) → Option (Run Ended)
  unfolding main_stages
  main_serving args = main_stages unserved serve_loop w args

module _ (parse : List ℕ → Option Parts) (google baidu : Parts)
    (p : parse (codes "http://www.google.com/") ≡ some google)
    (q : parse (codes "http://www.baidu.com/") ≡ some baidu) (todo : List Arrival) (c : Ctx)
    (m : Memory) (w : World) (args : List (List ℕ)) where
  pub data Whole : Option (Run Ended) → Type 0 where
    faulted : (conf : Conf) → Loaded w args conf → w.system.allocates ≡ false → Whole none
    failed : Failed w args → Whole (some (goes_on (1, [], c, m)))
    served :
        {o : Run Outcome} (conf : Conf)
        → Reached w args conf
        → Session parse google baidu p q w.makes_server w.binds conf.server todo c m o
        → Whole (some (and_then o ended))

  -- main from its arguments to the last of its requests: it faults on the way to server_init only
  -- where the configuration of its arguments is loaded and malloc gives log_init no buffers. It ends
  -- with status 1 and has served nothing where, all before having gone well, it was called with more
  -- than two arguments, the signal handler could not be set, that configuration was not loaded, the
  -- logger could not be started from it, or there was no buffer for bodies. Else it comes to what
  -- server_init comes to with that configuration and with the requests in its loop, as to the
  -- replies, what is left in memory, and the status, 1 where the port or the timeout is not
  -- configured. Here malloc and evbuffer_new give all that is asked for by the requests, the urls of
  -- the backends are uris, and each response is one that the callback can take.
  pub main_serving-Whole :
      IsFresh m → AllServable parse todo → Whole (main_serving parse (all_given todo) c m w args)
  unfolding main_serving
  main_serving-Whole fresh servable = staged (
      main_stages-Staged (unserved parse (all_given todo) c m w)
        (serve_loop parse (all_given todo) c m w) w args)
    where
      staged :
          {o : Option (Run Ended)}
          → Staged
              (unserved parse (all_given todo) c m w)
              (serve_loop parse (all_given todo) c m w)
              w
              args
              o
          → Whole o
      staged (Stages.faults conf l a) = faulted conf l a
      staged (Stages.fails why) = failed why
      staged (Stages.serves conf r) = served conf r (
          server_init-Session parse google baidu p q w.makes_server w.binds conf.server todo c m
            unset_server fresh servable)
