-- ===== src/Tests/Mains.antt =====
-- An example on main.
use nd.Base.{◌≡◌, refl, true, false, some, none, [], ◌∷◌, codes}
use nd.Log.Setup.{log_init}
use nd.Server.{server_init}
use nd.Main.{World, main}
use nd.Main.Ended.{Ran, main-Ran}
use nd.Main.Loop.{Whole, main_serving, main_serving-Whole}
use nd.Req.Dispatch.{command_no}
use nd.Req.Memory.Laws.{all_given}
use nd.Tests.Requests.{backend_parts, parse_any, a_ctx}
use nd.Tests.Memories.{a_memory, a_memory-IsFresh, arrivals, arrivals-AllServable}
use nd.Tests.Servers.{a_conf}
use nd.Tests.Setups.{a_log_conf, well}

-- The configuration is there, and the port cannot be bound.
abbrev a_world : World
a_world = record {
  ignores_sigpipe = true;
  load = λ dir name. some (record { log = a_log_conf; server = a_conf });
  system = well;
  gives_post_data = true;
  makes_server = true;
  binds = λ port. false;
}

main-Ran_example :
    Ran a_world (codes "./conf/ndsim.conf" ∷ []) (main a_world (codes "./conf/ndsim.conf" ∷ []))
main-Ran_example = main-Ran a_world (codes "./conf/ndsim.conf" ∷ [])

main_unserved :
    main a_world (codes "./conf/ndsim.conf" ∷ []) ≡ some (record { status = 0; served = none })
unfolding main log_init server_init
main_unserved = refl

abbrev serving : World
serving = record a_world { binds = λ port. true }

-- The port can be bound.
main_serving-Whole_example :
    Whole parse_any backend_parts backend_parts refl refl arrivals a_ctx a_memory serving []
      (main_serving parse_any (all_given arrivals) a_ctx a_memory serving [])
unfolding command_no
main_serving-Whole_example =
    main_serving-Whole parse_any backend_parts backend_parts refl refl arrivals a_ctx a_memory
      serving [] a_memory-IsFresh arrivals-AllServable
