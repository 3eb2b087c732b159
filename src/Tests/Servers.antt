-- ===== src/Tests/Servers.antt =====
-- An example on the start of the server.
use nd.Base.{true, some, pos, negsuc, refl}
use nd.Server.{Conf, Settings}
use nd.Server.Loop
use nd.Server.Loop.Laws.{Session, server_init-Session}
use nd.Req.Dispatch.{command_no}
use nd.Req.Memory.Laws.{all_given}
use nd.Tests.Requests.{backend_parts, parse_any, a_ctx}
use nd.Tests.Memories.{a_memory, a_memory-IsFresh, arrivals, arrivals-AllServable}

abbrev pub a_conf : Conf
a_conf = record { port = some (pos 8080); thread_num = negsuc 0; timeout_s = some (pos 0) }

abbrev unset : Settings
unset = record { port = pos 0; thread_num = pos 0; timeout_s = pos 0 }

-- The port can be bound, and a timeout of 0 becomes 100 seconds.
server_init-Session_example :
    Session parse_any backend_parts backend_parts refl refl true
      (λ p. true)
      a_conf
      arrivals
      a_ctx
      a_memory
      (Loop.server_init parse_any true (λ p. true) (all_given arrivals) a_ctx a_memory a_conf unset)
unfolding command_no
server_init-Session_example =
    server_init-Session parse_any backend_parts backend_parts refl refl true (λ p. true) a_conf
      arrivals a_ctx a_memory unset a_memory-IsFresh arrivals-AllServable
