-- ===== src/Server.antt =====
-- read_conf, server_run and server_init of src/server.cpp. What the configuration holds and whether
-- libevent makes and binds the server are given; the loop of server_run is taken to end.
pub mod Start
pub mod Loop
use nd.Base.{
  ℕ, zero, suc, Bool, true, false, not, Option, none, some, List, [], ◌∷◌, if◌then◌else◌, ℤ, pos,
  negsuc,
}

-- What conf[0]["Server"] holds: `none` throws. get_int32 throws nothing and leaves a number.
pub record Conf : Type 0 where
  pub port : Option ℤ
  pub thread_num : ℤ
  pub timeout_s : Option ℤ

-- The variables of the module.
pub record Settings : Type 0 where
  pub port : ℤ
  pub thread_num : ℤ
  pub timeout_s : ℤ

abbrev pub thread_num_default : ℤ
thread_num_default = pos 4

abbrev pub timeout_s_default : ℤ
timeout_s_default = pos 100

-- The tests `<= 0` with their assignments.
unfoldable pub positive_or : ℤ → ℤ → ℤ
positive_or default (pos zero) = default
positive_or default (pos (suc n)) = pos (suc n)
positive_or default (negsuc n) = default

unfoldable pub read_timeout : Option ℤ → Settings → ℤ × Settings
unfolding positive_or
read_timeout none s = (negsuc 0, s)
read_timeout (some n) s = (pos 0, record s { timeout_s = positive_or timeout_s_default n })

unfoldable pub read_port : Conf → Option ℤ → Settings → ℤ × Settings
unfolding read_timeout
read_port conf none s = (negsuc 0, s)
read_port conf (some port) s =
    read_timeout conf.timeout_s
      (record s { port = port; thread_num = positive_or thread_num_default conf.thread_num })

unfoldable pub read_conf : Conf → Settings → ℤ × Settings
unfolding read_port
read_conf conf s = read_port conf conf.port s

-- server_run, given whether evhttp_new gives a server and evhttp_bind_socket binds a port: its
-- result, and the port that was served.
unfoldable pub server_run : Bool → (ℤ → Bool) → Settings → ℤ × Option ℤ
server_run made binds s =
    if not made
    then (negsuc 0, none)
    else if not (binds s.port)
    then (negsuc 0, none)
    else (pos 0, some s.port)

-- `if (read_conf()) return -1; server_run(); return 0;`
unfoldable pub run_after : Bool → (ℤ → Bool) → ℤ × Settings → ℤ × Settings × Option ℤ
unfolding server_run
run_after made binds (pos zero, s) = (pos 0, s, (server_run made binds s).1)
run_after made binds (pos (suc n), s) = (negsuc 0, s, none)
run_after made binds (negsuc n, s) = (negsuc 0, s, none)

unfoldable pub server_init : Bool → (ℤ → Bool) → Conf → Settings → ℤ × Settings × Option ℤ
unfolding run_after read_conf
server_init made binds conf s = run_after made binds (read_conf conf s)
