-- ===== src/Server/Loop.antt =====
-- server_run and server_init of src/server.cpp with what their loop does: http_handler of
-- src/req.cpp, request after request, with the timeout that read_conf has left.
pub mod Laws
use nd.Base.{
  ℕ, zero, suc, Bool, true, false, not, Option, none, some, List, [], ◌∷◌, if◌then◌else◌, ℤ, pos,
  negsuc,
}
use nd.HttpClient.World.{Parts}
use nd.Req.Handler.{Reply, Ctx}
use nd.Req.Serving.{Arrival}
use nd.Req.Memory.{Gives, Memory, Run, goes_on, and_then, serve_all}
use nd.Server.{Conf, Settings, read_conf}

-- timeout_s, which is above 0.
unfoldable pub seconds : ℤ → ℕ
seconds (pos n) = n
seconds (negsuc n) = 0

-- The result, the replies to each request, and what is left.
abbrev pub Outcome : Type 0
Outcome = ℤ × List (List Reply) × Ctx × Memory

module _ (parse : List ℕ → Option Parts) (made : Bool) (binds : ℤ → Bool)
    (todo : List (Gives × Arrival)) (c : Ctx) (m : Memory) where
  unfoldable pub server_run : Settings → Run Outcome
  unfolding seconds and_then
  server_run s =
      if not made
      then goes_on (negsuc 0, [], c, m)
      else if not (binds s.port)
      then goes_on (negsuc 0, [], c, m)
      else and_then (serve_all parse (seconds s.timeout_s) todo c m)
          λ q. goes_on (pos 0, q.0, q.1, q.2)

  -- `server_run(); return 0;`
  abbrev pub with_zero : Outcome → Run Outcome
  with_zero q = goes_on (pos 0, q.1, q.2, q.3)

  unfoldable pub run_after : ℤ × Settings → Run Outcome
  unfolding server_run and_then
  run_after (pos zero, s) = and_then (server_run s) with_zero
  run_after (pos (suc n), s) = goes_on (negsuc 0, [], c, m)
  run_after (negsuc n, s) = goes_on (negsuc 0, [], c, m)

  unfoldable pub server_init : Conf → Settings → Run Outcome
  unfolding run_after read_conf
  server_init conf s = run_after (read_conf conf s)
