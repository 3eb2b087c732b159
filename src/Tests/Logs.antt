-- ===== src/Tests/Logs.antt =====
-- An example on the log files of served requests.
use nd.Base.{map, ◌*◌, ◌≤◌, ◌≡◌, refl, false, some, List, [], ◌∷◌, ◌++◌, length, codes, arith}
use nd.Log.Line.{Call, temp_buf_size}
use nd.Log.Printf.{Logger}
use nd.Log.Ring.{contents, log_buf_size}
use nd.Log.Setup.{log_init, logger_of, started, filename, log_read_conf, unset}
use nd.Log.Thread.Laws.{given}
use nd.Log.Session.{Session, acts}
use nd.Log.Session.Start.{opened}
use nd.Req.Handler.{Ctx}
use nd.Req.Serving.{Arrival}
use nd.Req.Logs.{Note, serve_calls}
use nd.Req.Logs.Laws.{access_lines, refusal_lines}
use nd.Req.Logs.Files.{Rounds, with_rounds, served-logged}
use nd.Req.Logs.Size.{lines_small}
use nd.Tests.Logger.{show_whole}
use nd.Tests.Setups.{well, whole_conf, replaced}
use nd.Tests.Requests.{backend_parts, parse_any, a_ctx}
use nd.Tests.Memories.{arrivals, arrivals-AllServable}

abbrev a_note : Note
a_note = record {
  file = codes "req.cpp";
  time = λ line. codes "03-27 10:39:25";
  cost = codes "0.125";
  backend = [];
}

-- Command 1, a number that is not supported, and command 2.
abbrev served : List (Arrival × Note)
served = map (λ a. (a, a_note)) arrivals

-- A round behind the first message.
abbrev a_round : Rounds
a_round = ((replaced, replaced) ∷ []) ∷ []

abbrev a_logger : Logger
a_logger = logger_of well (log_read_conf whole_conf unset).1

served-logged_example :
    (calls : List (Call show_whole)) × (c' : Ctx) × (t : Session) × (log_init well whole_conf unset
      ≡ some (
          started a_logger
            (filename (codes ".log") (log_read_conf whole_conf unset).1)
            (filename (codes ".log.wf") (log_read_conf whole_conf unset).1)
            false))
    × (serve_calls show_whole parse_any served a_ctx ≡ some (calls, c'))
    × (acts log_buf_size show_whole false
          (opened a_logger (codes "old") [])
          (with_rounds show_whole calls a_round)
        ≡ some t)
    × (given t.log_f ++ contents log_buf_size t.lg.log
        ≡ codes "old" ++ access_lines log_buf_size show_whole a_logger served)
    × (given t.wf_f ++ contents log_buf_size t.lg.wf
        ≡ [] ++ refusal_lines log_buf_size show_whole a_logger served)
unfolding log_read_conf
served-logged_example =
    served-logged parse_any backend_parts backend_parts refl refl show_whole well whole_conf unset
      (codes "old") [] served a_ctx a_round refl refl refl refl arrivals-AllServable
      ((omega arith, (omega arith, tt)), tt) (omega (arith, small.0)) (omega (arith, small.1))
  where
    small :
        (length (access_lines log_buf_size show_whole a_logger served) ≤ 3 * temp_buf_size * 3)
        × (length (refusal_lines log_buf_size show_whole a_logger served) ≤ 3 * temp_buf_size * 3)
    small = lines_small log_buf_size show_whole a_logger served
