-- ===== src/Log/Session/Start.antt =====
-- The logger from log_init on.
use nd.Base.{ℕ, ◌≡◌, refl, true, some, List, [], ◌++◌, length, append-nil, ◌∙◌, ap, codes, arith}
use nd.Log.Ring.{contents, log_buf_size}
use nd.Log.Printf.{Logger}
use nd.Log.Setup.{Conf, Names, System, log_read_conf, log_init, logger_of, started, filename}
use nd.Log.Setup.Laws.{all_good, log_init_starts, logger_of-IsNew}
use nd.Log.Thread.Laws.{given}
use nd.Log.Session.{Session, Act, acts}
use nd.Log.Session.Spec.{IsOpen, Written, FirstTakesAll}
use nd.Log.Session.Laws.{acts-Written}

-- The files opened for appending, with what is in them.
abbrev pub opened : Logger → List ℕ → List ℕ → Session
opened lg old_log old_wf = record {
  lg = lg;
  log_f = record { closed = []; text = old_log; flushed = length old_log };
  wf_f = record { closed = []; text = old_wf; flushed = length old_wf };
  err = [];
}

pub opened-IsOpen :
    (sys : System) (n : Names) {D : Type 0} (show_double : D → List ℕ) (old_log old_wf : List ℕ)
    → IsOpen log_buf_size show_double (logger_of sys n) (opened (logger_of sys n) old_log old_wf)
opened-IsOpen sys n show_double old_log old_wf = record {
  ready = (logger_of-IsNew sys n).ready;
  log_flushed = refl;
  wf_flushed = refl;
  name = refl;
  pid = refl;
  level = refl;
}

-- Where malloc, the files, the pipe and the thread are given to log_init, it starts a logger which
-- no sequence of messages and rounds makes fault. The log file and what waits in its ring are then
-- what was in the file, followed by the lines of the messages that are let through and are not
-- WARNING or FATAL, in order, each cut to the free bytes of the ring; a round takes bytes out of the
-- ring, all of them where the second fwrite takes all. The .wf file and its ring likewise for
-- WARNING and FATAL. Here fwrite takes what the first call of a round for each file gives it, and
-- no producer works during a round.
pub log_init-Written :
    (sys : System) (conf : Conf) (n₀ : Names) {D : Type 0} (show_double : D → List ℕ)
    (old_log old_wf : List ℕ) (todo : List (Act show_double))
    → sys.allocates ≡ true
    → all_good sys (log_read_conf conf n₀).1 ≡ true
    → FirstTakesAll log_buf_size show_double todo
    → (lg : Logger) × (log_filename logwf_filename : List ℕ) × (log_init sys conf n₀
        ≡ some (started lg log_filename logwf_filename sys.to_stderr))
      × (t : Session) × (xs ys : List ℕ) × (acts log_buf_size show_double sys.to_stderr
            (opened lg old_log old_wf)
            todo
          ≡ some t)
      × Written log_buf_size show_double lg 0 0 todo xs ys
      × (given t.log_f ++ contents log_buf_size t.lg.log ≡ old_log ++ xs)
      × (given t.wf_f ++ contents log_buf_size t.lg.wf ≡ old_wf ++ ys)
log_init-Written sys conf n₀ show_double old_log old_wf todo a b takes =
    let n = (log_read_conf conf n₀).1 in
    let lg = logger_of sys n in
    let (t, xs, ys, e, o, w, l, f) =
      acts-Written log_buf_size show_double lg sys.to_stderr (opened lg old_log old_wf) todo
        (opened-IsOpen sys n show_double old_log old_wf) (omega arith) takes in
    (
      lg,
      filename (codes ".log") n,
      filename (codes ".log.wf") n,
      log_init_starts sys conf n₀ a b,
      t,
      xs,
      ys,
      e,
      w,
      l ∙ ap (λ q. q ++ xs) (append-nil old_log),
      f ∙ ap (λ q. q ++ ys) (append-nil old_wf),
    )
