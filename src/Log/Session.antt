-- ===== src/Log/Session.antt =====
-- The logger of src/log.cpp and src/log.h in use: calls of log_base and rounds of log_thread_loop, in
-- any order. Since log_printf holds the mutex and a round reads the offsets without it, a round is
-- taken here to find the producers at rest.
pub mod Step
pub mod Laws
pub mod Spec
pub mod Room
pub mod Start
use nd.Base.{ℕ, Bool, Option, some, List, [], ◌∷◌, ◌>>=◌}
use nd.Log.Ring.{Ring, quiet}
use nd.Log.Line.{Call}
use nd.Log.Printf.{Logger, log_base}
use nd.Log.Thread.{Stream, Answers, State, thread_round}

pub record Session : Type 0 where
  pub lg : Logger
  pub log_f : Stream
  pub wf_f : Stream
  pub err : List ℕ

-- A round comes with what the world answers for the log and for the .wf file.
pub data Act {D : Type 0} (show_double : D → List ℕ) : Type 0 where
  call : Call show_double → Act show_double
  round : Answers → Answers → Act show_double

abbrev pub at_rest : Ring → Answers → Answers
at_rest r a = record a { seen = quiet r }

abbrev pub thread_state : Session → State
thread_state s = record {
  log = s.lg.log;
  wf = s.lg.wf;
  log_f = s.log_f;
  wf_f = s.wf_f;
  err = s.err;
}

abbrev pub after_round : Session → State → Session
after_round s t = record {
  lg = record (s.lg) { log = t.log; wf = t.wf };
  log_f = t.log_f;
  wf_f = t.wf_f;
  err = t.err;
}

module _ (cap : ℕ) {D : Type 0} (show_double : D → List ℕ) (echo : Bool) where
  unfoldable pub act : Session → Act show_double → Option Session
  act s (call c) = log_base cap show_double s.lg c >>= (λ lg. some (record s { lg = lg }))
  act s (round a b) =
      thread_round cap echo (at_rest s.lg.log a) (at_rest s.lg.wf b) (thread_state s)
      >>= (λ t. some (after_round s t))

  unfoldable pub acts : Session → List (Act show_double) → Option Session
  acts s [] = some s
  acts s (a ∷ more) = act s a >>= (λ t. acts t more)
