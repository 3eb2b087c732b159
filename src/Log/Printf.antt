-- ===== src/Log/Printf.antt =====
-- log_printf of src/log.cpp and the macro log_base of src/log.h: the line is built, goes to one of
-- the two rings, and the log thread is woken. The mutex makes a call one step.
pub mod Laws
use nd.Base.{ℕ, ◌+◌, Option, none, some, List, leb, if◌then◌else◌, ◌>>=◌}
use nd.Log.Ring.{Ring, put_line, log_buf_size}
use nd.Log.Line.{Call, format, temp_buf_size}

-- The static variables that log_printf uses, and how many bytes went to the pipe.
pub record Logger : Type 0 where
  pub name : List ℕ
  pub pid : ℕ
  pub log_level : ℕ
  pub log : Ring
  pub wf : Ring
  pub woken : ℕ

abbrev pub log_warning : ℕ
log_warning = 2

module _ (cap : ℕ) {D : Type 0} (show_double : D → List ℕ) where
  pub log_printf : Logger → Call show_double → Option Logger
  log_printf lg call =
      let text = format show_double temp_buf_size lg.name lg.pid call in
      if leb call.level log_warning
      then put_line cap lg.wf text >>= (λ r. some (record lg { wf = r; woken = lg.woken + 1 }))
      else put_line cap lg.log text >>= (λ r. some (record lg { log = r; woken = lg.woken + 1 }))

  -- The test of the macro. A negative level in the configuration logs as little as 0 does.
  pub log_base : Logger → Call show_double → Option Logger
  unfolding log_printf
  log_base lg call = if leb call.level lg.log_level then log_printf lg call else some lg
