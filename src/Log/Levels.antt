-- ===== src/Log/Levels.antt =====
-- The levels of src/log.h and the macros on them: rlog_debug to rlog_fatal, log_debug to log_fatal,
-- and log_has_debug to log_has_fatal.
use nd.Base.{ℕ, Bool, Option, some, List, [], leb, codes}
use nd.Log.Line.{Entry, Call}
use nd.Log.Printf.{Logger, log_base}

pub data Level : Type 0 where
  debug : Level
  trace : Level
  notice : Level
  warning : Level
  fatal : Level

-- PROXY_LOG_DEBUG to PROXY_LOG_FATAL.
abbrev pub proxy_log : Level → ℕ
proxy_log debug = 16
proxy_log trace = 8
proxy_log notice = 4
proxy_log warning = 2
proxy_log fatal = 1

-- `#lvl`
abbrev pub level_name : Level → List ℕ
level_name debug = codes "DEBUG"
level_name trace = codes "TRACE"
level_name notice = codes "NOTICE"
level_name warning = codes "WARNING"
level_name fatal = codes "FATAL"

-- What a use of a macro comes with: `__FILE__ ":" LINESTR`, the text of the time, and the message.
pub record Said : Type 0 where
  pub fileline : List ℕ
  pub timebuf : List ℕ
  pub message : Option (List ℕ)

-- _log_level_check_base.
abbrev pub log_has : Level → ℕ → Bool
log_has l log_level = leb (proxy_log l) log_level

module _ {D : Type 0} (show_double : D → List ℕ) where
  -- The arguments that log_base hands to log_printf.
  abbrev pub rlog_call : Level → List (List (Entry D)) → Said → Call show_double
  rlog_call l data_nodes said = record {
    level = proxy_log l;
    fileline = some said.fileline;
    levelstr = level_name l;
    timebuf = said.timebuf;
    nodes = data_nodes;
    message = said.message;
  }

  -- With NULL for the data.
  abbrev pub log_call : Level → Said → Call show_double
  log_call l = rlog_call l []

module _ (cap : ℕ) {D : Type 0} (show_double : D → List ℕ) where
  unfoldable pub rlog : Level → List (List (Entry D)) → Said → Logger → Option Logger
  rlog l data_nodes said lg = log_base cap show_double lg (rlog_call show_double l data_nodes said)
