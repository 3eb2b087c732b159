-- ===== src/Log/Setup.antt =====
-- log_read_conf and log_init of src/log.cpp: how the variables of the logger come to be. What the
-- configuration holds and what the operating system answers are given.
pub mod Laws
use nd.Base.{
  ℕ, ◌+◌, ◌-◌, Bool, true, false, not, ◌&&◌, Option, none, some, List, [], ◌∷◌, ◌++◌, take,
  if◌then◌else◌, guard, ◌>>◌, codes, percent_s, ℤ, pos, negsuc,
}
use nd.Log.Ring.{Ring}
use nd.Log.Printf.{Logger}

-- conf[0]["Log"]: `none` throws.
pub record Conf : Type 0 where
  pub name : Option (List ℕ)
  pub dir : Option (List ℕ)
  pub level : Option ℤ

-- `name`, `dir` and `_log_level`.
pub record Names : Type 0 where
  pub name : Option (List ℕ)
  pub dir : Option (List ℕ)
  pub level : ℤ

-- The variables before any call.
abbrev pub unset : Names
unset = record { name = none; dir = none; level = pos 0 }

unfoldable pub read_level : Option ℤ → Names → ℤ × Names
read_level none n = (negsuc 0, n)
read_level (some level) n = (pos 0, record n { level = level })

unfoldable pub read_dir : Conf → Option (List ℕ) → Names → ℤ × Names
unfolding read_level
read_dir conf none n = (negsuc 0, n)
read_dir conf (some dir) n = read_level conf.level (record n { dir = some dir })

unfoldable pub read_name : Conf → Option (List ℕ) → Names → ℤ × Names
unfolding read_dir
read_name conf none n = (negsuc 0, n)
read_name conf (some name) n = read_dir conf conf.dir (record n { name = some name })

-- The message of the handler is dropped, since the level is 0 then. The log buffers are null.
unfoldable pub log_read_conf : Conf → Names → ℤ × Names
unfolding read_name
log_read_conf conf n = read_name conf conf.name n

-- sizeof(log_filename)
abbrev pub filename_size : ℕ
filename_size = 1024

-- snprintf to log_filename and to logwf_filename, with the ending of each.
unfoldable pub filename : List ℕ → Names → List ℕ
filename ending n =
    take (filename_size - 1) (percent_s n.dir ++ codes "/" ++ percent_s n.name ++ ending)

-- What the operating system answers.
pub record System : Type 0 where
  pub pid : ℕ
  pub to_stderr : Bool
  pub opens : List ℕ → Bool
  pub allocates : Bool
  pub pipes : Bool
  pub unblocks : Bool
  pub starts_thread : Bool

-- exit(1), or a logger with its files and its thread.
pub data Init : Type 0 where
  exited : Init
  started : Logger → List ℕ → List ℕ → Bool → Init

-- A level below 0 lets as much through as 0, since those of the macros are above.
abbrev pub level_of : ℤ → ℕ
level_of (pos n) = n
level_of (negsuc n) = 0

-- malloc and memset.
abbrev pub empty_ring : Ring
empty_ring = record { buf = λ i. 0; write = 0; read = 0 }

abbrev pub logger_of : System → Names → Logger
logger_of sys n = record {
  name = percent_s n.name;
  pid = sys.pid;
  log_level = level_of n.level;
  log = empty_ring;
  wf = empty_ring;
  woken = 0;
}

-- The result of log_read_conf is not looked at. memset faults where malloc has failed.
unfoldable pub log_init : System → Conf → Names → Option Init
unfolding log_read_conf filename
log_init sys conf n₀ =
    let n = (log_read_conf conf n₀).1 in
    let log_filename = filename (codes ".log") n in
    let logwf_filename = filename (codes ".log.wf") n in
    guard sys.allocates
    >> (if not (sys.opens log_filename && sys.opens logwf_filename)
        then some exited
        else if not sys.pipes
        then some exited
        else if not sys.unblocks
        then some exited
        else if not sys.starts_thread
        then some exited
        else some (started (logger_of sys n) log_filename logwf_filename sys.to_stderr))
