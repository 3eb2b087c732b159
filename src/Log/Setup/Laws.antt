-- ===== src/Log/Setup/Laws.antt =====
-- What log_init leaves.
use nd.Base.{
  ℕ, ◌<◌, ◌≡◌, refl, ap, ◌⊎◌, inl, inr, Bool, true, false, ◌&&◌, Bool-cases, Option, none, some,
  List, [], codes, percent_s, ℤ, pos, arith,
}
use nd.Log.Ring.{contents, log_buf_size}
use nd.Log.Ring.Wrap.{IsValid}
use nd.Log.Line.{Call}
use nd.Log.Printf.{Logger, log_base}
use nd.Log.Printf.Laws.{IsReady, log_base_above}
use nd.Log.Setup.{
  Conf, Names, unset, read_name, log_read_conf, filename, System, Init, exited, started, level_of,
  empty_ring, logger_of, log_init,
}

-- Every answer that log_init looks at is good.
abbrev pub all_good : System → Names → Bool
all_good sys n =
    sys.opens (filename (codes ".log") n)
    && sys.opens (filename (codes ".log.wf") n)
    && sys.pipes
    && sys.unblocks
    && sys.starts_thread

-- A logger that has nothing to write.
pub record IsNew (lg : Logger) (n : Names) : Type 0 where
  pub ready : IsReady log_buf_size lg
  pub log_empty : contents log_buf_size lg.log ≡ []
  pub wf_empty : contents log_buf_size lg.wf ≡ []
  pub named : lg.name ≡ percent_s n.name
  pub level : lg.log_level ≡ level_of n.level

empty_ring-IsValid : IsValid log_buf_size empty_ring
empty_ring-IsValid = record { write_in = omega arith; read_in = omega arith }

pub logger_of-IsNew : (sys : System) (n : Names) → IsNew (logger_of sys n) n
logger_of-IsNew sys n = record {
  ready = record { log = empty_ring-IsValid; wf = empty_ring-IsValid };
  log_empty = refl;
  wf_empty = refl;
  named = refl;
  level = refl;
}

-- What log_init comes to.
pub data Initialised (sys : System) (n : Names) : Option Init → Type 0 where
  faults : sys.allocates ≡ false → Initialised sys n none
  ends : sys.allocates ≡ true → all_good sys n ≡ false → Initialised sys n (some exited)
  runs :
      (lg : Logger)
      → sys.allocates ≡ true
      → all_good sys n ≡ true
      → IsNew lg n
      → Initialised sys n (
          some
            (started lg (filename (codes ".log") n) (filename (codes ".log.wf") n) sys.to_stderr))

pub log_init_starts :
    (sys : System) (conf : Conf) (n₀ : Names)
    → sys.allocates ≡ true
    → all_good sys (log_read_conf conf n₀).1 ≡ true
    → let n = (log_read_conf conf n₀).1 in
      log_init sys conf n₀
      ≡ some (
          started
            (logger_of sys n)
            (filename (codes ".log") n)
            (filename (codes ".log.wf") n)
            sys.to_stderr)
unfolding log_init
log_init_starts sys conf n₀ a b = ground (arith, a, b)

-- Where malloc fails, memset faults. Where malloc gives both buffers, log_init ends the process if a
-- file cannot be opened or the pipe or the thread cannot be set up, and otherwise starts a logger
-- whose rings are empty and ready; it does so too where the configuration could not be read.
pub log_init-Initialised :
    (sys : System) (conf : Conf) (n₀ : Names)
    → Initialised sys (log_read_conf conf n₀).1 (log_init sys conf n₀)
unfolding log_init
log_init-Initialised sys conf n₀ = elim (Bool-cases sys.allocates) [
  | inr a ↦ let e : log_init sys conf n₀ ≡ none = ground (arith, a) in rw e (faults a)
  | inl a ↦ elim (Bool-cases (all_good sys (log_read_conf conf n₀).1)) [
    | inl b ↦ rw (log_init_starts sys conf n₀ a b) (
        runs (logger_of sys (log_read_conf conf n₀).1) a b
          (logger_of-IsNew sys (log_read_conf conf n₀).1))
    | inr b ↦ let e : log_init sys conf n₀ ≡ some exited = ground (arith, a, b) in rw e (ends a b)
  ]
]

abbrev pub IsMissing : Conf → Type 0
IsMissing conf = (conf.name ≡ none) ⊎ ((conf.dir ≡ none) ⊎ (conf.level ≡ none))

log_read_conf_level : (conf : Conf) → IsMissing conf → (log_read_conf conf unset).1.level ≡ pos 0
unfolding log_read_conf
log_read_conf_level conf h = go conf.name conf.dir conf.level h
  where
    go :
        (name dir : Option (List ℕ)) (level : Option ℤ)
        → (name ≡ none) ⊎ ((dir ≡ none) ⊎ (level ≡ none))
        → (read_name (record { name = name; dir = dir; level = level }) name unset).1.level ≡ pos 0
    go none dir level h = refl
    go (some name) none level h = refl
    go (some name) (some dir) none h = refl
    go (some name) (some dir) (some level) (inl e) = cc
    go (some name) (some dir) (some level) (inr (inl e)) = cc
    go (some name) (some dir) (some level) (inr (inr e)) = cc

-- Where the configuration lacks one of its three values, and all else is well, log_init starts a
-- logger that drops every message of a level above 0, so FATAL ones too.
pub log_init_silent :
    (sys : System) (conf : Conf) {D : Type 0} (show_double : D → List ℕ) (call : Call show_double)
    → IsMissing conf
    → sys.allocates ≡ true
    → all_good sys (log_read_conf conf unset).1 ≡ true
    → 0 < call.level
    → (lg : Logger) × (log_filename logwf_filename : List ℕ) × (log_init sys conf unset
        ≡ some (started lg log_filename logwf_filename sys.to_stderr))
      × (log_base log_buf_size show_double lg call ≡ some lg)
log_init_silent sys conf show_double call h a b p =
    let n = (log_read_conf conf unset).1 in
    (
      logger_of sys n,
      filename (codes ".log") n,
      filename (codes ".log.wf") n,
      log_init_starts sys conf unset a b,
      log_base_above log_buf_size show_double (logger_of sys n) call
          (omega (arith, ap level_of (log_read_conf_level conf h))),
    )
