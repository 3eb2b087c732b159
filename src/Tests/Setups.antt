-- ===== src/Tests/Setups.antt =====
-- Examples on the start of the logger.
use nd.Base.{
  ◌≡◌, ◌^◌, ◌++◌, refl, inl, inr, true, false, some, none, ℕ, List, [], ◌∷◌, codes, pos, arith,
}
use nd.Log.Ring.{log_buf_size}
use nd.Log.Printf.{Logger, log_base}
use nd.Log.Setup.{Conf, unset, System, started, log_init}
use nd.Log.Setup.Laws.{log_init_silent}
use nd.Log.Ring.{contents}
use nd.Log.Thread.{Answers}
use nd.Log.Thread.Laws.{given}
use nd.Log.Session.{Session, Act, call, round, acts}
use nd.Log.Session.Spec.{Written}
use nd.Log.Session.Start.{opened, log_init-Written}
use nd.Tests.Logger.{a_call, show_whole}

abbrev pub a_log_conf : Conf
a_log_conf = record { name = some (codes "nd"); dir = none; level = some (pos 8) }

-- All goes well.
abbrev pub well : System
well = record {
  pid = 77;
  to_stderr = false;
  opens = λ path. true;
  allocates = true;
  pipes = true;
  unblocks = true;
  starts_thread = true;
}

log_init_silent_example :
    (lg : Logger) × (log_filename logwf_filename : List ℕ) × (log_init well a_log_conf unset
      ≡ some (started lg log_filename logwf_filename false))
    × (log_base log_buf_size show_whole lg a_call ≡ some lg)
log_init_silent_example =
    log_init_silent well a_log_conf show_whole a_call (inr (inl refl)) refl refl (omega arith)

abbrev pub whole_conf : Conf
whole_conf = record { name = some (codes "nd"); dir = some (codes "./log"); level = some (pos 4) }

-- A round in which the file was replaced and fwrite takes all.
abbrev pub replaced : Answers
replaced = record {
  gone = true;
  opens = true;
  seen = record { test = 0; branch = 0; size = 0; echo = 0 };
  first = 2 ^ 40;
  second = 2 ^ 40;
}

-- A warning, a notice, a round, and a message of debugging.
abbrev messages : List (Act show_whole)
messages =
    call a_call
    ∷ call (record a_call { level = 4; levelstr = codes "NOTICE" })
    ∷ round replaced replaced
    ∷ call (record a_call { level = 16; levelstr = codes "DEBUG" })
    ∷ []

log_init-Written_example :
    (lg : Logger) × (log_filename logwf_filename : List ℕ) × (log_init well whole_conf unset
      ≡ some (started lg log_filename logwf_filename false))
    × (t : Session) × (xs ys : List ℕ) × (acts log_buf_size show_whole false
          (opened lg (codes "old") [])
          messages
        ≡ some t)
    × Written log_buf_size show_whole lg 0 0 messages xs ys
    × (given t.log_f ++ contents log_buf_size t.lg.log ≡ codes "old" ++ xs)
    × (given t.wf_f ++ contents log_buf_size t.lg.wf ≡ [] ++ ys)
log_init-Written_example =
    log_init-Written well whole_conf unset show_whole (codes "old") [] messages refl refl
      (omega arith, (omega arith, tt))
