-- ===== src/Tests/Wakes.antt =====
-- Examples on the log thread and its pipe.
use nd.Base.{ℕ, ◌≡◌, ◌++◌, refl, true, false, some, List, [], ◌∷◌, codes, arith}
use nd.Log.Printf.{Logger}
use nd.Log.Ring.{log_buf_size}
use nd.Log.Setup.{logger_of, log_read_conf, unset}
use nd.Log.Session.{Session, call, round, act}
use nd.Log.Session.Spec.{Written}
use nd.Log.Session.Start.{opened, opened-IsOpen}
use nd.Log.Session.Step.{Done, call-Done, round-Done}
use nd.Log.Wake.{Waking, stores, wakes, reads, drains, Reach, here, next, read_pipe, write_pipe}
use nd.Log.Wake.Asleep.{begun, IsOnDisk, asleep-IsOnDisk}
use nd.Log.Wake.Rest.{Rests, Reach-Rests}
use nd.Tests.Logger.{a_call, show_whole}
use nd.Tests.Setups.{well, whole_conf, replaced}

abbrev a_logger : Logger
a_logger = logger_of well (log_read_conf whole_conf unset).1

abbrev a_start : Session
a_start = opened a_logger (codes "old") []

-- What the call of a warning leaves.
abbrev called :
    (u : Session) × (act log_buf_size show_whole false a_start (call a_call) ≡ some u)
    × Done log_buf_size show_whole a_logger a_start (call a_call) u
called =
    call-Done log_buf_size show_whole a_logger false a_start
      (opened-IsOpen well (log_read_conf whole_conf unset).1 show_whole (codes "old") []) a_call

abbrev half_done : Waking
half_done = record { session = called.0; pipe = 0; writing = true; awake = false }

half_done-Reach :
    Reach log_buf_size show_whole false 4096 (begun a_start) (call a_call ∷ []) half_done
unfolding log_read_conf
half_done-Reach = next here (stores a_call refl called.1)

Reach-Rests_example : Rests log_buf_size show_whole false 4096 half_done
Reach-Rests_example =
    Reach-Rests well whole_conf unset show_whole 4096 (codes "old") [] (call a_call ∷ []) half_done
      (omega arith) half_done-Reach

-- And what the round behind it leaves.
abbrev rounded :
    (u : Session) × (act log_buf_size show_whole false called.0 (round replaced replaced) ≡ some u)
    × Done log_buf_size show_whole a_logger called.0 (round replaced replaced) u
rounded =
    round-Done log_buf_size show_whole a_logger false called.0 called.2.is_open replaced replaced
      (omega arith) (omega arith) (omega arith)

abbrev at_rest : Waking
at_rest = record {
  session = rounded.0;
  pipe = read_pipe (write_pipe 4096 0);
  writing = false;
  awake = false;
}

at_rest-Reach :
    Reach log_buf_size show_whole false 4096
      (begun a_start)
      (call a_call ∷ round replaced replaced ∷ [])
      at_rest
unfolding log_read_conf write_pipe
at_rest-Reach =
    next
      (next (next (next here (stores a_call refl called.1)) (wakes refl))
        (reads refl (omega arith)))
      (drains replaced replaced refl (omega arith) (omega arith) (omega arith) (omega arith)
        rounded.1)

asleep-IsOnDisk_example :
    (xs ys : List ℕ) × Written log_buf_size show_whole a_logger 0 0
      (call a_call ∷ round replaced replaced ∷ [])
      xs
      ys
    × IsOnDisk (codes "old" ++ xs) rounded.0 ([] ++ ys)
unfolding read_pipe write_pipe
asleep-IsOnDisk_example =
    asleep-IsOnDisk well whole_conf unset show_whole 4096 (codes "old") []
      (call a_call ∷ round replaced replaced ∷ []) at_rest refl refl (omega arith) at_rest-Reach
      refl refl refl
