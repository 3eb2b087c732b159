-- ===== src/Log/Wake.antt =====
-- How log_printf of src/log.cpp wakes the log thread through log_pipe. A call stores its line, then
-- writes one byte to the pipe, all under the mutex; the thread reads the pipe, which blocks while
-- that is empty, since O_NONBLOCK is set for the other end alone, and then looks at both rings. Any
-- step of the thread can come between the two of a call.
pub mod Laws
pub mod Asleep
pub mod Rest
use nd.Base.{
  ℕ, suc, ◌-◌, ◌<◌, ◌≤◌, ◌≡◌, Bool, true, false, Option, some, List, [], ◌∷◌, ◌++◌, leb, ltb,
  if◌then◌else◌,
}
use Prim.Native.Nat.{min}
use nd.Log.Line.{Call}
use nd.Log.Thread.{Answers}
use nd.Log.Session.{Session, Act, call, round, act}

-- The logger, the bytes in the pipe, whether a call has yet to write its byte, and whether the
-- thread is between `read` and the end of its round.
pub record Waking : Type 0 where
  pub session : Session
  pub pipe : ℕ
  pub writing : Bool
  pub awake : Bool

-- `write(log_pipe[1], "1", 1)`, which fails where the pipe is full.
unfoldable pub write_pipe : ℕ → ℕ → ℕ
write_pipe size pipe = if ltb pipe size then suc pipe else pipe

-- `read(log_pipe[0], tmp, sizeof(tmp))`
unfoldable pub read_pipe : ℕ → ℕ
read_pipe pipe = pipe - min pipe 1024

module _ (cap : ℕ) {D : Type 0} (show_double : D → List ℕ) (echo : Bool) (size : ℕ) where
  -- log_base up to the unlocked mutex in two steps, and log_thread_loop in two. Here fwrite takes
  -- all that a round gives it.
  pub data Step (s : Waking) : List (Act show_double) → Waking → Type 0 where
    stores :
        {u : Session} (c : Call show_double)
        → s.writing ≡ false
        → act cap show_double echo s.session (call c) ≡ some u
        → Step s
            (call c ∷ [])
            (record s { session = u; writing = leb c.level s.session.lg.log_level })
    wakes :
        s.writing ≡ true → Step s [] (record s { pipe = write_pipe size s.pipe; writing = false })
    reads :
        s.awake ≡ false
        → 0 < s.pipe
        → Step s [] (record s { pipe = read_pipe s.pipe; awake = true })
    drains :
        {u : Session} (a b : Answers)
        → s.awake ≡ true
        → cap ≤ a.first
        → cap ≤ a.second
        → cap ≤ b.first
        → cap ≤ b.second
        → act cap show_double echo s.session (round a b) ≡ some u
        → Step s (round a b ∷ []) (record s { session = u; awake = false })

  -- Steps in a row, with the calls and rounds among them.
  pub data Reach (s : Waking) : List (Act show_double) → Waking → Type 0 where
    here : Reach s [] s
    next :
        {todo more : List (Act show_double)} {t u : Waking}
        → Reach s todo t
        → Step t more u
        → Reach s (todo ++ more) u
