-- ===== src/Log/Thread.antt =====
-- log_thread_loop of src/log.cpp: a round after select has returned. The outside world's answers
-- (stat, fopen, fwrite, and the offsets that are seen) are arguments.
pub mod Laws
use nd.Base.{
  ℕ, Bool, true, false, ◌&&◌, Option, none, some, List, [], ◌∷◌, ◌++◌, length, if◌then◌else◌, ◌>>=◌,
}
use nd.Log.Ring.{Ring, Seen, Output, drain}

-- A log file: the text of the streams that were closed, in order, the text given to the open one,
-- and how much of that has been flushed.
pub record Stream : Type 0 where
  pub closed : List ℕ
  pub text : List ℕ
  pub flushed : ℕ

-- What the world answers for one of the two files in one round.
pub record Answers : Type 0 where
  pub gone : Bool
  pub opens : Bool
  pub seen : Seen
  pub first : ℕ
  pub second : ℕ

-- "check if file is moved or deleted": the name leads nowhere and a new file opens. fclose flushes.
pub reopen : Answers → Stream → Stream
reopen a f =
    if a.gone && a.opens then record { closed = f.closed ++ f.text; text = []; flushed = 0 } else f

-- fflush, where the ring had anything.
pub flush : Bool → Stream → Stream
flush wrote f = if wrote then record f { flushed = length f.text } else f

-- The log file and the .wf file with their rings, and what stderr got.
pub record State : Type 0 where
  pub log : Ring
  pub wf : Ring
  pub log_f : Stream
  pub wf_f : Stream
  pub err : List ℕ

module _ (cap : ℕ) (echo : Bool) where
  -- What a round does to one ring and its file, between the reopening and the flush.
  pub drain_file : Answers → Ring → Stream → Option (Ring × Stream × Output × Bool)
  drain_file a r f =
      drain cap echo a.seen a.first a.second r
      >>= (λ p. some (p.0, record f { text = f.text ++ p.1.file }, p.1, p.2))

  -- Both names are looked at, then both rings drained, then both files flushed.
  pub thread_round : Answers → Answers → State → Option State
  thread_round a b s = do
    (log, log_f, out, wrote) ← drain_file a s.log (reopen a s.log_f)
    (wf, wf_f, out', wrote') ← drain_file b s.wf (reopen b s.wf_f)
    some (record {
      log = log;
      wf = wf;
      log_f = flush wrote log_f;
      wf_f = flush wrote' wf_f;
      err = s.err ++ out.err ++ out'.err;
    })
