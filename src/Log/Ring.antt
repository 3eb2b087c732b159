-- ===== src/Log/Ring.antt =====
-- The byte rings of src/log.cpp (log_buf and logwf_buf with their offsets): what log_printf does to
-- one with a finished line, and what one round of log_thread_loop does to drain it into a file. The
-- capacity stands for LOG_BUF_SIZE; the code repeats the same statements for both rings.
pub mod Wrap
pub mod Store
pub mod Advance
pub mod Drain
pub mod Faults
pub mod Ended
pub mod Fifo
use nd.Base.{
  ℕ, suc, ◌+◌, ◌-◌, ◌*◌, ◌%◌, ◌^◌, Bool, true, false, ◌&&◌, Option, none, some, List, [], ◌∷◌, ◌++◌,
  length, get_or, set, take, tabulate, newline, ltb, leb, ◌==◌, if◌then◌else◌, guard, ◌>>=◌, ◌>>◌,
}

abbrev pub log_buf_size : ℕ
log_buf_size = 64 * 1024 * 1024

-- One of log_buf and logwf_buf, with its write and read offset.
pub record Ring : Type 0 where
  pub buf : ℕ → ℕ
  pub write : ℕ
  pub read : ℕ

-- The values of the write offset that one round of the log thread reads, in order: at the test for
-- emptiness, at the test for wrap-around, at the size for the file and at the size for stderr.
pub record Seen : Type 0 where
  pub test : ℕ
  pub branch : ℕ
  pub size : ℕ
  pub echo : ℕ

-- What the round wrote to the log file and to stderr.
pub record Output : Type 0 where
  pub file : List ℕ
  pub err : List ℕ

-- The buffer after `n` bytes of the line from `source` on have gone to offset `target`.
pub copied : (ℕ → ℕ) → ℕ → List ℕ → ℕ → ℕ → ℕ → ℕ
copied buf target line source n k =
    if leb target k && ltb k (target + n) then get_or line (source + (k - target)) 0 else buf k

-- What is kept of a line when one byte less than `left` is to be had: all of it, or as much as
-- fits with a newline for its last byte.
unfoldable pub fit : ℕ → List ℕ → List ℕ
fit left line =
    if ltb (left - 1) (length line)
    then if ltb 0 (left - 1) then set (take (left - 1) line) (left - 1 - 1) newline else []
    else line

-- `write - read` as the size_t argument of fwrite.
abbrev pub size_from : ℕ → ℕ → ℕ
size_from write read = (write + 2 ^ 64 - read) % 2 ^ 64

-- fwrite takes at most `accepted` bytes and returns how many; stderr, if it is on, gets all.
abbrev pub fwrite : ℕ → List ℕ → List ℕ
fwrite accepted bytes = take accepted bytes

module _ (cap : ℕ) where
  -- memcpy of `n` bytes of the line at `source` to offset `target`. It faults outside either.
  pub memcpy : (ℕ → ℕ) → ℕ → List ℕ → ℕ → ℕ → Option (ℕ → ℕ)
  memcpy buf target line source n =
      guard (leb (target + n) cap && leb (source + n) (length line))
      >> some (copied buf target line source n)

  -- The bytes that are written and not yet read.
  abbrev pub held : Ring → ℕ
  held r = (r.write + cap - r.read) % cap

  pub buf_left_size : Ring → ℕ
  buf_left_size r = cap - held r

  -- The one or the two copies.
  pub place : Ring → List ℕ → Option (ℕ → ℕ)
  unfolding memcpy
  place r line =
      if ltb (r.write + length line) cap then memcpy r.buf r.write line 0 (length line) else do
        buf ← memcpy r.buf r.write line 0 (cap - r.write)
        memcpy buf 0 line (cap - r.write) (length line + r.write - cap)

  pub store : Ring → List ℕ → Option Ring
  store r line = do
    buf ← place r line
    some (record r { buf = buf; write = (r.write + length line) % cap })

  -- The part of log_printf that hands the finished line to a ring.
  pub put_line : Ring → List ℕ → Option Ring
  put_line r line = store r (fit (buf_left_size r) line)

  -- The bytes of buffer `buf` from `off` on that fwrite is asked for. It faults past the end.
  pub bytes_from : (ℕ → ℕ) → ℕ → ℕ → Option (List ℕ)
  bytes_from buf off n = guard (leb (off + n) cap) >> some (tabulate n (λ i. buf (off + i)))

  -- One fwrite to the file and its echo: `n` and `m` are the two sizes.
  pub flush_span : Bool → (ℕ → ℕ) → ℕ → ℕ → ℕ → ℕ → Option (ℕ × Output)
  flush_span echo buf read n m accepted = do
    out ← bytes_from buf read n
    err ← (if echo then bytes_from buf read m else some [])
    some (
      (read + length (fwrite accepted out)) % cap,
      record { file = fwrite accepted out; err = err },
    )

  -- The bytes lie in one piece.
  pub drain_straight : Bool → Seen → ℕ → Ring → Option (Ring × Output × Bool)
  drain_straight echo seen first r = do
    (read, out) ←
        flush_span echo r.buf r.read (size_from seen.size r.read) (size_from seen.echo r.read) first
    some (record r { read = read }, out, true)

  -- The bytes go round the end: first up to the end, then from where the first call has got to.
  pub drain_wrapped : Bool → Seen → ℕ → ℕ → Ring → Option (Ring × Output × Bool)
  drain_wrapped echo seen first second r = do
    (read, out) ← flush_span echo r.buf r.read (cap - r.read) (cap - r.read) first
    (read', out') ←
        flush_span echo r.buf read (size_from seen.size read) (size_from seen.echo read) second
    some (
      record r { read = read' },
      record { file = out.file ++ out'.file; err = out.err ++ out'.err },
      true,
    )

  -- One round of log_thread_loop on a ring. `first` and `second` bound what the two calls of fwrite
  -- take. The Boolean says whether anything was there to write.
  pub drain : Bool → Seen → ℕ → ℕ → Ring → Option (Ring × Output × Bool)
  drain echo seen first second r =
      if seen.test == r.read
      then some (r, record { file = []; err = [] }, false)
      else if ltb r.read seen.branch
      then drain_straight echo seen first r
      else drain_wrapped echo seen first second r

  -- What is in the ring: the bytes from the read offset up to the write offset, round the end.
  abbrev pub byte_at : Ring → ℕ → ℕ
  byte_at r i = r.buf ((r.read + i) % cap)

  abbrev pub contents : Ring → List ℕ
  contents r = tabulate (held r) (byte_at r)

-- No producer moves the write offset during the round.
abbrev pub quiet : Ring → Seen
quiet r = record { test = r.write; branch = r.write; size = r.write; echo = r.write }
