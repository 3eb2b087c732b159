-- ===== src/Log/Ring/Faults.antt =====
-- Two ways in which a round of log_thread_loop reads outside the ring (src/log.cpp).
use nd.Base.{
  ℕ, ◌+◌, ◌-◌, ◌%◌, ◌^◌, ◌≤◌, ◌<◌, ◌≡◌, ◌≢◌, ap, ◌∙◌, Bool, true, false, none, some, List, [],
  if◌then◌else◌, tabulate, length, take, arith, length-take, length-tabulate,
}
use nd.Log.Ring.{
  Ring, Seen, bytes_from, size_from, flush_span, drain_straight, drain_wrapped, drain, quiet,
}
use nd.Log.Ring.Wrap.{IsValid, mod_below}

-- A size that went below zero asks for more than any buffer has.
size_from-huge :
    (write read cap : ℕ)
    → write < read
    → read ≤ cap
    → cap < 2 ^ 64
    → cap < read + size_from write read
size_from-huge write read cap h k small = omega arith

bytes_from-none :
    (cap : ℕ) (buf : ℕ → ℕ) (off n : ℕ) → cap < off + n → bytes_from cap buf off n ≡ none
unfolding bytes_from
bytes_from-none cap buf off n h = ground arith

-- Where a producer comes round the end of the buffer between the test for wrap-around and the size
-- of the write, the round reads far outside the buffer.
pub drain_race :
    {cap : ℕ} {r : Ring} (echo : Bool) (seen : Seen) (first second : ℕ)
    → IsValid cap r
    → cap < 2 ^ 64
    → seen.test ≢ r.read
    → r.read < seen.branch
    → seen.size < r.read
    → drain cap echo seen first second r ≡ none
unfolding drain drain_straight flush_span
drain_race {cap} {r} echo seen first second v small ne ahead behind = ground (
  arith,
  v.read_in,
  bytes_from-none cap r.buf r.read (size_from seen.size r.read)
      (size_from-huge seen.size r.read cap behind (omega (arith, v.read_in)) small),
)

module _ {cap : ℕ} {r : Ring} (v : IsValid cap r) (first : ℕ) (short : first < cap - r.read) where
  abbrev to_end : List ℕ
  to_end = tabulate (cap - r.read) (λ i. r.buf (r.read + i))

  bytes_from-to_end : bytes_from cap r.buf r.read (cap - r.read) ≡ some to_end
  unfolding bytes_from
  bytes_from-to_end = ground (arith, v.read_in)

  next_read : (r.read + length (take first to_end)) % cap ≡ r.read + first
  next_read = ap (λ n. (r.read + n) % cap) taken ∙ mod_below (r.read + first) cap (omega arith)
    where
      taken : length (take first to_end) ≡ first
      taken = omega (
        arith,
        length-take {0} first to_end,
        length-tabulate {0} (cap - r.read) (λ i. r.buf (r.read + i)),
      )

  -- The first call stops before the end of the buffer.
  flush_span_short :
      (echo : Bool)
      → flush_span cap echo r.buf r.read (cap - r.read) (cap - r.read) first
        ≡ some
            (r.read + first, record { file = take first to_end; err = if echo then to_end else [] })
  unfolding flush_span
  flush_span_short true = rw (bytes_from-to_end, next_read)
  flush_span_short false = rw (bytes_from-to_end, next_read)

  flush_span-none :
      (echo : Bool) (second : ℕ)
      → cap < 2 ^ 64
      → r.write < r.read
      → flush_span cap echo r.buf
          (r.read + first)
          (size_from r.write (r.read + first))
          (size_from r.write (r.read + first))
          second
        ≡ none
  unfolding flush_span
  flush_span-none echo second small w = rw (
      bytes_from-none cap r.buf (r.read + first) (size_from r.write (r.read + first))
        (size_from-huge r.write (r.read + first) cap (omega arith) (omega arith) small))

  -- Where the bytes go round the end and the first fwrite takes fewer than it is given, the size
  -- of the second is below zero, and the round reads far outside the buffer.
  pub drain_short_write :
      (echo : Bool) (second : ℕ)
      → cap < 2 ^ 64
      → r.write < r.read
      → drain cap echo (quiet r) first second r ≡ none
  unfolding drain drain_wrapped
  drain_short_write echo second small w =
      ground (arith, flush_span_short echo, flush_span-none echo second small w)
