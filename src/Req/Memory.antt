-- ===== src/Req/Memory.antt =====
-- req_new, req_free and http_handler of src/req.cpp with the memory they take: the req_t, its timer
-- with the event of libevent, and the response buffer. Blocks, events and buffers are known by
-- numbers that count up. What malloc and evbuffer_new answer is given; event_base_new is taken to
-- give a base. What the loop does to an event, which Req/Handler.antt says, is not followed here.
pub mod Laws
pub mod Leaks
pub mod Branches
use nd.Base.{
  ℕ, suc, Bool, Option, none, some, List, [], ◌∷◌, ◌==◌, if◌then◌else◌, ◌>>=◌, ℤ, negsuc, false,
  not,
}
use nd.HttpClient.World.{Parts}
use nd.Event.Timer.{Timers, put, event_timer_new}
use nd.Req.Handler.{Reply, ReqT, Ctx}
use nd.Req.Timer.{timeout_usec}
use nd.Req.Serving.{Arrival}
use nd.Req.Dispatch
use nd.Req.Dispatch.{Incoming, command_no, distribute}

-- The pointers of a req_t to what req_new makes for it.
pub record Pointers : Type 0 where
  pub timeout_event : ℕ
  pub writebuf : ℕ

-- `next` is the next number.
pub record Memory : Type 0 where
  pub next : ℕ
  pub reqs : ℕ → Option Pointers
  pub buffers : List ℕ
  pub timers : Timers

-- A call goes on, faults, or ends the process.
pub data Run (A : Type 0) : Type 0 where
  goes_on : A → Run A
  faults : Run A
  exits : ℤ → Run A

unfoldable pub and_then : {A B : Type 0} → Run A → (A → Run B) → Run B
and_then (goes_on x) f = f x
and_then faults f = faults
and_then (exits status) f = exits status

unfoldable pub or_faults : {A : Type 0} → Option A → Run A
or_faults none = faults
or_faults (some x) = goes_on x

-- What malloc answers for the req_t and for the event_timer_t, and evbuffer_new for the buffer.
pub record Gives : Type 0 where
  pub req : Bool
  pub timer : Bool
  pub buffer : Bool

-- The callback timeout_handler.
abbrev pub timeout_cb : ℕ
timeout_cb = 1

abbrev pub step : Memory → Memory
step m = record m { next = suc m.next }

-- `r->timeout_event = event_timer_new(timeout_handler, timeout_s * 1000000, false, r, r->req_base)`
unfoldable pub new_timer : ℕ → Bool → ℕ → Memory → Option (ℕ × Memory)
unfolding event_timer_new timeout_usec
new_timer timeout_s gives r m = timeout_usec timeout_s >>= λ usec.
    event_timer_new (if gives then m.next else 0) (suc m.next) timeout_cb usec false r m.timers
    >>= λ p. some (p.0, record m { next = suc (suc m.next); timers = p.1 })

-- The response buffer, or the end of the process, and the pointers set.
unfoldable pub new_buffer : Bool → ℕ → ℕ × Memory → Run Memory
new_buffer gives r (evt, m) =
    if gives
    then goes_on (record m {
      next = suc m.next;
      buffers = m.next ∷ m.buffers;
      reqs = put m.reqs r (some (record { timeout_event = evt; writebuf = m.next }));
    })
    else exits (negsuc 0)

-- The address of the request and the memory then.
unfoldable pub take_blocks : ℕ → Gives → Memory → Run (ℕ × Memory)
unfolding new_timer new_buffer and_then or_faults
take_blocks timeout_s a m =
    if not a.req
    then faults
    else and_then (or_faults (new_timer timeout_s a.timer m.next (step m)))
        λ p. and_then (new_buffer a.buffer m.next p) λ m'. goes_on (m.next, m')

unfoldable pub req_new : ℕ → Gives → Bool → List ℕ → Ctx → Memory → Run (ℕ × ReqT × Ctx × Memory)
unfolding take_blocks and_then
req_new timeout_s a junk uri c m =
    and_then (take_blocks timeout_s a m)
      λ p. goes_on (p.0, (Dispatch.req_new junk uri c).0, (Dispatch.req_new junk uri c).1, p.1)

-- evbuffer_free faults on a buffer that is not there.
unfoldable pub evbuffer_free : ℕ → List ℕ → Option (List ℕ)
evbuffer_free b [] = none
evbuffer_free b (c ∷ cs) =
    let rest = evbuffer_free b cs in if b == c then some cs else rest >>= (λ left. some (c ∷ left))

unfoldable pub req_free : ℕ → Memory → Option Memory
unfolding evbuffer_free
req_free r m = m.reqs r >>= λ held.
    evbuffer_free held.writebuf m.buffers >>= λ left. some (record m { buffers = left })

module _ (parse : List ℕ → Option Parts) (timeout_s : ℕ) where
  unfoldable pub http_handler : Gives → Bool → Incoming → Ctx → Memory → Run (ReqT × Ctx × Memory)
  unfolding and_then or_faults req_new req_free
  http_handler a junk inc c m =
      and_then (req_new timeout_s a junk inc.uri c m) λ (r, fields, c', m').
        and_then
          (or_faults
            (distribute parse inc (record fields { command_no = command_no inc.cmdno }) c'))
          λ p.
            and_then (or_faults (req_free r m'))
              λ m''. goes_on (record (p.0) { writebuf = [] }, p.1, m'')

  -- Request after request: the replies to each, and what is left.
  unfoldable pub serve_all :
      List (Gives × Arrival) → Ctx → Memory → Run (List (List Reply) × Ctx × Memory)
  unfolding and_then http_handler
  serve_all [] c m = goes_on ([], c, m)
  serve_all ((a, (junk, inc)) ∷ more) c m =
      and_then (http_handler a junk inc c m)
        λ p. and_then (serve_all more p.1 p.2) λ q. goes_on (p.0.replies ∷ q.0, q.1, q.2)
