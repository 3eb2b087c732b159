-- ===== src/Req/Timer.antt =====
-- The time that req_new of src/req.cpp asks event_timer_new for.
use nd.Base.{ℕ, ◌*◌, ◌^◌, ◌≡◌, false, Option, none, some, ltb, leb, if◌then◌else◌, ◌>>=◌, arith}
use nd.Event.Timer.{Timer, timer_of}

-- `timeout_s * 1000000` is a product of ints: past the largest int it is undefined, `none`.
-- read_conf leaves timeout_s above 0.
unfoldable pub timeout_usec : ℕ → Option ℕ
timeout_usec timeout_s =
    if ltb (timeout_s * 1000000) (2 ^ 31) then some (timeout_s * 1000000) else none

unfoldable pub request_timer : ℕ → Option Timer
unfolding timeout_usec timer_of
request_timer timeout_s = timeout_usec timeout_s >>= λ usec. some (timer_of usec false)

-- The timer of a request waits for as many whole seconds as were configured, once, as long as that
-- is at most 2147; for any more the product of ints overflows.
pub request_timer_lem :
    (timeout_s : ℕ)
    → request_timer timeout_s ≡ (
        if leb timeout_s 2147
        then some (record { tv_sec = timeout_s; tv_usec = 0; persist = false })
        else none)
unfolding request_timer
request_timer_lem timeout_s = ground arith
