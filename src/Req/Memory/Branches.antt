-- ===== src/Req/Memory/Branches.antt =====
-- http_handler on what malloc and evbuffer_new answer.
use nd.Base.{
  ℕ, ◌<◌, ◌≤◌, ◌≡◌, refl, ap, ◌∙◌, inl, inr, Bool, true, false, Bool-cases, Option, none, List,
  negsuc, leb, arith,
}
use nd.HttpClient.World.{Parts}
use nd.Event.Timer.{event_timer_new}
use nd.Req.Handler.{ReqT, Ctx}
use nd.Req.Dispatch
use nd.Req.Dispatch.{Incoming}
use nd.Req.Memory.{
  Memory, Run, goes_on, faults, exits, and_then, or_faults, Gives, step, new_timer, new_buffer,
  take_blocks, req_new, http_handler,
}
use nd.Req.Memory.Laws.{
  given, with_request, new_timer-given, timeout_usec-some, timeout_usec-none, http_handler-given,
}

module _ (parse : List ℕ → Option Parts) (timeout_s : ℕ) (junk : Bool) (inc : Incoming) (c : Ctx)
    (m : Memory) where
  pub data Handled (a : Gives) : Run (ReqT × Ctx × Memory) → Type 0 where
    no_req : a.req ≡ false → Handled a faults
    overflow : a.req ≡ true → 2147 < timeout_s → Handled a faults
    no_timer : a.req ≡ true → timeout_s ≤ 2147 → a.timer ≡ false → Handled a faults
    no_buffer :
        a.req ≡ true
        → timeout_s ≤ 2147
        → a.timer ≡ true
        → a.buffer ≡ false
        → Handled a (exits (negsuc 0))
    handled :
        a ≡ given
        → timeout_s ≤ 2147
        → Handled a (
            and_then
              (or_faults (Dispatch.http_handler parse junk inc c))
              λ p. goes_on (p.0, p.1, with_request timeout_s m))

  new_timer_overflows :
      (gives : Bool) (r : ℕ) (m : Memory) → 2147 < timeout_s → new_timer timeout_s gives r m ≡ none
  unfolding new_timer
  new_timer_overflows gives r m h = rw (timeout_usec-none timeout_s h) refl

  new_timer_fails : (r : ℕ) (m : Memory) → timeout_s ≤ 2147 → new_timer timeout_s false r m ≡ none
  unfolding new_timer event_timer_new
  new_timer_fails r m h = rw (timeout_usec-some timeout_s h) refl

  take_blocks_no_req : (a : Gives) → a.req ≡ false → take_blocks timeout_s a m ≡ faults
  unfolding take_blocks
  take_blocks_no_req a n = ground (arith, n)

  take_blocks_overflows :
      (a : Gives) → a.req ≡ true → 2147 < timeout_s → take_blocks timeout_s a m ≡ faults
  unfolding take_blocks and_then or_faults
  take_blocks_overflows a r h = ground (arith, r, new_timer_overflows a.timer m.next (step m) h)

  take_blocks_no_timer :
      (a : Gives)
      → a.req ≡ true
      → timeout_s ≤ 2147
      → a.timer ≡ false
      → take_blocks timeout_s a m ≡ faults
  unfolding take_blocks and_then or_faults
  take_blocks_no_timer a r h n = ground (arith, r, n, new_timer_fails m.next (step m) h)

  take_blocks_no_buffer :
      (a : Gives)
      → a.req ≡ true
      → timeout_s ≤ 2147
      → a.timer ≡ true
      → a.buffer ≡ false
      → take_blocks timeout_s a m ≡ exits (negsuc 0)
  unfolding take_blocks new_buffer and_then or_faults
  take_blocks_no_buffer a r h t n =
      ground (arith, r, t, n, new_timer-given timeout_s m.next (step m) h (omega arith))

  -- Past 2147 seconds every request faults, whatever malloc gives.
  pub http_handler_overflows :
      (a : Gives) → 2147 < timeout_s → http_handler parse timeout_s a junk inc c m ≡ faults
  unfolding http_handler req_new and_then
  http_handler_overflows a h = elim (Bool-cases a.req) [
    | inl r ↦ let e = take_blocks_overflows a r h in rw e refl
    | inr n ↦ let e = take_blocks_no_req a n in rw e refl
  ]

  -- Where malloc gives no req_t or no event_timer_t, or the timeout is over 2147 seconds, whose
  -- microseconds no int holds, http_handler faults. Where evbuffer_new gives no buffer, the process
  -- exits with -1. Else http_handler does what it does without regard to memory, and if that does
  -- not fault, a req_t, its timer and its event are new in memory then, and nothing else has changed
  -- there.
  pub http_handler-Handled : (a : Gives) → Handled a (http_handler parse timeout_s a junk inc c m)
  unfolding http_handler req_new and_then
  http_handler-Handled a = elim (Bool-cases a.req) [
    | inr n ↦ stops (take_blocks_no_req a n) (no_req n)
    | inl r ↦ elim (Bool-cases (leb timeout_s 2147)) [
      | inr long ↦
          let h : 2147 < timeout_s = ground (arith, long) in
          stops (take_blocks_overflows a r h) (overflow r h)
      | inl short ↦
          let h : timeout_s ≤ 2147 = ground (arith, short) in
          elim (Bool-cases a.timer) [
            | inr n ↦ stops (take_blocks_no_timer a r h n) (no_timer r h n)
            | inl t ↦ elim (Bool-cases a.buffer) [
              | inr n ↦
                  let e : http_handler parse timeout_s a junk inc c m ≡ exits (negsuc 0) =
                    rw (take_blocks_no_buffer a r h t n) refl in
                  rw e (no_buffer r h t n)
              | inl b ↦
                  let all : a ≡ given = ground (arith, r, t, b) in
                  let e =
                    ap (λ x. http_handler parse timeout_s x junk inc c m) all
                    ∙ http_handler-given parse timeout_s h junk inc c m in
                  rw e (handled all h)
            ]
          ]
    ]
  ]
    where
      stops :
          {a : Gives}
          → take_blocks timeout_s a m ≡ faults
          → Handled a faults
          → Handled a (http_handler parse timeout_s a junk inc c m)
      stops {a} e h =
          let f : http_handler parse timeout_s a junk inc c m ≡ faults = rw e refl in rw f h
