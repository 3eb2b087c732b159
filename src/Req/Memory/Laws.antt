-- ===== src/Req/Memory/Laws.antt =====
-- What req_new makes on each branch, and what requests leave in memory.
use nd.Base.{
  ◌>>=◌, ℕ, suc, ◌*◌, ◌<◌, ◌≤◌, ◌≡◌, refl, Bool, true, false, Option, none, some, List, [], ◌∷◌,
  map, arith,
}
use nd.HttpClient.World.{Parts}
use nd.Event.Timer.{put, timer_of, event_timer_new}
use nd.Req.Timer.{timeout_usec}
use nd.Req.Handler.{Reply, ReqT, Ctx}
use nd.Req.Dispatch
use nd.Req.Dispatch.{Incoming, command_no, distribute}
use nd.Req.Serving.{Arrival, serve}
use nd.Req.Memory.{
  Memory, Run, goes_on, and_then, or_faults, Gives, timeout_cb, step, new_timer, new_buffer,
  take_blocks, req_new, evbuffer_free, req_free, http_handler, serve_all,
}

abbrev pub given : Gives
given = record { req = true; timer = true; buffer = true }

-- The memory with a req_t, its timer and its event in it, from the next number on.
abbrev pub with_request : ℕ → Memory → Memory
with_request timeout_s m = record {
  next = suc (suc (suc (suc m.next)));
  reqs =
      put m.reqs m.next
        (some (record { timeout_event = suc m.next; writebuf = suc (suc (suc m.next)) }));
  buffers = m.buffers;
  timers = record (m.timers) {
    evts =
        put m.timers.evts (suc m.next)
          (some (record { ev = suc (suc m.next); cb = timeout_cb; ctx = m.next }));
    events = put m.timers.events (suc (suc m.next)) (
        some (record {
          timer = timer_of (timeout_s * 1000000) false;
          arg = suc m.next;
          pending = true;
        }));
  };
}

unfoldable pub with_requests : ℕ → List Arrival → Memory → Memory
with_requests timeout_s [] m = m
with_requests timeout_s (a ∷ more) m = with_requests timeout_s more (with_request timeout_s m)

-- Every call of malloc and evbuffer_new gives what is asked for.
abbrev pub all_given : List Arrival → List (Gives × Arrival)
all_given = map λ a. (given, a)

-- And the response buffer.
abbrev with_buffer : ℕ → Memory → Memory
with_buffer timeout_s m = record (with_request timeout_s m) {
  buffers = (suc (suc (suc m.next))) ∷ m.buffers;
}

pub timeout_usec-some :
    (timeout_s : ℕ) → timeout_s ≤ 2147 → timeout_usec timeout_s ≡ some (timeout_s * 1000000)
unfolding timeout_usec
timeout_usec-some timeout_s h = ground arith

pub timeout_usec-none : (timeout_s : ℕ) → 2147 < timeout_s → timeout_usec timeout_s ≡ none
unfolding timeout_usec
timeout_usec-none timeout_s h = ground arith

pub new_timer-given :
    (timeout_s r : ℕ) (m : Memory)
    → timeout_s ≤ 2147
    → 0 < m.next
    → new_timer timeout_s true r m
      ≡ some (
        m.next,
        record m {
          next = suc (suc m.next);
          timers = record (m.timers) {
            evts =
                put m.timers.evts m.next
                  (some (record { ev = suc m.next; cb = timeout_cb; ctx = r }));
            events = put m.timers.events (suc m.next) (
                some (record {
                  timer = timer_of (timeout_s * 1000000) false;
                  arg = m.next;
                  pending = true;
                }));
          };
        },
      )
unfolding new_timer event_timer_new
new_timer-given timeout_s r m small above = rw (timeout_usec-some timeout_s small) (ground arith)

module _ (timeout_s : ℕ) (small : timeout_s ≤ 2147) (m : Memory) where
  take_blocks-given : take_blocks timeout_s given m ≡ goes_on (m.next, with_buffer timeout_s m)
  unfolding take_blocks new_buffer and_then or_faults
  take_blocks-given =
      let timer = new_timer-given timeout_s m.next (step m) small (omega arith) in rw timer refl

  req_free-given : req_free m.next (with_buffer timeout_s m) ≡ some (with_request timeout_s m)
  unfolding req_free evbuffer_free
  req_free-given = ground arith

-- The end of http_handler, behind the switch.
abbrev finish : ReqT × Ctx → Option (ReqT × Ctx)
finish p = some (record (p.0) { writebuf = [] }, p.1)

free-finished :
    (timeout_s : ℕ) (m : Memory) (o : Option (ReqT × Ctx))
    → timeout_s ≤ 2147
    → (and_then {B = ReqT × Ctx × Memory} (or_faults o) λ p.
        and_then {B = ReqT × Ctx × Memory}
          (or_faults (req_free m.next (with_buffer timeout_s m)))
          λ m'. goes_on (record (p.0) { writebuf = [] }, p.1, m'))
      ≡ (and_then {B = ReqT × Ctx × Memory}
          (or_faults (o >>= finish))
          λ p. goes_on (p.0, p.1, with_request timeout_s m))
unfolding and_then or_faults
free-finished timeout_s m none small = refl
free-finished timeout_s m (some p) small = rw (req_free-given timeout_s small m) refl

module _ (parse : List ℕ → Option Parts) (timeout_s : ℕ) (small : timeout_s ≤ 2147) where
  pub http_handler-given :
      (junk : Bool) (inc : Incoming) (c : Ctx) (m : Memory)
      → http_handler parse timeout_s given junk inc c m
        ≡ and_then
            (or_faults (Dispatch.http_handler parse junk inc c))
            λ p. goes_on (p.0, p.1, with_request timeout_s m)
  unfolding http_handler req_new and_then Dispatch.http_handler
  http_handler-given junk inc c m = rw (take_blocks-given timeout_s small m) (
      free-finished timeout_s m
        (distribute parse inc
          (record ((Dispatch.req_new junk inc.uri c).0) { command_no = command_no inc.cmdno })
          (Dispatch.req_new junk inc.uri c).1)
        small)

  abbrev Left : Type 0
  Left = List (List Reply) × Ctx × Memory

  abbrev left_in : Memory → List (List Reply) × Ctx → Run Left
  left_in m q = goes_on (q.0, q.1, m)

  abbrev first_replied : List Reply → Left → Run Left
  first_replied rs q = goes_on (rs ∷ q.0, q.1, q.2)

  abbrev first_served : ReqT × Ctx → List (List Reply) × Ctx → Option (List (List Reply) × Ctx)
  first_served p q = some (p.0.replies ∷ q.0, q.1)

  rest-given :
      (m : Memory) (p : ReqT × Ctx) (o : Option (List (List Reply) × Ctx))
      → and_then (and_then (or_faults o) (left_in m)) (first_replied p.0.replies)
        ≡ and_then (or_faults (o >>= first_served p)) (left_in m)
  unfolding and_then or_faults
  rest-given m p none = refl
  rest-given m p (some q) = refl

  -- Behind the first of some requests.
  abbrev rest : List Arrival → ReqT × Ctx × Memory → Run Left
  rest more p =
      and_then (serve_all parse timeout_s (all_given more) p.1 p.2) (first_replied p.0.replies)

  abbrev handled_in : Memory → ReqT × Ctx → Run (ReqT × Ctx × Memory)
  handled_in m p = goes_on (p.0, p.1, m)

  first-given :
      (more : List Arrival) (m m' : Memory) (o : Option (ReqT × Ctx))
      → ((c : Ctx)
          → serve_all parse timeout_s (all_given more) c m
            ≡ and_then (or_faults (serve parse more c)) (left_in m'))
      → and_then (and_then (or_faults o) (handled_in m)) (rest more)
        ≡ and_then (or_faults (o >>= λ p. serve parse more p.1 >>= first_served p)) (left_in m')
  unfolding and_then or_faults
  first-given more m m' none ih = refl
  first-given more m m' (some p) ih = rw (ih p.1) (rest-given m' p (serve parse more p.1))

  pub serve_all-given :
      (todo : List Arrival) (c : Ctx) (m : Memory)
      → serve_all parse timeout_s (all_given todo) c m
        ≡ and_then (or_faults (serve parse todo c)) (left_in (with_requests timeout_s todo m))
  unfolding serve_all serve and_then or_faults with_requests
  serve_all-given [] c m = refl
  serve_all-given ((junk, inc) ∷ more) c m =
      let m' = with_request timeout_s m in
      rw (http_handler-given junk inc c m) (
        first-given more m' (with_requests timeout_s more m')
          (Dispatch.http_handler parse junk inc c) λ c'. serve_all-given more c' m')
