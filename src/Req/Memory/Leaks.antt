-- ===== src/Req/Memory/Leaks.antt =====
-- What requests leave in memory.
use nd.Base.{
  ℕ, suc, ◌+◌, ◌*◌, ◌<◌, ◌≤◌, ◌≡◌, refl, ◌∙◌, true, false, Option, some, List, [], ◌∷◌, length,
  codes, arith,
}
use nd.HttpClient.World.{Parts}
use nd.HttpClient.Request.{mem}
use nd.Event.Timer.{Event, timer_of}
use nd.Req.Handler.{Reply, Ctx}
use nd.Req.Serving.{Arrival, AllServable, AllReplied, leaks, serve_lem}
use nd.Req.Memory.{Memory, goes_on, and_then, or_faults, timeout_cb, serve_all}
use nd.Req.Memory.Laws.{with_request, with_requests, all_given, serve_all-given}

-- At `a` a req_t of a request that is over, with its timer, which it still points to and which
-- points to it; and its response buffer is gone.
pub record LeftBehind (a : ℕ) (m : Memory) : Type 0 where
  pub req : m.reqs a ≡ some (record { timeout_event = suc a; writebuf = suc (suc (suc a)) })
  pub evt : m.timers.evts (suc a) ≡ some (record { ev = suc (suc a); cb = timeout_cb; ctx = a })
  pub event : (e : Event) × (m.timers.events (suc (suc a)) ≡ some e) × (e.arg ≡ suc a)
  pub no_buffer : mem (suc (suc (suc a))) m.buffers ≡ false

-- That of each of some requests, from `a` on, four numbers for each.
abbrev pub AllLeft : List Arrival → ℕ → Memory → Type 0
AllLeft [] a m = Unit
AllLeft (x ∷ more) a m = LeftBehind a m × AllLeft more (suc (suc (suc (suc a)))) m

-- The numbers from `next` on are not in use for a buffer.
pub record IsFresh (m : Memory) : Type 0 where
  pub above : 0 < m.next
  pub unused : (b : ℕ) → m.next ≤ b → mem b m.buffers ≡ false

module _ (timeout_s : ℕ) where
  with_request-LeftBehind : (m : Memory) → IsFresh m → LeftBehind m.next (with_request timeout_s m)
  with_request-LeftBehind m h = record {
    req = ground arith;
    evt = ground arith;
    event = (
      record { timer = timer_of (timeout_s * 1000000) false; arg = suc m.next; pending = true },
      ground arith,
      refl,
    );
    no_buffer = h.unused (suc (suc (suc m.next))) (omega arith);
  }

  with_request-IsFresh : (m : Memory) → IsFresh m → IsFresh (with_request timeout_s m)
  with_request-IsFresh m h = record {
    above = omega arith;
    unused = λ b le. h.unused b (omega arith);
  }

  LeftBehind-kept :
      (a : ℕ) (m : Memory)
      → a + 4 ≤ m.next
      → LeftBehind a m
      → LeftBehind a (with_request timeout_s m)
  LeftBehind-kept a m below l = record {
    req = ground (arith, l.req);
    evt = ground (arith, l.evt);
    event = (l.event.0, ground (arith, l.event.1), l.event.2);
    no_buffer = l.no_buffer;
  }

  LeftBehind-kept_all :
      (a : ℕ) (todo : List Arrival) (m : Memory)
      → a + 4 ≤ m.next
      → LeftBehind a m
      → LeftBehind a (with_requests timeout_s todo m)
  unfolding with_requests
  LeftBehind-kept_all a [] m below l = l
  LeftBehind-kept_all a (x ∷ more) m below l =
      LeftBehind-kept_all a more (with_request timeout_s m) (omega arith)
        (LeftBehind-kept a m below l)

  with_requests-AllLeft :
      (todo : List Arrival) (m : Memory)
      → IsFresh m
      → AllLeft todo m.next (with_requests timeout_s todo m)
  unfolding with_requests
  with_requests-AllLeft [] m fresh = tt
  with_requests-AllLeft (x ∷ more) m fresh = (
    LeftBehind-kept_all m.next more (with_request timeout_s m) (omega arith)
        (with_request-LeftBehind m fresh),
    with_requests-AllLeft more (with_request timeout_s m) (with_request-IsFresh m fresh),
  )

  with_requests-buffers :
      (todo : List Arrival) (m : Memory) → (with_requests timeout_s todo m).buffers ≡ m.buffers
  unfolding with_requests
  with_requests-buffers [] m = refl
  with_requests-buffers (x ∷ more) m = with_requests-buffers more (with_request timeout_s m)

module _ (parse : List ℕ → Option Parts) (google baidu : Parts)
    (p : parse (codes "http://www.google.com/") ≡ some google)
    (q : parse (codes "http://www.baidu.com/") ≡ some baidu) where
  -- Any sequence of requests is served without a fault or an exit, a write past the end of the block
  -- of a get request being no fault here, where malloc and evbuffer_new give
  -- all that is asked for, the timeout is at most 2147 seconds, the urls of the backends are uris,
  -- and each response is one that the callback can take. Every request has one reply or two. The
  -- uris, the connections and the response buffers are those of before; but each request leaves its req_t, which still points to its buffer,
  -- its event_timer_t and the timer's event behind, and, where the command is not 1 or 12, its event
  -- base.
  pub serve_all-LeftBehind :
      (timeout_s : ℕ) (todo : List Arrival) (c : Ctx) (m : Memory)
      → timeout_s ≤ 2147
      → IsFresh m
      → AllServable parse todo
      → (rss : List (List Reply)) × (c' : Ctx) × (m' : Memory) × (serve_all parse timeout_s
            (all_given todo)
            c
            m
          ≡ goes_on (rss, c', m'))
        × AllReplied todo rss
        × (c'.world.uris ≡ c.world.uris)
        × (c'.world.conns ≡ c.world.conns)
        × (m'.buffers ≡ m.buffers)
        × (length c'.bases ≡ length c.bases + leaks todo)
        × AllLeft todo m.next m'
  unfolding and_then or_faults
  serve_all-LeftBehind timeout_s todo c m small fresh servable =
      let (rss, c', e, replied, uris, conns, bases) =
        serve_lem parse google baidu p q todo c servable in
      (
        rss,
        c',
        with_requests timeout_s todo m,
        serve_all-given parse timeout_s small todo c m ∙ rw e refl,
        replied,
        uris,
        conns,
        with_requests-buffers timeout_s todo m,
        bases,
        with_requests-AllLeft timeout_s todo m fresh,
      )
