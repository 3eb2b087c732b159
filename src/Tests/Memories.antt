-- ===== src/Tests/Memories.antt =====
-- Examples on requests with the memory they take.
use nd.Base.{◌≡◌, refl, true, false, none, some, List, [], ◌∷◌, codes, length, arith}
use nd.HttpClient.Handles.{AllAnswered, nil, cons}
use nd.Req.Handler.{Reply, Ctx}
use nd.Req.Dispatch.{command_no}
use nd.Req.Serving.{Arrival, AllReplied, AllServable}
use nd.Req.Memory.{Memory, Gives, goes_on, http_handler, serve_all}
use nd.Req.Memory.Laws.{all_given}
use nd.Req.Memory.Leaks.{AllLeft, IsFresh, serve_all-LeftBehind}
use nd.Req.Memory.Branches.{Handled, http_handler-Handled}
use nd.Tests.Requests.{backend_parts, parse_any, ok, ok-Answered, a_ctx, with_cmdno, timer_first}

-- One buffer is in use.
abbrev pub a_memory : Memory
a_memory = record {
  next = 9;
  reqs = λ r. none;
  buffers = 8 ∷ [];
  timers = record { evts = λ evt. none; events = λ ev. none; calls = [] };
}

pub a_memory-IsFresh : IsFresh a_memory
a_memory-IsFresh = record { above = omega arith; unused = λ b h. ground arith }

-- Command 1, a number that is not supported, and command 2.
abbrev pub arrivals : List Arrival
arrivals =
    (false, with_cmdno (codes "1"))
    ∷ (true, with_cmdno (codes "7"))
    ∷ (true, with_cmdno (codes "2"))
    ∷ []

pub arrivals-AllServable : AllServable parse_any arrivals
arrivals-AllServable =
    (timer_first, (answered_ok, (timer_first, (answered_ok, (timer_first, (answered_ok, tt))))))
  where
    answered_ok : AllAnswered parse_any (some ok ∷ [])
    answered_ok = cons ok-Answered nil

serve_all-LeftBehind_example :
    (rss : List (List Reply)) × (c' : Ctx) × (m' : Memory) × (serve_all parse_any 100
        (all_given arrivals)
        a_ctx
        a_memory
      ≡ goes_on (rss, c', m'))
    × AllReplied arrivals rss
    × (c'.world.uris ≡ 3 ∷ [])
    × (c'.world.conns ≡ 4 ∷ [])
    × (m'.buffers ≡ 8 ∷ [])
    × (length c'.bases ≡ 3)
    × AllLeft arrivals 9 m'
unfolding command_no
serve_all-LeftBehind_example =
    serve_all-LeftBehind parse_any backend_parts backend_parts refl refl 100 arrivals a_ctx a_memory
      (omega arith) a_memory-IsFresh arrivals-AllServable

-- evbuffer_new fails.
abbrev no_buffer_left : Gives
no_buffer_left = record { req = true; timer = true; buffer = false }

http_handler-Handled_example :
    Handled parse_any 100 false
      (with_cmdno (codes "1"))
      a_ctx
      a_memory
      no_buffer_left
      (http_handler parse_any 100 no_buffer_left false (with_cmdno (codes "1")) a_ctx a_memory)
http_handler-Handled_example =
    http_handler-Handled parse_any 100 false (with_cmdno (codes "1")) a_ctx a_memory no_buffer_left
