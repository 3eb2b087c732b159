-- ===== src/Tests/Timers.antt =====
-- An example on a timer that repeats and has been called back for once.
use nd.Base.{◌≡◌, refl, true, none, some, [], ◌∷◌, ◌++◌, pos, arith}
use nd.Event.Timer.{
  EventTimer, Event, Timers, put, event_timer_new, my_timer_cb, expire, event_timer_free,
}
use nd.Event.Timer.Live.{Reach, here, next, create, call, timers_safe}

abbrev no_timers : Timers
no_timers = record { evts = λ p. none; events = λ p. none; calls = [] }

abbrev a_timer : EventTimer
a_timer = record { ev = 5; cb = 33; ctx = 6 }

abbrev an_event : Event
an_event = record {
  timer = record { tv_sec = 2; tv_usec = 500000; persist = true };
  arg = 16;
  pending = true;
}

abbrev one_timer : Timers
one_timer = record {
  evts = put (λ p. none) 16 (some a_timer);
  events = put (λ p. none) 5 (some an_event);
  calls = [];
}

abbrev called_once : Timers
called_once = record one_timer {
  events = put one_timer.events 5 (some an_event);
  calls = [] ++ (33, 6) ∷ [];
}

called_once-Reach : Reach no_timers called_once
unfolding event_timer_new expire
called_once-Reach =
    next (next here (create 16 5 33 2500000 6 true (λ h. absurd (omega arith)) refl refl refl))
      (call 5 an_event refl refl refl)

timers_safe_example :
    (b : EventTimer) × (called_once.evts 16 ≡ some b)
    × (b.ev ≡ 5)
    × (my_timer_cb 16 called_once
        ≡ some (record called_once { calls = called_once.calls ++ (b.cb, b.ctx) ∷ [] }))
    × (u : Timers) × (event_timer_free 16 called_once ≡ some (pos 0, u))
    × (u.evts 16 ≡ none)
    × (u.events 5 ≡ none)
timers_safe_example =
    timers_safe 5 an_event (record { no_timers = λ evt. refl; no_events = λ ev. refl })
      called_once-Reach refl
