-- ===== src/Event/Timer.antt =====
-- The timers of src/event.cpp: event_timer_new, my_timer_cb and event_timer_free. What event_new of
-- libevent gives, and when it calls back, is given. `none` is a fault.
pub mod Live
use nd.Base.{
  ℕ, ◌/◌, ◌%◌, ◌≡◌, Bool, true, false, Option, none, some, List, [], ◌∷◌, ◌++◌, ◌==◌, if◌then◌else◌,
  ◌>>=◌, ℤ, pos,
}

-- struct timeval, and the flag of the event: EV_PERSIST or EV_TIMEOUT.
pub record Timer : Type 0 where
  pub tv_sec : ℕ
  pub tv_usec : ℕ
  pub persist : Bool

unfoldable pub timer_of : ℕ → Bool → Timer
timer_of interval_usec repeating = record {
  tv_sec = interval_usec / 1000000;
  tv_usec = interval_usec % 1000000;
  persist = repeating;
}

-- event_timer_t. Events and callbacks are known by their numbers.
pub record EventTimer : Type 0 where
  pub ev : ℕ
  pub cb : ℕ
  pub ctx : ℕ

-- An event of libevent: when it is due, the argument of my_timer_cb, and whether it is waited for.
pub record Event : Type 0 where
  pub timer : Timer
  pub arg : ℕ
  pub pending : Bool

-- The event_timer_t and the events in memory, and the calls of callbacks so far.
pub record Timers : Type 0 where
  pub evts : ℕ → Option EventTimer
  pub events : ℕ → Option Event
  pub calls : List (ℕ × ℕ)

abbrev pub put : {A : Type 0} → (ℕ → Option A) → ℕ → Option A → ℕ → Option A
put cells p v q = if p == q then v else cells q

-- malloc gives `fresh`, or 0, and event_new `ev`.
unfoldable pub event_timer_new : ℕ → ℕ → ℕ → ℕ → Bool → ℕ → Timers → Option (ℕ × Timers)
unfolding timer_of
event_timer_new fresh ev cb interval_usec repeating ctx s =
    if fresh == 0
    then none
    else some (
      fresh,
      record s {
        evts = put s.evts fresh (some (record { ev = ev; cb = cb; ctx = ctx }));
        events = put s.events ev (
            some
              (record { timer = timer_of interval_usec repeating; arg = fresh; pending = true }));
      },
    )

unfoldable pub my_timer_cb : ℕ → Timers → Option Timers
my_timer_cb ctx s =
    s.evts ctx >>= (λ evt. some (record s { calls = s.calls ++ (evt.cb, evt.ctx) ∷ [] }))

-- libevent calls back: an event that does not persist is not waited for any more.
unfoldable pub expire : ℕ → Event → Timers → Option Timers
unfolding my_timer_cb
expire ev e s =
    my_timer_cb e.arg
      (record s { events = put s.events ev (some (record e { pending = e.timer.persist })) })

-- event_free of libevent faults on an event that is not there.
unfoldable pub event_timer_free : ℕ → Timers → Option (ℤ × Timers)
event_timer_free evt s = do
  t ← s.evts evt
  e ← s.events t.ev
  some (pos 0, record s { evts = put s.evts evt none; events = put s.events t.ev none })
