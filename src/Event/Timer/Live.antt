-- ===== src/Event/Timer/Live.antt =====
-- Timers that come, expire and go, in any order.
use nd.Base.{
  result, ℕ, ◌+◌, ◌*◌, ◌<◌, ◌≡◌, ◌≢◌, refl, ap, subst, Bool, true, Bool-cases, inl, inr, none, some,
  List, [], ◌∷◌, ◌++◌, ◌==◌, pos, arith,
}
use nd.Event.Timer.{
  timer_of, EventTimer, Event, Timers, put, event_timer_new, my_timer_cb, expire, event_timer_free,
}

-- A timer waits for as many microseconds as were asked for, in a timeval in normal form, and
-- repeats if it was asked to.
timer_of_lem :
    (usec : ℕ) (repeating : Bool)
    → let t = timer_of usec repeating in
      (t.tv_sec * 1000000 + t.tv_usec ≡ usec) × (t.tv_usec < 1000000) × (t.persist ≡ repeating)
unfolding timer_of
timer_of_lem usec repeating = (omega arith, omega arith, refl)

-- malloc and event_new give what is not in use, and libevent calls back for events that are waited
-- for. event_timer_free is called with timers that are there.
pub data Step (s : Timers) : Timers → Type 0 where
  create :
      {t : Timers} (fresh ev cb usec ctx : ℕ) (repeating : Bool)
      → fresh ≢ 0
      → s.evts fresh ≡ none
      → s.events ev ≡ none
      → event_timer_new fresh ev cb usec repeating ctx s ≡ some (fresh, t)
      → Step s t
  call :
      {t : Timers} (ev : ℕ) (e : Event)
      → s.events ev ≡ some e
      → e.pending ≡ true
      → expire ev e s ≡ some t
      → Step s t
  release :
      {t : Timers} (evt : ℕ) (b : EventTimer)
      → s.evts evt ≡ some b
      → event_timer_free evt s ≡ some (pos 0, t)
      → Step s t

pub data Reach (s : Timers) : Timers → Type 0 where
  here : Reach s s
  next : {t u : Timers} → Reach s t → Step t u → Reach s u

-- Timers and events belong together, one to one.
record IsSound (s : Timers) : Type 0 where
  found :
      (ev : ℕ) (e : Event)
      → s.events ev ≡ some e
      → (b : EventTimer) × (s.evts e.arg ≡ some b) × (b.ev ≡ ev)
  kept :
      (evt : ℕ) (b : EventTimer)
      → s.evts evt ≡ some b
      → (e : Event) × (s.events b.ev ≡ some e) × (e.arg ≡ evt)

-- Before event_timer_new is called.
pub record IsBare (s : Timers) : Type 0 where
  pub no_timers : (evt : ℕ) → s.evts evt ≡ none
  pub no_events : (ev : ℕ) → s.events ev ≡ none

bare-IsSound : (s : Timers) → IsBare s → IsSound s
bare-IsSound s h = record {
  found = λ ev e p. ground (arith, h.no_events ev, p);
  kept = λ evt b p. ground (arith, h.no_timers evt, p);
}

module _ (s : Timers) (sound : IsSound s) where
  created-IsSound :
      (fresh ev : ℕ) (b : EventTimer) (e : Event)
      → s.evts fresh ≡ none
      → s.events ev ≡ none
      → b.ev ≡ ev
      → e.arg ≡ fresh
      → IsSound (record s { evts = put s.evts fresh (some b); events = put s.events ev (some e) })
  created-IsSound fresh ev b e n n' p q = record {
    found = λ ev' e' h. elim (Bool-cases (ev == ev')) [
      | inl same ↦ (b, ground (arith, h, same, q), ground (arith, same, p))
      | inr apart ↦
          let (b', g, k) = sound.found ev' e' (ground (arith, h, apart)) in
          (b', ground (arith, g, n), k)
    ];
    kept = λ evt b' h. elim (Bool-cases (fresh == evt)) [
      | inl same ↦ (e, ground (arith, h, same, p), ground (arith, same, q))
      | inr apart ↦
          let (e', g, k) = sound.kept evt b' (ground (arith, h, apart)) in
          (e', ground (arith, g, n'), k)
    ];
  }

  -- An event that has been called back for.
  expired-IsSound :
      (ev : ℕ) (e : Event) (pending : Bool) (calls : List (ℕ × ℕ))
      → s.events ev ≡ some e
      → IsSound (record s {
        events = put s.events ev (some (record e { pending = pending }));
        calls = calls;
      })
  expired-IsSound ev e pending calls live = record {
    found = λ ev' e' h. elim (Bool-cases (ev == ev')) [
      | inl same ↦
          let (b, g, k) = sound.found ev e live in
          (b, ground (arith, h, same, g), ground (arith, same, k))
      | inr apart ↦ sound.found ev' e' (ground (arith, h, apart))
    ];
    kept = λ evt b h.
        let (e', g, k) = sound.kept evt b h in
        elim (Bool-cases (ev == b.ev)) [
          | inl same ↦ (
            record e { pending = pending },
            ground (arith, same),
            ground (arith, same, g, k, live),
          )
          | inr apart ↦ (e', ground (arith, apart, g), k)
        ];
  }

  -- A timer that is gone with its event.
  released-IsSound :
      (evt : ℕ) (b : EventTimer)
      → s.evts evt ≡ some b
      → IsSound (record s { evts = put s.evts evt none; events = put s.events b.ev none })
  released-IsSound evt b there =
      let (e, g, k) = sound.kept evt b there in
      record {
        found = λ ev' e' h. elim (Bool-cases (b.ev == ev')) [
          | inl same ↦ ground (arith, h, same)
          | inr apart ↦
              let (b', g', k') = sound.found ev' e' (ground (arith, h, apart)) in
              (b', ground (arith, g', k', there, apart), k')
        ];
        kept = λ evt' b' h. elim (Bool-cases (evt == evt')) [
          | inl same ↦ ground (arith, h, same)
          | inr apart ↦
              let (e', g', k') = sound.kept evt' b' (ground (arith, h, apart)) in
              (e', ground (arith, g', k', g, k, apart), k')
        ];
      }

step-IsSound : {s t : Timers} → IsSound s → Step s t → IsSound t
unfolding event_timer_new expire my_timer_cb event_timer_free
step-IsSound {s} sound (create fresh ev cb usec ctx repeating n f g e) =
    let b : EventTimer = record { ev = ev; cb = cb; ctx = ctx } in
    let d : Event = record { timer = timer_of usec repeating; arg = fresh; pending = true } in
    let t' : Timers = record s {
      evts = put s.evts fresh (some b);
      events = put s.events ev (some d);
    } in
    let made : event_timer_new fresh ev cb usec repeating ctx s ≡ some (fresh, t') =
      ground (arith, n) in
    subst IsSound (ap (λ r. r.1) (result made e))
      (created-IsSound s sound fresh ev b d f g refl refl)
step-IsSound {s} sound (call ev d live waited e) =
    let (b, g, k) = sound.found ev d live in
    let t' : Timers = record s {
      events = put s.events ev (some (record d { pending = d.timer.persist }));
      calls = s.calls ++ (b.cb, b.ctx) ∷ [];
    } in
    let called : expire ev d s ≡ some t' = rw g refl in
    subst IsSound (result called e)
      (expired-IsSound s sound ev d d.timer.persist (s.calls ++ (b.cb, b.ctx) ∷ []) live)
step-IsSound {s} sound (release evt b there e) =
    let (d, g, k) = sound.kept evt b there in
    let t' : Timers = record s { evts = put s.evts evt none; events = put s.events b.ev none } in
    let freed : event_timer_free evt s ≡ some (pos 0, t') = rw (there, g) refl in
    subst IsSound (ap (λ r. r.1) (result freed e)) (released-IsSound s sound evt b there)

Reach-IsSound : {s t : Timers} → IsSound s → Reach s t → IsSound t
Reach-IsSound sound here = sound
Reach-IsSound sound (next r step) = step-IsSound (Reach-IsSound sound r) step

-- After any timers have come, expired and gone: my_timer_cb, for any event of libevent, finds the
-- timer of that event and calls its callback with its context, and event_timer_free takes away the
-- timer and its event.
pub timers_safe :
    {s t : Timers} (ev : ℕ) (e : Event)
    → IsBare s
    → Reach s t
    → t.events ev ≡ some e
    → (b : EventTimer) × (t.evts e.arg ≡ some b)
      × (b.ev ≡ ev)
      × (my_timer_cb e.arg t ≡ some (record t { calls = t.calls ++ (b.cb, b.ctx) ∷ [] }))
      × (u : Timers) × (event_timer_free e.arg t ≡ some (pos 0, u))
      × (u.evts e.arg ≡ none)
      × (u.events ev ≡ none)
unfolding my_timer_cb event_timer_free
timers_safe {s} {t} ev e bare r live =
    let (b, g, k) = (Reach-IsSound (bare-IsSound s bare) r).found ev e live in
    (
      b,
      g,
      k,
      rw g refl,
      record t { evts = put t.evts e.arg none; events = put t.events b.ev none },
      rw (g, k, live) refl,
      ground arith,
      ground (arith, k),
    )
