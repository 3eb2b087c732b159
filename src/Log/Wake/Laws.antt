-- ===== src/Log/Wake/Laws.antt =====
-- No wake-up is lost.
use nd.Base.{
  none, result, ℕ, ◌<◌, ◌≤◌, ◌≡◌, ◌^◌, refl, ◌∙◌, subst, Bool, false, Option, some, List, [], ◌∷◌,
  ◌++◌, leb, ◌>>=◌, arith,
}
use nd.Log.Ring.{contents}
use nd.Log.Line.{Call}
use nd.Log.Printf.{Logger}
use nd.Log.Printf.Laws.{log_base_above}
use nd.Log.Thread.{Answers}
use nd.Log.Thread.Laws.{thread_round_lem}
use nd.Log.Session.{Session, Act, call, round, at_rest, thread_state, after_round, act, acts}
use nd.Log.Session.Spec.{FirstTakesAll, IsOpen}
use nd.Log.Session.Step.{call-Done, round-Done}
use nd.Log.Wake.{Waking, write_pipe, Step, stores, wakes, reads, drains, Reach, here, next}

module _ (cap : ℕ) {D : Type 0} (show_double : D → List ℕ) (lg₀ : Logger) (echo : Bool) where
  -- Nothing waits in a ring.
  pub record IsEmpty (s : Session) : Type 0 where
    pub log : contents cap s.lg.log ≡ []
    pub wf : contents cap s.lg.wf ≡ []

  round_empties :
      (s u : Session) (a b : Answers)
      → IsOpen cap show_double lg₀ s
      → cap < 2 ^ 64
      → cap ≤ a.first
      → cap ≤ a.second
      → cap ≤ b.first
      → cap ≤ b.second
      → act cap show_double echo s (round a b) ≡ some u
      → IsEmpty u
  unfolding act
  round_empties s u a b o small p p' q q' e =
      let (t, f, l, w) =
        thread_round_lem echo (at_rest s.lg.log a) (at_rest s.lg.wf b) (thread_state s) o.ready.log
          o.ready.wf small (record { unmoved = refl; takes = p })
          (record { unmoved = refl; takes = q }) o.log_flushed o.wf_flushed in
      let g : act cap show_double echo s (round a b) ≡ some (after_round s t) = rw f refl in
      subst IsEmpty (result g e) (record { log = l.emptied p'; wf = w.emptied q' })

  round-IsOpen :
      (s u : Session) (a b : Answers)
      → IsOpen cap show_double lg₀ s
      → cap < 2 ^ 64
      → cap ≤ a.first
      → cap ≤ b.first
      → act cap show_double echo s (round a b) ≡ some u
      → IsOpen cap show_double lg₀ u
  round-IsOpen s u a b o small p q e =
      let (t, f, d) = round-Done cap show_double lg₀ echo s o a b small p q in
      subst (IsOpen cap show_double lg₀) (result f e) d.is_open

  call-IsOpen :
      (s u : Session) (c : Call show_double)
      → IsOpen cap show_double lg₀ s
      → act cap show_double echo s (call c) ≡ some u
      → IsOpen cap show_double lg₀ u
  call-IsOpen s u c o e =
      let (t, f, d) = call-Done cap show_double lg₀ echo s o c in
      subst (IsOpen cap show_double lg₀) (result f e) d.is_open

  -- A message above the level changes nothing.
  call_above :
      (s u : Session) (c : Call show_double)
      → leb c.level s.lg.log_level ≡ false
      → act cap show_double echo s (call c) ≡ some u
      → s ≡ u
  unfolding act
  call_above s u c above e =
      let f = log_base_above cap show_double s.lg c (ground (arith, above)) in
      let g : act cap show_double echo s (call c) ≡ some s = rw f refl in result g e

  -- While the thread has nothing to read and no call is half done, both rings are empty.
  pub record IsAwaited (s : Waking) : Type 0 where
    pub is_open : IsOpen cap show_double lg₀ s.session
    pub empty : s.awake ≡ false → s.writing ≡ false → s.pipe ≡ 0 → IsEmpty s.session

  after_first :
      {f : Session → Option Session} (g h : Session → Option Session) (o : Option Session)
      → ((t : Session) → f t ≡ (g t >>= h))
      → (o >>= f) ≡ ((o >>= g) >>= h)
  after_first g h none e = refl
  after_first g h (some t) e = e t

  acts-append :
      (s : Session) (todo more : List (Act show_double))
      → acts cap show_double echo s (todo ++ more)
        ≡ (acts cap show_double echo s todo >>= λ t. acts cap show_double echo t more)
  unfolding acts
  acts-append s [] more = refl
  acts-append s (a ∷ todo) more =
      after_first (λ t. acts cap show_double echo t todo) (λ t. acts cap show_double echo t more)
        (act cap show_double echo s a) λ t. acts-append t todo more

  takes-append :
      (todo more : List (Act show_double))
      → FirstTakesAll cap show_double todo
      → FirstTakesAll cap show_double more
      → FirstTakesAll cap show_double (todo ++ more)
  takes-append [] more f g = g
  takes-append (call c ∷ todo) more f g = takes-append todo more f g
  takes-append (round a b ∷ todo) more (p, (q, f)) g = (p, (q, takes-append todo more f g))

  module _ (size : ℕ) (room : 0 < size) (small : cap < 2 ^ 64) where
    write_pipe-positive : (pipe : ℕ) → write_pipe size pipe ≡ 0 → ⊥
    unfolding write_pipe
    write_pipe-positive pipe h = ground (arith, h)

    pub Step-IsAwaited :
        {s t : Waking} {more : List (Act show_double)}
        → Step cap show_double echo size s more t
        → IsAwaited s
        → IsAwaited t
    Step-IsAwaited {s} (stores {u} c idle e) h = record {
      is_open = call-IsOpen s.session u c h.is_open e;
      empty = λ asleep quiet none_left.
          subst IsEmpty (call_above s.session u c quiet e) (h.empty asleep idle none_left);
    }
    Step-IsAwaited {s} (wakes busy) h = record {
      is_open = h.is_open;
      empty = λ asleep quiet none_left. absurd (write_pipe-positive s.pipe none_left);
    }
    Step-IsAwaited {s} (reads asleep some_left) h = record {
      is_open = h.is_open;
      empty = λ asleep' quiet none_left. ground (arith, asleep');
    }
    Step-IsAwaited {s} (drains {u} a b awake p p' q q' e) h = record {
      is_open = round-IsOpen s.session u a b h.is_open small p q e;
      empty = λ asleep quiet none_left. round_empties s.session u a b h.is_open small p p' q q' e;
    }

    pub Reach-IsAwaited :
        {s t : Waking} {todo : List (Act show_double)}
        → Reach cap show_double echo size s todo t
        → IsAwaited s
        → IsAwaited t
    Reach-IsAwaited here h = h
    Reach-IsAwaited (next r st) h = Step-IsAwaited st (Reach-IsAwaited r h)

    step-acts :
        {s t : Waking} {more : List (Act show_double)}
        → Step cap show_double echo size s more t
        → (acts cap show_double echo s.session more ≡ some t.session)
          × FirstTakesAll cap show_double more
    unfolding acts
    step-acts (stores c idle e) = (rw e refl, tt)
    step-acts (wakes busy) = (refl, tt)
    step-acts (reads asleep some_left) = (refl, tt)
    step-acts (drains a b awake p p' q q' e) = (rw e refl, (p, (q, tt)))

    -- The steps amount to the calls and rounds among them.
    pub Reach-acts :
        {s t : Waking} {todo : List (Act show_double)}
        → Reach cap show_double echo size s todo t
        → (acts cap show_double echo s.session todo ≡ some t.session)
          × FirstTakesAll cap show_double todo
    unfolding acts
    Reach-acts here = (refl, tt)
    Reach-acts {s} (next {todo} {more} r st) =
        let (e, f) = Reach-acts r in
        let (e', f') = step-acts st in
        (acts-append s.session todo more ∙ rw e e', takes-append todo more f f')
