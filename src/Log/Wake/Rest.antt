-- ===== src/Log/Wake/Rest.antt =====
-- Without further calls the log thread comes to rest.
use nd.Base.{
  ℕ, zero, suc, ◌+◌, ◌*◌, ◌<◌, ◌≤◌, ◌≡◌, ◌^◌, refl, inl, inr, Bool, true, false, Bool-cases, List,
  [], ◌∷◌, if◌then◌else◌, ◌==◌, arith,
}
use nd.Log.Printf.{Logger}
use nd.Log.Thread.{Answers}
use nd.Log.Session.{Act, round}
use nd.Log.Session.Step.{round-Done}
use nd.Log.Session.Room.{calls_of}
use nd.Log.Ring.{log_buf_size}
use nd.Log.Setup.{Conf, Names, System, log_read_conf, logger_of}
use nd.Log.Session.Start.{opened}
use nd.Log.Wake.Asleep.{begun, begun-IsAwaited}
use nd.Log.Wake.{Reach, Waking, write_pipe, read_pipe, Step, stores, wakes, reads, drains}
use nd.Log.Wake.Laws.{IsAwaited, Step-IsAwaited, Reach-IsAwaited}

-- How many steps are left at most.
abbrev measure : Waking → ℕ
measure t = 3 * t.pipe + (if t.writing then 4 else 0) + (if t.awake then 1 else 0)

-- fwrite takes all, and the file is where it was.
abbrev all_taken : ℕ → Answers
all_taken cap = record {
  gone = false;
  opens = false;
  seen = record { test = 0; branch = 0; size = 0; echo = 0 };
  first = cap;
  second = cap;
}

module _ (cap : ℕ) {D : Type 0} (show_double : D → List ℕ) (echo : Bool) (size : ℕ) where
  -- Whatever the steps are that come, without a further call, they end, and only where the thread
  -- has nothing to read and no call is half done.
  pub data Rests : Waking → Type 0 where
    asleep : {t : Waking} → t.awake ≡ false → t.writing ≡ false → t.pipe ≡ 0 → Rests t
    goes_on :
        {t u : Waking} {more : List (Act show_double)}
        → Step cap show_double echo size t more u
        → calls_of cap show_double more ≡ []
        → ((more : List (Act show_double)) (u : Waking)
            → Step cap show_double echo size t more u
            → calls_of cap show_double more ≡ []
            → Rests u)
        → Rests t

  step_measure :
      {t u : Waking} {more : List (Act show_double)}
      → Step cap show_double echo size t more u
      → calls_of cap show_double more ≡ []
      → measure u < measure t
  unfolding write_pipe read_pipe
  step_measure (stores c idle e) h = ground (arith, h)
  step_measure {t} (wakes busy) h = ground (arith, busy)
  step_measure {t} (reads idle some_left) h = ground (arith, idle, some_left)
  step_measure {t} (drains a b busy p p' q q' e) h = ground (arith, busy)

  module _ (lg₀ : Logger) (room : 0 < size) (small : cap < 2 ^ 64) where
    drained :
        (t : Waking)
        → t.awake ≡ true
        → IsAwaited cap show_double lg₀ echo t
        → (u : Waking) × Step cap show_double echo size t
            (round (all_taken cap) (all_taken cap) ∷ [])
            u
    drained t busy w =
        let (s, e, d) =
          round-Done cap show_double lg₀ echo t.session w.is_open (all_taken cap) (all_taken cap)
            small (omega arith) (omega arith) in
        (
          record t { session = s; awake = false },
          drains (all_taken cap) (all_taken cap) busy (omega arith) (omega arith) (omega arith)
              (omega arith) e,
        )

    rests : (n : ℕ) (t : Waking) → measure t ≤ n → IsAwaited cap show_double lg₀ echo t → Rests t
    rests zero t le w = asleep (ground (arith, le)) (ground (arith, le)) (ground (arith, le))
    rests (suc n) t le w =
        let later : (more : List (Act show_double)) (u : Waking)
            → Step cap show_double echo size t more u
            → calls_of cap show_double more ≡ []
            → Rests u =
          λ more u st h.
            rests n u (omega (arith, step_measure st h, le))
              (Step-IsAwaited cap show_double lg₀ echo size room small st w) in
        elim (Bool-cases t.awake) [
          | inl busy ↦ let (u, st) = drained t busy w in goes_on st refl later
          | inr idle ↦ elim (Bool-cases t.writing) [
            | inl half ↦ goes_on (wakes half) refl later
            | inr quiet ↦ elim (Bool-cases (t.pipe == 0)) [
              | inl none_left ↦ asleep idle quiet (ground (arith, none_left))
              | inr some_left ↦ goes_on (reads idle (ground (arith, some_left))) refl later
            ]
          ]
        ]

module _ (sys : System) (conf : Conf) (n₀ : Names) {D : Type 0} (show_double : D → List ℕ) where
  -- From log_init on, wherever log_base and the log thread have come to: as soon as no further call
  -- comes, whatever steps are taken, they end, and only where the thread has nothing to read and no
  -- call is half done. Here malloc, the files, the pipe and the thread are given, the pipe has room
  -- for a byte, no call stores during a round, and fwrite takes all that a round gives it.
  pub Reach-Rests :
      let lg = logger_of sys (log_read_conf conf n₀).1 in
      (size : ℕ) (old_log old_wf : List ℕ) (todo : List (Act show_double)) (t : Waking)
      → 0 < size
      → Reach log_buf_size show_double sys.to_stderr size (begun (opened lg old_log old_wf)) todo t
      → Rests log_buf_size show_double sys.to_stderr size t
  Reach-Rests size old_log old_wf todo t room r =
      let n = (log_read_conf conf n₀).1 in
      let lg = logger_of sys n in
      rests log_buf_size show_double sys.to_stderr size lg room (omega arith) (measure t) t
        (omega arith)
        (Reach-IsAwaited log_buf_size show_double lg sys.to_stderr size room (omega arith) r
          (begun-IsAwaited sys n show_double old_log old_wf))
