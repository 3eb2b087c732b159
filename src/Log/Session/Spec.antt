-- ===== src/Log/Session/Spec.antt =====
-- What the two log files are to get of the messages: two buffers, each of a bounded size.
use nd.Base.{ℕ, ◌+◌, ◌-◌, ◌≤◌, ◌≡◌, true, false, List, [], ◌∷◌, ◌++◌, length, leb}
use nd.Log.Ring.{contents, fit}
use nd.Log.Line.{Call, temp_buf_size}
use nd.Log.Line.Laws.{call_text}
use nd.Log.Printf.{Logger, log_warning}
use nd.Log.Printf.Laws.{IsReady}
use nd.Log.Thread.{Answers}
use nd.Log.Thread.Laws.{given, IsFlushed}
use nd.Log.Session.{Session, Act, call, round}

module _ (cap : ℕ) {D : Type 0} (show_double : D → List ℕ) where
  -- fwrite takes what the first call for each file gives it.
  abbrev pub FirstTakesAll : List (Act show_double) → Type 0
  FirstTakesAll [] = Unit
  FirstTakesAll (call c ∷ more) = FirstTakesAll more
  FirstTakesAll (round a b ∷ more) = (cap ≤ a.first) × ((cap ≤ b.first) × FirstTakesAll more)

module _ (cap : ℕ) {D : Type 0} (show_double : D → List ℕ) (lg₀ : Logger) where
  -- The line of a message.
  abbrev pub line_of : Call show_double → List ℕ
  line_of c = fit temp_buf_size (call_text show_double lg₀.name lg₀.pid c)

  -- What some calls and rounds put into the log and the .wf file, where `u` and `v` bytes are in the
  -- rings: the lines, each cut to what is free in its ring. A round takes bytes out, and all of them
  -- where the second fwrite takes all.
  pub data Written : ℕ → ℕ → List (Act show_double) → List ℕ → List ℕ → Type 0 where
    over : {u v : ℕ} → Written u v [] [] []
    dropped :
        {u v : ℕ} {more : List (Act show_double)} {xs ys : List ℕ} (c : Call show_double)
        → leb c.level lg₀.log_level ≡ false
        → Written u v more xs ys
        → Written u v (call c ∷ more) xs ys
    to_wf :
        {u v : ℕ} {more : List (Act show_double)} {xs ys : List ℕ} (c : Call show_double)
        → leb c.level lg₀.log_level ≡ true
        → leb c.level log_warning ≡ true
        → Written u (v + length (fit (cap - v) (line_of c))) more xs ys
        → Written u v (call c ∷ more) xs (fit (cap - v) (line_of c) ++ ys)
    to_log :
        {u v : ℕ} {more : List (Act show_double)} {xs ys : List ℕ} (c : Call show_double)
        → leb c.level lg₀.log_level ≡ true
        → leb c.level log_warning ≡ false
        → Written (u + length (fit (cap - u) (line_of c))) v more xs ys
        → Written u v (call c ∷ more) (fit (cap - u) (line_of c) ++ xs) ys
    drained :
        {u v : ℕ} {more : List (Act show_double)} {xs ys : List ℕ} (a b : Answers) (u' v' : ℕ)
        → u' ≤ u
        → v' ≤ v
        → (cap ≤ a.second → u' ≡ 0)
        → (cap ≤ b.second → v' ≡ 0)
        → Written u' v' more xs ys
        → Written u v (round a b ∷ more) xs ys

  -- A logger as it was set up, with files in which nothing waits to be flushed.
  pub record IsOpen (s : Session) : Type 0 where
    pub ready : IsReady cap s.lg
    pub log_flushed : IsFlushed s.log_f
    pub wf_flushed : IsFlushed s.wf_f
    pub name : s.lg.name ≡ lg₀.name
    pub pid : s.lg.pid ≡ lg₀.pid
    pub level : s.lg.log_level ≡ lg₀.log_level

  -- All that a file was given, and what waits for it in its ring.
  abbrev pub in_log : Session → List ℕ
  in_log s = given s.log_f ++ contents cap s.lg.log

  abbrev pub in_wf : Session → List ℕ
  in_wf s = given s.wf_f ++ contents cap s.lg.wf

  -- What waits in the rings.
  abbrev pub used_log : Session → ℕ
  used_log s = length (contents cap s.lg.log)

  abbrev pub used_wf : Session → ℕ
  used_wf s = length (contents cap s.lg.wf)
