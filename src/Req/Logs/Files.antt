-- ===== src/Req/Logs/Files.antt =====
-- From log_init through http_handler and the log thread to the two files.
use nd.Base.{
  ℕ, ◌<◌, ◌≤◌, ◌≡◌, refl, ap, ap₂, ◌∙◌, true, false, Option, some, List, [], ◌∷◌, ◌++◌, append-nil,
  length, codes, arith,
}
use nd.HttpClient.World.{Parts}
use nd.Log.Line.{Call}
use nd.Log.Levels.{notice, debug, log_has}
use nd.Log.Ring.{contents, log_buf_size}
use nd.Log.Setup.{
  Conf, Names, System, log_read_conf, log_init, logger_of, started, filename, level_of,
}
use nd.Log.Setup.Laws.{all_good, log_init_starts}
use nd.Log.Thread.{Answers}
use nd.Log.Thread.Laws.{given}
use nd.Log.Session.{Session, Act, call, round, acts}
use nd.Log.Session.Spec.{FirstTakesAll}
use nd.Log.Session.Start.{opened, opened-IsOpen}
use nd.Log.Session.Room.{calls_of, log_lines, wf_lines, acts-whole}
use nd.Req.Handler.{Ctx}
use nd.Req.Serving.{Arrival, AllServable}
use nd.Req.Logs.{Note, serve_calls}
use nd.Req.Logs.Laws.{access_lines, refusal_lines, arrivals_of, serve_calls_lem}

-- The rounds of the log thread behind each message, with what the world answers.
abbrev pub Rounds : Type 0
Rounds = List (List (Answers × Answers))

module _ {D : Type 0} (show_double : D → List ℕ) where
  abbrev pub with_round : List (Answers × Answers) → List (Act show_double) → List (Act show_double)
  with_round [] more = more
  with_round ((a, b) ∷ rs) more = round a b ∷ with_round rs more

  abbrev pub with_rounds : List (Call show_double) → Rounds → List (Act show_double)
  with_rounds [] rounds = []
  with_rounds (c ∷ cs) [] = call c ∷ with_rounds cs []
  with_rounds (c ∷ cs) (rs ∷ rounds) = call c ∷ with_round rs (with_rounds cs rounds)

-- fwrite takes what the first call for each file gives it.
abbrev pub RoundTakes : List (Answers × Answers) → Type 0
RoundTakes [] = Unit
RoundTakes ((a, b) ∷ rs) = (log_buf_size ≤ a.first) × ((log_buf_size ≤ b.first) × RoundTakes rs)

abbrev pub RoundsTake : Rounds → Type 0
RoundsTake [] = Unit
RoundsTake (rs ∷ rounds) = RoundTakes rs × RoundsTake rounds

module _ {D : Type 0} (show_double : D → List ℕ) where
  calls_of-with_round :
      (rs : List (Answers × Answers)) (more : List (Act show_double))
      → calls_of log_buf_size show_double (with_round show_double rs more)
        ≡ calls_of log_buf_size show_double more
  calls_of-with_round [] more = refl
  calls_of-with_round (ab ∷ rs) more = calls_of-with_round rs more

  calls_of-with_rounds :
      (cs : List (Call show_double)) (rounds : Rounds)
      → calls_of log_buf_size show_double (with_rounds show_double cs rounds) ≡ cs
  calls_of-with_rounds [] rounds = refl
  calls_of-with_rounds (c ∷ cs) [] = ap (λ xs. c ∷ xs) (calls_of-with_rounds cs [])
  calls_of-with_rounds (c ∷ cs) (rs ∷ rounds) =
      ap (λ xs. c ∷ xs)
        (calls_of-with_round rs (with_rounds show_double cs rounds)
          ∙ calls_of-with_rounds cs rounds)

  with_round-takes :
      (rs : List (Answers × Answers)) (more : List (Act show_double))
      → RoundTakes rs
      → FirstTakesAll log_buf_size show_double more
      → FirstTakesAll log_buf_size show_double (with_round show_double rs more)
  with_round-takes [] more t u = u
  with_round-takes ((a, b) ∷ rs) more (x, (y, t)) u = (x, (y, with_round-takes rs more t u))

  with_rounds-takes :
      (cs : List (Call show_double)) (rounds : Rounds)
      → RoundsTake rounds
      → FirstTakesAll log_buf_size show_double (with_rounds show_double cs rounds)
  with_rounds-takes [] rounds t = tt
  with_rounds-takes (c ∷ cs) [] t = with_rounds-takes cs [] tt
  with_rounds-takes (c ∷ cs) (rs ∷ rounds) (t, u) =
      with_round-takes rs (with_rounds show_double cs rounds) t (with_rounds-takes cs rounds u)

module _ (parse : List ℕ → Option Parts) (google baidu : Parts)
    (p : parse (codes "http://www.google.com/") ≡ some google)
    (q : parse (codes "http://www.baidu.com/") ≡ some baidu) {D : Type 0} (show_double : D → List ℕ)
    (sys : System) (conf : Conf) (n₀ : Names) where
  -- From log_init on, with a level of NOTICE or TRACE: any sequence of requests is served, and
  -- whatever rounds of the log thread come between its messages, the log file and what waits for it
  -- hold, behind what was in the file, one line for each request, in order, with its error code, its
  -- command number and the result of get_post_data, behind the line of get_post_data where that has
  -- refused the body; the .wf file likewise has the warning of get_post_data, and one for each
  -- request whose command has no backend. Here malloc, the files, the pipe and the thread are given,
  -- the urls of the backends are uris, each response is one that the callback can take, the lines
  -- for each file are fewer bytes than a ring, fwrite takes what the first call of a round for each
  -- file gives it, and no producer works during a round.
  pub served-logged :
      let n = (log_read_conf conf n₀).1 in
      let lg = logger_of sys n in
      (old_log old_wf : List ℕ) (served : List (Arrival × Note)) (c : Ctx) (rounds : Rounds)
      → sys.allocates ≡ true
      → all_good sys n ≡ true
      → log_has notice (level_of n.level) ≡ true
      → log_has debug (level_of n.level) ≡ false
      → AllServable parse (arrivals_of served)
      → RoundsTake rounds
      → length (access_lines log_buf_size show_double lg served) < log_buf_size
      → length (refusal_lines log_buf_size show_double lg served) < log_buf_size
      → (calls : List (Call show_double)) × (c' : Ctx) × (t : Session) × (log_init sys conf n₀
          ≡ some
              (started lg (filename (codes ".log") n) (filename (codes ".log.wf") n) sys.to_stderr))
        × (serve_calls show_double parse served c ≡ some (calls, c'))
        × (acts log_buf_size show_double sys.to_stderr
              (opened lg old_log old_wf)
              (with_rounds show_double calls rounds)
            ≡ some t)
        × (given t.log_f ++ contents log_buf_size t.lg.log
            ≡ old_log ++ access_lines log_buf_size show_double lg served)
        × (given t.wf_f ++ contents log_buf_size t.lg.wf
            ≡ old_wf ++ refusal_lines log_buf_size show_double lg served)
  served-logged old_log old_wf served c rounds a b notices quiet all take small_log small_wf =
      let n = (log_read_conf conf n₀).1 in
      let lg = logger_of sys n in
      let (calls, c', e, x, y) =
        serve_calls_lem log_buf_size show_double lg notices quiet parse google baidu p q served c
          all in
      let todo = with_rounds show_double calls rounds in
      let same = calls_of-with_rounds show_double calls rounds in
      let x' = ap (log_lines log_buf_size show_double lg) same ∙ x in
      let y' = ap (wf_lines log_buf_size show_double lg) same ∙ y in
      let (t, e', l, f) =
        acts-whole log_buf_size show_double lg sys.to_stderr (opened lg old_log old_wf) todo
          (opened-IsOpen sys n show_double old_log old_wf) (omega arith)
          (with_rounds-takes show_double calls rounds take) (omega (arith, ap length x', small_log))
          (omega (arith, ap length y', small_wf)) in
      (
        calls,
        c',
        t,
        log_init_starts sys conf n₀ a b,
        e,
        e',
        l ∙ ap₂ (λ s u. s ++ u) (append-nil old_log) x',
        f ∙ ap₂ (λ s u. s ++ u) (append-nil old_wf) y',
      )
