-- ===== src/Log/Wake/Asleep.antt =====
-- From log_init to the log thread at rest.
use nd.Base.{
  ℕ, ◌<◌, ◌≡◌, ap, subst, ◌∙◌, sym, result, true, false, List, [], ◌++◌, append-nil, arith,
}
use nd.Log.Ring.{contents, log_buf_size}
use nd.Log.Setup.{Conf, Names, System, log_read_conf, logger_of}
use nd.Log.Setup.Laws.{all_good, logger_of-IsNew}
use nd.Log.Thread.Laws.{given, IsFlushed}
use nd.Log.Session.{Session, Act}
use nd.Log.Session.Spec.{Written}
use nd.Log.Session.Start.{opened, opened-IsOpen}
use nd.Log.Session.Laws.{acts-Written}
use nd.Log.Wake.{Waking, Reach}
use nd.Log.Wake.Laws.{IsAwaited, Reach-IsAwaited, Reach-acts}

-- Behind log_init, with both files open.
abbrev pub begun : Session → Waking
begun s = record { session = s; pipe = 0; writing = false; awake = false }

pub begun-IsAwaited :
    (sys : System) (n : Names) {D : Type 0} (show_double : D → List ℕ) (old_log old_wf : List ℕ)
    → IsAwaited log_buf_size show_double
        (logger_of sys n)
        sys.to_stderr
        (begun (opened (logger_of sys n) old_log old_wf))
begun-IsAwaited sys n show_double old_log old_wf =
    let new = logger_of-IsNew sys n in
    record {
      is_open = opened-IsOpen sys n show_double old_log old_wf;
      empty = λ e f g. record { log = new.log_empty; wf = new.wf_empty };
    }

-- A text is what a file was given, and all of it was flushed.
pub record IsOnDisk (text : List ℕ) (t : Session) (wf : List ℕ) : Type 0 where
  pub log : given t.log_f ≡ text
  pub wf_log : given t.wf_f ≡ wf
  pub log_flushed : IsFlushed t.log_f
  pub wf_flushed : IsFlushed t.wf_f

module _ (sys : System) (conf : Conf) (n₀ : Names) {D : Type 0} (show_double : D → List ℕ) where
  -- From log_init on, for any interleaving of log_base with the log thread, where a call stores its
  -- line and writes its byte to the pipe in two steps: whenever the thread has nothing to read and
  -- no call is half done, all that the calls were to write is in the two files and flushed. So no
  -- wake-up is lost, also where the pipe was full. Here malloc, the files, the pipe and the thread
  -- are given, the pipe has room for a byte, no call stores during a round, and fwrite takes all that
  -- a round gives it.
  pub asleep-IsOnDisk :
      let lg = logger_of sys (log_read_conf conf n₀).1 in
      (size : ℕ) (old_log old_wf : List ℕ) (todo : List (Act show_double)) (t : Waking)
      → sys.allocates ≡ true
      → all_good sys (log_read_conf conf n₀).1 ≡ true
      → 0 < size
      → Reach log_buf_size show_double sys.to_stderr size (begun (opened lg old_log old_wf)) todo t
      → t.awake ≡ false
      → t.writing ≡ false
      → t.pipe ≡ 0
      → (xs ys : List ℕ) × Written log_buf_size show_double lg 0 0 todo xs ys
        × IsOnDisk (old_log ++ xs) t.session (old_wf ++ ys)
  asleep-IsOnDisk size old_log old_wf todo t a b room r asleep quiet none_left =
      let n = (log_read_conf conf n₀).1 in
      let lg = logger_of sys n in
      let o = opened-IsOpen sys n show_double old_log old_wf in
      let w =
        Reach-IsAwaited log_buf_size show_double lg sys.to_stderr size room (omega arith) r
          (begun-IsAwaited sys n show_double old_log old_wf) in
      let (e, takes) =
        Reach-acts log_buf_size show_double lg sys.to_stderr size room (omega arith) r in
      let empty = w.empty asleep quiet none_left in
      let (u, xs, ys, e', o', k, l, m) =
        acts-Written log_buf_size show_double lg sys.to_stderr (opened lg old_log old_wf) todo o
          (omega arith) takes in
      let same : u ≡ t.session = result e' e in
      let l' =
        subst (λ s. given s.log_f ++ contents log_buf_size s.lg.log ≡ (old_log ++ []) ++ xs) same
          l in
      let m' =
        subst (λ s. given s.wf_f ++ contents log_buf_size s.lg.wf ≡ (old_wf ++ []) ++ ys) same m in
      (
        xs,
        ys,
        k,
        record {
          log =
              all_given (given t.session.log_f) empty.log l'
              ∙ ap (λ c. c ++ xs) (append-nil old_log);
          wf_log =
              all_given (given t.session.wf_f) empty.wf m' ∙ ap (λ c. c ++ ys) (append-nil old_wf);
          log_flushed = w.is_open.log_flushed;
          wf_flushed = w.is_open.wf_flushed;
        },
      )
    where
      all_given : (f : List ℕ) {c text : List ℕ} → c ≡ [] → f ++ c ≡ text → f ≡ text
      all_given f e g = sym (append-nil f) ∙ sym (ap (λ d. f ++ d) e) ∙ g
