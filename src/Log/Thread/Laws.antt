-- ===== src/Log/Thread/Laws.antt =====
-- What a round of the log thread keeps.
use nd.Base.{
  drop-all, ℕ, zero, suc, ◌≤◌, ◌<◌, ◌^◌, ◌≡◌, refl, ◌∙◌, ap, sym, not, ◌&&◌, append-nil, Bool, inl,
  inr, true, false, Bool-cases, some, List, [], ◌++◌, ◌∷◌, ◌==◌, length, length-drop, take, drop,
  take-append-drop, append_assoc, if◌then◌else◌, arith,
}
use nd.Log.Ring.{Ring, Output, contents, quiet}
use nd.Log.Ring.Wrap.{IsValid}
use nd.Log.Ring.Advance.{advance}
use nd.Log.Ring.Drain.{drain_lem}
use nd.Log.Thread.{Stream, Answers, State, reopen, flush, drain_file, thread_round}

-- All the text that a file was ever given.
abbrev pub given : Stream → List ℕ
given f = f.closed ++ f.text

abbrev pub IsFlushed : Stream → Type 0
IsFlushed f = f.flushed ≡ length f.text

given-reopen : (a : Answers) (f : Stream) → given (reopen a f) ≡ given f
unfolding reopen
given-reopen a f = elim (Bool-cases (a.gone && a.opens)) [
  | inl new ↦ rw new (append-nil (f.closed ++ f.text))
  | inr old ↦ rw old
]

reopen-IsFlushed : (a : Answers) (f : Stream) → IsFlushed f → IsFlushed (reopen a f)
unfolding reopen
reopen-IsFlushed a f h = ground arith

-- What was in the ring and the file before a round is in them after it, nothing waits to be
-- flushed, the ring holds no more than before, and where the second fwrite takes all, nothing.
pub record Passed (cap : ℕ) (a : Answers) (r : Ring) (f : Stream) (r' : Ring) (f' : Stream)
    : Type 0 where
  pub valid : IsValid cap r'
  pub conserved : given f' ++ contents cap r' ≡ given f ++ contents cap r
  pub flushed : IsFlushed f'
  pub emptied : cap ≤ a.second → contents cap r' ≡ []
  pub shrinks : length (contents cap r') ≤ length (contents cap r)

-- No producer is at work in the round, and its first fwrite takes what it is given.
pub record IsQuiet (cap : ℕ) (a : Answers) (r : Ring) : Type 0 where
  pub unmoved : a.seen ≡ quiet r
  pub takes : cap ≤ a.first

given-flush : (b : Bool) (f : Stream) → given (flush b f) ≡ given f
unfolding flush
given-flush true f = refl
given-flush false f = refl

flush-IsFlushed :
    (f : Stream) (k : ℕ) (xs : List ℕ)
    → IsFlushed f
    → IsFlushed (flush (not (length xs == 0)) (record f { text = f.text ++ take k xs }))
unfolding flush
flush-IsFlushed f zero [] h = rw append-nil h
flush-IsFlushed f (suc k) [] h = rw append-nil h
flush-IsFlushed f k (x ∷ xs) h = ground arith

module _ {cap : ℕ} (echo : Bool) (a : Answers) {r : Ring} {f : Stream} (v : IsValid cap r)
    (small : cap < 2 ^ 64) (q : IsQuiet cap a r) (h : IsFlushed f) where
  -- One ring and one file, from the drain to the flush.
  drain_file_lem :
      (r' : Ring) × (f' : Stream) × (out : Output) × (wrote : Bool) × (drain_file cap echo a r f
        ≡ some (r', f', out, wrote))
      × Passed cap a r f r' (flush wrote f')
  unfolding drain_file
  drain_file_lem =
      let (k, d) = drain_lem v small echo a.first a.second (λ w. omega (arith, q.takes)) in
      (
        advance cap r k,
        record f { text = f.text ++ take k (contents cap r) },
        record { file = take k (contents cap r); err = if echo then contents cap r else [] },
        not (length (contents cap r) == 0),
        rw (q.unmoved, d.result),
        record {
          valid = d.valid;
          conserved =
              ap (λ t. t ++ contents cap (advance cap r k))
                (given-flush (not (length (contents cap r) == 0))
                  (record f { text = f.text ++ take k (contents cap r) }))
              ∙ rw d.left (
                  ap (λ t. t ++ drop k (contents cap r))
                    (sym (append_assoc f.closed f.text (take k (contents cap r))))
                  ∙ append_assoc (given f) (take k (contents cap r)) (drop k (contents cap r))
                  ∙ ap (λ t. given f ++ t) (take-append-drop k (contents cap r)));
          flushed = flush-IsFlushed f k (contents cap r) h;
          emptied = λ e. d.left ∙ drop-all k (contents cap r) (omega (arith, d.whole q.takes e));
          shrinks = omega (arith, ap length d.left, length-drop k (contents cap r));
        },
      )

-- The reopening loses nothing.
Passed-reopen :
    {cap : ℕ} (a : Answers) {r r' : Ring} {f f' : Stream}
    → Passed cap a r (reopen a f) r' f'
    → Passed cap a r f r' f'
Passed-reopen {cap} a {r} {f} p = record {
  valid = p.valid;
  conserved = p.conserved ∙ ap (λ t. t ++ contents cap r) (given-reopen a f);
  flushed = p.flushed;
  emptied = p.emptied;
  shrinks = p.shrinks;
}

-- A round of the log thread with no producer at work, in which the first fwrite to each file takes
-- what it is given, does not fault. For each of the two logs, also where its file was replaced,
-- the text that was ever given to the file, followed by what is in the ring, stays the same;
-- nothing waits to be flushed; and the ring is empty where the second fwrite takes all.
pub thread_round_lem :
    {cap : ℕ} (echo : Bool) (a b : Answers) (s : State)
    → IsValid cap s.log
    → IsValid cap s.wf
    → cap < 2 ^ 64
    → IsQuiet cap a s.log
    → IsQuiet cap b s.wf
    → IsFlushed s.log_f
    → IsFlushed s.wf_f
    → (s' : State) × (thread_round cap echo a b s ≡ some s')
      × Passed cap a s.log s.log_f s'.log s'.log_f
      × Passed cap b s.wf s.wf_f s'.wf s'.wf_f
unfolding thread_round
thread_round_lem {cap} echo a b s v w small qa qb h k =
    let (log, log_f, out, wrote, e, p) =
      drain_file_lem echo a v small qa (reopen-IsFlushed a s.log_f h) in
    let (wf, wf_f, out', wrote', e', p') =
      drain_file_lem echo b w small qb (reopen-IsFlushed b s.wf_f k) in
    (
      record {
        log = log;
        wf = wf;
        log_f = flush wrote log_f;
        wf_f = flush wrote' wf_f;
        err = s.err ++ out.err ++ out'.err;
      },
      rw (e, e'),
      Passed-reopen a p,
      Passed-reopen b p',
    )
