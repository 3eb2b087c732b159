-- ===== src/Log/Ring/Fifo.antt =====
-- A ring between the callers of log_printf and the log file: any sequence of lines and rounds.
use nd.Base.{
  ℕ, subst, ◌+◌, ◌-◌, ◌^◌, ◌≤◌, ◌<◌, ◌≡◌, refl, ap, sym, ◌∙◌, Bool, Option, some, List, [], ◌∷◌,
  ◌++◌, append_assoc, append-nil, length, length-drop, length-append, length-tabulate, take,
  take-append-drop, arith, ◌>>=◌,
}
use nd.Log.Ring.{Ring, held, byte_at, contents, fit, put_line, drain, quiet}
use nd.Log.Ring.Wrap.{IsValid, held-lt}
use nd.Log.Ring.Store.{fit_lem, put_line_lem}
use nd.Log.Ring.Advance.{advance}
use nd.Log.Ring.Drain.{drain_lem}

-- A line that log_printf hands over, or a round of the log thread with what fwrite takes.
pub data Event : Type 0 where
  line : List ℕ → Event
  round : ℕ → ℕ → Event

module _ (cap : ℕ) (echo : Bool) where
  -- The ring and the log file, opened for appending, after the events in order.
  pub run : Ring → List ℕ → List Event → Option (Ring × List ℕ)
  run r file [] = some (r, file)
  run r file (line bytes ∷ es) = do r' ← put_line cap r bytes; run r' file es
  run r file (round first second ∷ es) = do
    (r', out, _) ← drain cap echo (quiet r) first second r
    run r' (file ++ out.file) es

-- The text of the lines, where `u` bytes are in the ring: each line cut to what is free, which is
-- what those before it and the rounds have left. A round takes bytes out of the ring, and all of them
-- where the second fwrite takes all.
pub data Kept (cap : ℕ) : ℕ → List Event → List ℕ → Type 0 where
  over : {u : ℕ} → Kept cap u [] []
  kept :
      {u : ℕ} {es : List Event} {out : List ℕ} (bytes : List ℕ)
      → u < cap
      → Kept cap (u + length (fit (cap - u) bytes)) es out
      → Kept cap u (line bytes ∷ es) (fit (cap - u) bytes ++ out)
  skip :
      {u : ℕ} {es : List Event} {out : List ℕ} (first second u' : ℕ)
      → u' ≤ u
      → (cap ≤ second → u' ≡ 0)
      → Kept cap u' es out
      → Kept cap u (round first second ∷ es) out

-- fwrite takes all that the first call of a round gives it.
abbrev pub FirstTakesAll : ℕ → List Event → Type 0
FirstTakesAll cap [] = Unit
FirstTakesAll cap (line bytes ∷ es) = FirstTakesAll cap es
FirstTakesAll cap (round first second ∷ es) = (cap ≤ first) × FirstTakesAll cap es

-- In any sequence of lines and rounds in which fwrite takes what the first call of a round gives it
-- and no producer works during a round, nothing faults, and the log file followed by what is left
-- in the ring is what they were, followed by the lines in order, each cut to the bytes that are free
-- in the ring when it comes: the size of the ring less what it held at first and has got since, and
-- what the rounds have taken out, which is all where the second fwrite takes all.
pub run-Kept :
    {cap : ℕ} (echo : Bool) (file : List ℕ) (es : List Event) {r : Ring}
    → IsValid cap r
    → cap < 2 ^ 64
    → FirstTakesAll cap es
    → (r' : Ring) × (file' : List ℕ) × (out : List ℕ) × (run cap echo r file es ≡ some (r', file'))
      × IsValid cap r'
      × Kept cap (length (contents cap r)) es out
      × (file' ++ contents cap r' ≡ (file ++ contents cap r) ++ out)
unfolding run
run-Kept echo file [] {r} v small takes = (r, file, [], refl, v, over, sym (append-nil _))
run-Kept {cap} echo file (line bytes ∷ es) {r} v small takes =
    let (r', e, v', _, c) = put_line_lem bytes v in
    let (r'', file'', out, e', v'', k, c') = run-Kept echo file es v' small takes in
    (
      r'',
      file'',
      fit (cap - length (contents cap r)) bytes ++ out,
      rw (e, e'),
      v'',
      kept bytes (omega (arith, held-lt v, length-tabulate {0} (held cap r) (byte_at cap r))) (
          subst (λ u. Kept cap u es out)
            (ap length c
              ∙ length-append (contents cap r) (fit (cap - length (contents cap r)) bytes))
            k),
      c' ∙ rw c (simp append_assoc),
    )
run-Kept {cap} echo file (round first second ∷ es) {r} v small takes =
    let (k, d) = drain_lem v small echo first second (λ w. omega arith) in
    let (r'', file'', out, e', v'', kept', c') =
      run-Kept echo (file ++ take k (contents cap r)) es d.valid small takes.1 in
    (
      r'',
      file'',
      out,
      rw d.result e',
      v'',
      skip first second (length (contents cap (advance cap r k)))
          (omega (arith, ap length d.left, length-drop k (contents cap r)))
          (λ q. omega (arith, ap length d.left, length-drop k (contents cap r), d.whole takes.0 q))
          kept',
      c'
          ∙ ap (λ t. t ++ out)
              (append_assoc file (take k (contents cap r)) _
                ∙ ap (λ t. file ++ t) (rw d.left (take-append-drop k (contents cap r)))),
    )

-- The text of all the lines, whole.
abbrev pub lines : List Event → List ℕ
lines [] = []
lines (line bytes ∷ es) = bytes ++ lines es
lines (round first second ∷ es) = lines es

-- Where all the lines together leave a byte of the ring free, no byte of them is lost, however few
-- the rounds are: the log file followed by what is left in the ring is what they were, followed by
-- the text of the lines. As above, fwrite takes what the first call of a round gives it, and no
-- producer works during a round.
run_lossless :
    {cap : ℕ} (echo : Bool) (file : List ℕ) (es : List Event) {r : Ring}
    → IsValid cap r
    → cap < 2 ^ 64
    → FirstTakesAll cap es
    → length (contents cap r) + length (lines es) < cap
    → (r' : Ring) × (file' : List ℕ) × (run cap echo r file es ≡ some (r', file'))
      × (file' ++ contents cap r' ≡ (file ++ contents cap r) ++ lines es)
unfolding run
run_lossless echo file [] {r} v small takes room = (r, file, refl, sym (append-nil _))
run_lossless {cap} echo file (line bytes ∷ es) {r} v small takes room =
    let (r', e, v', _, c) = put_line_lem bytes v in
    let whole : fit (cap - length (contents cap r)) bytes ≡ bytes =
      (fit_lem _ bytes).0 (omega (arith, length-append bytes (lines es))) in
    let c₁ : contents cap r' ≡ contents cap r ++ bytes = c ∙ ap (λ t. contents cap r ++ t) whole in
    let (r'', file'', e', c') = run_lossless echo file es v' small takes (
      rw c₁
        (omega (arith, length-append bytes (lines es), length-append (contents cap r) bytes))) in
    (r'', file'', rw (e, e'), c' ∙ rw c₁ (simp append_assoc))
run_lossless {cap} echo file (round first second ∷ es) {r} v small takes room =
    let (k, d) = drain_lem v small echo first second (λ w. omega arith) in
    let (r'', file'', e', c') =
      run_lossless echo (file ++ take k (contents cap r)) es d.valid small takes.1
        (rw d.left (omega (arith, length-drop k (contents cap r)))) in
    (
      r'',
      file'',
      rw d.result e',
      c'
          ∙ ap (λ t. t ++ lines es)
              (append_assoc file (take k (contents cap r)) _
                ∙ ap (λ t. file ++ t) (rw d.left (take-append-drop k (contents cap r)))),
    )
