-- ===== src/Log/Session/Room.antt =====
-- Messages that the two rings have room for: their lines reach the files whole.
use nd.Base.{
  ◌*◌, append_assoc, Bool, some, ◌^◌, ℕ, ◌+◌, ◌-◌, ◌<◌, ◌≤◌, ◌≡◌, refl, ap, ap₂, ◌∙◌, sym, inl, inr,
  Bool-cases, true, false, List, [], ◌∷◌, ◌++◌, length, length-append, leb, if◌then◌else◌, arith,
}
use nd.Log.Ring.Store.{fit_lem, length-fit}
use nd.Log.Line.{Call, temp_buf_size}
use nd.Log.Line.Laws.{call_text}
use nd.Log.Printf.{Logger, log_warning}
use nd.Log.Session.{Session, Act, call, round, acts}
use nd.Log.Session.Laws.{acts-Written}
use nd.Log.Session.Spec.{
  Written, over, dropped, to_wf, to_log, drained, line_of, FirstTakesAll, IsOpen, in_log, in_wf,
  used_log, used_wf,
}

module _ (cap : ℕ) {D : Type 0} (show_double : D → List ℕ) where
  -- The messages among some calls and rounds.
  abbrev pub calls_of : List (Act show_double) → List (Call show_double)
  calls_of [] = []
  calls_of (call c ∷ more) = c ∷ calls_of more
  calls_of (round a b ∷ more) = calls_of more

module _ (cap : ℕ) {D : Type 0} (show_double : D → List ℕ) (lg₀ : Logger) where
  -- The lines of the messages that go to the .wf file, and of those that go to the log.
  unfoldable pub wf_lines : List (Call show_double) → List ℕ
  wf_lines [] = []
  wf_lines (c ∷ cs) =
      let rest = wf_lines cs in
      if leb c.level lg₀.log_level
      then (if leb c.level log_warning then line_of cap show_double lg₀ c ++ rest else rest)
      else rest

  unfoldable pub log_lines : List (Call show_double) → List ℕ
  log_lines [] = []
  log_lines (c ∷ cs) =
      let rest = log_lines cs in
      if leb c.level lg₀.log_level
      then (if leb c.level log_warning then rest else line_of cap show_double lg₀ c ++ rest)
      else rest

  abbrev line : Call show_double → List ℕ
  line = line_of cap show_double lg₀

  abbrev calls : List (Act show_double) → List (Call show_double)
  calls = calls_of cap show_double

  module _ (c : Call show_double) (cs : List (Call show_double)) where
    pub lines_dropped :
        leb c.level lg₀.log_level ≡ false
        → (log_lines (c ∷ cs) ≡ log_lines cs) × (wf_lines (c ∷ cs) ≡ wf_lines cs)
    unfolding log_lines wf_lines
    lines_dropped above = (ground (arith, above), ground (arith, above))

    pub lines_to_wf :
        leb c.level lg₀.log_level ≡ true
        → leb c.level log_warning ≡ true
        → (log_lines (c ∷ cs) ≡ log_lines cs) × (wf_lines (c ∷ cs) ≡ line c ++ wf_lines cs)
    unfolding log_lines wf_lines
    lines_to_wf within warning = (ground (arith, within, warning), ground (arith, within, warning))

    pub lines_to_log :
        leb c.level lg₀.log_level ≡ true
        → leb c.level log_warning ≡ false
        → (log_lines (c ∷ cs) ≡ line c ++ log_lines cs) × (wf_lines (c ∷ cs) ≡ wf_lines cs)
    unfolding log_lines wf_lines
    lines_to_log within other = (ground (arith, within, other), ground (arith, within, other))

  pub lines-append :
      (xs ys : List (Call show_double))
      → (log_lines (xs ++ ys) ≡ log_lines xs ++ log_lines ys)
        × (wf_lines (xs ++ ys) ≡ wf_lines xs ++ wf_lines ys)
  unfolding log_lines wf_lines
  lines-append [] ys = (refl, refl)
  lines-append (c ∷ cs) ys =
      let (x, y) = lines-append cs ys in
      elim (Bool-cases (leb c.level lg₀.log_level)) [
        | inr above ↦ (ground (arith, above, x), ground (arith, above, y))
        | inl within ↦ elim (Bool-cases (leb c.level log_warning)) [
          | inl warning ↦ (
            ground (arith, within, warning, x),
            ground (arith, within, warning, y, append_assoc (line c) (wf_lines cs) (wf_lines ys)),
          )
          | inr other ↦ (
            ground (arith, within, other, x, append_assoc (line c) (log_lines cs) (log_lines ys)),
            ground (arith, within, other, y),
          )
        ]
      ]

  -- Each line is shorter than _log_temp_buf.
  pub length-lines :
      (cs : List (Call show_double))
      → (length (log_lines cs) ≤ temp_buf_size * length cs)
        × (length (wf_lines cs) ≤ temp_buf_size * length cs)
  unfolding log_lines wf_lines
  length-lines [] = (omega arith, omega arith)
  length-lines (c ∷ cs) =
      let (x, y) = length-lines cs in
      let n = length-fit temp_buf_size (call_text show_double lg₀.name lg₀.pid c) (omega arith) in
      elim (Bool-cases (leb c.level lg₀.log_level)) [
        | inr above ↦
            let (e, f) = lines_dropped c cs above in
            (omega (arith, ap length e, x), omega (arith, ap length f, y))
        | inl within ↦ elim (Bool-cases (leb c.level log_warning)) [
          | inl warning ↦
              let (e, f) = lines_to_wf c cs within warning in
              let k = length-append (line c) (wf_lines cs) in
              (omega (arith, ap length e, x), omega (arith, ap length f, y, n, k))
          | inr other ↦
              let (e, f) = lines_to_log c cs within other in
              let k = length-append (line c) (log_lines cs) in
              (omega (arith, ap length e, x, n, k), omega (arith, ap length f, y))
        ]
      ]

  -- Where the lines of some messages fit into their rings with what is there, none of them is cut.
  pub Written-whole :
      (todo : List (Act show_double)) {u v : ℕ} {xs ys : List ℕ}
      → Written cap show_double lg₀ u v todo xs ys
      → u + length (log_lines (calls todo)) < cap
      → v + length (wf_lines (calls todo)) < cap
      → (xs ≡ log_lines (calls todo)) × (ys ≡ wf_lines (calls todo))
  unfolding log_lines wf_lines
  Written-whole [] {u} {v} over h k = (refl, refl)
  Written-whole (call c ∷ more) {u} {v} (dropped d above w) h k =
      let (e, f) = lines_dropped c (calls more) above in
      let (x, y) =
        Written-whole more w (omega (arith, ap length e, h)) (omega (arith, ap length f, k)) in
      (x ∙ sym e, y ∙ sym f)
  Written-whole (call c ∷ more) {u} {v} (to_wf d within warning w) h k =
      let (e, f) = lines_to_wf c (calls more) within warning in
      let n = length-append (line c) (wf_lines (calls more)) in
      let whole = (fit_lem (cap - v) (line c)).0 (omega (arith, ap length f, n, k)) in
      let (x, y) =
        Written-whole more w (omega (arith, ap length e, h))
          (omega (arith, ap length whole, ap length f, n, k)) in
      (x ∙ sym e, ap₂ (λ a b. a ++ b) whole y ∙ sym f)
  Written-whole (call c ∷ more) {u} {v} (to_log d within other w) h k =
      let (e, f) = lines_to_log c (calls more) within other in
      let n = length-append (line c) (log_lines (calls more)) in
      let whole = (fit_lem (cap - u) (line c)).0 (omega (arith, ap length e, n, h)) in
      let (x, y) =
        Written-whole more w (omega (arith, ap length whole, ap length e, n, h))
          (omega (arith, ap length f, k)) in
      (ap₂ (λ a b. a ++ b) whole x ∙ sym e, y ∙ sym f)
  Written-whole (round a' b' ∷ more) {u} {v} (drained a b u' v' p q r s w) h k =
      Written-whole more w (omega arith) (omega arith)

  -- Both files and rings then get the lines of the messages whole, in order.
  pub acts-whole :
      (echo : Bool) (s : Session) (todo : List (Act show_double))
      → IsOpen cap show_double lg₀ s
      → cap < 2 ^ 64
      → FirstTakesAll cap show_double todo
      → used_log cap show_double lg₀ s + length (log_lines (calls todo)) < cap
      → used_wf cap show_double lg₀ s + length (wf_lines (calls todo)) < cap
      → (t : Session) × (acts cap show_double echo s todo ≡ some t)
        × (in_log cap show_double lg₀ t ≡ in_log cap show_double lg₀ s ++ log_lines (calls todo))
        × (in_wf cap show_double lg₀ t ≡ in_wf cap show_double lg₀ s ++ wf_lines (calls todo))
  acts-whole echo s todo o small takes h k =
      let (t, xs, ys, e, o', w, l, f) =
        acts-Written cap show_double lg₀ echo s todo o small takes in
      let (x, y) = Written-whole todo w h k in
      (
        t,
        e,
        l ∙ ap (λ zs. in_log cap show_double lg₀ s ++ zs) x,
        f ∙ ap (λ zs. in_wf cap show_double lg₀ s ++ zs) y,
      )
