-- ===== src/Log/Printf/Laws.antt =====
-- Which ring a call of log_printf reaches, and with what.
use nd.Base.{
  ℕ, ◌-◌, ◌<◌, ◌≡◌, refl, ◌∙◌, ap, inl, inr, Bool-cases, some, List, ◌++◌, length, leb,
  if◌then◌else◌, arith,
}
use nd.Log.Ring.{Ring, contents, fit}
use nd.Log.Ring.Wrap.{IsValid}
use nd.Log.Ring.Store.{put_line_lem}
use nd.Log.Line.{Call, format, temp_buf_size}
use nd.Log.Line.Laws.{call_text, format-fit}
use nd.Log.Printf.{Logger, log_warning, log_base}

-- Both rings are valid.
pub record IsReady (cap : ℕ) (lg : Logger) : Type 0 where
  pub log : IsValid cap lg.log
  pub wf : IsValid cap lg.wf

-- A ring's contents with a line behind them, cut to the free bytes.
abbrev pub with_line : ℕ → Ring → List ℕ → List ℕ
with_line cap r text = contents cap r ++ fit (cap - length (contents cap r)) text

module _ (cap : ℕ) {D : Type 0} (show_double : D → List ℕ) {lg : Logger} (call : Call show_double)
    (ready : IsReady cap lg) where
  abbrev pub line : List ℕ
  line = fit temp_buf_size (call_text show_double lg.name lg.pid call)

  -- What a call leaves: `to_log` and `to_wf` say what the rings then hold.
  pub record Logged (to_log to_wf : List ℕ) (lg' : Logger) : Type 0 where
    pub ready' : IsReady cap lg'
    pub same_name : lg'.name ≡ lg.name
    pub same_pid : lg'.pid ≡ lg.pid
    pub same_level : lg'.log_level ≡ lg.log_level
    pub in_log : contents cap lg'.log ≡ to_log
    pub in_wf : contents cap lg'.wf ≡ to_wf

  -- The rings may change, the name, the pid and the level stay.
  Logged-rings :
      {to_log to_wf : List ℕ} {log wf : Ring} {woken : ℕ}
      → IsValid cap log
      → IsValid cap wf
      → contents cap log ≡ to_log
      → contents cap wf ≡ to_wf
      → Logged to_log to_wf (record lg { log = log; wf = wf; woken = woken })
  Logged-rings l w in_l in_w = record {
    ready' = record { log = l; wf = w };
    same_name = refl;
    same_pid = refl;
    same_level = refl;
    in_log = in_l;
    in_wf = in_w;
  }

  -- The line that log_printf has built.
  built :
      (r : Ring)
      → with_line cap r (format show_double temp_buf_size lg.name lg.pid call)
        ≡ with_line cap r line
  built r =
      ap (with_line cap r) (format-fit show_double temp_buf_size lg.name lg.pid call (omega arith))

  -- A message above the level is dropped, and nothing changes. Any other is built into its line,
  -- the whole text cut to the line buffer; at WARNING and FATAL it goes behind what the .wf ring
  -- holds, at the other levels behind what the log ring holds, cut to the room there. The other
  -- ring stays, the name, the pid and the level too, and nothing faults.
  pub log_base_lem :
      (lg' : Logger) × (log_base cap show_double lg call ≡ some lg')
      × Logged
          (if leb call.level lg.log_level
            then (if leb call.level log_warning
                then contents cap lg.log
                else with_line cap lg.log line)
            else contents cap lg.log)
          (if leb call.level lg.log_level
            then (if leb call.level log_warning
                then with_line cap lg.wf line
                else contents cap lg.wf)
            else contents cap lg.wf)
          lg'
  unfolding log_base
  log_base_lem = elim (Bool-cases (leb call.level lg.log_level)) [
    | inr above ↦ rw above (lg, refl, Logged-rings ready.log ready.wf refl refl)
    | inl within ↦ elim (Bool-cases (leb call.level log_warning)) [
      | inl warning ↦
          let (r', e, v', _, c) =
            put_line_lem (format show_double temp_buf_size lg.name lg.pid call) ready.wf in
          rw (within, warning, e) (_, refl, Logged-rings ready.log v' refl (c ∙ built lg.wf))
      | inr other ↦
          let (r', e, v', _, c) =
            put_line_lem (format show_double temp_buf_size lg.name lg.pid call) ready.log in
          rw (within, other, e) (_, refl, Logged-rings v' ready.wf (c ∙ built lg.log) refl)
    ]
  ]

-- Whatever the state of the rings.
pub log_base_above :
    (cap : ℕ) {D : Type 0} (show_double : D → List ℕ) (lg : Logger) (call : Call show_double)
    → lg.log_level < call.level
    → log_base cap show_double lg call ≡ some lg
unfolding log_base
log_base_above cap show_double lg call h = ground (arith, h)
