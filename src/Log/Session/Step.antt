-- ===== src/Log/Session/Step.antt =====
-- What the two log files get of one call or round of the log thread.
use nd.Base.{
  ℕ, length-append, ◌-◌, ◌+◌, ◌^◌, ◌≤◌, ◌<◌, ◌≡◌, refl, ap, subst, ap₂, sym, ◌∙◌, inl, inr, Bool,
  Bool-cases, some, List, [], ◌∷◌, ◌++◌, append_assoc, append-nil, length, leb, arith,
}
use nd.Log.Ring.{contents, fit}
use nd.Log.Line.{Call, temp_buf_size}
use nd.Log.Line.Laws.{call_text}
use nd.Log.Printf.{Logger, log_warning}
use nd.Log.Printf.Laws.{log_base_lem}
use nd.Log.Thread.{Answers}
use nd.Log.Thread.Laws.{given, thread_round_lem}
use nd.Log.Session.{Session, Act, call, round, at_rest, thread_state, after_round, act}
use nd.Log.Session.Spec.{
  line_of, Written, dropped, to_wf, to_log, drained, IsOpen, in_log, in_wf, used_log, used_wf,
}

module _ (cap : ℕ) {D : Type 0} (show_double : D → List ℕ) (lg₀ : Logger) where
  -- One call or round on its own.
  pub record Done (s : Session) (a : Act show_double) (t : Session) : Type 0 where
    pub is_open : IsOpen cap show_double lg₀ t
    pub to_the_log : List ℕ
    pub to_the_wf : List ℕ
    pub log_grows : in_log cap show_double lg₀ t ≡ in_log cap show_double lg₀ s ++ to_the_log
    pub wf_grows : in_wf cap show_double lg₀ t ≡ in_wf cap show_double lg₀ s ++ to_the_wf
    pub written :
        (more : List (Act show_double)) (xs ys : List ℕ)
        → Written cap show_double lg₀
            (used_log cap show_double lg₀ t)
            (used_wf cap show_double lg₀ t)
            more
            xs
            ys
        → Written cap show_double lg₀
            (used_log cap show_double lg₀ s)
            (used_wf cap show_double lg₀ s)
            (a ∷ more)
            (to_the_log ++ xs)
            (to_the_wf ++ ys)

  with_used :
      {u u' v v' : ℕ} {more : List (Act show_double)} {xs ys : List ℕ}
      → u ≡ u'
      → v ≡ v'
      → Written cap show_double lg₀ u v more xs ys
      → Written cap show_double lg₀ u' v' more xs ys
  with_used {u'} {v} {more} {xs} {ys} e f w =
      subst (λ q. Written cap show_double lg₀ u' q more xs ys) f
        (subst (λ q. Written cap show_double lg₀ q v more xs ys) e w)

  grows : (f c x : List ℕ) {c' : List ℕ} → c' ≡ c ++ x → f ++ c' ≡ (f ++ c) ++ x
  grows f c x e = ap (λ t. f ++ t) e ∙ sym (append_assoc f c x)

  stays : {c c' : List ℕ} → c' ≡ c → c' ≡ c ++ []
  stays {c} e = e ∙ sym (append-nil c)

  module _ (echo : Bool) (s : Session) (o : IsOpen cap show_double lg₀ s) where
    -- A call that puts `x` and `y` into the rings.
    called :
        (c : Call show_double) (lg : Logger) (x y : List ℕ)
        → IsOpen cap show_double lg₀ (record s { lg = lg })
        → contents cap lg.log ≡ contents cap s.lg.log ++ x
        → contents cap lg.wf ≡ contents cap s.lg.wf ++ y
        → ((more : List (Act show_double)) (xs ys : List ℕ)
            → Written cap show_double lg₀
                (used_log cap show_double lg₀ s + length x)
                (used_wf cap show_double lg₀ s + length y)
                more
                xs
                ys
            → Written cap show_double lg₀
                (used_log cap show_double lg₀ s)
                (used_wf cap show_double lg₀ s)
                (call c ∷ more)
                (x ++ xs)
                (y ++ ys))
        → Done s (call c) (record s { lg = lg })
    called c lg x y o' in_l in_w step = record {
      is_open = o';
      to_the_log = x;
      to_the_wf = y;
      log_grows = grows (given s.log_f) _ _ in_l;
      wf_grows = grows (given s.wf_f) _ _ in_w;
      written = λ more xs ys w. step more xs ys (
          with_used (ap length in_l ∙ length-append (contents cap s.lg.log) x)
            (ap length in_w ∙ length-append (contents cap s.lg.wf) y) w);
    }

    pub call-Done :
        (c : Call show_double)
        → (t : Session) × (act cap show_double echo s (call c) ≡ some t) × Done s (call c) t
    unfolding act
    call-Done c =
        let (lg, e, d) = log_base_lem cap show_double c o.ready in
        let o' : IsOpen cap show_double lg₀ (record s { lg = lg }) = record {
          ready = d.ready';
          log_flushed = o.log_flushed;
          wf_flushed = o.wf_flushed;
          name = d.same_name ∙ o.name;
          pid = d.same_pid ∙ o.pid;
          level = d.same_level ∙ o.level;
        } in
        let same : fit temp_buf_size (call_text show_double s.lg.name s.lg.pid c)
            ≡ line_of cap show_double lg₀ c =
          ap₂ (λ n p. fit temp_buf_size (call_text show_double n p c)) o.name o.pid in
        let level : leb c.level s.lg.log_level ≡ leb c.level lg₀.log_level =
          ap (leb c.level) o.level in
        (
          record s { lg = lg },
          rw e refl,
          elim (Bool-cases (leb c.level lg₀.log_level)) [
            | inr above ↦
                called c lg [] [] o' (stays (ground (arith, d.in_log, level, above)))
                  (stays (ground (arith, d.in_wf, level, above)))
                  (λ more xs ys w. dropped c above (with_used (ground arith) (ground arith) w))
            | inl within ↦ elim (Bool-cases (leb c.level log_warning)) [
              | inl bad ↦
                  called c lg []
                    (fit (cap - used_wf cap show_double lg₀ s) (line_of cap show_double lg₀ c)) o'
                    (stays (ground (arith, d.in_log, level, within, bad)))
                    (ground (arith, d.in_wf, level, within, bad, same))
                    (λ more xs ys w. to_wf c within bad (with_used (ground arith) refl w))
              | inr good ↦
                  called c lg
                    (fit (cap - used_log cap show_double lg₀ s) (line_of cap show_double lg₀ c)) []
                    o' (ground (arith, d.in_log, level, within, good, same))
                    (stays (ground (arith, d.in_wf, level, within, good)))
                    (λ more xs ys w. to_log c within good (with_used refl (ground arith) w))
            ]
          ],
        )

    pub round-Done :
        (a b : Answers)
        → cap < 2 ^ 64
        → cap ≤ a.first
        → cap ≤ b.first
        → (t : Session) × (act cap show_double echo s (round a b) ≡ some t) × Done s (round a b) t
    unfolding act
    round-Done a b small p q =
        let (t, e, l, w) =
          thread_round_lem echo (at_rest s.lg.log a) (at_rest s.lg.wf b) (thread_state s)
            o.ready.log o.ready.wf small (record { unmoved = refl; takes = p })
            (record { unmoved = refl; takes = q }) o.log_flushed o.wf_flushed in
        (
          after_round s t,
          rw e refl,
          record {
            is_open = record {
              ready = record { log = l.valid; wf = w.valid };
              log_flushed = l.flushed;
              wf_flushed = w.flushed;
              name = o.name;
              pid = o.pid;
              level = o.level;
            };
            to_the_log = [];
            to_the_wf = [];
            log_grows = stays l.conserved;
            wf_grows = stays w.conserved;
            written = λ more xs ys k.
                drained a b (used_log cap show_double lg₀ (after_round s t))
                  (used_wf cap show_double lg₀ (after_round s t)) l.shrinks w.shrinks
                  (λ h. ap length (l.emptied h)) (λ h. ap length (w.emptied h)) k;
          },
        )
