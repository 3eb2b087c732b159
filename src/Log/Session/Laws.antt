-- ===== src/Log/Session/Laws.antt =====
-- What the two log files get of the messages.
use nd.Base.{
  ℕ, ◌^◌, ◌<◌, ◌≡◌, refl, ap, sym, ◌∙◌, Bool, some, List, [], ◌∷◌, ◌++◌, append_assoc, append-nil,
}
use nd.Log.Printf.{Logger}
use nd.Log.Session.{Session, Act, call, round, acts}
use nd.Log.Session.Spec.{Written, over, FirstTakesAll, IsOpen, in_log, in_wf, used_log, used_wf}
use nd.Log.Session.Step.{call-Done, round-Done}

module _ (cap : ℕ) {D : Type 0} (show_double : D → List ℕ) (lg₀ : Logger) where
  further : (s x y : List ℕ) {u t : List ℕ} → u ≡ t ++ y → t ≡ s ++ x → u ≡ s ++ (x ++ y)
  further s x y e f = e ∙ ap (λ c. c ++ y) f ∙ append_assoc s x y

  -- All of them.
  pub acts-Written :
      (echo : Bool) (s : Session) (todo : List (Act show_double))
      → IsOpen cap show_double lg₀ s
      → cap < 2 ^ 64
      → FirstTakesAll cap show_double todo
      → (t : Session) × (xs ys : List ℕ) × (acts cap show_double echo s todo ≡ some t)
        × IsOpen cap show_double lg₀ t
        × Written cap show_double lg₀
            (used_log cap show_double lg₀ s)
            (used_wf cap show_double lg₀ s)
            todo
            xs
            ys
        × (in_log cap show_double lg₀ t ≡ in_log cap show_double lg₀ s ++ xs)
        × (in_wf cap show_double lg₀ t ≡ in_wf cap show_double lg₀ s ++ ys)
  unfolding acts
  acts-Written echo s [] o small takes = (
    s,
    [],
    [],
    refl,
    o,
    over,
    sym (append-nil (in_log cap show_double lg₀ s)),
    sym (append-nil (in_wf cap show_double lg₀ s)),
  )
  acts-Written echo s (call c ∷ more) o small takes =
      let (t, e, d) = call-Done cap show_double lg₀ echo s o c in
      let (u, xs, ys, e', o', w, l, f) = acts-Written echo t more d.is_open small takes in
      (
        u,
        d.to_the_log ++ xs,
        d.to_the_wf ++ ys,
        rw (e, e'),
        o',
        d.written more xs ys w,
        further _ _ _ l d.log_grows,
        further _ _ _ f d.wf_grows,
      )
  acts-Written echo s (round a b ∷ more) o small (p, (q, takes)) =
      let (t, e, d) = round-Done cap show_double lg₀ echo s o a b small p q in
      let (u, xs, ys, e', o', w, l, f) = acts-Written echo t more d.is_open small takes in
      (
        u,
        d.to_the_log ++ xs,
        d.to_the_wf ++ ys,
        rw (e, e'),
        o',
        d.written more xs ys w,
        further _ _ _ l d.log_grows,
        further _ _ _ f d.wf_grows,
      )
