-- ===== src/Log/Ring/Ended.antt =====
-- What stands in the log file and the ring together are whole lines.
use nd.Base.{
  ℕ, ◌-◌, ◌^◌, ◌<◌, ◌≡◌, refl, sym, ◌⊎◌, inl, inr, Bool, some, List, [], ◌∷◌, ◌++◌, append_assoc,
  append-nil, length, take, newline, ltb, ltb→lt, ltb→le, Bool-cases, arith,
}
use nd.Log.Ring.{Ring, contents, fit}
use nd.Log.Ring.Wrap.{IsValid}
use nd.Log.Ring.Store.{fit_lem}
use nd.Log.Ring.Fifo.{Event, line, round, run, Kept, over, kept, skip, FirstTakesAll, run-Kept}

-- Nothing, or a text that ends in a newline.
abbrev pub IsEnded : List ℕ → Type 0
IsEnded xs = (xs ≡ []) ⊎ ((ys : List ℕ) × (xs ≡ ys ++ newline ∷ []))

pub append-IsEnded : (xs ys : List ℕ) → IsEnded xs → IsEnded ys → IsEnded (xs ++ ys)
append-IsEnded xs ys hx (inr (zs, e)) =
    inr (xs ++ zs, rw e (sym (append_assoc xs zs (newline ∷ []))))
append-IsEnded xs ys (inl d) (inl e) = inl (rw (d, e))
append-IsEnded xs ys (inr (zs, d)) (inl e) = inr (zs, rw (e, append-nil) d)

pub fit-IsEnded : (left : ℕ) (xs : List ℕ) → 0 < left → IsEnded xs → IsEnded (fit left xs)
fit-IsEnded left xs pos h = elim (Bool-cases (ltb (length xs) left)) [
  | inl fits ↦ rw ((fit_lem left xs).0 (ltb→lt _ _ fits)) h
  | inr more ↦ elim (Bool-cases (ltb 1 left)) [
    | inl cut ↦ inr (take (left - 2) xs, (fit_lem left xs).1 (ltb→lt _ _ cut) (ltb→le _ _ more))
    | inr one ↦ inl ((fit_lem left xs).2 (omega (arith, ltb→le _ _ one)))
  ]
]

-- Every line that is handed over ends in a newline.
abbrev pub LinesEnded : List Event → Type 0
LinesEnded [] = Unit
LinesEnded (line bytes ∷ es) = IsEnded bytes × LinesEnded es
LinesEnded (round first second ∷ es) = LinesEnded es

Kept-IsEnded :
    {cap u : ℕ} {es : List Event} {out : List ℕ} → Kept cap u es out → LinesEnded es → IsEnded out
Kept-IsEnded over h = inl refl
Kept-IsEnded {cap} {u} (kept {out} bytes free k) h =
    append-IsEnded (fit (cap - u) bytes) out (fit-IsEnded (cap - u) bytes (omega arith) h.0)
      (Kept-IsEnded k h.1)
Kept-IsEnded (skip first second u' less whole k) h = Kept-IsEnded k h

-- From whole lines in the file and the ring together, any sequence of lines and rounds leaves whole
-- lines in both together, also where lines were cut or dropped for want of room. fwrite takes what
-- the first call of a round gives it, and no producer works during a round.
pub run-IsEnded :
    {cap : ℕ} (echo : Bool) (file : List ℕ) (es : List Event) {r : Ring}
    → IsValid cap r
    → cap < 2 ^ 64
    → FirstTakesAll cap es
    → LinesEnded es
    → IsEnded (file ++ contents cap r)
    → (r' : Ring) × (file' : List ℕ) × (run cap echo r file es ≡ some (r', file'))
      × IsEnded (file' ++ contents cap r')
run-IsEnded echo file es v small takes ended h =
    let (r', file', out, e, _, k, c) = run-Kept echo file es v small takes in
    (r', file', e, rw c (append-IsEnded _ out h (Kept-IsEnded k ended)))
