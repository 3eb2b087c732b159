-- ===== src/Tests/Rings.antt =====
-- Examples on a ring of eight bytes.
use nd.Base.{
  length, ℕ, ◌+◌, ◌≡◌, refl, inl, inr, false, none, some, List, [], ◌∷◌, ◌++◌, newline, codes,
  arith,
}
use nd.Log.Ring.{Ring, contents, drain, quiet}
use nd.Log.Ring.Wrap.{IsValid}
use nd.Log.Ring.Fifo.{Event, line, round, run, Kept, run-Kept}
use nd.Log.Ring.Ended.{IsEnded, run-IsEnded}
use nd.Log.Ring.Faults.{drain_race, drain_short_write}

abbrev empty_ring : Ring
empty_ring = record { buf = λ i. 0; write = 6; read = 6 }

-- Five bytes, three of them in front of the end.
abbrev wrapped_ring : Ring
wrapped_ring = record { buf = λ i. 97 + i; write = 2; read = 5 }

abbrev ahead_ring : Ring
ahead_ring = record { buf = λ i. 97 + i; write = 6; read = 4 }

abbrev hey : List ℕ
hey = codes "hey" ++ newline ∷ []

abbrev long : List ℕ
long = codes "longer than it" ++ newline ∷ []

abbrev events : List Event
events = line hey ∷ line long ∷ round 8 1 ∷ line hey ∷ []

abbrev few : List Event
few = line hey ∷ round 8 1 ∷ line (codes "a" ++ newline ∷ []) ∷ []

empty_ring-IsValid : IsValid 8 empty_ring
empty_ring-IsValid = record { write_in = omega arith; read_in = omega arith }

wrapped_ring-IsValid : IsValid 8 wrapped_ring
wrapped_ring-IsValid = record { write_in = omega arith; read_in = omega arith }

ahead_ring-IsValid : IsValid 8 ahead_ring
ahead_ring-IsValid = record { write_in = omega arith; read_in = omega arith }

run-Kept_example :
    (r' : Ring) × (file' : List ℕ) × (out : List ℕ) × (run 8 false empty_ring [] events
      ≡ some (r', file'))
    × IsValid 8 r'
    × Kept 8 (length (contents 8 empty_ring)) events out
    × (file' ++ contents 8 r' ≡ ([] ++ contents 8 empty_ring) ++ out)
run-Kept_example = run-Kept false [] events empty_ring-IsValid (omega arith) (omega arith, tt)

run-IsEnded_example :
    (r' : Ring) × (file' : List ℕ) × (run 8 false empty_ring [] events ≡ some (r', file'))
    × IsEnded (file' ++ contents 8 r')
run-IsEnded_example =
    run-IsEnded false [] events empty_ring-IsValid (omega arith) (omega arith, tt)
      (inr (codes "hey", refl), (inr (codes "longer than it", refl), (inr (codes "hey", refl), tt)))
      (inl refl)

drain_race_example :
    drain 8 false (record { test = 6; branch = 6; size = 1; echo = 1 }) 8 8 ahead_ring ≡ none
drain_race_example =
    drain_race false (record { test = 6; branch = 6; size = 1; echo = 1 }) 8 8 ahead_ring-IsValid
      (omega arith) (λ h. absurd (omega arith)) (omega arith) (omega arith)

drain_short_write_example : drain 8 false (quiet wrapped_ring) 1 8 wrapped_ring ≡ none
drain_short_write_example =
    drain_short_write wrapped_ring-IsValid 1 (omega arith) false 8 (omega arith) (omega arith)
