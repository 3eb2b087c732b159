-- ===== src/Base/Bytes.antt =====
-- Text as lists of byte codes, and what printf writes for a number.
use Prim.Native.Nat.{ℕ, zero, suc, ◌+◌, ◌/◌, ◌%◌, ◌^◌, ◌≤◌, ◌<◌}
use Prim.Native.Char.{code}
use Prim.Native.String.{String}
use mathlib.Core.Path.{◌≡◌, refl, ap}
use mathlib.Core.Bool.{true, false}
use mathlib.Core.Option.{Option, none, some}
use mathlib.Core.List.{List, [], ◌∷◌, ◌++◌}
use mathlib.Core.Logic.{inl, inr}
use native.Mathlib.Omega.{arith}
use nd.Base.Tests.{ltb, Bool-cases}
use nd.Base.Lists.{length, length-append}

-- The codes of a text: its bytes, if it is ASCII.
abbrev pub codes : String → List ℕ
codes String.[] = []
codes (String.◌∷◌ c s) = code c ∷ codes s

abbrev pub newline : ℕ
newline = 10

-- `negsuc n` is -(n + 1).
pub data ℤ : Type 0 where
  pos : ℕ → ℤ
  negsuc : ℕ → ℤ

-- The decimal digits, most significant first. The fuel bounds their number.
decimal_fuel : ℕ → ℕ → List ℕ
decimal_fuel zero n = []
decimal_fuel (suc fuel) n = elim (ltb n 10) [
  | true ↦ (b'0' + n) ∷ []
  | false ↦ decimal_fuel fuel (n / 10) ++ (b'0' + n % 10) ∷ []
]

-- What `%lu` writes, and `%d` for a number that is not negative.
unfoldable pub decimal : ℕ → List ℕ
unfolding decimal_fuel
decimal n = decimal_fuel (suc n) n

decimal_fuel_small : (fuel n : ℕ) → ltb n 10 ≡ true → decimal_fuel (suc fuel) n ≡ (b'0' + n) ∷ []
unfolding decimal_fuel
decimal_fuel_small fuel n h = rw (decimal_fuel, h) refl

decimal_fuel_big :
    (fuel n : ℕ)
    → ltb n 10 ≡ false
    → decimal_fuel (suc fuel) n ≡ decimal_fuel fuel (n / 10) ++ (b'0' + n % 10) ∷ []
unfolding decimal_fuel
decimal_fuel_big fuel n h = rw (decimal_fuel, h) refl

decimal_fuel_lt : (fuel k n : ℕ) → n < 10 ^ suc k → length (decimal_fuel fuel n) ≤ suc k
unfolding decimal_fuel
decimal_fuel_lt zero k n h = omega arith
decimal_fuel_lt (suc fuel) zero n h =
    omega (arith, ap length (decimal_fuel_small fuel n (ground (arith, h))))
decimal_fuel_lt (suc fuel) (suc k) n h = elim (Bool-cases (ltb n 10)) [
  | inl small ↦ omega (arith, ap length (decimal_fuel_small fuel n small))
  | inr big ↦ omega (
    arith,
    ap length (decimal_fuel_big fuel n big),
    length-append (decimal_fuel fuel (n / 10)) ((b'0' + n % 10) ∷ []),
    decimal_fuel_lt fuel k (n / 10) (omega arith),
  )
]

-- A number below a power of ten has no more digits than that.
pub length-decimal : (k n : ℕ) → n < 10 ^ suc k → length (decimal n) ≤ suc k
unfolding decimal
length-decimal k n h = decimal_fuel_lt (suc n) k n h

-- What `%ld` and `%d` write.
unfoldable pub signed_decimal : ℤ → List ℕ
unfolding decimal
signed_decimal (pos n) = decimal n
signed_decimal (negsuc n) = b'-' ∷ decimal (suc n)

pub signed_decimal-pos : (n : ℕ) → signed_decimal (pos n) ≡ decimal n
unfolding signed_decimal
signed_decimal-pos n = refl

-- What `%s` writes; the C library writes "(null)" for a null pointer.
abbrev pub percent_s : Option (List ℕ) → List ℕ
percent_s none = codes "(null)"
percent_s (some s) = s
