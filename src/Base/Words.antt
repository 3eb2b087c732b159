-- ===== src/Base/Words.antt =====
-- The conversions between the integer types of the sources.
use Prim.Native.Nat.{ℕ, ◌-◌, ◌%◌, ◌^◌}
use nd.Base.Tests.{ltb, if◌then◌else◌}
use nd.Base.Bytes.{ℤ, pos, negsuc}

-- A size_t or a long as an int.
unfoldable pub to_int32 : ℕ → ℤ
to_int32 n = let x = n % 2 ^ 32 in if ltb x (2 ^ 31) then pos x else negsuc (2 ^ 32 - 1 - x)

-- An int as a size_t.
unfoldable pub to_size : ℤ → ℕ
to_size (pos n) = n
to_size (negsuc n) = 2 ^ 64 - 1 - n
