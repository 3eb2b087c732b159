-- ===== src/Hash.antt =====
-- src/hash.h: MurmurHash64A over a list of bytes, on a little-endian machine, and the hash of a
-- zero-terminated string. Every 64-bit operation wraps.
pub mod Blocks
pub mod Collisions
pub mod Steps
pub mod Tail
pub mod Xor
use Prim.Native.Nat.{bit_xor}
use nd.Base.{
  ℕ, zero, suc, ◌+◌, ◌*◌, ◌/◌, ◌%◌, ◌^◌, List, [], ◌∷◌, length, get_or, take, drop, ◌==◌,
  if◌then◌else◌,
}

abbrev pub m : ℕ
m = 0xc6a4a7935bd1e995

abbrev pub r : ℕ
r = 47

-- uint64_t multiplication, and the two kinds of shift.
unfoldable pub mul64 : ℕ → ℕ → ℕ
mul64 a b = a * b % 2 ^ 64

unfoldable pub shr : ℕ → ℕ → ℕ
shr a k = a / 2 ^ k

-- One uint64_t in memory: the first byte is the lowest.
unfoldable pub word : List ℕ → ℕ
word [] = 0
word (b ∷ bs) = b + 256 * word bs

-- k *= m; k ^= k >> r; k *= m;
unfoldable pub scramble : ℕ → ℕ
unfolding mul64 shr
scramble k = let k₁ = mul64 k m in let k₂ = bit_xor k₁ (shr k₁ r) in mul64 k₂ m

-- The loop over the whole words: `n` of them are left, the first of them in front.
unfoldable pub words : ℕ → ℕ → List ℕ → ℕ
unfolding word scramble mul64
words zero h bytes = h
words (suc n) h bytes =
    words n (mul64 (bit_xor h (scramble (word (take 8 bytes)))) m) (drop 8 bytes)

-- The cases of the switch from `i` down, without the multiplication behind the last.
unfoldable pub cases : ℕ → ℕ → List ℕ → ℕ
cases zero h data2 = h
cases (suc i) h data2 = cases i (bit_xor h (get_or data2 i 0 * 2 ^ (8 * i))) data2

-- The switch: with no byte left nothing is done.
unfoldable pub last_bytes : ℕ → ℕ → List ℕ → ℕ
unfolding cases mul64
last_bytes n h data2 = if n == 0 then h else mul64 (cases n h data2) m

-- h ^= h >> r; h *= m; h ^= h >> r;
unfoldable pub finish : ℕ → ℕ
unfolding mul64 shr
finish h = let h₁ = mul64 (bit_xor h (shr h r)) m in bit_xor h₁ (shr h₁ r)

-- The length is that of the bytes, an int.
unfoldable pub murmur_hash_64a : List ℕ → ℕ → ℕ
unfolding words last_bytes finish mul64
murmur_hash_64a key seed =
    let h = bit_xor seed (mul64 (length key) m) in
    let h₁ = words (length key / 8) h key in
    finish (last_bytes (length key % 8) h₁ (drop (8 * (length key / 8)) key))

unfoldable pub hash : List ℕ → ℕ
unfolding murmur_hash_64a
hash src = murmur_hash_64a src 0xba1dba1d

-- The bytes in front of the first zero.
unfoldable pub c_string : List ℕ → List ℕ
c_string [] = []
c_string (c ∷ s) = if c == 0 then [] else c ∷ c_string s

unfoldable pub strhash : List ℕ → ℕ
unfolding hash c_string
strhash s = hash (c_string s)
