-- ===== src/File.antt =====
-- dirname and basename of src/file.cpp. A std::string is the list of its bytes, of fewer than 2^31; an
-- index `last` of the source is a number one less than the model's, since it goes down to -1.
pub mod Scan
pub mod Text
pub mod Split
pub mod System
use nd.Base.{
  ℕ, zero, suc, ◌-◌, Bool, true, false, List, [], ◌∷◌, length, get_or, set, take, drop, ◌==◌,
  if◌then◌else◌, codes,
}

abbrev pub slash : ℕ
slash = b'/'

-- The loops from the end over the slashes, and over what is no slash: of the first `n` bytes, the
-- bytes in front of them.
unfoldable pub skip_slashes : List ℕ → ℕ → ℕ
skip_slashes s zero = zero
skip_slashes s (suc n) =
    let rest = skip_slashes s n in if get_or s n 0 == slash then rest else suc n

unfoldable pub skip_letters : List ℕ → ℕ → ℕ
skip_letters s zero = zero
skip_letters s (suc n) =
    let rest = skip_letters s n in if get_or s n 0 == slash then suc n else rest

-- The loop of dirname that leaves out slashes at the end of the parent, from index `last` on.
unfoldable pub skip_last : List ℕ → ℕ → ℕ
skip_last s zero = zero
skip_last s (suc n) =
    let rest = skip_last s n in if get_or s (suc n) 0 == slash then rest else suc n

-- The string and the index `last` behind the second loop of dirname.
abbrev pub parent_of : List ℕ → ℕ → List ℕ × ℕ
parent_of s zero = (codes "./", 1)
parent_of s (suc k) = (set s (suc k) 0, k)

abbrev pub cut : Bool → List ℕ × ℕ → List ℕ
cut true (parent, last) = parent
cut false (parent, last) = set parent (suc (skip_last parent last)) 0

unfoldable pub dirname : List ℕ → Bool → List ℕ
unfolding skip_slashes skip_letters skip_last
dirname s reserve_last_slash =
    let n = skip_slashes s (length s) in
    if n == 0 then codes "/" else cut reserve_last_slash (parent_of s (skip_letters s n))

-- substr(last + 1, len)
unfoldable pub basename : List ℕ → List ℕ
unfolding skip_slashes skip_letters
basename s =
    let n = skip_slashes s (length s) in
    let k = skip_letters s n in if n == 0 then codes "/" else take (n - k) (drop k s)
