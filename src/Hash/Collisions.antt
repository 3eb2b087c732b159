-- ===== src/Hash/Collisions.antt =====
-- Which keys MurmurHash64A keeps apart.
use Prim.Native.Nat.{bit_xor}
use nd.Base.{
  ℕ, zero, suc, [], ◌∷◌, subst, ◌+◌, ◌*◌, ◌/◌, ◌%◌, ◌^◌, ◌≤◌, ◌<◌, ◌≡◌, ◌≢◌, refl, ap, sym, ◌∙◌,
  List, length, take, drop, arith,
}
use nd.Hash.{m, mul64, words, last_bytes, finish, murmur_hash_64a, c_string, strhash}
use nd.Hash.Xor.{xor_lt}
use nd.Hash.Steps.{AllBytes, mul64_lt, finish_inj, finish_lt, words_lt}
use nd.Hash.Tail.{last_bytes_lt}
use nd.Hash.Blocks.{before_finish_inj}

-- What goes into the loop.
abbrev start : ℕ → ℕ → ℕ
start len seed = bit_xor seed (mul64 len m)

start_lt : (len seed : ℕ) → seed < 2 ^ 64 → start len seed < 2 ^ 64
start_lt len seed h = xor_lt 64 seed (mul64 len m) h (mul64_lt len m)

-- What comes out, with the length apart from the key.
abbrev before_finish : ℕ → ℕ → List ℕ → ℕ
before_finish len seed c =
    last_bytes (len % 8) (words (len / 8) (start len seed) c) (drop (8 * (len / 8)) c)

before_finish_lt : (len seed : ℕ) (c : List ℕ) → seed < 2 ^ 64 → before_finish len seed c < 2 ^ 64
before_finish_lt len seed c h =
    last_bytes_lt (len % 8) (words (len / 8) (start len seed) c) (drop (8 * (len / 8)) c)
      (words_lt (len / 8) (start len seed) c (start_lt len seed h))

murmur-before_finish :
    (k : List ℕ) (seed : ℕ) → murmur_hash_64a k seed ≡ finish (before_finish (length k) seed k)
unfolding murmur_hash_64a
murmur-before_finish k seed = refl

pub murmur_hash_64a_lt : (k : List ℕ) (seed : ℕ) → murmur_hash_64a k seed < 2 ^ 64
murmur_hash_64a_lt k seed =
    subst (λ t. t < 2 ^ 64) (sym (murmur-before_finish k seed))
      (finish_lt (before_finish (length k) seed k))

-- Keys of one length with the same bytes in front of a word and the same behind it.
murmur_hash_64a_inj :
    (seed n : ℕ) (k k' : List ℕ)
    → seed < 2 ^ 64
    → AllBytes k
    → AllBytes k'
    → length k ≡ length k'
    → take (8 * n) k ≡ take (8 * n) k'
    → drop (8 * n + 8) k ≡ drop (8 * n + 8) k'
    → murmur_hash_64a k seed ≡ murmur_hash_64a k' seed
    → k ≡ k'
murmur_hash_64a_inj seed n k k' h a a' same front behind e =
    let len = length k in
    let e' : finish (before_finish len seed k) ≡ finish (before_finish len seed k') =
      sym (murmur-before_finish k seed)
      ∙ e
      ∙ murmur-before_finish k' seed
      ∙ ap (λ l. finish (before_finish l seed k')) (sym same) in
    before_finish_inj (start len seed) n (len / 8) (len % 8) k k' (start_lt len seed h)
      (omega arith) (omega arith) (omega (arith, same)) a a' front behind
      (finish_inj (before_finish len seed k) (before_finish len seed k')
        (before_finish_lt len seed k h) (before_finish_lt len seed k' h) e')

-- Of two different keys of the same length that differ only within one aligned word of eight bytes,
-- or only behind the last one, the hashes differ too, for any seed of 64 bits.
pub murmur_hash_64a_apart :
    (seed n : ℕ) (k k' : List ℕ)
    → seed < 2 ^ 64
    → AllBytes k
    → AllBytes k'
    → length k ≡ length k'
    → take (8 * n) k ≡ take (8 * n) k'
    → drop (8 * n + 8) k ≡ drop (8 * n + 8) k'
    → k ≢ k'
    → murmur_hash_64a k seed ≢ murmur_hash_64a k' seed
murmur_hash_64a_apart seed n k k' h a a' same front behind apart e =
    apart (murmur_hash_64a_inj seed n k k' h a a' same front behind e)

drop_short : (n : ℕ) (k : List ℕ) → length k ≤ n → drop n k ≡ []
drop_short zero [] h = refl
drop_short zero (x ∷ k) h = absurd (omega arith)
drop_short (suc n) [] h = refl
drop_short (suc n) (x ∷ k) h = drop_short n k (omega arith)

-- Two names of the same length, up to eight bytes, have the same hash only if they are the same.
pub strhash_inj :
    (s t : List ℕ)
    → AllBytes (c_string s)
    → AllBytes (c_string t)
    → length (c_string s) ≡ length (c_string t)
    → length (c_string s) ≤ 8
    → strhash s ≡ strhash t
    → c_string s ≡ c_string t
unfolding strhash
strhash_inj s t a a' same short e =
    murmur_hash_64a_inj 0xba1dba1d 0 (c_string s) (c_string t) (omega arith) a a' same refl
      (drop_short 8 (c_string s) short
        ∙ sym (drop_short 8 (c_string t) (omega (arith, same, short))))
      e
