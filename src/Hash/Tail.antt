-- ===== src/Hash/Tail.antt =====
-- The bytes behind the last whole word, and the bytes of a word.
use Prim.Native.Nat.{bit_xor}
use native.Mathlib.Nat.{mul_assoc, mul_comm, pow-le-pow_right}
use nd.Base.{
  ℕ, zero, suc, ◌+◌, ◌*◌, ◌^◌, ◌≤◌, ◌<◌, ◌≡◌, refl, ap, ap₂, subst, sym, false, ◌∙◌, List, [], ◌∷◌,
  length, get_or, take, ◌==◌, arith,
}
use nd.Hash.{m, mul64, word, cases, last_bytes}
use nd.Hash.Xor.{xor-zero, xor_comm, xor_assoc, xor_lt, xor_disjoint}
use nd.Hash.Steps.{AllBytes, mul64-m_inj, mul64_lt, xor_inj_left, xor_inj_right}

-- A byte further up.
pow_byte : (i : ℕ) → 2 ^ (8 * suc i) ≡ 256 * 2 ^ (8 * i)
pow_byte i = ap (λ t. 2 ^ t) {x = 8 * suc i} {y = 8 + 8 * i} (omega arith) ∙ eight (8 * i)
  where
    eight : (t : ℕ) → 2 ^ (8 + t) ≡ 256 * 2 ^ t
    eight t =
        ap (λ k. 2 ^ k) {x = 8 + t} {y = suc (suc (suc (suc (suc (suc (suc (suc t)))))))}
          (omega arith)
        ∙ omega arith

pub word-take_lt : (n : ℕ) (d : List ℕ) → AllBytes d → word (take n d) < 2 ^ (8 * n)
unfolding word
word-take_lt zero d a = omega arith
word-take_lt (suc n) [] a = omega (arith, word-take_lt n [] a, pow_byte n)
word-take_lt (suc n) (b ∷ d) (p, a) = omega (arith, word-take_lt n d a, pow_byte n)

word-take-suc :
    (i : ℕ) (d : List ℕ)
    → i < length d
    → word (take (suc i) d) ≡ word (take i d) + get_or d i 0 * 2 ^ (8 * i)
unfolding word
word-take-suc i [] h = absurd (omega arith)
word-take-suc zero (b ∷ d) h = omega arith
word-take-suc (suc i) (b ∷ d) h =
    let up : get_or d i 0 * 2 ^ (8 * suc i) ≡ 256 * (get_or d i 0 * 2 ^ (8 * i)) =
      ap (λ t. get_or d i 0 * t) (pow_byte i) ∙ swap (get_or d i 0) (2 ^ (8 * i)) in
    omega (arith, word-take-suc i d (omega arith), up)
  where
    swap : (x y : ℕ) → x * (256 * y) ≡ 256 * (x * y)
    swap x y = sym (mul_assoc x 256 y) ∙ ap (λ t. t * y) (mul_comm x 256) ∙ mul_assoc 256 x y

pub word-take_inj :
    (n : ℕ) (d d' : List ℕ)
    → AllBytes d
    → AllBytes d'
    → length d ≡ length d'
    → word (take n d) ≡ word (take n d')
    → take n d ≡ take n d'
unfolding word
word-take_inj zero d d' a a' l e = refl
word-take_inj (suc n) [] [] a a' l e = refl
word-take_inj (suc n) [] (c ∷ d') a a' l e = absurd (omega arith)
word-take_inj (suc n) (b ∷ d) [] a a' l e = absurd (omega arith)
word-take_inj (suc n) (b ∷ d) (c ∷ d') (p, a) (q, a') l e =
    ap₂ ◌∷◌ {x = b} {y = c} (omega arith) (word-take_inj n d d' a a' (omega arith) (omega arith))

-- The cases of the switch put in the bytes as one word.
pub cases_lem :
    (n h : ℕ) (d : List ℕ) → AllBytes d → n ≤ length d → cases n h d ≡ bit_xor h (word (take n d))
unfolding cases word
cases_lem zero h d a l = sym (xor-zero h)
cases_lem (suc i) h d a l =
    let g = get_or d i 0 * 2 ^ (8 * i) in
    let w = word (take i d) in
    cases_lem i (bit_xor h g) d a (omega arith)
    ∙ xor_assoc h g w
    ∙ ap (bit_xor h) (
        xor_comm g w
        ∙ xor_disjoint (8 * i) w (get_or d i 0) (word-take_lt i d a)
        ∙ sym (word-take-suc i d (omega arith)))

pub word-take_lt64 : (n : ℕ) (d : List ℕ) → n ≤ 8 → AllBytes d → word (take n d) < 2 ^ 64
word-take_lt64 n d h a =
    let up : 2 ^ (8 * n) ≤ 2 ^ 64 =
      pow-le-pow_right {n = 2} (omega arith) {i = 8 * n} {j = 64} (omega arith) in
    omega (arith, word-take_lt n d a, up)

put_in_lt :
    (n h : ℕ) (d : List ℕ) → n ≤ 8 → AllBytes d → h < 2 ^ 64 → bit_xor h (word (take n d)) < 2 ^ 64
put_in_lt n h d l a p = xor_lt 64 h (word (take n d)) p (word-take_lt64 n d l a)

last_bytes_some : (n h : ℕ) (d : List ℕ) → last_bytes (suc n) h d ≡ mul64 (cases (suc n) h d) m
unfolding last_bytes
last_bytes_some n h d = let some_left : (suc n == 0) ≡ false = ground arith in rw some_left refl

last_bytes-suc :
    (n h : ℕ) (d : List ℕ)
    → AllBytes d
    → suc n ≤ length d
    → last_bytes (suc n) h d ≡ mul64 (bit_xor h (word (take (suc n) d))) m
last_bytes-suc n h d a l = last_bytes_some n h d ∙ ap (λ t. mul64 t m) (cases_lem (suc n) h d a l)

pub last_bytes_lt : (n h : ℕ) (d : List ℕ) → h < 2 ^ 64 → last_bytes n h d < 2 ^ 64
unfolding last_bytes
last_bytes_lt zero h d p = p
last_bytes_lt (suc n) h d p =
    subst (λ t. t < 2 ^ 64) (sym (last_bytes_some n h d)) (mul64_lt (cases (suc n) h d) m)

pub last_bytes_inj_left :
    (n a b : ℕ) (d : List ℕ)
    → n ≤ 8
    → n ≤ length d
    → AllBytes d
    → a < 2 ^ 64
    → b < 2 ^ 64
    → last_bytes n a d ≡ last_bytes n b d
    → a ≡ b
unfolding last_bytes
last_bytes_inj_left zero a b d l k h p q e = e
last_bytes_inj_left (suc n) a b d l k h p q e = xor_inj_left a b (word (take (suc n) d)) (
    mul64-m_inj _ _ (put_in_lt (suc n) a d l h p) (put_in_lt (suc n) b d l h q)
      (sym (last_bytes-suc n a d h k) ∙ e ∙ last_bytes-suc n b d h k))

pub last_bytes_inj_right :
    (n h : ℕ) (d d' : List ℕ)
    → n ≤ 8
    → n ≤ length d
    → length d ≡ length d'
    → AllBytes d
    → AllBytes d'
    → h < 2 ^ 64
    → last_bytes n h d ≡ last_bytes n h d'
    → take n d ≡ take n d'
last_bytes_inj_right zero h d d' l k same a a' p e = refl
last_bytes_inj_right (suc n) h d d' l k same a a' p e = word-take_inj (suc n) d d' a a' same (
    xor_inj_right (word (take (suc n) d)) (word (take (suc n) d')) h (
      mul64-m_inj _ _ (put_in_lt (suc n) h d l a p) (put_in_lt (suc n) h d' l a' p)
        (sym (last_bytes-suc n h d a k) ∙ e ∙ last_bytes-suc n h d' a' (omega arith))))
