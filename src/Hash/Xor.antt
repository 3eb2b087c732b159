-- ===== src/Hash/Xor.antt =====
-- Exclusive or, and the two steps of the hash that mix a word with itself: that they can be undone.
use Prim.Native.Nat.{bit_xor, bit_xor-bitwise, digits, differ}
use native.Mathlib.Nat.{div-div-eq-div-mul, mul_assoc, pow-suc, pow-succ'}
use nd.Base.{ℕ, zero, suc, ◌+◌, ◌*◌, ◌/◌, ◌%◌, ◌^◌, ◌≤◌, ◌<◌, ◌≡◌, refl, ap, ap₂, sym, ◌∙◌, arith}

-- By the definition that the native operation stands for, with more digits to go than there are.
xor_digits : ℕ → ℕ → ℕ → ℕ
xor_digits n a b = digits (λ c. c) differ n a b

xor_digits_enough : (n k a b : ℕ) → a ≤ n → a ≤ k → xor_digits n a b ≡ xor_digits k a b
unfolding xor_digits
xor_digits_enough zero zero a b p q = refl
xor_digits_enough zero (suc k) zero b p q = refl
xor_digits_enough zero (suc k) (suc a) b p q = absurd (omega arith)
xor_digits_enough (suc n) zero zero b p q = refl
xor_digits_enough (suc n) zero (suc a) b p q = absurd (omega arith)
xor_digits_enough (suc n) (suc k) zero b p q = refl
xor_digits_enough (suc n) (suc k) (suc a) b p q =
    ap (λ t. t * 2 + differ (suc a % 2) (b % 2))
      (xor_digits_enough n k (suc a / 2) (b / 2) (omega arith) (omega arith))

zero-xor : (b : ℕ) → bit_xor 0 b ≡ b
zero-xor b = bit_xor-bitwise 0 b

differ-parity : (a b : ℕ) → a < 2 → b < 2 → differ a b ≡ (a + b) % 2
differ-parity zero zero p q = refl
differ-parity zero (suc zero) p q = refl
differ-parity (suc zero) zero p q = refl
differ-parity (suc zero) (suc zero) p q = refl
differ-parity zero (suc (suc b)) p q = absurd (omega arith)
differ-parity (suc zero) (suc (suc b)) p q = absurd (omega arith)
differ-parity (suc (suc a)) b p q = absurd (omega arith)

-- One digit, and the others.
pub xor_step : (a b : ℕ) → bit_xor a b ≡ bit_xor (a / 2) (b / 2) * 2 + (a + b) % 2
unfolding xor_digits
xor_step zero b = omega (arith, zero-xor b, zero-xor (b / 2))
xor_step (suc a) b =
    let lowest : differ (suc a % 2) (b % 2) ≡ (suc a + b) % 2 =
      differ-parity (suc a % 2) (b % 2) (omega arith) (omega arith) ∙ omega arith in
    bit_xor-bitwise (suc a) b
    ∙ ap₂ (λ t d. t * 2 + d)
        (xor_digits_enough a (suc a / 2) (suc a / 2) (b / 2) (omega arith) (omega arith)
          ∙ sym (bit_xor-bitwise (suc a / 2) (b / 2)))
        lowest

half-xor : (a b : ℕ) → bit_xor a b / 2 ≡ bit_xor (a / 2) (b / 2)
half-xor a b = omega (arith, xor_step a b)

xor-xor_fuel : (n a b : ℕ) → a + b ≤ n → bit_xor (bit_xor a b) b ≡ a
xor-xor_fuel zero zero zero h = refl
xor-xor_fuel zero zero (suc b) h = absurd (omega arith)
xor-xor_fuel zero (suc a) b h = absurd (omega arith)
xor-xor_fuel (suc n) a b h =
    let rest : bit_xor (bit_xor a b / 2) (b / 2) ≡ a / 2 =
      ap (λ t. bit_xor t (b / 2)) (half-xor a b) ∙ xor-xor_fuel n (a / 2) (b / 2) (omega arith) in
    omega (arith, xor_step a b, xor_step (bit_xor a b) b, rest)

-- What is put in twice is gone.
pub xor-xor : (a b : ℕ) → bit_xor (bit_xor a b) b ≡ a
xor-xor a b = xor-xor_fuel (a + b) a b (omega arith)

xor_comm_fuel : (n a b : ℕ) → a + b ≤ n → bit_xor a b ≡ bit_xor b a
xor_comm_fuel zero zero zero h = refl
xor_comm_fuel zero zero (suc b) h = absurd (omega arith)
xor_comm_fuel zero (suc a) b h = absurd (omega arith)
xor_comm_fuel (suc n) a b h =
    omega (arith, xor_step a b, xor_step b a, xor_comm_fuel n (a / 2) (b / 2) (omega arith))

pub xor_comm : (a b : ℕ) → bit_xor a b ≡ bit_xor b a
xor_comm a b = xor_comm_fuel (a + b) a b (omega arith)

pub xor-zero : (a : ℕ) → bit_xor a 0 ≡ a
xor-zero a = xor_comm a 0 ∙ zero-xor a

xor_assoc_fuel : (n a b c : ℕ) → a + b + c ≤ n → bit_xor (bit_xor a b) c ≡ bit_xor a (bit_xor b c)
xor_assoc_fuel zero zero zero zero h = refl
xor_assoc_fuel zero zero zero (suc c) h = absurd (omega arith)
xor_assoc_fuel zero zero (suc b) c h = absurd (omega arith)
xor_assoc_fuel zero (suc a) b c h = absurd (omega arith)
xor_assoc_fuel (suc n) a b c h =
    let rest : bit_xor (bit_xor a b / 2) (c / 2) ≡ bit_xor (a / 2) (bit_xor b c / 2) =
      ap (λ t. bit_xor t (c / 2)) (half-xor a b)
      ∙ xor_assoc_fuel n (a / 2) (b / 2) (c / 2) (omega arith)
      ∙ ap (λ t. bit_xor (a / 2) t) (sym (half-xor b c)) in
    omega
      (arith, xor_step a b, xor_step b c, xor_step (bit_xor a b) c, xor_step a (bit_xor b c), rest)

pub xor_assoc : (a b c : ℕ) → bit_xor (bit_xor a b) c ≡ bit_xor a (bit_xor b c)
xor_assoc a b c = xor_assoc_fuel (a + b + c) a b c (omega arith)

pub xor_lt : (k a b : ℕ) → a < 2 ^ k → b < 2 ^ k → bit_xor a b < 2 ^ k
xor_lt zero zero zero p q = omega arith
xor_lt zero zero (suc b) p q = absurd (omega arith)
xor_lt zero (suc a) b p q = absurd (omega arith)
xor_lt (suc k) a b p q =
    omega (arith, xor_step a b, xor_lt k (a / 2) (b / 2) (omega arith) (omega arith))

-- Numbers whose digits do not meet.
pub xor_disjoint : (k a b : ℕ) → a < 2 ^ k → bit_xor a (b * 2 ^ k) ≡ a + b * 2 ^ k
xor_disjoint zero zero b p = omega (arith, zero-xor (b * 2 ^ 0))
xor_disjoint zero (suc a) b p = absurd (omega arith)
xor_disjoint (suc k) a b p =
    let double : b * 2 ^ suc k ≡ b * 2 ^ k * 2 =
      ap (λ t. b * t) (pow-suc 2 k) ∙ sym (mul_assoc b (2 ^ k) 2) in
    let half : b * 2 ^ suc k / 2 ≡ b * 2 ^ k = omega (arith, double) in
    let even : b * 2 ^ suc k % 2 ≡ 0 = omega (arith, double) in
    let rest : bit_xor (a / 2) (b * 2 ^ suc k / 2) ≡ a / 2 + b * 2 ^ k =
      ap (λ t. bit_xor (a / 2) t) half ∙ xor_disjoint k (a / 2) b (omega arith) in
    omega (arith, xor_step a (b * 2 ^ suc k), rest, half, even, double)

div-pow_suc : (k a : ℕ) → a / 2 ^ suc k ≡ a / 2 / 2 ^ k
div-pow_suc k a = ap (λ t. a / t) (pow-succ' 2 k) ∙ sym (div-div-eq-div-mul a 2 (2 ^ k))

-- A shift of both.
pub xor-div : (k a b : ℕ) → bit_xor a b / 2 ^ k ≡ bit_xor (a / 2 ^ k) (b / 2 ^ k)
xor-div zero a b =
    let x : bit_xor a b / 2 ^ 0 ≡ bit_xor a b = omega arith in
    let whole : (c : ℕ) → c ≡ c / 2 ^ 0 = λ c. omega arith in x ∙ ap₂ bit_xor (whole a) (whole b)
xor-div (suc k) a b =
    div-pow_suc k (bit_xor a b)
    ∙ ap (λ t. t / 2 ^ k) (half-xor a b)
    ∙ xor-div k (a / 2) (b / 2)
    ∙ sym (ap₂ bit_xor (div-pow_suc k a) (div-pow_suc k b))

-- h ^= h >> k, twice, for a shift of at least half of the digits.
pub xorshift_undone :
    (a : ℕ) (k : ℕ)
    → a / 2 ^ k / 2 ^ k ≡ 0
    → let b = bit_xor a (a / 2 ^ k) in bit_xor b (b / 2 ^ k) ≡ a
xorshift_undone a k h =
    let shifted : bit_xor a (a / 2 ^ k) / 2 ^ k ≡ a / 2 ^ k =
      xor-div k a (a / 2 ^ k) ∙ ap (bit_xor (a / 2 ^ k)) h ∙ xor-zero (a / 2 ^ k) in
    ap (bit_xor (bit_xor a (a / 2 ^ k))) shifted ∙ xor-xor a (a / 2 ^ k)
