-- ===== src/Hash/Steps.antt =====
-- The steps of the hash, on 64 bits: what goes in can be told from what comes out.
use Prim.Native.Nat.{bit_xor}
use nd.Base.{ℕ, zero, suc, ◌/◌, ◌^◌, ◌<◌, ◌≡◌, ap, sym, ◌∙◌, List, [], ◌∷◌, take, drop, arith}
use nd.Hash.{m, r, mul64, shr, word, scramble, words, finish}
use nd.Hash.Xor.{xor-xor, xor_comm, xor_lt, xorshift_undone}

abbrev pub AllBytes : List ℕ → Type 0
AllBytes [] = Unit
AllBytes (b ∷ bs) = (b < 256) × AllBytes bs

-- The multiplier is odd: 6879827495036328381 is its inverse.
mul64-m_undone : (a : ℕ) → a < 2 ^ 64 → mul64 (mul64 a m) 6879827495036328381 ≡ a
unfolding mul64
mul64-m_undone a h = omega arith

pub mul64-m_inj : (a b : ℕ) → a < 2 ^ 64 → b < 2 ^ 64 → mul64 a m ≡ mul64 b m → a ≡ b
mul64-m_inj a b p q e =
    sym (mul64-m_undone a p) ∙ ap (λ t. mul64 t 6879827495036328381) e ∙ mul64-m_undone b q

pub mul64_lt : (a b : ℕ) → mul64 a b < 2 ^ 64
unfolding mul64
mul64_lt a b = omega arith

-- h ^= h >> r
abbrev mix : ℕ → ℕ
mix h = bit_xor h (shr h r)

mix_undone : (h : ℕ) → h < 2 ^ 64 → mix (mix h) ≡ h
unfolding shr
mix_undone h p = xorshift_undone h 47 (omega arith)

mix_lt : (h : ℕ) → h < 2 ^ 64 → mix h < 2 ^ 64
unfolding shr
mix_lt h p = xor_lt 64 h (h / 2 ^ 47) p (omega arith)

mix_inj : (a b : ℕ) → a < 2 ^ 64 → b < 2 ^ 64 → mix a ≡ mix b → a ≡ b
mix_inj a b p q e = sym (mix_undone a p) ∙ ap mix e ∙ mix_undone b q

pub scramble_lt : (k : ℕ) → scramble k < 2 ^ 64
unfolding scramble
scramble_lt k = mul64_lt (mix (mul64 k m)) m

pub scramble_inj : (a b : ℕ) → a < 2 ^ 64 → b < 2 ^ 64 → scramble a ≡ scramble b → a ≡ b
unfolding scramble
scramble_inj a b p q e =
    let u = mul64_lt a m in
    let v = mul64_lt b m in
    mul64-m_inj a b p q (
      mix_inj (mul64 a m) (mul64 b m) u v (
        mul64-m_inj (mix (mul64 a m)) (mix (mul64 b m)) (mix_lt (mul64 a m) u)
          (mix_lt (mul64 b m) v) e))

pub finish_inj : (a b : ℕ) → a < 2 ^ 64 → b < 2 ^ 64 → finish a ≡ finish b → a ≡ b
unfolding finish
finish_inj a b p q e = mix_inj a b p q (
    mul64-m_inj (mix a) (mix b) (mix_lt a p) (mix_lt b q)
      (mix_inj (mul64 (mix a) m) (mul64 (mix b) m) (mul64_lt (mix a) m) (mul64_lt (mix b) m) e))

pub finish_lt : (h : ℕ) → finish h < 2 ^ 64
unfolding finish
finish_lt h = mix_lt (mul64 (mix h) m) (mul64_lt (mix h) m)

pub xor_inj_left : (a b c : ℕ) → bit_xor a c ≡ bit_xor b c → a ≡ b
xor_inj_left a b c e = sym (xor-xor a c) ∙ ap (λ t. bit_xor t c) e ∙ xor-xor b c

pub xor_inj_right : (a b c : ℕ) → bit_xor c a ≡ bit_xor c b → a ≡ b
xor_inj_right a b c e = xor_inj_left a b c (xor_comm a c ∙ e ∙ xor_comm c b)

-- One round of the loop.
abbrev pub absorb : ℕ → ℕ → ℕ
absorb h k = mul64 (bit_xor h (scramble k)) m

pub absorb_inj_left : (a b k : ℕ) → a < 2 ^ 64 → b < 2 ^ 64 → absorb a k ≡ absorb b k → a ≡ b
absorb_inj_left a b k p q e = xor_inj_left a b (scramble k) (
    mul64-m_inj _ _ (xor_lt 64 a (scramble k) p (scramble_lt k))
      (xor_lt 64 b (scramble k) q (scramble_lt k)) e)

pub absorb_inj_right :
    (h a b : ℕ) → h < 2 ^ 64 → a < 2 ^ 64 → b < 2 ^ 64 → absorb h a ≡ absorb h b → a ≡ b
absorb_inj_right h a b p u v e = scramble_inj a b u v (
    xor_inj_right (scramble a) (scramble b) h (
      mul64-m_inj _ _ (xor_lt 64 h (scramble a) p (scramble_lt a))
        (xor_lt 64 h (scramble b) p (scramble_lt b)) e))

pub words_lt : (n h : ℕ) (bytes : List ℕ) → h < 2 ^ 64 → words n h bytes < 2 ^ 64
unfolding words
words_lt zero h bytes p = p
words_lt (suc n) h bytes p = words_lt n _ (drop 8 bytes) (mul64_lt _ m)

pub words_inj :
    (n a b : ℕ) (bytes : List ℕ)
    → a < 2 ^ 64
    → b < 2 ^ 64
    → words n a bytes ≡ words n b bytes
    → a ≡ b
unfolding words
words_inj zero a b bytes p q e = e
words_inj (suc n) a b bytes p q e =
    absorb_inj_left a b (word (take 8 bytes)) p q
      (words_inj n _ _ (drop 8 bytes) (mul64_lt _ m) (mul64_lt _ m) e)
