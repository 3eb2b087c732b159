-- ===== src/Hash/Blocks.antt =====
-- Keys that differ in one word only.
use Prim.Native.Nat.{min}
use nd.Base.{
  ℕ, zero, suc, ◌+◌, ◌-◌, ◌*◌, ◌^◌, ◌≤◌, ◌<◌, ◌≡◌, refl, ap, ap₂, sym, ◌∙◌, inl, inr, Bool-cases,
  List, [], ◌∷◌, ◌++◌, length, take, drop, take-all, take-take, take-append-drop, drop-add,
  drop-take, length-drop, ltb, ltb→lt, ltb→le, arith,
}
use nd.Hash.{m, word, words, last_bytes}
use nd.Hash.Steps.{AllBytes, mul64_lt, absorb, absorb_inj_right, words_lt, words_inj}
use nd.Hash.Tail.{word-take_lt64, word-take_inj, last_bytes_inj_left, last_bytes_inj_right}

AllBytes-drop : (n : ℕ) (bs : List ℕ) → AllBytes bs → AllBytes (drop n bs)
AllBytes-drop zero bs a = a
AllBytes-drop (suc n) [] a = a
AllBytes-drop (suc n) (b ∷ bs) (p, a) = AllBytes-drop n bs a

-- The loop in two parts.
words_add :
    (i j h : ℕ) (bytes : List ℕ)
    → words (i + j) h bytes ≡ words j (words i h bytes) (drop (8 * i) bytes)
unfolding words
words_add zero j h bytes = ap (λ k. words k h bytes) {x = 0 + j} {y = j} (omega arith)
words_add (suc i) j h bytes =
    ap (λ k. words k h bytes) {x = suc i + j} {y = suc (i + j)} (omega arith)
    ∙ words_add i j (absorb h (word (take 8 bytes))) (drop 8 bytes)
    ∙ ap (words j (words i (absorb h (word (take 8 bytes))) (drop 8 bytes))) (
        sym (drop-add 8 (8 * i) bytes)
        ∙ ap (λ k. drop k bytes) {x = 8 + 8 * i} {y = 8 * suc i} (omega arith))

-- The loop looks at as many bytes as it takes.
words-take : (i h : ℕ) (bytes : List ℕ) → words i h bytes ≡ words i h (take (8 * i) bytes)
unfolding words
words-take zero h bytes = refl
words-take (suc i) h bytes =
    let first : take 8 (take (8 * suc i) bytes) ≡ take 8 bytes =
      take-take 8 (8 * suc i) bytes
      ∙ ap (λ k. take k bytes) {x = min 8 (8 * suc i)} {y = 8} (omega arith) in
    let others : drop 8 (take (8 * suc i) bytes) ≡ take (8 * i) (drop 8 bytes) =
      ap (λ k. drop 8 (take k bytes)) {x = 8 * suc i} {y = 8 + 8 * i} (omega arith)
      ∙ drop-take 8 (8 * i) bytes in
    words-take i (absorb h (word (take 8 bytes))) (drop 8 bytes)
    ∙ sym (ap₂ (λ f o. words i (absorb h (word f)) o) first others)

-- As many bytes alike at the front.
take_fewer : (i j : ℕ) (k k' : List ℕ) → i ≤ j → take j k ≡ take j k' → take i k ≡ take i k'
take_fewer i j k k' h e = cut k ∙ ap (take i) e ∙ sym (cut k')
  where
    cut : (c : List ℕ) → take i c ≡ take i (take j c)
    cut c = ap (λ n. take n c) {x = i} {y = min i j} (omega arith) ∙ sym (take-take i j c)

-- As many bytes alike behind.
drop_more : (i j : ℕ) (k k' : List ℕ) → i ≤ j → drop i k ≡ drop i k' → drop j k ≡ drop j k'
drop_more i j k k' h e = cut k ∙ ap (drop (j - i)) e ∙ sym (cut k')
  where
    cut : (c : List ℕ) → drop j c ≡ drop (j - i) (drop i c)
    cut c = ap (λ n. drop n c) {x = j} {y = i + (j - i)} (omega arith) ∙ drop-add i (j - i) c

whole : (n : ℕ) (k k' : List ℕ) → take n k ≡ take n k' → drop n k ≡ drop n k' → k ≡ k'
whole n k k' e f = sym (take-append-drop n k) ∙ ap₂ ◌++◌ e f ∙ take-append-drop n k'

module _ (seed n q t : ℕ) (k k' : List ℕ) (in_range : seed < 2 ^ 64) (few : t < 8)
    (long : length k ≡ 8 * q + t) (long' : length k' ≡ 8 * q + t) (bytes : AllBytes k)
    (bytes' : AllBytes k') (front : take (8 * n) k ≡ take (8 * n) k')
    (behind : drop (8 * n + 8) k ≡ drop (8 * n + 8) k') where
  -- What goes into finish.
  abbrev before_finish : List ℕ → ℕ
  before_finish c = last_bytes t (words q seed c) (drop (8 * q) c)

  same_words : (i : ℕ) → i ≤ n → words i seed k ≡ words i seed k'
  same_words i h =
      words-take i seed k
      ∙ ap (words i seed) (take_fewer (8 * i) (8 * n) k k' (omega arith) front)
      ∙ sym (words-take i seed k')

  -- They differ behind the last whole word.
  tail_inj : q ≤ n → before_finish k ≡ before_finish k' → k ≡ k'
  tail_inj h e =
      let d = drop (8 * q) k in
      let d' = drop (8 * q) k' in
      let l : length d ≡ t = omega (arith, length-drop (8 * q) k) in
      let l' : length d' ≡ t = omega (arith, length-drop (8 * q) k') in
      let f : last_bytes t (words q seed k) d ≡ last_bytes t (words q seed k) d' =
        e ∙ ap (λ w. last_bytes t w d') (sym (same_words q h)) in
      let tails : take t d ≡ take t d' =
        last_bytes_inj_right t (words q seed k) d d' (omega arith) (omega arith) (l ∙ sym l')
          (AllBytes-drop (8 * q) k bytes) (AllBytes-drop (8 * q) k' bytes')
          (words_lt q seed k in_range) f in
      whole (8 * q) k k' (take_fewer (8 * q) (8 * n) k k' (omega arith) front)
        (sym (take-all t d (omega arith)) ∙ tails ∙ take-all t d' (omega arith))

  -- From the loop's word `n` on.
  words_from :
      (c : List ℕ) (j : ℕ)
      → n + suc j ≡ q
      → words q seed c
        ≡ words j (absorb (words n seed c) (word (take 8 (drop (8 * n) c)))) (drop (8 * n + 8) c)
  unfolding words
  words_from c j h =
      ap (λ i. words i seed c) (sym h)
      ∙ words_add n (suc j) seed c
      ∙ ap (words j (absorb (words n seed c) (word (take 8 (drop (8 * n) c)))))
          (sym (drop-add (8 * n) 8 c))

  -- They differ in a whole word.
  word_inj : (j : ℕ) → n + suc j ≡ q → before_finish k ≡ before_finish k' → k ≡ k'
  word_inj j h e =
      let w = take 8 (drop (8 * n) k) in
      let w' = take 8 (drop (8 * n) k') in
      let h₀ = words n seed k in
      let tails : drop (8 * q) k ≡ drop (8 * q) k' =
        drop_more (8 * n + 8) (8 * q) k k' (omega arith) behind in
      let loops : words q seed k ≡ words q seed k' =
        last_bytes_inj_left t (words q seed k) (words q seed k') (drop (8 * q) k) (omega arith)
          (omega (arith, length-drop (8 * q) k)) (AllBytes-drop (8 * q) k bytes)
          (words_lt q seed k in_range) (words_lt q seed k' in_range)
          (e ∙ ap (last_bytes t (words q seed k')) (sym tails)) in
      let alike : words j (absorb h₀ (word w)) (drop (8 * n + 8) k)
          ≡ words j (absorb h₀ (word w')) (drop (8 * n + 8) k) =
        sym (words_from k j h)
        ∙ loops
        ∙ words_from k' j h
        ∙ ap₂ (λ x d. words j (absorb x (word w')) d) (sym (same_words n (omega arith)))
            (sym behind) in
      let d = AllBytes-drop (8 * n) k bytes in
      let d' = AllBytes-drop (8 * n) k' bytes' in
      let one : word w ≡ word w' =
        absorb_inj_right h₀ (word w) (word w') (words_lt n seed k in_range)
          (word-take_lt64 8 (drop (8 * n) k) (omega arith) d)
          (word-take_lt64 8 (drop (8 * n) k') (omega arith) d')
          (words_inj j _ _ (drop (8 * n + 8) k) (mul64_lt _ m) (mul64_lt _ m) alike) in
      let same : length (drop (8 * n) k) ≡ length (drop (8 * n) k') =
        omega (arith, length-drop (8 * n) k, length-drop (8 * n) k') in
      whole (8 * n) k k' front (
        whole 8 (drop (8 * n) k) (drop (8 * n) k')
          (word-take_inj 8 (drop (8 * n) k) (drop (8 * n) k') d d' same one)
          (sym (drop-add (8 * n) 8 k) ∙ behind ∙ drop-add (8 * n) 8 k'))

  pub before_finish_inj : before_finish k ≡ before_finish k' → k ≡ k'
  before_finish_inj e = elim (Bool-cases (ltb n q)) [
    | inl less ↦ word_inj (q - n - 1) (omega (arith, ltb→lt n q less)) e
    | inr more ↦ tail_inj (ltb→le n q more) e
  ]
