-- ===== src/File/Text.antt =====
-- Parts of lists by index, and a string with a zero written into it.
use nd.Base.{
  ℕ, zero, suc, ◌+◌, ◌≤◌, ◌<◌, ◌≡◌, ◌≢◌, refl, ap, ◌∙◌, List, [], ◌∷◌, length, get_or, set, take,
  drop, arith,
}
use nd.Hash.{c_string}

suc_plus : (k i : ℕ) → suc (k + i) ≡ suc k + i
suc_plus k i = omega arith

module _ {ℓ} {A : Type ℓ} where
  pub get_or-drop : (k i : ℕ) (xs : List A) (d : A) → get_or (drop k xs) i d ≡ get_or xs (k + i) d
  get_or-drop zero i xs d = ap (λ n. get_or xs n d) (omega arith)
  get_or-drop (suc k) i [] d = refl
  get_or-drop (suc k) i (x ∷ xs) d =
      get_or-drop k i xs d ∙ ap (λ n. get_or (x ∷ xs) n d) (suc_plus k i)

  pub get_or-take : (n i : ℕ) (xs : List A) (d : A) → i < n → get_or (take n xs) i d ≡ get_or xs i d
  get_or-take zero i xs d h = absurd (omega arith)
  get_or-take (suc n) i [] d h = refl
  get_or-take (suc n) zero (x ∷ xs) d h = refl
  get_or-take (suc n) (suc i) (x ∷ xs) d h = get_or-take n i xs d (omega arith)

  pub get_or-set_before :
      (xs : List A) (i j : ℕ) (v d : A) → i < j → get_or (set xs j v) i d ≡ get_or xs i d
  get_or-set_before [] i j v d h = refl
  get_or-set_before (x ∷ xs) i zero v d h = absurd (omega arith)
  get_or-set_before (x ∷ xs) zero (suc j) v d h = refl
  get_or-set_before (x ∷ xs) (suc i) (suc j) v d h = get_or-set_before xs i j v d (omega arith)

  pub take-set_before : (n j : ℕ) (xs : List A) (v : A) → n ≤ j → take n (set xs j v) ≡ take n xs
  take-set_before zero j xs v h = refl
  take-set_before (suc n) j [] v h = refl
  take-set_before (suc n) zero (x ∷ xs) v h = absurd (omega arith)
  take-set_before (suc n) (suc j) (x ∷ xs) v h =
      ap (λ t. x ∷ t) (take-set_before n j xs v (omega arith))

-- The text in front of a zero that was written into a string.
pub c_string-set :
    (s : List ℕ) (k : ℕ)
    → ((i : ℕ) → i < k → get_or s i 0 ≢ 0)
    → k < length s
    → c_string (set s k 0) ≡ take k s
unfolding c_string
c_string-set [] k h lt = absurd (omega arith)
c_string-set (x ∷ s) zero h lt = ground arith
c_string-set (x ∷ s) (suc k) h lt =
    ground
      (arith, h 0 (omega arith), c_string-set s k (λ i a. h (suc i) (omega arith)) (omega arith))
