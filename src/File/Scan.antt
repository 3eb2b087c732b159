-- ===== src/File/Scan.antt =====
-- What the loops of dirname and basename pass over, and where they stop.
use nd.Base.{
  ℕ, zero, suc, ◌-◌, ◌≤◌, ◌<◌, ◌≡◌, ◌≢◌, refl, ◌⊎◌, inl, inr, Bool-cases, List, length, get_or, ltb,
  ltb→lt, ltb→le, ap, ◌∙◌, ◌==◌, arith,
}
use nd.File.{slash, skip_slashes, skip_letters, skip_last}

-- What the first loop passes over: slashes, up to a byte that is none.
pub record Slashes (s : List ℕ) (n m : ℕ) : Type 0 where
  pub le : m ≤ n
  pub passed : (i : ℕ) → m ≤ i → i < n → get_or s i 0 ≡ slash
  pub stop : 0 < m → get_or s (m - 1) 0 ≢ slash

pub skip_slashes_lem : (s : List ℕ) (n : ℕ) → Slashes s n (skip_slashes s n)
unfolding skip_slashes
skip_slashes_lem s zero = record {
  le = omega arith;
  passed = λ i a b. absurd (omega arith);
  stop = λ a. absurd (omega arith);
}
skip_slashes_lem s (suc n) = elim (Bool-cases (get_or s n 0 == slash)) [
  | inl e ↦
      let k = skip_slashes_lem s n in
      rw e (record {
        le = omega (arith, k.le);
        passed = λ i a b. elim (Bool-cases (i == n)) [
          | inl same ↦ ground (arith, e)
          | inr other ↦ k.passed i a (ground arith)
        ];
        stop = k.stop;
      })
  | inr e ↦ rw e (record {
    le = omega arith;
    passed = λ i a b. absurd (omega arith);
    stop = λ a. ground (arith, e);
  })
]

-- What the second loop passes over.
pub record Letters (s : List ℕ) (n m : ℕ) : Type 0 where
  pub le : m ≤ n
  pub passed : (i : ℕ) → m ≤ i → i < n → get_or s i 0 ≢ slash
  pub stop : 0 < m → get_or s (m - 1) 0 ≡ slash

pub skip_letters_lem : (s : List ℕ) (n : ℕ) → Letters s n (skip_letters s n)
unfolding skip_letters
skip_letters_lem s zero = record {
  le = omega arith;
  passed = λ i a b. absurd (omega arith);
  stop = λ a. absurd (omega arith);
}
skip_letters_lem s (suc n) = elim (Bool-cases (get_or s n 0 == slash)) [
  | inr e ↦
      let k = skip_letters_lem s n in
      rw e (record {
        le = omega (arith, k.le);
        passed = λ i a b. elim (Bool-cases (i == n)) [
          | inl same ↦ ground (arith, e)
          | inr other ↦ k.passed i a (ground arith)
        ];
        stop = k.stop;
      })
  | inl e ↦ rw e (record {
    le = omega arith;
    passed = λ i a b. absurd (omega arith);
    stop = λ a. ground (arith, e);
  })
]

-- What the third loop passes over.
pub record Last (s : List ℕ) (n m : ℕ) : Type 0 where
  pub le : m ≤ n
  pub passed : (i : ℕ) → m < i → i ≤ n → get_or s i 0 ≡ slash
  pub stop : (m ≡ 0) ⊎ (get_or s m 0 ≢ slash)

pub skip_last_lem : (s : List ℕ) (n : ℕ) → Last s n (skip_last s n)
unfolding skip_last
skip_last_lem s zero = record {
  le = omega arith;
  passed = λ i a b. absurd (omega arith);
  stop = inl refl;
}
skip_last_lem s (suc n) = elim (Bool-cases (get_or s (suc n) 0 == slash)) [
  | inl e ↦
      let k = skip_last_lem s n in
      rw e (record {
        le = omega (arith, k.le);
        passed = λ i a b. elim (Bool-cases (i == suc n)) [
          | inl same ↦ ground (arith, e)
          | inr other ↦ k.passed i a (ground arith)
        ];
        stop = k.stop;
      })
  | inr e ↦ rw e (record {
    le = omega arith;
    passed = λ i a b. absurd (omega arith);
    stop = inr (ground (arith, e));
  })
]

-- The last name is not empty.
pub name_there : (s : List ℕ) (n k : ℕ) → 0 < n → Slashes s (length s) n → Letters s n k → k < n
name_there s n k pos f l = elim (Bool-cases (ltb k n)) [
  | inl lt ↦ ltb→lt _ _ lt
  | inr ge ↦
      let same : n ≡ k = omega (arith, l.le, ltb→le _ _ ge) in
      absurd (f.stop pos (ap (λ j. get_or s (j - 1) 0) same ∙ l.stop (omega arith)))
]
