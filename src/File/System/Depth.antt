-- ===== src/File/System/Depth.antt =====
-- How dirname, called on its own result, comes to an end (src/file.cpp).
use nd.Base.{
  ℕ, zero, suc, ◌+◌, ◌-◌, ◌≤◌, ◌<◌, ◌≡◌, refl, ap, ◌∙◌, ◌⊎◌, inl, inr, false, Bool-cases, List, [],
  ◌∷◌, ◌++◌, length, get_or, set, ltb, ltb→lt, ltb→le, ◌==◌, if◌then◌else◌, codes, arith,
}
use nd.Hash.{c_string}
use nd.File.{slash, skip_slashes, skip_letters, skip_last, parent_of, cut, dirname}
use nd.File.Scan.{skip_slashes_lem, skip_letters_lem, skip_last_lem, name_there}
use nd.File.Text.{get_or-set_before}

-- The slashes of a string, behind its zero bytes too.
abbrev pub slashes : List ℕ → ℕ
slashes [] = 0
slashes (c ∷ s) = (if c == slash then 1 else 0) + slashes s

slashes-set-le : (s : List ℕ) (i : ℕ) → slashes (set s i 0) ≤ slashes s
slashes-set-le [] i = omega arith
slashes-set-le (c ∷ s) zero = ground arith
slashes-set-le (c ∷ s) (suc i) = omega (arith, slashes-set-le s i)

slashes-set-lt : (s : List ℕ) (i : ℕ) → get_or s i 0 ≡ slash → slashes (set s i 0) < slashes s
slashes-set-lt [] i h = absurd (omega (arith, h))
slashes-set-lt (c ∷ s) zero h = ground (arith, h)
slashes-set-lt (c ∷ s) (suc i) h = omega (arith, slashes-set-lt s i h)

-- What dirname gives, once more and once more, comes to one of two names.
abbrev pub Shorter : List ℕ → List ℕ → Type 0
Shorter s parent =
    (c_string parent ≡ codes "/") ⊎ ((c_string parent ≡ codes ".") ⊎ (slashes parent < slashes s))

c_string-root :
    (s : List ℕ) → 1 < length s → get_or s 0 0 ≡ slash → c_string (set (set s 1 0) 1 0) ≡ codes "/"
unfolding c_string
c_string-root [] h e = absurd (omega arith)
c_string-root (a ∷ []) h e = absurd (omega arith)
c_string-root (a ∷ b ∷ s) h e = ground (arith, e)

-- Where the third loop of dirname stops at once, there is one slash, in front.
cut_root :
    (s : List ℕ) (k : ℕ)
    → suc k < length s
    → get_or s k 0 ≡ slash
    → k ≤ skip_last (set s (suc k) 0) k
    → c_string (cut false (parent_of s (suc k))) ≡ codes "/"
unfolding skip_last
cut_root s zero h e ge = c_string-root s h e
cut_root s (suc k) h e ge =
    let l = skip_last_lem (set s (suc (suc k)) 0) (suc k) in
    let same : skip_last (set s (suc (suc k)) 0) (suc k) ≡ suc k = omega (arith, l.le) in
    absurd (elim l.stop [
      | inl z ↦ omega arith
      | inr ne ↦ ne (
          ap (λ j. get_or (set s (suc (suc k)) 0) j 0) same
          ∙ get_or-set_before s (suc k) (suc (suc k)) 0 0 (omega arith)
          ∙ e)
    ])

cut-Shorter :
    (s : List ℕ) (k : ℕ)
    → k < length s
    → (0 < k → get_or s (k - 1) 0 ≡ slash)
    → Shorter s (cut false (parent_of s k))
unfolding c_string skip_last
cut-Shorter s zero h e = inr (inl refl)
cut-Shorter s (suc k) h e =
    let parent = set s (suc k) 0 in
    let l = skip_last_lem parent k in
    let at : get_or s k 0 ≡ slash = ap (λ j. get_or s j 0) (omega arith) ∙ e (omega arith) in
    elim (Bool-cases (ltb (skip_last parent k) k)) [
      | inl lt ↦ inr (
          inr (
            omega (
              arith,
              slashes-set-lt parent (suc (skip_last parent k))
                  (l.passed (suc (skip_last parent k)) (omega arith) (ltb→lt _ _ lt)),
              slashes-set-le s (suc k),
            )))
      | inr ge ↦ inl (cut_root s k h at (ltb→le _ _ ge))
    ]

pub dirname-Shorter : (s : List ℕ) → Shorter s (dirname s false)
unfolding dirname c_string
dirname-Shorter s = elim (Bool-cases (skip_slashes s (length s) == 0)) [
  | inl root ↦ rw root (inl refl)
  | inr there ↦
      let n = skip_slashes s (length s) in
      let f = skip_slashes_lem s (length s) in
      let l = skip_letters_lem s n in
      let inside : skip_letters s n < length s =
        omega (arith, f.le, name_there s n (skip_letters s n) (ground arith) f l) in
      rw there (cut-Shorter s (skip_letters s n) inside (λ p. l.stop p))
]

slashes-pos : (s : List ℕ) (i : ℕ) → get_or s i 0 ≡ slash → 0 < slashes s
slashes-pos [] i h = absurd (omega (arith, h))
slashes-pos (c ∷ s) zero h = ground (arith, h)
slashes-pos (c ∷ s) (suc i) h = omega (arith, slashes-pos s i h)

-- A path without a slash has the parent ".", with a zero byte behind it.
pub dirname_bare :
    (s : List ℕ) → slashes s ≡ 0 → 0 < length s → dirname s false ≡ codes "." ++ 0 ∷ []
unfolding dirname skip_last
dirname_bare s none_there p =
    let n = skip_slashes s (length s) in
    let f = skip_slashes_lem s (length s) in
    let l = skip_letters_lem s n in
    let some_left : (n == 0) ≡ false = elim (Bool-cases (n == 0)) [
      | inl z ↦ absurd (omega (arith, slashes-pos s 0 (f.passed 0 (ground arith) p)))
      | inr e ↦ e
    ] in
    let no_dir : skip_letters s n ≡ 0 = elim (Bool-cases (ltb 0 (skip_letters s n))) [
      | inl b ↦ absurd (omega (arith, slashes-pos s (skip_letters s n - 1) (l.stop (ltb→lt _ _ b))))
      | inr z ↦ omega (arith, ltb→le _ _ z)
    ] in
    rw (some_left, no_dir) refl
