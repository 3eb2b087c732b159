-- ===== src/File/System/Dirs.antt =====
-- create_parent_dir and create_dir: that they end, what they leave, and where they fail.
use nd.Base.{
  ℕ, zero, suc, ◌<◌, ◌≡◌, refl, ap, sym, subst, ◌∙◌, inl, inr, Bool, true, false, ◌&&◌, Bool-cases,
  none, some, List, [], ◌∷◌, ◌++◌, length, codes, ℤ, pos, negsuc, arith,
}
use nd.Hash.{c_string}
use nd.File.{dirname}
use nd.File.System.{FileSystem, mkdir_result, mkdir_after, create_parent_dir, create_dir}
use nd.File.System.Depth.{slashes, dirname-Shorter, dirname_bare}

-- What mkdir and access are relied on for.
pub record IsLawful (F : FileSystem) : Type 0 where
  pub mkdir_new : (p : List ℕ) (s s' : F.State) → F.mkdir p s ≡ (true, s') → F.exists s' p ≡ true
  pub mkdir_old : (p : List ℕ) (s : F.State) → F.exists s p ≡ true → F.mkdir p s ≡ (false, s)
  pub mkdir_keeps :
      (p q : List ℕ) (s : F.State) → F.exists s q ≡ true → F.exists (F.mkdir p s).1 q ≡ true

module _ (F : FileSystem) where
  open F use {State, is_dir, may_use, exists, mkdir}

  abbrev pub is_usable : State → List ℕ → Bool
  is_usable s name = is_dir s name && may_use s name

  -- What was there is there.
  abbrev pub Grown : State → State → Type 0
  Grown s s' = (q : List ℕ) → exists s q ≡ true → exists s' q ≡ true

  -- The ways in which a directory is seen to.
  pub data Created (name : List ℕ) (s : State) : ℤ × State → Type 0 where
    usable : is_usable s name ≡ true → Created name s (pos 0, s)
    blocked : is_usable s name ≡ false → exists s name ≡ true → Created name s (negsuc 0, s)
    made :
        (s' : State)
        → exists s name ≡ false
        → exists s' name ≡ true
        → Grown s s'
        → Created name s (pos 0, s')
    failed : (s' : State) → exists s name ≡ false → Grown s s' → Created name s (negsuc 0, s')

  -- access with F_OK finds "/" and the working directory.
  pub record HasRoots (s : State) : Type 0 where
    pub root : exists s (codes "/") ≡ true
    pub here : exists s (codes ".") ≡ true

unless : {b : Bool} → b ≡ false → b ≡ true → ⊥
unless n e = ground (arith, sym n ∙ e)

module _ (F : FileSystem) (L : IsLawful F) where
  open F use {State, is_dir, may_use, exists, mkdir}

  Created-Grown : (name : List ℕ) (s : State) (r : ℤ × State) → Created F name s r → Grown F s r.1
  Created-Grown name s r (usable u) = λ q e. e
  Created-Grown name s r (blocked u e) = λ q e. e
  Created-Grown name s r (made s' n e g) = g
  Created-Grown name s r (failed s' n g) = g

  mkdir_result-Created :
      (name : List ℕ) (s t : State) (r : Bool × State)
      → exists s name ≡ false
      → Grown F s t
      → mkdir name t ≡ r
      → Created F name s (mkdir_result F r)
  mkdir_result-Created name s t (true, s') n g e =
      made s' n (L.mkdir_new name t s' e)
        (λ q h. subst (λ r. exists r.1 q ≡ true) e (L.mkdir_keeps name q t (g q h)))
  mkdir_result-Created name s t (false, s') n g e =
      failed s' n (λ q h. subst (λ r. exists r.1 q ≡ true) e (L.mkdir_keeps name q t (g q h)))

  mkdir_after-Created :
      (name : List ℕ) (s : State) (r : ℤ × State)
      → exists s name ≡ false
      → Grown F s r.1
      → Created F name s (mkdir_after F name r)
  mkdir_after-Created name s (pos zero, t) n g =
      mkdir_result-Created name s t (mkdir name t) n g refl
  mkdir_after-Created name s (pos (suc k), t) n g = failed t n g
  mkdir_after-Created name s (negsuc k, t) n g = failed t n g

  -- A parent that is not there has fewer slashes than the path.
  parent-lt :
      (path : List ℕ) (s : State)
      → HasRoots F s
      → exists s (c_string (dirname path false)) ≡ false
      → slashes (dirname path false) < slashes path
  parent-lt path s h n = elim (dirname-Shorter path) [
    | inl root ↦ absurd (unless n (ap (exists s) root ∙ h.root))
    | inr (inl here) ↦ absurd (unless n (ap (exists s) here ∙ h.here))
    | inr (inr less) ↦ less
  ]

  -- The parent is seen to, with more fuel than the path has slashes.
  create_parent_dir_lem :
      (fuel : ℕ) (path : List ℕ) (s : State)
      → HasRoots F s
      → slashes path < fuel
      → (r : ℤ × State) × (create_parent_dir F fuel path s ≡ some r)
        × Created F (c_string (dirname path false)) s r
  unfolding create_parent_dir
  create_parent_dir_lem zero path s h lt = absurd (omega arith)
  create_parent_dir_lem (suc fuel) path s h lt =
      let name = c_string (dirname path false) in
      elim (Bool-cases (is_usable F s name)) [
        | inl u ↦ ((pos 0, s), rw u, usable u)
        | inr v ↦ elim (Bool-cases (exists s name)) [
          | inl e ↦ ((negsuc 0, s), rw (v, e), blocked v e)
          | inr n ↦
              let (r, e, c) =
                create_parent_dir_lem fuel (dirname path false) s h
                  (omega (arith, parent-lt path s h n)) in
              (
                mkdir_after F name r,
                rw (v, n, e),
                mkdir_after-Created name s r n
                    (Created-Grown (c_string (dirname (dirname path false) false)) s r c),
              )
        ]
      ]

  -- With "/" and the working directory there, and with more fuel than the path has slashes,
  -- create_dir ends: nothing that was there goes. It returns 0 and changes nothing where the path is
  -- a directory that may be used, -1 and changes nothing where the path is there otherwise, and else
  -- 0 only if the path is there afterwards.
  pub create_dir_lem :
      (fuel : ℕ) (path : List ℕ) (s : State)
      → HasRoots F s
      → slashes path < fuel
      → (r : ℤ × State) × (create_dir F fuel path s ≡ some r)
        × Created F (c_string path) s r
        × Grown F s r.1
  unfolding create_dir
  create_dir_lem fuel path s h lt =
      let name = c_string path in
      elim (Bool-cases (is_usable F s name)) [
        | inl u ↦ ((pos 0, s), rw u, usable u, λ q e. e)
        | inr v ↦ elim (Bool-cases (exists s name)) [
          | inl e ↦ ((negsuc 0, s), rw (v, e), blocked v e, λ q e. e)
          | inr n ↦
              let (r, e, c) = create_parent_dir_lem fuel path s h lt in
              let d =
                mkdir_after-Created name s r n
                  (Created-Grown (c_string (dirname path false)) s r c) in
              (mkdir_after F name r, rw (v, n, e), d, Created-Grown name s (mkdir_after F name r) d)
        ]
      ]

  mkdir_after-old :
      (name : List ℕ) (t : State) (ret : ℤ)
      → exists t name ≡ true
      → mkdir_after F name (ret, t) ≡ (negsuc 0, t)
  mkdir_after-old name t (pos zero) e = rw (L.mkdir_old name t e)
  mkdir_after-old name t (pos (suc k)) e = refl
  mkdir_after-old name t (negsuc k) e = refl

  twice_after :
      (name : List ℕ) (s : State) (r : ℤ × State)
      → is_dir s name ≡ false
      → Created F name s r
      → (s' : State) × (mkdir_after F name r ≡ (negsuc 0, s'))
  twice_after name s r d (usable u) = absurd (ground (arith, u, d))
  twice_after name s r d (blocked u e) = (s, refl)
  twice_after name s r d (made s' m e g) = (s', mkdir_after-old name s' (pos 0) e)
  twice_after name s r d (failed s' m g) = (s', refl)

  -- Where dirname, called on its own result, gives the name that it gave before, and that is not
  -- there, create_parent_dir returns -1, also where mkdir could make it: it is made by the inner
  -- call, and mkdir fails in the outer.
  pub create_parent_dir_twice :
      (fuel : ℕ) (path : List ℕ) (s : State)
      → HasRoots F s
      → slashes path < fuel
      → c_string (dirname (dirname path false) false) ≡ c_string (dirname path false)
      → is_dir s (c_string (dirname path false)) ≡ false
      → exists s (c_string (dirname path false)) ≡ false
      → (s' : State) × (create_parent_dir F fuel path s ≡ some (negsuc 0, s'))
  unfolding create_parent_dir
  create_parent_dir_twice zero path s h lt same d n = absurd (omega arith)
  create_parent_dir_twice (suc fuel) path s h lt same d n =
      let (r, e, c) =
        create_parent_dir_lem fuel (dirname path false) s h (omega (arith, parent-lt path s h n)) in
      let (s', f) =
        twice_after (c_string (dirname path false)) s r d (subst (λ t. Created F t s r) same c) in
      (s', rw (d, n, e, f))

-- Where neither stat nor access succeeds on ".", as in a working directory that the process may not
-- search, create_parent_dir of a path without a slash, or of what dirname makes of it, calls itself
-- without end.
pub create_parent_dir_stuck :
    (F : FileSystem) (fuel : ℕ) (path : List ℕ) (s : F.State)
    → slashes path ≡ 0
    → 0 < length path
    → F.is_dir s (codes ".") ≡ false
    → F.exists s (codes ".") ≡ false
    → create_parent_dir F fuel path s ≡ none
unfolding create_parent_dir c_string
create_parent_dir_stuck F zero path s p q d n = refl
create_parent_dir_stuck F (suc fuel) path s p q d n =
    let again = create_parent_dir_stuck F fuel (codes "." ++ 0 ∷ []) s refl (omega arith) d n in
    rw (dirname_bare path p q, d, n, again)
