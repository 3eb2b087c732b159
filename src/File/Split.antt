-- ===== src/File/Split.antt =====
-- How dirname and basename take a path apart.
use nd.Base.{
  length-drop, ℕ, zero, suc, ◌+◌, ◌-◌, ◌≤◌, ◌<◌, ◌≡◌, ◌≢◌, refl, ap, sym, ◌∙◌, ◌⊎◌, inl, inr, Bool,
  true, false, Bool-cases, List, ◌++◌, length, length-take, length-set, take-append-drop, take-add,
  take-take, get_or, set, take, drop, ltb, ltb→lt, ltb→le, ◌==◌, if◌then◌else◌, codes, arith,
}
use nd.Hash.{c_string}
use nd.File.{slash, skip_slashes, skip_letters, skip_last, parent_of, cut, dirname, basename}
use nd.File.Scan.{Slashes, Letters, skip_slashes_lem, skip_letters_lem, skip_last_lem, name_there}
use nd.File.Text.{get_or-drop, get_or-take, get_or-set_before, take-set_before, c_string-set}

-- `text` is `dir` without the slashes at its end, of which one stays if there is nothing else.
pub record Trimmed (dir text : List ℕ) : Type 0 where
  pub rest : List ℕ
  pub whole : dir ≡ text ++ rest
  pub rest_slashes : (i : ℕ) → i < length rest → get_or rest i 0 ≡ slash
  pub end : (length text ≡ 1) ⊎ (get_or text (length text - 1) 0 ≢ slash)

-- A path as dirname and basename see it.
pub record Split (s : List ℕ) : Type 0 where
  pub dir : List ℕ
  pub tail : List ℕ
  pub whole : s ≡ (dir ++ basename s) ++ tail
  pub nonempty : 0 < length (basename s)
  pub letters : (i : ℕ) → i < length (basename s) → get_or (basename s) i 0 ≢ slash
  pub slashes : (i : ℕ) → i < length tail → get_or tail i 0 ≡ slash
  pub reserved : c_string (dirname s true) ≡ (if length dir == 0 then codes "./" else dir)
  pub at_slash : 0 < length dir → get_or dir (length dir - 1) 0 ≡ slash
  pub here : length dir ≡ 0 → c_string (dirname s false) ≡ codes "."
  pub trimmed : 0 < length dir → Trimmed dir (c_string (dirname s false))

-- The cut of a text behind index `m`, where only slashes follow.
trim_at :
    (s : List ℕ) (k m : ℕ)
    → m ≤ k
    → suc k < length s
    → ((i : ℕ) → m < i → i ≤ k → get_or s i 0 ≡ slash)
    → (m ≡ 0) ⊎ (get_or s m 0 ≢ slash)
    → Trimmed (take (suc k) s) (take (suc m) s)
trim_at s k m le h passed stop =
    let len : length (take (suc m) s) ≡ suc m = omega (arith, length-take (suc m) s) in
    record {
      rest = drop (suc m) (take (suc k) s);
      whole =
          sym (take-append-drop (suc m) (take (suc k) s))
          ∙ ap (λ t. t ++ drop (suc m) (take (suc k) s))
              (take-take (suc m) (suc k) s ∙ ap (λ n. take n s) {y = suc m} (omega arith));
      rest_slashes = λ i lt.
          let in_rest : i < suc k - suc m =
            omega (arith, length-drop (suc m) (take (suc k) s), length-take (suc k) s) in
          get_or-drop (suc m) i (take (suc k) s) 0
          ∙ get_or-take (suc k) (suc m + i) s 0 (omega arith)
          ∙ passed (suc m + i) (omega arith) (omega arith);
      end = elim stop [
        | inl z ↦ inl (omega arith)
        | inr e ↦ inr (λ q. e (
            sym (get_or-take (suc m) m s 0 (omega arith))
            ∙ ap (λ n. get_or (take (suc m) s) n 0) (omega arith)
            ∙ q))
      ];
    }

module _ (s : List ℕ) (no_zero : (i : ℕ) → i < length s → get_or s i 0 ≢ 0) where
  -- The two results for a parent of `suc k` bytes.
  reserved_lem :
      (k : ℕ) → suc k < length s → c_string (cut true (parent_of s (suc k))) ≡ take (suc k) s
  reserved_lem k h = c_string-set s (suc k) (λ i a. no_zero i (omega arith)) h

  trimmed_lem :
      (k : ℕ)
      → suc k < length s
      → Trimmed (take (suc k) s) (c_string (cut false (parent_of s (suc k))))
  trimmed_lem k h =
      let parent = set s (suc k) 0 in
      let l = skip_last_lem parent k in
      let same : (i : ℕ) → i < suc k → get_or parent i 0 ≡ get_or s i 0 =
        λ i a. get_or-set_before s i (suc k) 0 0 a in
      let text : c_string (cut false (parent_of s (suc k))) ≡ take (suc (skip_last parent k)) s =
        c_string-set parent (suc (skip_last parent k))
          (λ i a q. no_zero i (omega (arith, l.le)) (sym (same i (omega (arith, l.le))) ∙ q))
          (omega (arith, l.le, length-set s (suc k) 0))
        ∙ take-set_before (suc (skip_last parent k)) (suc k) s 0 (omega (arith, l.le)) in
      rw text (
        trim_at s k (skip_last parent k) l.le h
          (λ i a b. sym (same i (omega arith)) ∙ l.passed i a b)
          (elim l.stop [
            | inl z ↦ inl z
            | inr e ↦ inr (λ q. e (same (skip_last parent k) (omega (arith, l.le)) ∙ q))
          ]))

  reserved_at :
      (k : ℕ)
      → k < length s
      → c_string (cut true (parent_of s k))
        ≡ (if length (take k s) == 0 then codes "./" else take k s)
  unfolding c_string
  reserved_at zero h = refl
  reserved_at (suc k) h =
      let len : length (take (suc k) s) ≡ suc k = omega (arith, length-take (suc k) s) in
      let some_there : (suc k == 0) ≡ false = ground arith in
      rw (len, some_there) (reserved_lem k h)

  here_at :
      (k : ℕ)
      → k < length s
      → length (take k s) ≡ 0
      → c_string (cut false (parent_of s k)) ≡ codes "."
  unfolding c_string skip_last
  here_at zero h e = refl
  here_at (suc k) h e = absurd (omega (arith, length-take (suc k) s))

  cut-Trimmed :
      (k : ℕ)
      → k < length s
      → 0 < length (take k s)
      → Trimmed (take k s) (c_string (cut false (parent_of s k)))
  cut-Trimmed zero h p = absurd (omega arith)
  cut-Trimmed (suc k) h p = trimmed_lem k h

  basename_at :
      0 < skip_slashes s (length s)
      → basename s
        ≡ take
            (skip_slashes s (length s) - skip_letters s (skip_slashes s (length s)))
            (drop (skip_letters s (skip_slashes s (length s))) s)
  unfolding basename
  basename_at pos = ground arith

  dirname_at :
      (b : Bool)
      → 0 < skip_slashes s (length s)
      → dirname s b ≡ cut b (parent_of s (skip_letters s (skip_slashes s (length s))))
  unfolding dirname
  dirname_at b pos = ground arith

  -- With `n` bytes in front of the last slashes and `k` in front of the last name.
  basename-Split :
      (n k : ℕ)
      → 0 < n
      → Slashes s (length s) n
      → Letters s n k
      → basename s ≡ take (n - k) (drop k s)
      → ((b : Bool) → dirname s b ≡ cut b (parent_of s k))
      → Split s
  basename-Split n k pos f l base dir =
      let lt : k < n = name_there s n k pos f l in
      let inside : k < length s = omega (arith, f.le) in
      let len : length (basename s) ≡ n - k =
        ap length base ∙ omega (arith, length-take (n - k) (drop k s), length-drop k s, f.le) in
      let len_dir : length (take k s) ≡ k = omega (arith, length-take k s) in
      record {
        dir = take k s;
        tail = drop n s;
        whole =
            sym (take-append-drop n s)
            ∙ ap (λ t. t ++ drop n s)
                (ap (λ j. take j s) {y = k + (n - k)} (omega arith)
                  ∙ take-add k (n - k) s
                  ∙ ap (λ t. take k s ++ t) (sym base));
        nonempty = omega (arith, len);
        letters = λ i a q. l.passed (k + i) (omega arith) (omega (arith, len)) (
            sym (get_or-drop k i s 0)
            ∙ sym (get_or-take (n - k) i (drop k s) 0 (omega (arith, len)))
            ∙ ap (λ t. get_or t i 0) (sym base)
            ∙ q);
        slashes = λ i a.
            get_or-drop n i s 0 ∙ f.passed (n + i) (omega arith) (omega (arith, length-drop n s));
        reserved = ap c_string (dir true) ∙ reserved_at k inside;
        at_slash = λ p.
            ap (λ j. get_or (take k s) (j - 1) 0) len_dir
            ∙ get_or-take k (k - 1) s 0 (omega (arith, len_dir))
            ∙ l.stop (omega (arith, len_dir));
        here = λ e. ap c_string (dir false) ∙ here_at k inside e;
        trimmed = λ p. rw (dir false) (cut-Trimmed k inside p);
      }

  -- For a path without a zero byte that has a byte other than a slash: it is a directory, the name
  -- that basename returns, and slashes. The name is not empty and has no slash; the directory is
  -- empty or ends in a slash. dirname with the slash reserved gives the directory, or "./" where
  -- that is empty; without, it gives the directory with no slash at its end, but for one that is
  -- all there is, or "." where the directory is empty. What dirname gives is read up to its first
  -- zero byte.
  pub dirname_basename_lem : (i : ℕ) → i < length s → get_or s i 0 ≢ slash → Split s
  dirname_basename_lem i a ne =
      let n = skip_slashes s (length s) in
      let f = skip_slashes_lem s (length s) in
      let pos : 0 < n = elim (Bool-cases (ltb 0 n)) [
        | inl p ↦ ltb→lt _ _ p
        | inr z ↦ absurd (ne (f.passed i (omega (arith, ltb→le _ _ z)) a))
      ] in
      basename-Split n (skip_letters s n) pos f (skip_letters_lem s n) (basename_at pos)
        (λ b. dirname_at b pos)

-- The string that dirname returns is as long as the path, zero bytes and what was behind them
-- included, unless it is "/", or of the two bytes of "./".
length-dirname :
    (s : List ℕ) (reserve_last_slash : Bool)
    → (length (dirname s reserve_last_slash) ≡ length s)
      ⊎ ((dirname s reserve_last_slash ≡ codes "/") ⊎ (length (dirname s reserve_last_slash) ≡ 2))
unfolding dirname
length-dirname s b = elim (Bool-cases (skip_slashes s (length s) == 0)) [
  | inl root ↦ inr (inl (rw root refl))
  | inr some_there ↦ rw some_there (length-cut b (skip_letters s (skip_slashes s (length s))))
]
  where
    length-cut :
        (b : Bool) (k : ℕ)
        → (length (cut b (parent_of s k)) ≡ length s)
          ⊎ ((cut b (parent_of s k) ≡ codes "/") ⊎ (length (cut b (parent_of s k)) ≡ 2))
    length-cut true zero = inr (inr refl)
    length-cut false zero = inr (inr (length-set (codes "./") (suc (skip_last (codes "./") 1)) 0))
    length-cut true (suc k) = inl (length-set s (suc k) 0)
    length-cut false (suc k) = inl (
        length-set (set s (suc k) 0) (suc (skip_last (set s (suc k) 0) k)) 0
        ∙ length-set s (suc k) 0)
