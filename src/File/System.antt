-- ===== src/File/System.antt =====
-- The functions of src/file.cpp that ask the file system, which is a parameter. A path goes to it as
-- a zero-terminated string.
pub mod Depth
pub mod Dirs
pub mod Listing
use nd.Base.{
  ℕ, zero, suc, ◌-◌, Bool, true, false, not, ◌&&◌, ◌||◌, Option, none, some, List, [], ◌∷◌, ◌++◌,
  length, take, leb, ◌==◌, if◌then◌else◌, guard, ◌>>=◌, ◌>>◌, codes, ℤ, pos, negsuc,
}
use nd.Hash.{c_string}
use nd.File.{dirname}

-- `is_dir`: stat succeeds and S_ISDIR holds of the mode. `may_use`: access with R_OK|W_OK|X_OK.
-- `exists`: access with F_OK. `size`: the st_size that stat gives. mkdir tells whether it returned 0.
-- `entries`: d_name for each result of readdir_r, all bytes of that array, and whether the last call
-- failed; `none` where opendir does.
pub record FileSystem : Type 1 where
  pub State : Type 0
  pub is_dir : State → List ℕ → Bool
  pub may_use : State → List ℕ → Bool
  pub exists : State → List ℕ → Bool
  pub size : State → List ℕ → Option ℕ
  pub mkdir : List ℕ → State → Bool × State
  pub entries : State → List ℕ → Option (List (List ℕ) × Bool)

abbrev pub is_success : ℤ → Bool
is_success (pos zero) = true
is_success (pos (suc n)) = false
is_success (negsuc n) = false

-- memcmp of the first bytes with a text. It faults past the end of `buf`.
unfoldable pub has_prefix : List ℕ → List ℕ → Bool
has_prefix [] buf = true
has_prefix (c ∷ cs) [] = false
has_prefix (c ∷ cs) (b ∷ bs) = (c == b) && has_prefix cs bs

-- strcmp, for equality.
unfoldable pub same_text : List ℕ → List ℕ → Bool
same_text [] [] = true
same_text [] (b ∷ bs) = false
same_text (c ∷ cs) [] = false
same_text (c ∷ cs) (b ∷ bs) = (c == b) && same_text cs bs

abbrev pub is_dots : List ℕ → Bool
is_dots name = same_text name (codes "..") || same_text name (codes ".")

-- One round of the loop of scan_dir.
unfoldable pub scan_entry : List ℕ → List ℕ → List (List ℕ) → Option (List (List ℕ))
unfolding has_prefix same_text c_string
scan_entry prefix d_name out_file_list =
    if is_dots (c_string d_name)
    then some out_file_list
    else guard (leb (length prefix) (length d_name))
      >> some (
          if has_prefix prefix d_name then out_file_list ++ c_string d_name ∷ [] else out_file_list)

unfoldable pub scan_entries : List ℕ → List (List ℕ) → List (List ℕ) → Option (List (List ℕ))
scan_entries prefix [] out_file_list = some out_file_list
scan_entries prefix (d_name ∷ more) out_file_list =
    scan_entry prefix d_name out_file_list >>= scan_entries prefix more

module _ (F : FileSystem) where
  open F use {State, is_dir, may_use, exists, size, mkdir, entries}

  unfoldable pub file_exists : List ℕ → State → ℤ
  file_exists path s = if exists s (c_string path) then pos 0 else negsuc 0

  -- The result, and what is stored to `out_size`.
  unfoldable pub file_size : List ℕ → State → ℤ × ℕ
  file_size path s = elim (size s (c_string path)) [ none ↦ (negsuc 0, 0) | some n ↦ (pos 0, n) ]

  -- `0 == mkdir(...)`, and the result by it.
  abbrev pub mkdir_result : Bool × State → ℤ × State
  mkdir_result (true, s) = (pos 0, s)
  mkdir_result (false, s) = (negsuc 0, s)

  -- `0 == create_parent_dir(...) && 0 == mkdir(...)`.
  abbrev pub mkdir_after : List ℕ → ℤ × State → ℤ × State
  mkdir_after name (ret, s) = if is_success ret then mkdir_result (mkdir name s) else (negsuc 0, s)

  -- It calls itself on the string that dirname returns. `none` is the end of the fuel.
  unfoldable pub create_parent_dir : ℕ → List ℕ → State → Option (ℤ × State)
  create_parent_dir zero path s = none
  create_parent_dir (suc fuel) path s =
      let parent = dirname path false in
      let name = c_string parent in
      let rest = create_parent_dir fuel parent s in
      if is_dir s name && may_use s name
      then some (pos 0, s)
      else if exists s name
      then some (negsuc 0, s)
      else rest >>= (λ r. some (mkdir_after name r))

  unfoldable pub create_dir : ℕ → List ℕ → State → Option (ℤ × State)
  unfolding create_parent_dir
  create_dir fuel path s =
      if is_dir s (c_string path) && may_use s (c_string path)
      then some (pos 0, s)
      else if exists s (c_string path)
      then some (negsuc 0, s)
      else create_parent_dir fuel path s >>= (λ r. some (mkdir_after (c_string path) r))

  -- The result, the names that were found, and the number of open directories, which was `open`.
  unfoldable pub scan_dir : List ℕ → List ℕ → ℕ → State → Option (ℤ × List (List ℕ) × ℕ)
  unfolding scan_entries scan_entry
  scan_dir dir_path prefix opened s = elim (entries s (c_string dir_path)) [
    | none ↦ some (negsuc 0, [], opened)
    | some (found, failed) ↦
        scan_entries prefix found []
        >>= (λ out. some (if failed then negsuc 0 else pos 0, out, suc opened - 1))
  ]
