-- ===== src/Tests/Files.antt =====
-- Examples on a file system that is a list of directories.
use nd.Base.{
  ℕ, zero, suc, ◌-◌, ◌≡◌, refl, inl, inr, Bool, true, false, ◌||◌, Bool-cases, none, some, List, [],
  ◌∷◌, ◌++◌, length, if◌then◌else◌, codes, ℤ, pos, negsuc, arith,
}
use nd.Hash.{c_string}
use nd.File.{dirname}
use nd.File.System.{FileSystem, same_text, create_parent_dir, create_dir, scan_dir}
use nd.File.System.Dirs.{
  IsLawful, HasRoots, Created, Grown, create_dir_lem, create_parent_dir_twice,
  create_parent_dir_stuck,
}
use nd.File.System.Listing.{Scanned, same_text_self, scan_dir-Scanned}

has : List (List ℕ) → List ℕ → Bool
has [] p = false
has (d ∷ ds) p = same_text d p || has ds p

junk_bytes : ℕ → List ℕ
junk_bytes zero = []
junk_bytes (suc n) = 7 ∷ junk_bytes n

-- An array of 256 bytes for a name.
abbrev name_array : List ℕ → List ℕ
name_array name = name ++ 0 ∷ junk_bytes (255 - length name)

abbrev dirs : FileSystem
dirs = record {
  State = List (List ℕ);
  is_dir = has;
  may_use = has;
  exists = has;
  size = λ s p. none;
  mkdir = λ p s. if has s p then (false, s) else (true, p ∷ s);
  entries = λ s p.
      if has s p
      then some (
        name_array (codes ".")
            ∷ name_array (codes "nd.log")
            ∷ name_array (codes "core")
            ∷ name_array (codes "nd.log.wf")
            ∷ [],
        false,
      )
      else none;
}

mkdir_has : (p : List ℕ) (s s' : List (List ℕ)) → dirs.mkdir p s ≡ (true, s') → has s' p ≡ true
unfolding has
mkdir_has p s s' h = elim (Bool-cases (has s p)) [
  | inl e ↦ ground (arith, h, e)
  | inr e ↦ ground (arith, h, e, same_text_self p)
]

mkdir_keeps_has :
    (p q : List ℕ) (s : List (List ℕ)) → has s q ≡ true → has (dirs.mkdir p s).1 q ≡ true
unfolding has
mkdir_keeps_has p q s h = ground (arith, h)

mkdir_old_fails : (p : List ℕ) (s : List (List ℕ)) → has s p ≡ true → dirs.mkdir p s ≡ (false, s)
mkdir_old_fails p s h = ground (arith, h)

dirs-IsLawful : IsLawful dirs
dirs-IsLawful = record {
  mkdir_new = mkdir_has;
  mkdir_old = mkdir_old_fails;
  mkdir_keeps = mkdir_keeps_has;
}

abbrev roots : List (List ℕ)
roots = codes "/" ∷ codes "." ∷ []

roots-HasRoots : HasRoots dirs roots
unfolding has same_text
roots-HasRoots = record { root = refl; here = refl }

create_dir_lem_example :
    (r : ℤ × List (List ℕ)) × (create_dir dirs 4 (codes "/a/b/c") roots ≡ some r)
    × Created dirs (c_string (codes "/a/b/c")) roots r
    × Grown dirs roots r.1
create_dir_lem_example =
    create_dir_lem dirs dirs-IsLawful 4 (codes "/a/b/c") roots roots-HasRoots (ground arith)

create_dir_made :
    create_dir dirs 4 (codes "/a/b/c") roots
    ≡ some (pos 0, codes "/a/b/c" ∷ codes "/a/b" ∷ codes "/a" ∷ roots)
unfolding create_dir has same_text c_string dirname
create_dir_made = refl

create_parent_dir_twice_example :
    (s' : List (List ℕ)) × (create_parent_dir dirs 5 (codes "/a//b/") roots ≡ some (negsuc 0, s'))
unfolding has dirname c_string same_text
create_parent_dir_twice_example =
    create_parent_dir_twice dirs dirs-IsLawful 5 (codes "/a//b/") roots roots-HasRoots
      (ground arith) refl refl refl

create_parent_dir_stuck_example : create_parent_dir dirs 1000 (codes "logs") [] ≡ none
unfolding has
create_parent_dir_stuck_example =
    create_parent_dir_stuck dirs 1000 (codes "logs") [] refl (omega arith) refl refl

scan_dir-Scanned_example :
    Scanned
      (codes "nd")
      3
      (dirs.entries roots (c_string (codes ".")))
      (scan_dir dirs (codes ".") (codes "nd") 3 roots)
unfolding has junk_bytes same_text c_string
scan_dir-Scanned_example =
    scan_dir-Scanned dirs (codes ".") (codes "nd") 3 roots
      (λ h. absurd (omega arith), (λ h. absurd (omega arith), tt)) (omega arith)
      (refl, (refl, (refl, (refl, tt))))

scan_dir_found :
    scan_dir dirs (codes ".") (codes "nd") 3 roots
    ≡ some (pos 0, codes "nd.log" ∷ codes "nd.log.wf" ∷ [], 3)
unfolding scan_dir has junk_bytes
scan_dir_found = refl
