-- ===== src/File/System/Listing.antt =====
-- Which names scan_dir finds.
use nd.Base.{
  ℕ, suc, ◌-◌, ◌≤◌, ◌≡◌, ◌≢◌, refl, ap, sym, ◌∙◌, ◌⊎◌, inl, inr, Bool, true, false, Bool-cases,
  Option, none, some, List, [], ◌∷◌, ◌++◌, append_assoc, append-nil, length, leb, ◌==◌,
  if◌then◌else◌, codes, ℤ, pos, negsuc, arith,
}
use nd.Hash.{c_string}
use nd.File.System.{FileSystem, has_prefix, same_text, is_dots, scan_entry, scan_entries, scan_dir}

abbrev pub NoZero : List ℕ → Type 0
NoZero [] = Unit
NoZero (c ∷ s) = (c ≢ 0) × NoZero s

-- The arrays d_name are of 256 bytes.
abbrev pub AllArrays : List (List ℕ) → Type 0
AllArrays [] = Unit
AllArrays (d ∷ ds) = (length d ≡ 256) × AllArrays ds

-- The names among some results of readdir_r that begin with a prefix, but "." and "..", in order.
pub data Listing (prefix : List ℕ) : List (List ℕ) → List (List ℕ) → Type 0 where
  done : Listing prefix [] []
  dots :
      {ds ns : List (List ℕ)} (d : List ℕ)
      → (c_string d ≡ codes "..") ⊎ (c_string d ≡ codes ".")
      → Listing prefix ds ns
      → Listing prefix (d ∷ ds) ns
  found :
      {ds ns : List (List ℕ)} (d rest : List ℕ)
      → c_string d ≢ codes ".."
      → c_string d ≢ codes "."
      → c_string d ≡ prefix ++ rest
      → Listing prefix ds ns
      → Listing prefix (d ∷ ds) (c_string d ∷ ns)
  other :
      {ds ns : List (List ℕ)} (d : List ℕ)
      → ((rest : List ℕ) → c_string d ≢ prefix ++ rest)
      → Listing prefix ds ns
      → Listing prefix (d ∷ ds) ns

same_text-true : (a b : List ℕ) → same_text a b ≡ true → a ≡ b
unfolding same_text
same_text-true [] [] h = refl
same_text-true [] (y ∷ b) h = ground (arith, h)
same_text-true (x ∷ a) [] h = ground (arith, h)
same_text-true (x ∷ a) (y ∷ b) h = ground (arith, h, same_text-true a b)

pub same_text_self : (a : List ℕ) → same_text a a ≡ true
unfolding same_text
same_text_self [] = refl
same_text_self (x ∷ a) = ground (arith, same_text_self a)

same_text-false : (a b : List ℕ) → same_text a b ≡ false → a ≢ b
same_text-false a b h e = ground (arith, sym h ∙ ap (same_text a) (sym e) ∙ same_text_self a)

is_dots-true : (name : List ℕ) → is_dots name ≡ true → (name ≡ codes "..") ⊎ (name ≡ codes ".")
is_dots-true name h = elim (Bool-cases (same_text name (codes ".."))) [
  | inl two ↦ inl (same_text-true name (codes "..") two)
  | inr one ↦ inr (same_text-true name (codes ".") (ground (arith, h, one)))
]

not_dots : (name : List ℕ) → is_dots name ≡ false → (name ≢ codes "..") × (name ≢ codes ".")
not_dots name h = (
  same_text-false name (codes "..") (ground (arith, h)),
  same_text-false name (codes ".") (ground (arith, h)),
)

has_prefix-true :
    (prefix buf : List ℕ)
    → NoZero prefix
    → has_prefix prefix buf ≡ true
    → (rest : List ℕ) × (c_string buf ≡ prefix ++ rest)
unfolding has_prefix c_string
has_prefix-true [] buf z h = (c_string buf, refl)
has_prefix-true (c ∷ cs) [] z h = ground (arith, h)
has_prefix-true (c ∷ cs) (b ∷ bs) (ne, z) h =
    let (rest, e) = has_prefix-true cs bs z (ground (arith, h)) in (rest, ground (arith, h, e, ne))

has_prefix-false :
    (prefix buf : List ℕ)
    → has_prefix prefix buf ≡ false
    → (rest : List ℕ) → c_string buf ≢ prefix ++ rest
unfolding has_prefix c_string
has_prefix-false [] buf h rest e = ground (arith, h)
has_prefix-false (c ∷ cs) [] h rest e = ground (arith, e)
has_prefix-false (c ∷ cs) (b ∷ bs) h rest e = elim (Bool-cases (b == 0)) [
  | inl z ↦ ground (arith, z, e)
  | inr nz ↦ has_prefix-false cs bs (ground (arith, h, e, nz)) rest (ground (arith, e, nz))
]

-- One round, on what was found before.
scan_entries_lem :
    (prefix : List ℕ) (ds out : List (List ℕ))
    → NoZero prefix
    → length prefix ≤ 256
    → AllArrays ds
    → (ns : List (List ℕ)) × (scan_entries prefix ds out ≡ some (out ++ ns)) × Listing prefix ds ns
unfolding scan_entries scan_entry
scan_entries_lem prefix [] out z short all = ([], rw append-nil refl, done)
scan_entries_lem prefix (d ∷ ds) out z short (len, all) = elim (Bool-cases (is_dots (c_string d))) [
  | inl dotted ↦
      let (ns, e, l) = scan_entries_lem prefix ds out z short all in
      (ns, rw dotted e, dots d (is_dots-true (c_string d) dotted) l)
  | inr plain ↦
      let fits : leb (length prefix) (length d) ≡ true = ground (arith, len, short) in
      elim (Bool-cases (has_prefix prefix d)) [
        | inl fit ↦
            let (ns, e, l) = scan_entries_lem prefix ds (out ++ c_string d ∷ []) z short all in
            let (rest, f) = has_prefix-true prefix d z fit in
            (
              c_string d ∷ ns,
              rw (plain, fits, fit, e) (ap some (append_assoc out (c_string d ∷ []) ns)),
              found d rest (not_dots (c_string d) plain).0 (not_dots (c_string d) plain).1 f l,
            )
        | inr unfit ↦
            let (ns, e, l) = scan_entries_lem prefix ds out z short all in
            (ns, rw (plain, fits, unfit, e), other d (has_prefix-false prefix d unfit) l)
      ]
]

-- What readdir_r fills are arrays of d_name, where opendir has succeeded.
abbrev pub HasArrays : Option (List (List ℕ) × Bool) → Type 0
HasArrays none = Unit
HasArrays (some (ds, failed)) = AllArrays ds

-- What scan_dir comes to, by what opendir and readdir_r gave.
pub data Scanned (prefix : List ℕ) (opened : ℕ)
    : Option (List (List ℕ) × Bool) → Option (ℤ × List (List ℕ) × ℕ) → Type 0 where
  unopened : Scanned prefix opened none (some (negsuc 0, [], opened))
  listed :
      (ds ns : List (List ℕ)) (failed : Bool)
      → Listing prefix ds ns
      → Scanned prefix opened
          (some (ds, failed))
          (some (if failed then negsuc 0 else pos 0, ns, opened))

module _ (F : FileSystem) (dir_path prefix : List ℕ) (opened : ℕ) (s : F.State) where
  scan_opened :
      (o : Option (List (List ℕ) × Bool))
      → NoZero prefix
      → length prefix ≤ 256
      → HasArrays o
      → F.entries s (c_string dir_path) ≡ o
      → Scanned prefix opened o (scan_dir F dir_path prefix opened s)
  unfolding scan_dir
  scan_opened none z short all e =
      let f : scan_dir F dir_path prefix opened s ≡ some (negsuc 0, [], opened) =
        rw (scan_dir, e) in
      rw f unopened
  scan_opened (some (ds, failed)) z short all e =
      let (ns, f, l) = scan_entries_lem prefix ds [] z short all in
      let closed : suc opened - 1 ≡ opened = omega arith in
      let g : scan_dir F dir_path prefix opened s
          ≡ some (if failed then negsuc 0 else pos 0, ns, opened) =
        rw (scan_dir, e, f, closed) in
      rw g (listed ds ns failed l)

  -- For a prefix without a zero byte that is no longer than the arrays of names, of 256 bytes each,
  -- scan_dir does not fault and leaves as many directories open as there were. Where opendir fails,
  -- it returns -1 and finds nothing; otherwise it finds the names that begin with the prefix, but
  -- "." and "..", in the order of readdir_r, up to where that fails, and returns 0, or -1 if it
  -- failed.
  pub scan_dir-Scanned :
      NoZero prefix
      → length prefix ≤ 256
      → HasArrays (F.entries s (c_string dir_path))
      → Scanned prefix opened
          (F.entries s (c_string dir_path))
          (scan_dir F dir_path prefix opened s)
  scan_dir-Scanned z short all = scan_opened (F.entries s (c_string dir_path)) z short all refl
