-- ===== src/Tests/Paths.antt =====
-- Examples on paths.
use nd.Base.{ℕ, ◌<◌, ◌≡◌, ◌≢◌, refl, List, length, get_or, codes, arith}
use nd.File.{basename}
use nd.File.Split.{Split, dirname_basename_lem}

abbrev conf_path : List ℕ
conf_path = codes "./a//nd/"

conf_path_no_zero : (i : ℕ) → i < length conf_path → get_or conf_path i 0 ≢ 0
conf_path_no_zero i h = ground arith

dirname_basename_lem_example : Split conf_path
dirname_basename_lem_example =
    dirname_basename_lem conf_path conf_path_no_zero 5 (omega arith) (λ h. absurd (omega arith))

basename_conf : basename conf_path ≡ codes "nd"
unfolding basename
basename_conf = refl
