-- ===== src/HttpClient/Target.antt =====
-- The target of a get request, and the block that its path and query are written into.
use nd.Base.{
  ℕ, ◌+◌, ◌<◌, ◌≡◌, Option, none, some, List, ◌++◌, length, length-append, codes, percent_s, arith,
}
use nd.HttpClient.World.{Parts, World, overran}
use nd.HttpClient.Request.{
  strlen_or_zero, path_query_len, path_query_text, path_query_overrun, get_target,
}

-- What "(null)" takes where a part is missing.
abbrev pub null_text : Option (List ℕ) → ℕ
null_text none = 6
null_text (some s) = 0

length-percent_s : (s : Option (List ℕ)) → length (percent_s s) ≡ strlen_or_zero s + null_text s
length-percent_s none = omega arith
length-percent_s (some s) = omega arith

length-path_query_text :
    (u : Parts)
    → length (path_query_text u)
      ≡ strlen_or_zero u.path + null_text u.path + 1 + strlen_or_zero u.query + null_text u.query
unfolding path_query_text
length-path_query_text u = omega (
  arith,
  length-append (percent_s u.path ++ codes "?") (percent_s u.query),
  length-append (percent_s u.path) (codes "?"),
  length-percent_s u.path,
  length-percent_s u.query,
)

-- The text with its final zero is longer than its block, by one byte and by six more for each part
-- that is missing.
pub path_query_overrun_lem :
    (u : Parts)
    → (path_query_len u < length (path_query_text u) + 1)
      × (path_query_overrun u ≡ 1 + null_text u.path + null_text u.query)
unfolding path_query_len path_query_overrun
path_query_overrun_lem u =
    (omega (arith, length-path_query_text u), omega (arith, length-path_query_text u))

-- A get request for a uri with any byte of path or query writes past the end of its block, by one
-- byte and by six more for each part that is missing.
pub get_target_overruns :
    (u : Parts) (w : World)
    → 0 < strlen_or_zero u.path + strlen_or_zero u.query
    → get_target u w
      ≡ some (
        path_query_text u,
        record w { overrun = w.overrun + (1 + null_text u.path + null_text u.query) },
      )
unfolding get_target overran path_query_len
get_target_overruns u w h = ground (arith, (path_query_overrun_lem u).1)

-- A get request for a uri with neither asks for "/" and writes nothing.
pub get_target_slash :
    (u : Parts) (w : World)
    → strlen_or_zero u.path + strlen_or_zero u.query ≡ 0
    → get_target u w ≡ some (codes "/", w)
unfolding get_target path_query_len
get_target_slash u w h = ground arith
