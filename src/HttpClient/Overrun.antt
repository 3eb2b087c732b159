-- ===== src/HttpClient/Overrun.antt =====
-- How far a request of src/http_client.cpp writes past the ends of its blocks, and when the loop ends.
use nd.Base.{
  ℕ, ◌+◌, Bool, false, not, ◌||◌, Option, none, some, List, [], ◌∷◌, ltb, ◌==◌, if◌then◌else◌,
}
use nd.HttpClient.World.{Parts, Flag, post_flag, get_flag}
use nd.HttpClient.Request.{Response, http_moveperm, http_movetemp, strlen_or_zero}
use nd.HttpClient.Target.{null_text}

-- The bytes that a request for a uri writes past the end of its block.
abbrev pub overrun_of : Flag → Parts → ℕ
overrun_of post_flag u = 0
overrun_of get_flag u =
    if ltb 0 (strlen_or_zero u.path + strlen_or_zero u.query)
    then 1 + null_text u.path + null_text u.query
    else 0

-- Any response but a redirection tells the loop to exit.
abbrev pub ends_loop : Option Response → Bool
ends_loop none = false
ends_loop (some resp) = not (resp.code == http_moveperm || resp.code == http_movetemp)

module _ (parse : List ℕ → Option Parts) (flag : Flag) where
  abbrev pub overrun_at : Option (List ℕ) → ℕ
  overrun_at none = 0
  overrun_at (some location) = elim (parse location) [ none ↦ 0 | some u ↦ overrun_of flag u ]

  -- A response of 302 makes a request for its location.
  abbrev pub redirection_overrun : Option Response → ℕ
  redirection_overrun none = 0
  redirection_overrun (some resp) =
      if resp.code == http_movetemp then overrun_at resp.location else 0

  -- That of all the responses up to the one that ends the loop.
  abbrev pub later_overruns : List (Option Response) → ℕ
  later_overruns [] = 0
  later_overruns (resp ∷ resps) =
      let rest = later_overruns resps in
      redirection_overrun resp + (if ends_loop resp then 0 else rest)
