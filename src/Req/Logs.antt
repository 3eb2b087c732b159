-- ===== src/Req/Logs.antt =====
-- What http_handler and get_post_data of src/req.cpp log of a request, in order. What its backend
-- logs, in src/function.cpp and src/http_client.cpp, is given: all of that is at DEBUG. So are the
-- times and the measured cost.
pub mod Laws
pub mod Files
pub mod Size
use nd.Base.{
  ℕ, zero, suc, Bool, Option, none, some, List, [], ◌∷◌, ◌++◌, map, length, ltb, ◌||◌,
  if◌then◌else◌, ◌>>=◌, codes, decimal, signed_decimal, ℤ, pos, negsuc, to_int32,
}
use nd.HttpClient.World.{Parts}
use nd.Log.Line.{Call}
use nd.Log.Levels.{Level, debug, notice, warning, Said, log_call}
use nd.Req.Post.{max_post_data_size, errno_post_data_empty, errno_post_data_too_large}
use nd.Req.Handler.{ReqT, Ctx}
use nd.Req.Serving.{Arrival, has_backend}
use nd.Req.Dispatch.{
  Incoming, is_cmd, command_no, http_handler, cmdno_class, cmdno_get_docs_by_doc,
  cmdno_get_docs_by_sign, cmdno_get_signs_by_doc, cmdno_wordseg,
}
use nd.Req.Dispatch.Refused.{reads_post}

-- `__FILE__` of req.cpp, the text of the time at each of its lines, that of `cost` by "%.3f", and
-- what the backend says.
pub record Note : Type 0 where
  pub file : List ℕ
  pub time : ℕ → List ℕ
  pub cost : List ℕ
  pub backend : List Said

abbrev pub said_at : Note → ℕ → List ℕ → Said
said_at note line text = record {
  fileline = note.file ++ codes ":" ++ decimal line;
  timebuf = note.time line;
  message = some text;
}

abbrev pub errno_text : ℤ → List ℕ
errno_text e = codes "errno: " ++ signed_decimal e

abbrev pub too_large_text : ℕ → List ℕ
too_large_text len =
    codes "post data too large: " ++ decimal len ++ codes " > " ++ decimal max_post_data_size

-- log_warning(ret_errmsg), by the command number.
abbrev pub refusal_text : ℤ → List ℕ
refusal_text k =
    if is_cmd k cmdno_get_docs_by_sign
      || is_cmd k cmdno_get_signs_by_doc
      || is_cmd k cmdno_get_docs_by_doc
      || is_cmd k cmdno_wordseg
      || is_cmd k cmdno_class
    then codes "cmdno not support"
    else codes "illegal cmdno"

abbrev pub access_text : ℤ → ℤ → List ℕ → ℤ → List ℕ
access_text err_no command_no cost readbuf_len =
    codes "errno: "
    ++ signed_decimal err_no
    ++ codes ", cmdno: "
    ++ signed_decimal command_no
    ++ codes ", cost: "
    ++ cost
    ++ codes ", len: "
    ++ signed_decimal readbuf_len

module _ {D : Type 0} (show_double : D → List ℕ) where
  -- get_post_data, given the length as an int.
  unfoldable pub post_calls : Note → ℤ → List (Call show_double)
  post_calls note (negsuc n) =
      log_call show_double warning (said_at note 79 (codes "post data empty"))
      ∷ log_call show_double notice (said_at note 80 (errno_text errno_post_data_empty))
      ∷ []
  post_calls note (pos zero) =
      log_call show_double warning (said_at note 79 (codes "post data empty"))
      ∷ log_call show_double notice (said_at note 80 (errno_text errno_post_data_empty))
      ∷ []
  post_calls note (pos (suc n)) =
      if ltb max_post_data_size (suc n)
      then log_call show_double warning (said_at note 84 (too_large_text (suc n)))
        ∷ log_call show_double notice (said_at note 85 (errno_text errno_post_data_too_large))
        ∷ []
      else []

  -- The branch of a command number.
  unfoldable pub branch_calls : Note → Incoming → ℤ → List (Call show_double)
  unfolding post_calls
  branch_calls note inc k =
      (if reads_post k then post_calls note (to_int32 (length inc.input)) else [])
      ++ (if has_backend k
          then map (log_call show_double debug) note.backend
          else log_call show_double warning (said_at note 212 (refusal_text k)) ∷ [])

  unfoldable pub handler_calls : Note → Incoming → ReqT → List (Call show_double)
  unfolding branch_calls
  handler_calls note inc r =
      log_call show_double debug (said_at note 112 (codes "in http_handler"))
      ∷ (branch_calls note inc r.command_no
          ++ log_call show_double notice
              (said_at note 199 (access_text r.err_no r.command_no note.cost r.readbuf_len))
            ∷ [])

  -- Request after request: all that is logged, and what is left.
  unfoldable pub serve_calls :
      (List ℕ → Option Parts) → List (Arrival × Note) → Ctx → Option (List (Call show_double) × Ctx)
  unfolding handler_calls
  serve_calls parse [] c = some ([], c)
  serve_calls parse (((junk, inc), note) ∷ more) c = http_handler parse junk inc c >>= λ p.
      serve_calls parse more p.1 >>= λ q. some (handler_calls note inc p.0 ++ q.0, q.1)
