-- ===== src/Req/Logs/Size.antt =====
-- How long the lines of requests can be.
use nd.Base.{
  ℕ, zero, suc, ◌*◌, ◌<◌, ◌≤◌, List, [], ◌∷◌, ◌++◌, length, length-append, ℤ, pos, negsuc, to_int32,
  arith,
}
use nd.Log.Line.{Call, temp_buf_size}
use nd.Log.Line.Laws.{call_text}
use nd.Log.Levels.{notice, warning, log_call}
use nd.Log.Printf.{Logger}
use nd.Log.Ring.Store.{length-fit}
use nd.Log.Session.Spec.{line_of}
use nd.Log.Session.Room.{log_lines, wf_lines, length-lines}
use nd.Req.Serving.{Arrival}
use nd.Req.Dispatch.{Incoming, command_no}
use nd.Req.Logs.{Note, said_at, refusal_text, post_calls}
use nd.Req.Logs.Laws.{
  access_said, access_line, refusal_line, post_part, access_lines, refusal_lines,
}

module _ (cap : ℕ) {D : Type 0} (show_double : D → List ℕ) (lg₀ : Logger) where
  line-lt : (c : Call show_double) → length (line_of cap show_double lg₀ c) < temp_buf_size
  line-lt c = length-fit temp_buf_size (call_text show_double lg₀.name lg₀.pid c) (omega arith)

  access_line-lt :
      (note : Note) (inc : Incoming)
      → length (access_line cap show_double lg₀ note inc) < temp_buf_size
  access_line-lt note inc =
      line-lt (log_call show_double notice (access_said cap show_double lg₀ note inc))

  refusal_line-lt :
      (note : Note) (inc : Incoming)
      → length (refusal_line cap show_double lg₀ note inc) < temp_buf_size
  refusal_line-lt note inc = ground (
    arith,
    line-lt (log_call show_double warning (said_at note 212 (refusal_text (command_no inc.cmdno)))),
  )

  post_calls-two : (note : Note) (len : ℤ) → length (post_calls show_double note len) ≤ 2
  unfolding post_calls
  post_calls-two note (negsuc n) = omega arith
  post_calls-two note (pos zero) = omega arith
  post_calls-two note (pos (suc n)) = ground arith

  post_part-two :
      (note : Note) (inc : Incoming) → length (post_part cap show_double lg₀ note inc) ≤ 2
  post_part-two note inc = ground (arith, post_calls-two note (to_int32 (length inc.input)))

  -- A request leaves fewer bytes than three lines have room for.
  pub lines_small :
      (served : List (Arrival × Note))
      → (length (access_lines cap show_double lg₀ served) ≤ 3 * temp_buf_size * length served)
        × (length (refusal_lines cap show_double lg₀ served) ≤ 3 * temp_buf_size * length served)
  lines_small [] = (omega arith, omega arith)
  lines_small (((junk, inc), note) ∷ more) =
      let (x, y) = lines_small more in
      let k = post_part-two note inc in
      let (a, b) = length-lines cap show_double lg₀ (post_part cap show_double lg₀ note inc) in
      let m =
        length-append (log_lines cap show_double lg₀ (post_part cap show_double lg₀ note inc))
          (access_line cap show_double lg₀ note inc) in
      let m' =
        length-append
          (log_lines cap show_double lg₀ (post_part cap show_double lg₀ note inc)
            ++ access_line cap show_double lg₀ note inc)
          (access_lines cap show_double lg₀ more) in
      let n =
        length-append (wf_lines cap show_double lg₀ (post_part cap show_double lg₀ note inc))
          (refusal_line cap show_double lg₀ note inc) in
      let n' =
        length-append
          (wf_lines cap show_double lg₀ (post_part cap show_double lg₀ note inc)
            ++ refusal_line cap show_double lg₀ note inc)
          (refusal_lines cap show_double lg₀ more) in
      let l = access_line-lt note inc in
      let r = refusal_line-lt note inc in
      (omega (arith, x, k, a, m, m', l), omega (arith, y, k, b, n, n', r))
