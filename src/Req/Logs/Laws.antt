-- ===== src/Req/Logs/Laws.antt =====
-- What requests leave in the two log files.
use nd.Base.{
  ℕ, zero, suc, ◌≡◌, refl, ap, ap₂, ◌∙◌, inl, inr, true, false, Bool-cases, Option, some, List, [],
  ◌∷◌, ◌++◌, append-nil, map, length, if◌then◌else◌, codes, ℤ, pos, negsuc, to_int32, arith,
}
use nd.HttpClient.World.{Parts}
use nd.Log.Line.{Call}
use nd.Log.Levels.{debug, notice, warning, Said, log_has, log_call}
use nd.Log.Printf.{Logger}
use nd.Log.Session.Spec.{line_of}
use nd.Log.Session.Room.{
  log_lines, wf_lines, lines_dropped, lines_to_wf, lines_to_log, lines-append,
}
use nd.Req.Post.{copy_post_data, get_post_data}
use nd.Req.Handler.{ReqT, Ctx}
use nd.Req.Serving.{Arrival, AllServable, has_backend, errno_of, http_handler-Handled}
use nd.Req.Dispatch.{Incoming, command_no}
use nd.Req.Dispatch.Refused.{reads_post, len_of}
use nd.Req.Logs.{
  Note, said_at, refusal_text, access_text, post_calls, branch_calls, handler_calls, serve_calls,
}

-- The result of get_post_data does not depend on what the buffer held.
get_post_data_any : (input a b : List ℕ) → (get_post_data input a).0 ≡ (get_post_data input b).0
unfolding get_post_data
get_post_data_any input a b = go (to_int32 (length input))
  where
    go : (n : ℤ) → (copy_post_data n input a).0 ≡ (copy_post_data n input b).0
    go (negsuc n) = refl
    go (pos zero) = refl
    go (pos (suc n)) = ground arith

len_of_any : (k : ℤ) (input a b : List ℕ) → len_of k input a ≡ len_of k input b
len_of_any k input a b = ground (arith, get_post_data_any input a b)

module _ (cap : ℕ) {D : Type 0} (show_double : D → List ℕ) (lg₀ : Logger) where
  -- The message of a request at the end of http_handler, by what came in alone.
  abbrev pub access_said : Note → Incoming → Said
  access_said note inc =
      let k = command_no inc.cmdno in
      said_at note 199 (access_text (errno_of k) k note.cost (len_of k inc.input []))

  abbrev pub access_line : Note → Incoming → List ℕ
  access_line note inc =
      line_of cap show_double lg₀ (log_call show_double notice (access_said note inc))

  -- What get_post_data says of a body that it refuses.
  abbrev pub post_part : Note → Incoming → List (Call show_double)
  post_part note inc =
      if reads_post (command_no inc.cmdno)
      then post_calls show_double note (to_int32 (length inc.input))
      else []

  abbrev pub refusal_line : Note → Incoming → List ℕ
  refusal_line note inc =
      let k = command_no inc.cmdno in
      if has_backend k
      then []
      else line_of cap show_double lg₀
          (log_call show_double warning (said_at note 212 (refusal_text k)))

  abbrev log : List (Call show_double) → List ℕ
  log = log_lines cap show_double lg₀

  abbrev wf : List (Call show_double) → List ℕ
  wf = wf_lines cap show_double lg₀

  module _ (notices : log_has notice lg₀.log_level ≡ true)
      (quiet : log_has debug lg₀.log_level ≡ false) where
    warnings : log_has warning lg₀.log_level ≡ true
    warnings = ground (arith, notices)

    debug_lines :
        (saids : List Said)
        → (log (map (log_call show_double debug) saids) ≡ [])
          × (wf (map (log_call show_double debug) saids) ≡ [])
    unfolding log_lines wf_lines
    debug_lines [] = (refl, refl)
    debug_lines (said ∷ more) =
        let (x, y) = debug_lines more in
        let (e, f) =
          lines_dropped cap show_double lg₀ (log_call show_double debug said)
            (map (log_call show_double debug) more) quiet in
        (e ∙ x, f ∙ y)

    single_notice :
        (said : Said)
        → let c = log_call show_double notice said in
          (log (c ∷ []) ≡ line_of cap show_double lg₀ c) × (wf (c ∷ []) ≡ [])
    unfolding log_lines wf_lines
    single_notice said =
        let c = log_call show_double notice said in
        let (e, f) = lines_to_log cap show_double lg₀ c [] notices refl in
        (e ∙ append-nil (line_of cap show_double lg₀ c), f)

    single_warning :
        (said : Said)
        → let c = log_call show_double warning said in
          (log (c ∷ []) ≡ []) × (wf (c ∷ []) ≡ line_of cap show_double lg₀ c)
    unfolding log_lines wf_lines
    single_warning said =
        let c = log_call show_double warning said in
        let (e, f) = lines_to_wf cap show_double lg₀ c [] warnings refl in
        (e, f ∙ append-nil (line_of cap show_double lg₀ c))

    abbrev backend_part : Note → Incoming → List (Call show_double)
    backend_part note inc =
        if has_backend (command_no inc.cmdno)
        then map (log_call show_double debug) note.backend
        else log_call show_double warning (said_at note 212 (refusal_text (command_no inc.cmdno)))
          ∷ []

    backend_lines :
        (note : Note) (inc : Incoming)
        → (log (backend_part note inc) ≡ []) × (wf (backend_part note inc) ≡ refusal_line note inc)
    backend_lines note inc = elim (Bool-cases (has_backend (command_no inc.cmdno))) [
      | inl b ↦
          let (x, y) = debug_lines note.backend in (ground (arith, b, x), ground (arith, b, y))
      | inr n ↦
          let (x, y) = single_warning (said_at note 212 (refusal_text (command_no inc.cmdno))) in
          (ground (arith, n, x), ground (arith, n, y))
    ]

    branch_lines :
        (note : Note) (inc : Incoming)
        → let calls = branch_calls show_double note inc (command_no inc.cmdno) in
          (log calls ≡ log (post_part note inc))
          × (wf calls ≡ wf (post_part note inc) ++ refusal_line note inc)
    unfolding branch_calls
    branch_lines note inc =
        let (a, b) =
          lines-append cap show_double lg₀ (post_part note inc) (backend_part note inc) in
        let (x, y) = backend_lines note inc in
        (
          a ∙ ap (λ t. log (post_part note inc) ++ t) x ∙ append-nil (log (post_part note inc)),
          b ∙ ap (λ t. wf (post_part note inc) ++ t) y,
        )

    -- One request.
    handler_lines :
        (note : Note) (inc : Incoming) (c : Ctx) (r : ReqT)
        → r.err_no ≡ errno_of (command_no inc.cmdno)
        → r.command_no ≡ command_no inc.cmdno
        → r.readbuf_len ≡ len_of (command_no inc.cmdno) inc.input c.post_data
        → let calls = handler_calls show_double note inc r in
          (log calls ≡ log (post_part note inc) ++ access_line note inc)
          × (wf calls ≡ wf (post_part note inc) ++ refusal_line note inc)
    unfolding handler_calls
    handler_lines note inc c r err command len =
        let branch = branch_calls show_double note inc (command_no inc.cmdno) in
        let access = access_said note inc in
        let l = len ∙ len_of_any (command_no inc.cmdno) inc.input c.post_data [] in
        let first = log_call show_double debug (said_at note 112 (codes "in http_handler")) in
        let rest = branch ++ log_call show_double notice access ∷ [] in
        let e : handler_calls show_double note inc r ≡ first ∷ rest = rw (err, command, l) refl in
        let (a, b) = lines_dropped cap show_double lg₀ first rest quiet in
        let (a', b') =
          lines-append cap show_double lg₀ branch (log_call show_double notice access ∷ []) in
        let (x, y) = branch_lines note inc in
        let (x', y') = single_notice access in
        (
          ap log e ∙ a ∙ a' ∙ ap₂ (λ s t. s ++ t) x x',
          ap wf e ∙ b ∙ b' ∙ ap₂ (λ s t. s ++ t) y y' ∙ append-nil _,
        )

  -- What some requests are to leave in the log and in the .wf file.
  abbrev pub access_lines : List (Arrival × Note) → List ℕ
  access_lines [] = []
  access_lines (((junk, inc), note) ∷ more) =
      (log (post_part note inc) ++ access_line note inc) ++ access_lines more

  abbrev pub refusal_lines : List (Arrival × Note) → List ℕ
  refusal_lines [] = []
  refusal_lines (((junk, inc), note) ∷ more) =
      (wf (post_part note inc) ++ refusal_line note inc) ++ refusal_lines more

-- The requests among some with notes.
abbrev pub arrivals_of : List (Arrival × Note) → List Arrival
arrivals_of = map λ a. a.0

module _ (cap : ℕ) {D : Type 0} (show_double : D → List ℕ) (lg₀ : Logger)
    (notices : log_has notice lg₀.log_level ≡ true) (quiet : log_has debug lg₀.log_level ≡ false)
    (parse : List ℕ → Option Parts) (google baidu : Parts)
    (p : parse (codes "http://www.google.com/") ≡ some google)
    (q : parse (codes "http://www.baidu.com/") ≡ some baidu) where
  -- All requests are served, and the messages are those of `access_lines` and `refusal_lines`.
  pub serve_calls_lem :
      (served : List (Arrival × Note)) (c : Ctx)
      → AllServable parse (arrivals_of served)
      → (calls : List (Call show_double)) × (c' : Ctx) × (serve_calls show_double parse served c
          ≡ some (calls, c'))
        × (log_lines cap show_double lg₀ calls ≡ access_lines cap show_double lg₀ served)
        × (wf_lines cap show_double lg₀ calls ≡ refusal_lines cap show_double lg₀ served)
  unfolding serve_calls log_lines wf_lines
  serve_calls_lem [] c all = ([], c, refl, refl, refl)
  serve_calls_lem (((junk, inc), note) ∷ more) c (happen, (answered, all)) =
      let (r, c₁, e, h) = http_handler-Handled parse google baidu p q junk inc c happen answered in
      let (calls, c', e', x', y') = serve_calls_lem more c₁ all in
      let first = handler_calls show_double note inc r in
      let (x, y) =
        handler_lines cap show_double lg₀ notices quiet note inc c r h.err_no h.command h.len in
      let (a, b) = lines-append cap show_double lg₀ first calls in
      (
        first ++ calls,
        c',
        rw (e, e') refl,
        a ∙ ap₂ (λ s t. s ++ t) x x',
        b ∙ ap₂ (λ s t. s ++ t) y y',
      )
