-- ===== src/Tests/Requests.antt =====
-- Examples on incoming requests.
use nd.Base.{
  ℕ, ◌+◌, ◌*◌, ◌^◌, ◌≡◌, refl, true, false, Option, none, some, List, [], ◌∷◌, codes, pos, negsuc,
  arith, length, take, tabulate, length-tabulate,
}
use nd.HttpClient.World.{Parts}
use nd.HttpClient.Request.{Response}
use nd.HttpClient.Handles.{Answered, plain, nil, cons}
use nd.Req.Post.{errno_illegal_cmdno, get_post_data}
use nd.Req.Post.Bounds.{get_post_data_wraps}
use nd.Req.Handler.{ReqT, Ctx, answer, timer}
use nd.Req.Dispatch.{Incoming, command_no, http_handler}
use nd.Req.Dispatch.Replies.{done_reply, AllHappen}
use nd.Req.Dispatch.Replies
use nd.Req.Dispatch.Faults.{silent, http_handler_faults}
use nd.Req.Dispatch.Handler.{http_handler_refuses, http_handler_search2}
use nd.Req.Dispatch.Refused.{refusal}

abbrev pub backend_parts : Parts
backend_parts = record {
  host = codes "www.google.com";
  port = negsuc 0;
  path = some (codes "/");
  query = none;
}

abbrev pub parse_any : List ℕ → Option Parts
parse_any url = some backend_parts

abbrev pub ok : Response
ok = record { code = 200; location = none }

pub ok-Answered : Answered parse_any (some ok)
ok-Answered = plain ok (λ h. absurd (omega arith))

abbrev pub a_ctx : Ctx
a_ctx = record {
  world = record { next = 7; uris = 3 ∷ []; conns = 4 ∷ []; exited = []; overrun = 0; made = [] };
  next_base = 2;
  bases = 1 ∷ [];
  post_data = [];
}

-- A request with a command number, whose timer fires in front of the backend's response.
abbrev pub with_cmdno : List ℕ → Incoming
with_cmdno cmdno = record {
  cmdno = some cmdno;
  uri = codes "/nd";
  input = codes "a body";
  happenings = timer ∷ answer (some ok) ∷ [];
  responses = some ok ∷ [];
}

pub timer_first : AllHappen parse_any (timer ∷ answer (some ok) ∷ [])
timer_first = Replies.timed (Replies.answered ok-Answered Replies.nil)

http_handler_refuses_example :
    (r : ReqT) × (c' : Ctx) × (http_handler parse_any false (with_cmdno (codes "7")) a_ctx
      ≡ some (r, c'))
    × (r.replies ≡ refusal (pos 7) ∷ [])
    × (r.err_no ≡ errno_illegal_cmdno)
    × (r.command_no ≡ pos 7)
    × (r.readbuf_len ≡ pos 6)
    × (c'.world ≡ a_ctx.world)
    × (c'.bases ≡ 2 ∷ 1 ∷ [])
unfolding command_no get_post_data
http_handler_refuses_example =
    http_handler_refuses parse_any false (with_cmdno (codes "7")) a_ctx refl refl refl

-- The backend cannot be reached.
http_handler_faults_example :
    http_handler parse_any false
      (record (with_cmdno (codes "1")) { happenings = answer none ∷ [] })
      a_ctx
    ≡ none
unfolding command_no
http_handler_faults_example =
    http_handler_faults parse_any false
      (record (with_cmdno (codes "1")) { happenings = answer none ∷ [] }) a_ctx backend_parts none
      [] refl refl refl silent refl

http_handler_search2_example :
    (r : ReqT) × (c' : Ctx) × (http_handler parse_any true (with_cmdno (codes "+2x")) a_ctx
      ≡ some (r, c'))
    × (r.replies ≡ done_reply (codes "search2") ∷ [])
    × (r.timeout ≡ true)
    × (r.err_no ≡ pos 0)
    × (r.command_no ≡ pos 2)
    × (r.readbuf_len ≡ pos 6)
    × (c'.world.uris ≡ 3 ∷ [])
    × (c'.world.conns ≡ 4 ∷ [])
    × (c'.bases ≡ 2 ∷ 1 ∷ [])
unfolding command_no get_post_data
http_handler_search2_example =
    http_handler_search2 parse_any true (with_cmdno (codes "+2x")) a_ctx backend_parts refl refl
      (cons ok-Answered nil)

body_of : ℕ → List ℕ
body_of n = tabulate n (λ i. 7)

length-body_of : (n : ℕ) → length (body_of n) ≡ n
unfolding body_of
length-body_of n = length-tabulate {0} {A = ℕ} n (λ i. 7)

-- Three bytes more than 2^32.
get_post_data_wraps_example :
    get_post_data (body_of (2 ^ 32 * 1 + 3)) [] ≡ (pos 3, take 3 (body_of (2 ^ 32 * 1 + 3)))
get_post_data_wraps_example =
    get_post_data_wraps (body_of (2 ^ 32 * 1 + 3)) [] 3 1 (length-body_of (2 ^ 32 * 1 + 3))
      (omega arith) (omega arith)
